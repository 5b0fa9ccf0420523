-- ===== src/Processes/Config.antt =====
-- wings/processes.py: what `ProcessManager` reads out of a server's configuration before a boot,
-- `_limits` and `validate_configuration`.
use pywings.Prelude.{
  Bool, true, false, Option, none, some, Text, lit, is_empty, strip, if◌then◌else◌,
}
use pywings.Json.{
  Json, null, bool, int, neg, str, arr, obj, Fields, end, get_field, set_field, get_or_null, truthy,
}
use pywings.Result.{Result, ok, err, value_error, type_error, attribute_error, ◌>>=◌, ◌>>◌}
use pywings.Numbers.{int_text, float_is_negative, is_negative}

-- (v or {}).get(k): a value that is true and no object has no `get`.
unfoldable pub sub : Json → Text → Result Json
unfolding truthy get_or_null
sub v k =
    if truthy v
    then (elim v [ obj fs ↦ ok (get_or_null k fs) | _ ↦ err attribute_error ])
    else ok null

-- m or n, where `n` is evaluated only if `m` gives a false value.
infixr 6 ◌or◌
abbrev pub ◌or◌ : Result Json → Result Json → Result Json
m or n = m >>= λ v. if truthy v then ok v else n

-- dict(v or {})
unfoldable pub as_dict : Json → Result Fields
unfolding truthy
as_dict v = if truthy v then (elim v [ obj fs ↦ ok fs | _ ↦ err type_error ]) else ok end

-- One round of the loop over `aliases`.
unfoldable pub alias : Json → Text → Text → Fields → Result Fields
unfolding set_field sub
alias build source target limits = elim (get_field target limits) [
  | some v ↦ ok limits
  | none ↦ do v ← sub build source; elim v [ null ↦ ok limits | w ↦ ok (set_field target w limits) ]
]

-- `_limits`
unfoldable pub limits_of : Fields → Result Fields
unfolding as_dict alias
limits_of conf = do
  limits ← as_dict (get_or_null (lit "limits") conf)
  let build = get_or_null (lit "build") conf
  l1 ← alias build (lit "memory_limit") (lit "memory") limits
  l2 ← alias build (lit "disk_space") (lit "disk") l1
  l3 ← alias build (lit "cpu_limit") (lit "cpu") l2
  alias build (lit "io_weight") (lit "io") l3

-- int(v) < 0 of a whole number or of another value that is no float; `none` is the TypeError or the ValueError.
unfoldable pub int_is_negative : Json → Option Bool
unfolding int_text
int_is_negative null = none
int_is_negative (bool b) = some false
int_is_negative (int n) = some false
int_is_negative (neg n) = some true
int_is_negative (str s) = elim (int_text s) [ none ↦ none | some n ↦ some (is_negative n) ]
int_is_negative (arr vs) = none
int_is_negative (obj fs) = none

-- float(v) < 0
unfoldable pub number_is_negative : Json → Option Bool
unfolding float_is_negative
number_is_negative null = none
number_is_negative (bool b) = some false
number_is_negative (int n) = some false
number_is_negative (neg n) = some true
number_is_negative (str s) = float_is_negative s
number_is_negative (arr vs) = none
number_is_negative (obj fs) = none

-- A limit that is absent or None passes, another has to be a number that is not below zero.
unfoldable pub check_value : (Json → Option Bool) → Option Json → Result (Unit {0})
check_value below none = ok tt
check_value below (some null) = ok tt
check_value below (some v) = elim (below v) [
  | some false ↦ ok tt
  | _ ↦ err (value_error (lit "server configuration limit must be non-negative"))
]

unfoldable pub check_limit : (Json → Option Bool) → Text → Fields → Result (Unit {0})
unfolding check_value
check_limit below name limits = check_value below (get_field name limits)

unfoldable pub check_limits : Fields → Result (Unit {0})
check_limits limits = do
  check_limit int_is_negative (lit "memory") limits
  check_limit int_is_negative (lit "swap") limits
  check_limit int_is_negative (lit "disk") limits
  check_limit int_is_negative (lit "io") limits
  check_limit number_is_negative (lit "cpu") limits

-- The first true value among the places where an image may stand.
unfoldable pub image_value : Fields → Result Json
unfolding sub
image_value conf =
    sub (get_or_null (lit "container") conf) (lit "image")
    or ok (get_or_null (lit "image") conf)
    or ok (get_or_null (lit "container_image") conf)
    or (do c ← sub (get_or_null (lit "settings") conf) (lit "container"); sub c (lit "image"))
    or sub (get_or_null (lit "settings") conf) (lit "image")
    or sub (get_or_null (lit "installation") conf) (lit "container_image")

unfoldable pub image_text : Json → Result Text
image_text (str s) =
    if is_empty (strip s)
    then err (value_error (lit "server configuration is missing container.image"))
    else ok (strip s)
image_text v = err (value_error (lit "server configuration is missing container.image"))

unfoldable pub validate_configuration : Json → Result Text
unfolding image_value image_text limits_of check_limits check_limit
validate_configuration (obj conf) = do
  v ← image_value conf
  image ← image_text v
  limits ← limits_of conf
  check_limits limits
  ok (strip image)
validate_configuration v = err (value_error (lit "server configuration must be an object"))
