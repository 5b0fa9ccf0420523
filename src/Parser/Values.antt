-- ===== src/Parser/Values.antt =====
-- wings/parser.py: `resolve_value`, and what the updates read of a replacement.
use pywings.Prelude.{
  ℕ, zero, suc, Option, none, some, [], ◌∷◌, ◌++◌, take, Text, lit, text_eq, lower, has_text,
  if◌then◌else◌,
}
use pywings.Prelude.Dict
use pywings.Prelude.Dict.{Dict}
use pywings.Prelude.Patterns.{Match, substitute, spaced, is_key}
use pywings.Json.{Json, str, obj, Fields, end, get_field}
use pywings.Json.Printed.{text_of}
use pywings.Result.{Result, ok, err, attribute_error, ◌>>=◌}
use pywings.Processes.Ports.{get_or}

-- {{config.…}}: the interface is every address, other names stay.
unfoldable pub config_value : Text → Text → Text
unfolding lower has_text
config_value key whole = if has_text (lit "interface") (lower key) then lit "0.0.0.0" else whole

-- {{env.…}}
unfoldable pub env_value : Dict Text → Text → Text → Text
env_value env name whole = elim (Dict.lookup name env) [ none ↦ [] | some v ↦ v ]

-- The port of the allocations, where there is one.
unfoldable pub default_port : Fields → Result (Option Text)
unfolding get_or get_field text_of
default_port conf = elim (get_or (lit "allocations") (obj end) conf) [
  | obj allocations ↦ elim (get_or (lit "default") (obj end) allocations) [
    | obj ports ↦ elim (get_field (lit "port") ports) [
      | none ↦ ok none
      | some v ↦ ok (some (text_of v))
    ]
    | v ↦ ok none
  ]
  | v ↦ err attribute_error
]

unfoldable pub or_whole : Text → Option Text → Text
or_whole whole none = whole
or_whole whole (some v) = v

-- {{NAME}}
unfoldable pub variable_value : Fields → Dict Text → Text → Text → Result Text
unfolding text_eq
variable_value conf env name whole = elim (Dict.lookup name env) [
  | some v ↦ ok v
  | none ↦
      if text_eq name (lit "SERVER_PORT")
      then (do port ← default_port conf; ok (or_whole whole port))
      else ok whole
]

-- re.sub with a replacement that may raise.
unfoldable pub try_substitute :
    (Text → Option Match) → (Text → Text → Result Text) → ℕ → Text → Result Text
try_substitute find put n [] = ok []
try_substitute find put (suc n) (c ∷ s) = try_substitute find put n s
try_substitute find put zero (c ∷ s) = elim (find (c ∷ s)) [
  | some (group, suc n) ↦ do
    v ← put group (take (suc n) (c ∷ s))
    rest ← try_substitute find put n s
    ok (v ++ rest)
  | m ↦ do rest ← try_substitute find put 0 s; ok (c ∷ rest)
]

-- `resolve_value`, of a text
unfoldable pub resolve_value : Fields → Dict Text → Text → Result Text
unfolding spaced is_key
resolve_value conf env s = try_substitute (spaced [] is_key) (variable_value conf env) 0 (
    substitute (spaced (lit "env.") is_key) (env_value env) 0
      (substitute (spaced (lit "config.") is_key) config_value 0 s))

-- What a round of a loop reads: `match` and `if_value` as they are, the new value as a text.
pub record Replacement : Type 0 where
  pub match : Json
  pub if_value : Json
  pub replace_with : Text

unfoldable pub replacement_of : Fields → Dict Text → Json → Result Replacement
unfolding get_or text_of
replacement_of conf env (obj rep) = do
  value ←
      resolve_value conf env
        (text_of (get_or (lit "replace_with") (get_or (lit "value") (str []) rep) rep))
  ok (record {
    match = get_or (lit "match") (str []) rep;
    if_value = get_or (lit "if_value") (str []) rep;
    replace_with = value;
  })
replacement_of conf env v = err attribute_error

-- A value that only a text can be used as.
unfoldable pub text_or_error : Json → Result Text
text_or_error (str s) = ok s
text_or_error v = err attribute_error
