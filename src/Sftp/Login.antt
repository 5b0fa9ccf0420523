-- ===== src/Sftp/Login.antt =====
-- wings/sftp.py: the login, `check_auth_password`, and the session that `_handle_client` makes of it.
use pywings.Prelude.{
  ◌≡◌, refl, ap, sym, ◌∙◌, arith, Bool-cases, Option-cases, inl, inr, Bool, true, false, not, ◌&&◌,
  ◌||◌, Option, none, some, List, [], ◌∷◌, length, Text, lit, is_empty, has_char, split_last, leb,
  ◌==◌, if◌then◌else◌,
}
use mathlib.Core.List.{reverse}
use pywings.Json.{Json, str, arr, obj, Items, nil, cons, Fields, get_field, get_or_null}
use pywings.Prelude.Patterns.{is_letter}
use pywings.Servers
use pywings.Servers.{Store, Server}
use pywings.Sftp.Sessions.{Session}

all_alphanumeric : Text → Bool
unfolding is_letter
all_alphanumeric [] = true
all_alphanumeric (c ∷ s) = (is_letter c || leb b'0' c && leb c b'9') && all_alphanumeric s

-- The text without one line end at its end, where `$` matches too.
unfoldable pub without_line_end : Text → Text
without_line_end s = elim (reverse s) [ [] ↦ s | c ∷ rest ↦ if c == 10 then reverse rest else s ]

-- ^(.+)\.([a-z0-9]{8})$, in either case
unfoldable pub is_valid_username : Text → Bool
unfolding all_alphanumeric
is_valid_username username = elim (split_last b'.' (without_line_end username)) [
  | none ↦ false
  | some (user, server) ↦
      not (is_empty user) && not (has_char 10 user) && all_alphanumeric server && length server == 8
]

-- The information of the Panel, where the server that it names is there.
unfoldable pub if_present : Store → Fields → Json → Option Fields
if_present store info (str uuid) =
    if is_empty uuid
    then none
    else elim (Servers.get store uuid) [ none ↦ none | some r ↦ some info ]
if_present store info v = none

unfoldable pub known_server : Store → Json → Option Fields
known_server store (obj info) = if_present store info (get_or_null (lit "server") info)
known_server store v = none

-- `check_auth_password`: the answer of the Panel is given, an error of it is none; some information is
-- AUTH_SUCCESSFUL, with `auth_data`. A "server" that is no text is in no registry.
unfoldable pub check_auth_password :
    (Text → Text → Option Json) → Store → Text → Text → Option Fields
check_auth_password panel store username password =
    if is_valid_username username
    then elim (panel username password) [ none ↦ none | some v ↦ known_server store v ]
    else none

abbrev pub text_option : Json → Option Text
text_option (str s) = some s
text_option v = none

-- set(permissions), of the texts; other values are equal to no permission.
unfoldable pub texts_of : Items → List Text
texts_of nil = []
texts_of (cons (str s) vs) = s ∷ texts_of vs
texts_of (cons v vs) = texts_of vs

abbrev pub permissions_of : Option Json → List Text
permissions_of (some (arr vs)) = texts_of vs
permissions_of v = []

-- The interface of `_handle_client`, where the permissions of the login are a list.
unfoldable pub session_of : Text → Fields → Session
session_of client_ip info = record {
  permissions = permissions_of (get_field (lit "permissions") info);
  server = text_option (get_or_null (lit "server") info);
  user = text_option (get_or_null (lit "user") info);
  client_ip = client_ip;
}

if_present-present :
    (store : Store) (info : Fields) (v : Json) {out : Fields}
    → if_present store info v ≡ some out
    → (info ≡ out)
      × ((uuid : Text) × (r : Server) × (v ≡ str uuid) × (Servers.get store uuid ≡ some r))
unfolding if_present
if_present-present store info (str uuid) h = elim (Option-cases (Servers.get store uuid)) [
  | inl e ↦ ground (arith, h, e)
  | inr (r, e) ↦ (ground (arith, h, e), (uuid, r, refl, e))
]
if_present-present store info _ h = cc

known_server-present :
    (store : Store) (v : Json) {info : Fields}
    → known_server store v ≡ some info
    → (v ≡ obj info)
      × ((uuid : Text) × (r : Server) × (get_or_null (lit "server") info ≡ str uuid)
          × (Servers.get store uuid ≡ some r))
unfolding known_server
known_server-present store (obj info) h =
    let (same, (uuid, r, e, f)) =
      if_present-present store info (get_or_null (lit "server") info) h in
    (ap obj same, (uuid, r, ap (get_or_null (lit "server")) (sym same) ∙ e, f))
known_server-present store _ h = cc

-- Where a login succeeds, the name of the user has the form of a name, a dot and eight letters or
-- digits, what the Panel answered to this name and password is the very information that the login
-- gives, and the server that it names is in the registry.
pub check_auth_password-present :
    (panel : Text → Text → Option Json) (store : Store) (username password : Text) {info : Fields}
    → check_auth_password panel store username password ≡ some info
    → (is_valid_username username ≡ true)
      × (panel username password ≡ some (obj info))
      × ((uuid : Text) × (r : Server) × (get_or_null (lit "server") info ≡ str uuid)
          × (Servers.get store uuid ≡ some r))
unfolding check_auth_password
check_auth_password-present panel store username password h =
    elim (Bool-cases (is_valid_username username)) [
      | inr e ↦ ground (arith, e)
      | inl e ↦ elim (Option-cases (panel username password)) [
        | inl f ↦ ground (arith, e, f)
        | inr (v, f) ↦
            let (given, present) = known_server-present store v (ground (arith, e, f)) in
            (e, f ∙ ap some given, present)
      ]
    ]
