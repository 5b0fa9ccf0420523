-- ===== src/Oci/Auth.antt =====
-- wings/oci/auth.py: `RegistryAuthManager`, the headers that authorize a request to a registry.
use pywings.Prelude.{
  ℕ, ◌+◌, ◌==◌, Bool, not, ◌&&◌, ◌||◌, Option, none, some, List, [], ◌∷◌, ◌++◌, ltb, leb, Text, lit,
  text_eq, is_empty, lower, strip, split_once, if◌then◌else◌,
}
use pywings.Prelude.Dict
use pywings.Prelude.Dict.{Dict}

-- \w, on ASCII
unfoldable pub is_word : ℕ → Bool
is_word c =
    (leb b'0' c && leb c b'9')
    || ((leb b'A' c && leb c b'Z') || ((leb b'a' c && leb c b'z') || c == b'_'))

-- Where `CHALLENGE_RE` stands in a text: at a word, behind its equals sign, or in the quotes.
pub data Scan : Type 0 where
  word : Text → Scan
  equals : Text → Scan
  quoted : Text → Text → Scan

-- One character: the next state, and a match that it ends.
unfoldable pub advance : Scan → ℕ → Scan × Option (Text × Text)
unfolding is_word
advance (word run) c =
    if is_word c
    then (word (run ++ (c ∷ [])), none)
    else if c == b'=' && not (is_empty run)
    then (equals run, none)
    else (word [], none)
advance (equals run) c =
    if c == b'"'
    then (quoted run [], none)
    else if is_word c
    then (word (c ∷ []), none)
    else (word [], none)
advance (quoted run value) c =
    if c == b'"' then (word [], some (run, value)) else (quoted run (value ++ (c ∷ [])), none)

-- CHALLENGE_RE.finditer, into the dict of the parameters.
unfoldable pub scan : Scan → Text → Dict Text → Dict Text
scan state [] params = params
scan state (c ∷ s) params =
    let (next, found) = advance state c in
    scan next s (elim found [ none ↦ params | some (key, value) ↦ Dict.insert key value params ])

-- `parse_challenge`
unfoldable pub parse_challenge : Text → Text × Dict Text
parse_challenge [] = ([], [])
parse_challenge (c ∷ s) = elim (split_once b' ' (strip (c ∷ s))) [
  | none ↦ (strip (c ∷ s), [])
  | some (auth_type, rest) ↦ (auth_type, scan (word []) rest [])
]

-- `BearerToken`, with the time in seconds.
pub record BearerToken : Type 0 where
  pub token : Text
  pub expires_at : ℕ

-- The key of the cache: registry, repository and scope.
pub record Key : Type 0 where
  pub registry : Text
  pub repository : Text
  pub scope : Text

unfoldable pub key_eq : Key → Key → Bool
key_eq a b =
    text_eq a.registry b.registry && (text_eq a.repository b.repository && text_eq a.scope b.scope)

abbrev pub Credentials : Type 0
Credentials = Text × Text

pub record Auth : Type 0 where
  pub credentials : Dict Credentials
  pub tokens : List (Key × BearerToken)

-- _token_cache.get
unfoldable pub cached : Key → List (Key × BearerToken) → Option BearerToken
cached k [] = none
cached k ((j, t) ∷ ts) = let rest = cached k ts in if key_eq k j then some t else rest

-- The value of the header, where there is one.
pub data Header : Type 0 where
  nothing : Header
  basic : Credentials → Header
  bearer : Text → Header

-- `set_credential`
unfoldable pub set_credential : Text → Text → Text → Auth → Auth
set_credential registry username password m = record m {
  credentials = Dict.insert (lower registry) (username, password) m.credentials;
}

unfoldable pub basic_header : Option Credentials → Header
basic_header none = nothing
basic_header (some creds) = basic creds

abbrev pub key_of : Text → Text → Text → Key
key_of registry repository scope = record {
  registry = lower registry;
  repository = repository;
  scope = lit "repository:" ++ (repository ++ (lit ":" ++ scope));
}

-- params.get(k, v)
abbrev pub param : Text → Text → Dict Text → Text
param k v params = elim (Dict.lookup k params) [ none ↦ v | some w ↦ w ]

-- `fetch` is `_fetch_bearer_token`, from the realm, the service, the scope and the credentials.
module _ (fetch : Text → Text → Text → Option Credentials → Option Text) where
  -- What a token that was fetched does; an empty text is none.
  unfoldable pub keep_token : Key → ℕ → Option Text → Auth → Header × Auth
  keep_token k now none m = (nothing, m)
  keep_token k now (some []) m = (nothing, m)
  keep_token k now (some (c ∷ s)) m = (
    bearer (c ∷ s),
    record m { tokens = (k, record { token = c ∷ s; expires_at = now + 300 }) ∷ m.tokens },
  )

  unfoldable pub answer_bearer : Key → ℕ → Dict Text → Auth → Header × Auth
  answer_bearer k now params m =
      if is_empty (param (lit "realm") [] params)
      then (nothing, m)
      else keep_token k now
          (fetch (param (lit "realm") [] params) (param (lit "service") [] params)
            (param (lit "scope") k.scope params) (Dict.lookup k.registry m.credentials))
          m

  unfoldable pub answer_challenge : Key → ℕ → Text × Dict Text → Auth → Header × Auth
  answer_challenge k now (auth_type, params) m =
      if text_eq (lower auth_type) (lit "basic")
      then (basic_header (Dict.lookup k.registry m.credentials), m)
      else if text_eq (lower auth_type) (lit "bearer")
      then answer_bearer k now params m
      else (nothing, m)

  -- Where no token is in the cache; an empty challenge is none.
  unfoldable pub header_without_token : Key → ℕ → Text → Auth → Header × Auth
  header_without_token k now [] m = (basic_header (Dict.lookup k.registry m.credentials), m)
  header_without_token k now (c ∷ s) m = answer_challenge k now (parse_challenge (c ∷ s)) m

  -- `get_auth_header`
  unfoldable pub header_for : Key → ℕ → Text → Auth → Header × Auth
  header_for k now challenge m = elim (cached k m.tokens) [
    | none ↦ header_without_token k now challenge m
    | some t ↦
        if ltb (now + 60) t.expires_at
        then (bearer t.token, m)
        else header_without_token k now challenge m
  ]

  unfoldable pub get_auth_header : Text → Text → Text → Text → ℕ → Auth → Header × Auth
  get_auth_header registry repository challenge scope now m =
      header_for (key_of registry repository scope) now challenge m
