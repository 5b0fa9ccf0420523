-- ===== src/Oci/Authorized.antt =====
-- wings/oci/auth.py: which credentials and which tokens go to which registry.
use pywings.Prelude.{
  ℕ, ◌≡◌, refl, sym, ◌∙◌, ◌+◌, inl, inr, Bool, true, false, Option, none, some, List, [], ◌∷◌, Text,
  text_eq, text_eq_iff, ltb, lower, Bool-cases, and_both, Option-cases, All, if◌then◌else◌,
}
use mathlib.Core.Path.{subst}
use pywings.Prelude.Dict
use pywings.Prelude.Dict.{Dict}
use pywings.Oci.Auth.{
  Key, BearerToken, Auth, Credentials, Header, nothing, basic, bearer, key_eq, key_of, cached,
  basic_header, set_credential, keep_token, answer_bearer, answer_challenge, header_without_token,
  header_for, get_auth_header, parse_challenge,
}

pub data Request : Type 0 where
  store : Text → Text → Text → Request
  ask : Text → Text → Text → Text → ℕ → Request

-- The registry that a request is about, as the keys have it.
unfoldable pub registry_of : Request → Text
registry_of (store registry username password) = lower registry
registry_of (ask registry repository challenge scope now) = lower registry

key_eq-registry : (k j : Key) → key_eq k j ≡ true → k.registry ≡ j.registry
unfolding key_eq
key_eq-registry k j h = (text_eq_iff k.registry j.registry).0 (and_both _ _ h).0

cached_here :
    (k j : Key) (u : BearerToken) (ts : List (Key × BearerToken))
    → key_eq k j ≡ true
    → cached k ((j, u) ∷ ts) ≡ some u
unfolding cached
cached_here k j u ts f = rw (f, cached) refl

cached_later :
    (k j : Key) (u : BearerToken) (ts : List (Key × BearerToken))
    → key_eq k j ≡ false
    → cached k ((j, u) ∷ ts) ≡ cached k ts
unfolding cached
cached_later k j u ts f = rw (f, cached) refl

module _ (fetch : Text → Text → Text → Option Credentials → Option Text) where
  unfoldable pub perform : Request → Auth → Header × Auth
  perform (store registry username password) m =
      (nothing, set_credential registry username password m)
  perform (ask registry repository challenge scope now) m =
      get_auth_header fetch registry repository challenge scope now m

  -- The headers of a run, each with the registry that it goes to.
  unfoldable pub headers : List Request → Auth → List (Text × Header)
  headers [] m = []
  headers (q ∷ qs) m = (registry_of q, (perform q m).0) ∷ headers qs (perform q m).1

  -- `Held` says which credentials belong to which registry.
  module _ (Held : Text → Credentials → Type 0) where
    abbrev pub IsHeld : Text → Option Credentials → Type 0
    IsHeld registry none = Unit
    IsHeld registry (some creds) = Held registry creds

    -- The token was fetched with the registry's own credentials, or with none.
    pub record IsIssued (registry token : Text) : Type 0 where
      pub realm : Text
      pub service : Text
      pub scope : Text
      pub creds : Option Credentials
      pub held : IsHeld registry creds
      pub fetched : fetch realm service scope creds ≡ some token

    pub record IsOwned (m : Auth) : Type 0 where
      pub credentials : (registry : Text) → IsHeld registry (Dict.lookup registry m.credentials)
      pub tokens : All (λ (k, t). IsIssued k.registry t.token) m.tokens

    abbrev pub IsOwn : Text → Header → Type 0
    IsOwn registry nothing = Unit
    IsOwn registry (basic creds) = Held registry creds
    IsOwn registry (bearer token) = IsIssued registry token

    abbrev pub IsGiven : Text → Header × Auth → Type 0
    IsGiven registry r = IsOwn registry r.0 × IsOwned r.1

    -- The credentials that a request brings belong to its registry.
    abbrev pub IsFair : Request → Type 0
    IsFair (store registry username password) = Held (lower registry) (username, password)
    IsFair (ask registry repository challenge scope now) = Unit

    choice-IsGiven :
        (registry : Text) (b : Bool) (x y : Header × Auth)
        → IsGiven registry x
        → IsGiven registry y
        → IsGiven registry (if b then x else y)
    choice-IsGiven registry true x y h k = h
    choice-IsGiven registry false x y h k = k

    basic_header-IsOwn :
        (registry : Text) (o : Option Credentials)
        → IsHeld registry o
        → IsOwn registry (basic_header o)
    unfolding basic_header
    basic_header-IsOwn registry none h = tt
    basic_header-IsOwn registry (some creds) h = h

    keep_token-IsGiven :
        (k : Key) (now : ℕ) (o : Option Text) (m : Auth)
        → IsOwned m
        → ((token : Text) → o ≡ some token → IsIssued k.registry token)
        → IsGiven k.registry (keep_token fetch k now o m)
    unfolding keep_token
    keep_token-IsGiven k now none m h f = (tt, h)
    keep_token-IsGiven k now (some []) m h f = (tt, h)
    keep_token-IsGiven k now (some (c ∷ s)) m h f = (
      f (c ∷ s) refl,
      record { credentials = h.credentials; tokens = (f (c ∷ s) refl, h.tokens) },
    )

    answer_bearer-IsGiven :
        (k : Key) (now : ℕ) (params : Dict Text) (m : Auth)
        → IsOwned m
        → IsGiven k.registry (answer_bearer fetch k now params m)
    unfolding answer_bearer
    answer_bearer-IsGiven k now params m h =
        choice-IsGiven k.registry _ _ _ (tt, h)
          (keep_token-IsGiven k now _ m h λ token e. record {
            realm = _;
            service = _;
            scope = _;
            creds = _;
            held = h.credentials k.registry;
            fetched = e;
          })

    answer_challenge-IsGiven :
        (k : Key) (now : ℕ) (challenge : Text × Dict Text) (m : Auth)
        → IsOwned m
        → IsGiven k.registry (answer_challenge fetch k now challenge m)
    unfolding answer_challenge
    answer_challenge-IsGiven k now (auth_type, params) m h =
        choice-IsGiven k.registry _ _ _
          (basic_header-IsOwn k.registry _ (h.credentials k.registry), h)
          (choice-IsGiven k.registry _ _ _ (answer_bearer-IsGiven k now params m h) (tt, h))

    header_without_token-IsGiven :
        (k : Key) (now : ℕ) (challenge : Text) (m : Auth)
        → IsOwned m
        → IsGiven k.registry (header_without_token fetch k now challenge m)
    unfolding header_without_token
    header_without_token-IsGiven k now [] m h =
        (basic_header-IsOwn k.registry _ (h.credentials k.registry), h)
    header_without_token-IsGiven k now (c ∷ s) m h =
        answer_challenge-IsGiven k now (parse_challenge (c ∷ s)) m h

    cached-IsIssued :
        (k : Key) (ts : List (Key × BearerToken)) (t : BearerToken)
        → All (λ (j, u). IsIssued j.registry u.token) ts
        → cached k ts ≡ some t
        → IsIssued k.registry t.token
    unfolding cached
    cached-IsIssued k [] t h e = cc
    cached-IsIssued k ((j, u) ∷ ts) t (h, hs) e = elim (Bool-cases (key_eq k j)) [
      | inl f ↦
          subst (λ v. IsIssued k.registry v.token) {x = u} {y = t} (cc (e, cached_here k j u ts f))
            (subst (λ r. IsIssued r u.token) (sym (key_eq-registry k j f)) h)
      | inr f ↦ cached-IsIssued k ts t hs (sym (cached_later k j u ts f) ∙ e)
    ]

    header_for-IsGiven :
        (k : Key) (now : ℕ) (challenge : Text) (m : Auth)
        → IsOwned m
        → IsGiven k.registry (header_for fetch k now challenge m)
    unfolding header_for
    header_for-IsGiven k now challenge m h = elim (Option-cases (cached k m.tokens)) [
      | inl e ↦ rw (e, header_for) (header_without_token-IsGiven k now challenge m h)
      | inr (t, e) ↦
          rw (e, header_for)
            (choice-IsGiven k.registry (ltb (now + 60) t.expires_at) (bearer t.token, m) _
              (cached-IsIssued k m.tokens t h.tokens e, h)
              (header_without_token-IsGiven k now challenge m h))
    ]

    set_credential-IsOwned :
        (registry username password : Text) (m : Auth)
        → Held (lower registry) (username, password)
        → IsOwned m
        → IsOwned (set_credential registry username password m)
    unfolding set_credential
    set_credential-IsOwned registry username password m f h = record {
      credentials = λ r.
          subst (IsHeld r)
            (sym (Dict.lookup-insert (lower registry) r (username, password) m.credentials))
            (elim (Bool-cases (text_eq (lower registry) r)) [
              | inl g ↦ rw (g) (
                  subst (λ s. Held s (username, password)) ((text_eq_iff (lower registry) r).0 g) f)
              | inr g ↦ rw (g) (h.credentials r)
            ]);
      tokens = h.tokens;
    }

    perform-IsGiven :
        (q : Request) (m : Auth) → IsFair q → IsOwned m → IsGiven (registry_of q) (perform q m)
    unfolding perform registry_of get_auth_header
    perform-IsGiven (store registry username password) m f h =
        (tt, set_credential-IsOwned registry username password m f h)
    perform-IsGiven (ask registry repository challenge scope now) m f h =
        header_for-IsGiven (key_of registry repository scope) now challenge m h

    -- Where the credentials known at first and those that the requests bring belong to their
    -- registries, every header of a run is empty, has credentials that belong to the registry that it
    -- goes to, or has a token that was fetched with credentials of that registry or with none.
    pub headers-IsOwn :
        (qs : List Request) (m : Auth)
        → All IsFair qs
        → IsOwned m
        → All (λ (registry, header). IsOwn registry header) (headers qs m)
    unfolding headers
    headers-IsOwn [] m f h = tt
    headers-IsOwn (q ∷ qs) m (f, fs) h = (
      (perform-IsGiven q m f h).0,
      headers-IsOwn qs (perform q m).1 fs (perform-IsGiven q m f h).1,
    )
