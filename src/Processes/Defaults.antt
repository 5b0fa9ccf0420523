-- ===== src/Processes/Defaults.antt =====
-- What the environment of a server's process holds.
use mathlib.Core.Path.{subst}
use pywings.Prelude.{
  ◌≡◌, refl, false, Option, none, some, [], ◌∷◌, List, All, any, Text, lit, text_eq, text_eq_iff,
  text_eq_refl, false, arith, Option-cases, if◌then◌else◌, inl, inr,
}
use pywings.Prelude.Dict
use pywings.Prelude.Dict.{Dict, lookup-insert, has_key}
use pywings.Json.{Fields}
use pywings.Result.{IfOk, ok, >>=-eq-ok}
use pywings.Processes.Config.{limits_of}
use pywings.Processes.Ports.{publishes}
use pywings.Processes.Environment.{set_default, defaults, configured, invocation_of, environment}

-- a or b, of what two dicts have under a name.
first_of : Option Text → Option Text → Option Text
first_of (some v) w = some v
first_of none w = w

lookup-set_default :
    (k j : Text) (v : Text) (env : Dict Text)
    → Dict.lookup j (set_default k v env)
      ≡ first_of (Dict.lookup j env) (if text_eq k j then some v else none)
unfolding set_default first_of
lookup-set_default k j v env = elim (Option-cases (Dict.lookup k env)) [
  | inl e ↦ ground (arith, text_eq_iff k j, lookup-insert k j v env)
  | inr (w, e) ↦ ground (arith, text_eq_iff k j)
]

-- Some value stands under the name.
abbrev pub Holds : Text → Dict Text → Type 0
Holds k env = (v : Text) × (Dict.lookup k env ≡ some v)

set_default-kept :
    (k v j w : Text) (env : Dict Text)
    → Dict.lookup j env ≡ some w
    → Dict.lookup j (set_default k v env) ≡ some w
unfolding first_of
set_default-kept k v j w env h = rw (lookup-set_default k j v env, h)

set_default-absent :
    (k v j : Text) (env : Dict Text)
    → text_eq k j ≡ false
    → Dict.lookup j env ≡ none
    → Dict.lookup j (set_default k v env) ≡ none
unfolding first_of
set_default-absent k v j env h e = rw (lookup-set_default k j v env, e, h)

pub set_default-Holds : (k v : Text) (env : Dict Text) → Holds k (set_default k v env)
unfolding first_of
set_default-Holds k v env = elim (Option-cases (Dict.lookup k env)) [
  | inl e ↦ (v, rw (lookup-set_default k k v env, e, text_eq_refl k) refl)
  | inr (w, e) ↦ (w, set_default-kept k v k w env e)
]

Holds-set_default : (k v j : Text) (env : Dict Text) → Holds j env → Holds j (set_default k v env)
Holds-set_default k v j env (w, h) = (w, set_default-kept k v j w env h)

-- What `env` holds beside what the configuration sets, `set`: something under each of the names.
pub record IsFilled (names : List Text) (set env : Dict Text) : Type 0 where
  pub kept : (k v : Text) → Dict.lookup k set ≡ some v → Dict.lookup k env ≡ some v
  pub held : All (λ k. Holds k env) names
  pub alone :
      (k : Text)
      → any (text_eq k) names ≡ false
      → Dict.lookup k set ≡ none
      → Dict.lookup k env ≡ none

All-held :
    (k v : Text) (env : Dict Text) (names : List Text)
    → All (λ j. Holds j env) names
    → All (λ j. Holds j (set_default k v env)) names
All-held k v env [] h = tt
All-held k v env (j ∷ names) h = (Holds-set_default k v j env h.0, All-held k v env names h.1)

set_default-IsFilled :
    (k v : Text) (names : List Text) (set env : Dict Text)
    → IsFilled names set env
    → IsFilled (k ∷ names) set (set_default k v env)
set_default-IsFilled k v names set env f = record {
  kept = λ j w h. set_default-kept k v j w env (f.kept j w h);
  held = (set_default-Holds k v env, All-held k v env names f.held);
  alone = λ j a h.
      set_default-absent k v j env (ground (arith, text_eq_iff k j, text_eq_iff j k))
        (f.alone j (ground arith) h);
}

abbrev pub standard : List Text
standard =
    lit "TZ"
    ∷ lit "STARTUP"
    ∷ lit "SERVER_IP"
    ∷ lit "SERVER_MEMORY"
    ∷ lit "SERVER_PORT"
    ∷ lit "SERVER_UUID"
    ∷ []

defaults-IsFilled :
    (uuid port memory startup : Text) (set : Dict Text)
    → IsFilled standard set (defaults uuid port memory startup set)
unfolding defaults
defaults-IsFilled uuid port memory startup set = set_default-IsFilled _ _ _ set _ (
    set_default-IsFilled _ _ _ set _ (
      set_default-IsFilled _ _ _ set _ (
        set_default-IsFilled _ _ _ set _ (
          set_default-IsFilled _ _ _ set _ (
            set_default-IsFilled _ _ [] set set
              (record { kept = λ k v h. h; held = tt; alone = λ k a h. h }))))))

-- Where `_environment` gives the environment of a server: it keeps every variable that the
-- configuration sets with its value, has a value for each of SERVER_UUID, SERVER_PORT, SERVER_MEMORY,
-- SERVER_IP, STARTUP and TZ, and has no other variable.
pub environment-IsFilled :
    (ip_address : Text → Option Text) (conf : Fields) {env : Dict Text}
    → environment ip_address conf ≡ ok env
    → (set : Dict Text) × (configured conf ≡ ok set) × IsFilled standard set env
unfolding environment IfOk
environment-IsFilled ip_address conf h =
    let (set, e, h1) = >>=-eq-ok (configured conf) _ h in
    let (ports, f, h2) = >>=-eq-ok (publishes ip_address conf) _ h1 in
    let (limits, g, h3) = >>=-eq-ok (limits_of conf) _ h2 in
    let (startup, k, h4) = >>=-eq-ok (invocation_of conf) _ h3 in
    (set, e, subst (IfOk (IsFilled standard set)) h4 (defaults-IsFilled _ _ _ _ set))
