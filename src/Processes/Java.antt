-- ===== src/Processes/Java.antt =====
-- The search path of the images with Java.
use mathlib.Core.Path.{subst}
use pywings.Prelude.{
  ℕ, ◌≡◌, refl, ap, ◌∙◌, true, false, ◌++◌, none, some, [], ◌∷◌, Text, lit, text_eq, text_eq_refl,
  has_char, is_empty, split, arith, Option-cases, Bool-cases, inl, inr,
}
use pywings.Prelude.Splits.{split-append}
use pywings.Prelude.Dict
use pywings.Prelude.Dict.{Dict, lookup-insert, lookup-insert_self}
use pywings.Processes.Defaults.{Holds, set_default-Holds}
use pywings.Processes.Environment.{
  set_default, apply_java_environment, set_java_path, with_java, is_listed, variable_or_empty,
  is_java_image, standard_paths, java_bin_of,
}

listed-append :
    (bin rest : Text)
    → has_char b':' bin ≡ false
    → is_listed bin (split b':' (bin ++ (b':' ∷ rest))) ≡ true
unfolding is_listed
listed-append bin rest h = rw (split-append b':' bin rest h) (ground (arith, text_eq_refl bin))

is_empty-append : (s : Text) (c : ℕ) (t : Text) → is_empty (s ++ (c ∷ t)) ≡ false
is_empty-append [] c t = refl
is_empty-append (d ∷ s) c t = refl

extended :
    (bin rest : Text) → has_char b':' bin ≡ false → with_java bin (bin ++ (b':' ∷ rest)) ≡ none
unfolding with_java
extended bin rest h = rw (is_empty-append bin b':' rest, listed-append bin rest h) refl

-- A path that has the directory needs no change.
unfoldable HasJava : Text → Text → Type 0
HasJava bin path = (with_java bin path ≡ none) × (is_listed bin (split b':' path) ≡ true)

extended-HasJava :
    (bin rest : Text) → has_char b':' bin ≡ false → HasJava bin (bin ++ (b':' ∷ rest))
unfolding HasJava
extended-HasJava bin rest h = (extended bin rest h, listed-append bin rest h)

with_java-HasJava :
    (bin current : Text) {path : Text}
    → has_char b':' bin ≡ false
    → with_java bin current ≡ some path
    → HasJava bin path
unfolding with_java HasJava
with_java-HasJava bin current h e = elim (Bool-cases (is_empty current)) [
  | inl k ↦ subst (HasJava bin) (ground arith) (extended-HasJava bin standard_paths h)
  | inr k ↦ subst (HasJava bin) (ground arith) (extended-HasJava bin current h)
]

unchanged-HasJava : (bin current : Text) → with_java bin current ≡ none → HasJava bin current
unfolding with_java HasJava
unchanged-HasJava bin current h = (h, ground arith)

abbrev path_of : Dict Text → Text
path_of env = variable_or_empty (lit "PATH") env

variable-insert_self :
    (k v : Text) (env : Dict Text) → variable_or_empty k (Dict.insert k v env) ≡ v
unfolding variable_or_empty
variable-insert_self k v env = rw (lookup-insert_self k v env, variable_or_empty) refl

java_bin-insert :
    (path : Text) (env : Dict Text)
    → java_bin_of (Dict.insert (lit "PATH") path env) ≡ java_bin_of env
unfolding variable_or_empty text_eq
java_bin-insert path env =
    ap (λ v. v ++ lit "/bin")
      (rw (lookup-insert (lit "PATH") (lit "JAVA_HOME") path env, variable_or_empty) refl)

-- A search path with the directory of Java in it.
pub record FindsJava (env : Dict Text) : Type 0 where
  pub settled : with_java (java_bin_of env) (path_of env) ≡ none
  pub listed : is_listed (java_bin_of env) (split b':' (path_of env)) ≡ true

set_java_path-FindsJava :
    (env : Dict Text) → has_char b':' (java_bin_of env) ≡ false → FindsJava (set_java_path env)
unfolding set_java_path HasJava
set_java_path-FindsJava env h = elim (Option-cases (with_java (java_bin_of env) (path_of env))) [
  | inl e ↦ rw (e, set_java_path) (record { settled = e; listed = (unchanged-HasJava _ _ e).1 })
  | inr (path, e) ↦
      let known = with_java-HasJava (java_bin_of env) (path_of env) h e in
      let here = variable-insert_self (lit "PATH") path env in
      rw (e, set_java_path)
        (record {
          settled = rw (java_bin-insert path env, here) known.0;
          listed = rw (java_bin-insert path env, here) known.1;
        })
]

set_java_path_settled : (env : Dict Text) → FindsJava env → set_java_path env ≡ env
unfolding set_java_path
set_java_path_settled env f = rw (f.settled, set_java_path) refl

set_default_held : (k v : Text) (env : Dict Text) → Holds k env → set_default k v env ≡ env
unfolding set_default
set_default_held k v env (w, h) = rw (h, set_default) refl

set_java_path-Holds :
    (env : Dict Text) → Holds (lit "JAVA_HOME") env → Holds (lit "JAVA_HOME") (set_java_path env)
unfolding set_java_path text_eq
set_java_path-Holds env h = elim (Option-cases (with_java (java_bin_of env) (path_of env))) [
  | inl e ↦ rw (e, set_java_path) h
  | inr (path, e) ↦
      rw (e, set_java_path) (h.0, lookup-insert (lit "PATH") (lit "JAVA_HOME") path env ∙ h.1)
]

abbrev pub java_home : Dict Text → Dict Text
java_home env = set_default (lit "JAVA_HOME") (lit "/opt/java/openjdk") env

-- In the environment of an image with Java, where the directory of Java has no colon in its name: the
-- search path has the directory `bin` of JAVA_HOME between its colons, and to apply the function again
-- changes nothing.
pub apply_java_environment-settles :
    (image : Text) (env : Dict Text)
    → is_java_image image ≡ true
    → has_char b':' (java_bin_of (java_home env)) ≡ false
    → let env' = apply_java_environment image env in
      (is_listed (java_bin_of env') (split b':' (variable_or_empty (lit "PATH") env')) ≡ true)
      × (apply_java_environment image env' ≡ env')
unfolding apply_java_environment
apply_java_environment-settles image env h k =
    let found = set_java_path-FindsJava (java_home env) k in
    let held =
      set_java_path-Holds (java_home env)
        (set_default-Holds (lit "JAVA_HOME") (lit "/opt/java/openjdk") env) in
    rw h (
      found.listed,
      ap set_java_path (set_default_held (lit "JAVA_HOME") (lit "/opt/java/openjdk") _ held)
          ∙ set_java_path_settled (set_java_path (java_home env)) found,
    )
