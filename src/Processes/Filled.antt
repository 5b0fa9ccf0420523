-- ===== src/Processes/Filled.antt =====
-- The variables that `_startup` fills into a command.
use pywings.Prelude.{
  ℕ, suc, ◌+◌, ◌≡◌, refl, ap, sym, ◌∙◌, true, false, ◌||◌, ◌++◌, Option, none, some, [], ◌∷◌, Text,
  has_char, ◌==◌, Bool, ◌&&◌, take, length, length-append, arith,
}
use mathlib.Core.List.{append_assoc}
use pywings.Prelude.Dict
use pywings.Prelude.Dict.{Dict}
use pywings.Prelude.Patterns.{
  Match, substitute, variable, run, after, closed, closed_name, is_word, is_letter,
}
use pywings.Processes.Launch.{fill_in, value_or_match}

variable-braceless : (c : ℕ) (s : Text) → (b'{' == c) ≡ false → variable (c ∷ s) ≡ none
unfolding variable after
variable-braceless c s h = ground arith

module _ (find : Text → Option Match) (put : Text → Text → Text) (c : ℕ) (s : Text) where
  substitute-miss :
      find (c ∷ s) ≡ none → substitute find put 0 (c ∷ s) ≡ c ∷ substitute find put 0 s
  unfolding substitute
  substitute-miss h = rw (h, substitute) refl

  substitute-hit :
      (group : Text) (n : ℕ)
      → find (c ∷ s) ≡ some (group, suc n)
      → substitute find put 0 (c ∷ s) ≡ put group (take (suc n) (c ∷ s)) ++ substitute find put n s
  unfolding substitute
  substitute-hit group n h = rw (h, substitute) refl

-- What stands before the first opening brace stays as it is.
fill_in-braceless :
    (env : Dict Text) (a s : Text)
    → has_char b'{' a ≡ false
    → fill_in env (a ++ s) ≡ a ++ fill_in env s
unfolding fill_in has_char
fill_in-braceless env [] s h = refl
fill_in-braceless env (c ∷ a) s h =
    substitute-miss variable (value_or_match env) c (a ++ s)
      (variable-braceless c (a ++ s) (ground arith))
    ∙ ap (λ t. c ∷ t) (fill_in-braceless env a s (ground arith))

all_word : Text → Bool
all_word [] = true
all_word (c ∷ s) = is_word c && all_word s

-- A name as the placeholders have it.
unfoldable pub is_name : Text → Bool
unfolding all_word is_letter
is_name [] = false
is_name (c ∷ s) = (is_letter c || c == b'_') && all_word s

-- A name between double braces, and a text behind them.
abbrev pub placed : Text → Text → Text
placed name s = b'{' ∷ b'{' ∷ (name ++ (b'}' ∷ b'}' ∷ s))

run-word :
    (name s : Text) → all_word name ≡ true → run is_word (name ++ (b'}' ∷ s)) ≡ (name, b'}' ∷ s)
unfolding run all_word is_word is_letter
run-word [] s h = refl
run-word (c ∷ name) s h = ground (arith, run-word name s)

is_name-parts :
    (c : ℕ) (name : Text)
    → is_name (c ∷ name) ≡ true
    → ((is_letter c || c == b'_') ≡ true) × (is_word c ≡ true) × (all_word name ≡ true)
unfolding is_name is_word
is_name-parts c name h = ground arith

variable-placed :
    (name s : Text) → is_name name ≡ true → variable (placed name s) ≡ some (name, length name + 4)
unfolding variable after closed_name closed
variable-placed [] s h = unfold is_name in cc
variable-placed (c ∷ name) s h =
    let (front, word, rest) = is_name-parts c name h in
    rw (run-word name (b'}' ∷ s) rest, word, front)
      (ap (λ n. some (c ∷ name, n)) (omega (arith, length-append name (b'}' ∷ b'}' ∷ s))))

substitute-skip :
    (find : Text → Option Match) (put : Text → Text → Text) (a s : Text)
    → substitute find put (length a) (a ++ s) ≡ substitute find put 0 s
unfolding substitute
substitute-skip find put [] s = refl
substitute-skip find put (c ∷ a) s = substitute-skip find put a s

take-append : (a s : Text) → take (length a) (a ++ s) ≡ a
take-append [] s = refl
take-append (c ∷ a) s = ap (λ t. c ∷ t) (take-append a s)

-- What is left of a placeholder behind its first brace is passed over.
module _ (name s : Text) where
  unfoldable behind : Text
  behind = b'{' ∷ (name ++ (b'}' ∷ b'}' ∷ []))

  length-behind : length name + 3 ≡ length behind
  unfolding behind
  length-behind = omega (arith, length-append name (b'}' ∷ b'}' ∷ []))

  behind-append : b'{' ∷ (name ++ (b'}' ∷ b'}' ∷ s)) ≡ behind ++ s
  unfolding behind
  behind-append = ap (λ t. b'{' ∷ t) (sym (append_assoc name (b'}' ∷ b'}' ∷ []) s))

  skip-placed :
      (env : Dict Text)
      → substitute variable
          (value_or_match env)
          (length name + 3)
          (b'{' ∷ (name ++ (b'}' ∷ b'}' ∷ s)))
        ≡ fill_in env s
  unfolding fill_in
  skip-placed env =
      rw (length-behind, behind-append) (substitute-skip variable (value_or_match env) behind s)

  take-placed : take (length name + 3) (b'{' ∷ (name ++ (b'}' ∷ b'}' ∷ s))) ≡ behind
  take-placed = rw (length-behind, behind-append) (take-append behind s)

filled-placed :
    (env : Dict Text) (name s : Text)
    → is_name name ≡ true
    → fill_in env (placed name s) ≡ value_or_match env name (placed name []) ++ fill_in env s
unfolding fill_in behind
filled-placed env name s h =
    let found : variable (placed name s) ≡ some (name, suc (length name + 3)) =
      variable-placed name s h ∙ ap (λ n. some (name, n)) (omega arith) in
    substitute-hit variable (value_or_match env) b'{' _ name (length name + 3) found
    ∙ ap
        (λ t.
          value_or_match env name (b'{' ∷ t)
          ++ substitute variable (value_or_match env) (length name + 3)
              (b'{' ∷ (name ++ (b'}' ∷ b'}' ∷ s))))
        (take-placed name s)
    ∙ ap (λ t. value_or_match env name (b'{' ∷ behind name s) ++ t) (skip-placed name s env)

-- A command that is filled in: what stands before the first opening brace stays as it is, a name
-- between double braces that the environment has gives way to its value, one that the environment
-- lacks stays with its braces, and what follows is filled in the same way.
pub fill_in-placed :
    (env : Dict Text) (a name s : Text)
    → has_char b'{' a ≡ false
    → is_name name ≡ true
    → fill_in env (a ++ placed name s)
      ≡ a ++ ((elim (Dict.lookup name env) [ none ↦ placed name [] | some v ↦ v ]) ++ fill_in env s)
unfolding value_or_match
fill_in-placed env a name s h k =
    fill_in-braceless env a (placed name s) h ∙ ap (λ t. a ++ t) (filled-placed env name s k)
