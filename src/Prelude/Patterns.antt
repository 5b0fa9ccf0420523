-- ===== src/Prelude/Patterns.antt =====
-- Placeholders between double braces, as the program's regular expressions find them, and `re.sub`.
use Prim.Native.Nat.{ℕ, zero, suc, ◌-◌}
use mathlib.Core.Bool.{Bool, ◌&&◌, ◌||◌}
use mathlib.Core.Option.{Option, none, some}
use mathlib.Core.List.{[], ◌∷◌, ◌++◌}
use pywings.Prelude.Lists.{length, take}
use pywings.Prelude.Tests.{if◌then◌else◌, leb, ◌==◌}
use pywings.Prelude.Texts.{Text, lit, is_space}

-- The longest run of characters that pass the test, and what follows it.
unfoldable pub run : (ℕ → Bool) → Text → Text × Text
run ok [] = ([], [])
run ok (c ∷ s) = let (w, rest) = run ok s in if ok c then (c ∷ w, rest) else ([], c ∷ s)

-- A match at the front of a text: its first group and its length.
abbrev pub Match : Type 0
Match = Text × ℕ

-- re.sub(pattern, put, s): `find` is the pattern at the front of a text, and `skip` counts what is
-- left of a match that was replaced. No match is empty.
unfoldable pub substitute : (Text → Option Match) → (Text → Text → Text) → ℕ → Text → Text
substitute find put n [] = []
substitute find put (suc n) (c ∷ s) = substitute find put n s
substitute find put zero (c ∷ s) = elim (find (c ∷ s)) [
  | none ↦ c ∷ substitute find put 0 s
  | some (group, zero) ↦ c ∷ substitute find put 0 s
  | some (group, suc n) ↦ put group (take (suc n) (c ∷ s)) ++ substitute find put n s
]

-- What follows a prefix.
unfoldable pub after : Text → Text → Option Text
after [] s = some s
after (p ∷ ps) [] = none
after (p ∷ ps) (c ∷ s) = let rest = after ps s in if p == c then rest else none

-- \s?
unfoldable pub skip_space : Text → Text
unfolding is_space
skip_space [] = []
skip_space (c ∷ s) = if is_space c then s else c ∷ s

-- The end of a placeholder in the text `s`, behind a name and what follows it.
unfoldable pub closed : Text → Text → Text → Option Match
closed s [] rest = none
closed s (c ∷ name) rest = elim (after (lit "}}") rest) [
  | none ↦ none
  | some end ↦ some (c ∷ name, length s - length end)
]

-- {{\s?…([…]+)\s?}}, with a prefix before the name; no class holds a space or a brace.
unfoldable pub spaced : Text → (ℕ → Bool) → Text → Option Match
unfolding after skip_space run closed
spaced prefix allowed s = elim (after (lit "{{") s) [
  | none ↦ none
  | some inner ↦ elim (after prefix (skip_space inner)) [
    | none ↦ none
    | some behind ↦ let (name, rest) = run allowed behind in closed s name (skip_space rest)
  ]
]

unfoldable pub is_letter : ℕ → Bool
is_letter c = leb b'a' c && leb c b'z' || leb b'A' c && leb c b'Z'

-- \w, on ASCII
unfoldable pub is_word : ℕ → Bool
unfolding is_letter
is_word c = is_letter c || leb b'0' c && leb c b'9' || c == b'_'

-- A name that does not begin with a digit.
unfoldable pub closed_name : Text → Text → Text → Option Match
unfolding is_letter
closed_name s [] rest = none
closed_name s (c ∷ name) rest = if is_letter c || c == b'_' then closed s (c ∷ name) rest else none

-- \{\{([A-Za-z_][A-Za-z0-9_]*)\}\}
unfoldable pub variable : Text → Option Match
unfolding after is_word run closed_name closed
variable s = elim (after (lit "{{") s) [
  | none ↦ none
  | some inner ↦ let (name, rest) = run is_word inner in closed_name s name rest
]

-- [\w.-], on ASCII
unfoldable pub is_key : ℕ → Bool
unfolding is_word
is_key c = is_word c || c == b'.' || c == b'-'

-- s.replace(old, new) of a text `old` that is not empty.
unfoldable pub replace_all : Text → Text → ℕ → Text → Text
unfolding after
replace_all old new n [] = []
replace_all old new (suc n) (c ∷ s) = replace_all old new n s
replace_all old new zero (c ∷ s) = elim (after old (c ∷ s)) [
  | none ↦ c ∷ replace_all old new 0 s
  | some rest ↦ new ++ replace_all old new (length old - 1) s
]
