-- ===== src/Prelude/Texts.antt =====
-- Texts as lists of code points, with the methods of `str` that the program calls.
use Prim.Native.Char.{code}
use Prim.Native.String.{String}
use Prim.Native.Nat.{ℕ, ◌+◌}
use mathlib.Core.Path.{◌≡◌, refl}
use mathlib.Core.Logic.{◌↔◌}
use mathlib.Core.Bool.{Bool, true, false, ◌&&◌, ◌||◌}
use mathlib.Core.Option.{Option, none, some}
use mathlib.Core.List.{List, [], ◌∷◌, ◌++◌, reverse}
use native.Mathlib.Omega.{arith}
use pywings.Prelude.Tests.{◌==◌, if◌then◌else◌, leb}

abbrev pub Text : Type 0
Text = List ℕ

-- A literal.
abbrev pub lit : String → Text
lit String.[] = []
lit (String.◌∷◌ c s) = code c ∷ lit s

-- a == b
unfoldable pub text_eq : Text → Text → Bool
text_eq [] [] = true
text_eq [] (b ∷ bs) = false
text_eq (a ∷ as') [] = false
text_eq (a ∷ as') (b ∷ bs) = a == b && text_eq as' bs

pub text_eq_iff : (a b : Text) → (text_eq a b ≡ true) ↔ (a ≡ b)
unfolding text_eq
text_eq_iff [] [] = (λ h. refl, λ h. refl)
text_eq_iff [] (b ∷ bs) = ((λ h. cc), (λ h. cc))
text_eq_iff (a ∷ as') [] = ((λ h. cc), (λ h. cc))
text_eq_iff (a ∷ as') (b ∷ bs) = ground (arith, text_eq_iff as' bs)

pub text_eq_refl : (a : Text) → text_eq a a ≡ true
text_eq_refl a = (text_eq_iff a a).1 refl

-- not s
abbrev pub is_empty : Text → Bool
is_empty [] = true
is_empty (c ∷ s) = false

-- c in s, for one character
unfoldable pub has_char : ℕ → Text → Bool
has_char c [] = false
has_char c (d ∷ s) = c == d || has_char c s

-- s.startswith(p)
unfoldable pub starts_with : Text → Text → Bool
starts_with s [] = true
starts_with [] (p ∷ ps) = false
starts_with (c ∷ s) (p ∷ ps) = c == p && starts_with s ps

-- s.lower(), on ASCII
unfoldable pub lower_char : ℕ → ℕ
lower_char c = if leb b'A' c && leb c b'Z' then c + 32 else c

unfoldable pub lower : Text → Text
unfolding lower_char
lower [] = []
lower (c ∷ s) = lower_char c ∷ lower s

-- s.lstrip(chars), where `strip_me` says which characters go
unfoldable pub lstrip : (ℕ → Bool) → Text → Text
lstrip strip_me [] = []
lstrip strip_me (c ∷ s) = let rest = lstrip strip_me s in if strip_me c then rest else c ∷ s

-- White space of `str.strip()`, on ASCII.
unfoldable pub is_space : ℕ → Bool
is_space c = c == 32 || leb 9 c && leb c 13 || leb 28 c && leb c 31

unfoldable pub strip : Text → Text
unfolding lstrip is_space
strip s = reverse (lstrip is_space (reverse (lstrip is_space s)))

-- s.split(c): the pieces between the occurrences of `c`; the first piece and the others.
abbrev pub Pieces : Type 0
Pieces = Text × List Text

abbrev pub push_char : ℕ → Pieces → Pieces
push_char c (w, ws) = (c ∷ w, ws)

unfoldable pub split : ℕ → Text → Pieces
split c [] = ([], [])
split c (d ∷ s) = let (w, ws) = split c s in if c == d then ([], w ∷ ws) else (d ∷ w, ws)

-- c.join(pieces)
unfoldable pub join : ℕ → Text → List Text → Text
join c w [] = w
join c w (v ∷ vs) = w ++ (c ∷ join c v vs)

-- s.split(c, 1), on a text that has `c`: what stands before the first `c` and after it.
unfoldable pub split_once : ℕ → Text → Option (Text × Text)
split_once c [] = none
split_once c (d ∷ s) =
    let rest = split_once c s in
    if c == d then some ([], s) else elim rest [ none ↦ none | some (a, b) ↦ some (d ∷ a, b) ]

-- s.rfind(c), with s[:i] and s[i + 1:] in place of the index.
unfoldable pub split_last : ℕ → Text → Option (Text × Text)
split_last c [] = none
split_last c (d ∷ s) = elim (split_last c s) [
  | some (a, b) ↦ some (d ∷ a, b)
  | none ↦ if c == d then some ([], s) else none
]

-- p in s
unfoldable pub has_text : Text → Text → Bool
unfolding starts_with
has_text p [] = is_empty p
has_text p (c ∷ s) = starts_with (c ∷ s) p || has_text p s

-- s.rstrip(chars)
unfoldable pub rstrip_chars : (ℕ → Bool) → Text → Text
unfolding lstrip
rstrip_chars strip_me s = reverse (lstrip strip_me (reverse s))
