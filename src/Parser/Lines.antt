-- ===== src/Parser/Lines.antt =====
-- The lines of a text, put together and taken apart again.
use pywings.Prelude.{
  ℕ, zero, suc, ◌≡◌, refl, ap, ◌∙◌, false, Bool, ◌||◌, List, [], ◌∷◌, ◌++◌, All, Text, is_empty,
  arith, Bool-cases, inl, inr,
}
use pywings.Parser.Properties.{
  is_break, begins_pair, line_pieces, without_last, split_lines, join_lines, set_line,
}

-- No end of a line stands in the text.
unfoldable pub has_break : Text → Bool
has_break [] = false
has_break (c ∷ s) = is_break c || has_break s

abbrev pub IsLine : Text → Type 0
IsLine s = has_break s ≡ false

begins_pair-alone : (c : ℕ) (s : Text) → is_break c ≡ false → begins_pair c s ≡ false
unfolding begins_pair is_break
begins_pair-alone c [] h = refl
begins_pair-alone c (d ∷ s) h = ground arith

begins_pair-feed : (s : Text) → begins_pair 10 s ≡ false
unfolding begins_pair
begins_pair-feed [] = refl
begins_pair-feed (d ∷ s) = refl

line_pieces-join :
    (l s : Text)
    → IsLine l
    → line_pieces (l ++ (10 ∷ s)) ≡ (l, (line_pieces s).0 ∷ (line_pieces s).1)
unfolding line_pieces has_break is_break begins_pair
line_pieces-join [] s h = rw (begins_pair-feed s) refl
line_pieces-join (c ∷ l) s h =
    let alone : is_break c ≡ false = ground arith in
    rw (begins_pair-alone c (l ++ (10 ∷ s)) alone, alone, line_pieces-join l s (ground arith)) refl

pub split_lines-join_lines : (ls : List Text) → All IsLine ls → split_lines (join_lines ls) ≡ ls
unfolding split_lines join_lines line_pieces without_last
split_lines-join_lines [] h = refl
split_lines-join_lines (l ∷ ls) h =
    ap (λ (w, ws). without_last w ws) (line_pieces-join l (join_lines ls) h.0)
    ∙ ap (λ r. l ∷ r) (split_lines-join_lines ls h.1)

line_pieces-IsLine : (s : Text) → IsLine (line_pieces s).0 × All IsLine (line_pieces s).1
unfolding line_pieces has_break
line_pieces-IsLine [] = (refl, tt)
line_pieces-IsLine (c ∷ s) =
    let (first, rest) = line_pieces-IsLine s in
    elim (Bool-cases (begins_pair c s)) [
      | inl e ↦ rw e (first, rest)
      | inr e ↦ elim (Bool-cases (is_break c)) [
        | inl f ↦ rw (e, f) (refl, (first, rest))
        | inr f ↦ rw (e, f) (ground (arith, f, first), rest)
      ]
    ]

without_last-IsLine :
    (w : Text) (ws : List Text) → IsLine w → All IsLine ws → All IsLine (without_last w ws)
unfolding without_last
without_last-IsLine w [] h k = elim (Bool-cases (is_empty w)) [
  | inl e ↦ rw e tt
  | inr e ↦ rw e (h, tt)
]
without_last-IsLine w (v ∷ vs) h k = (h, without_last-IsLine v vs k.0 k.1)

pub split_lines-IsLine : (s : Text) → All IsLine (split_lines s)
unfolding split_lines
split_lines-IsLine s = without_last-IsLine _ _ (line_pieces-IsLine s).0 (line_pieces-IsLine s).1

pub set_line-IsLine :
    (n : ℕ) (l : Text) (ls : List Text) → IsLine l → All IsLine ls → All IsLine (set_line n l ls)
set_line-IsLine n l [] h k = tt
set_line-IsLine zero l (x ∷ ls) h k = (h, k.1)
set_line-IsLine (suc n) l (x ∷ ls) h k = (k.0, set_line-IsLine n l ls h k.1)

pub append-IsLine :
    (l : Text) (ls : List Text) → IsLine l → All IsLine ls → All IsLine (ls ++ (l ∷ []))
append-IsLine l [] h k = (h, tt)
append-IsLine l (x ∷ ls) h k = (k.0, append-IsLine l ls h k.1)
