-- ===== src/Parser/Restored.antt =====
-- What is read of a properties file after a value of it was set.
use pywings.Prelude.{
  ℕ, zero, suc, ◌+◌, ◌≡◌, ◌≢◌, refl, ap, ◌∙◌, false, Option, none, some, List, [], ◌∷◌, ◌++◌, Text,
  lit, length, strip, split_once, has_char, starts_with, arith, Bool-cases, inl, inr, ◌⊎◌, text_eq,
  text_eq_iff,
}
use pywings.Prelude.Splits.{split_once-append}
use pywings.Prelude.Strip.{IsTrimmed, strip_trimmed, IsTrimmed-join}
use pywings.Prelude.Dict
use pywings.Prelude.Dict.{Dict, lookup-insert, lookup-insert_self, lookup-nil}
use pywings.Parser.Properties.{key_of, noted, index_from, line_at, set_line, current_value}

-- The value of the last line of a key.
abbrev pub value_at : List Text → Option ℕ → Option Text
value_at lines none = none
value_at lines (some n) = some (current_value (line_at n lines))

unfoldable pub value_in : Text → List Text → Option Text
value_in k lines = value_at lines (Dict.lookup k (index_from 0 lines []))

-- A key that a line can have, and a line of it.
pub record IsKey (k : Text) : Type 0 where
  pub trimmed : IsTrimmed k
  pub plain : has_char b'=' k ≡ false
  pub hashless : has_char b'#' k ≡ false

line_of : Text → Text → Text
line_of k v = k ++ (b'=' ∷ v)

starts-comment :
    (k v : Text) → has_char b'#' k ≡ false → starts_with (line_of k v) (lit "#") ≡ false
unfolding line_of has_char starts_with
starts-comment [] v h = refl
starts-comment (c ∷ k) v h = ground arith

pub key_of-line : (k v : Text) → IsKey k → IsTrimmed v → key_of (k ++ (b'=' ∷ v)) ≡ some k
unfolding key_of line_of
key_of-line k v key t =
    let line =
      strip_trimmed (k ++ (b'=' ∷ v)) (IsTrimmed-join k b'=' v refl key.trimmed.front t.back) in
    rw
      (
        line,
        starts-comment k v key.hashless,
        split_once-append b'=' k v key.plain,
        strip_trimmed k key.trimmed,
      )
      refl

pub current_value-line : (k v : Text) → IsKey k → IsTrimmed v → current_value (k ++ (b'=' ∷ v)) ≡ v
unfolding current_value
current_value-line k v key t =
    rw (split_once-append b'=' k v key.plain, strip_trimmed v t, current_value) refl

key_of-nil : key_of [] ≡ none
unfolding key_of strip starts_with split_once
key_of-nil = refl

-- A line in the place of one with the same key changes no position.
pub index_from-set_line :
    (i n : ℕ) (l : Text) (ls : List Text) (d : Dict ℕ)
    → key_of l ≡ key_of (line_at i ls)
    → index_from n (set_line i l ls) d ≡ index_from n ls d
unfolding index_from
index_from-set_line i n l [] d h = refl
index_from-set_line zero n l (x ∷ ls) d h = ap (λ o. index_from (suc n) ls (noted n o d)) h
index_from-set_line (suc i) n l (x ∷ ls) d h =
    index_from-set_line i (suc n) l ls (noted n (key_of x) d) h

pub index_from-append :
    (n : ℕ) (ls : List Text) (l : Text) (d : Dict ℕ)
    → index_from n (ls ++ (l ∷ [])) d ≡ noted (n + length ls) (key_of l) (index_from n ls d)
unfolding index_from
index_from-append n [] l d = ap (λ m. noted m (key_of l) d) (omega arith)
index_from-append n (x ∷ ls) l d =
    index_from-append (suc n) ls l (noted n (key_of x) d)
    ∙ ap (λ m. noted m (key_of l) (index_from (suc n) ls (noted n (key_of x) d))) (omega arith)

-- Where a position comes from: from what was noted before, or from a line with the key.
IsFrom : Text → ℕ → ℕ → List Text → Dict ℕ → Type 0
IsFrom j n i ls d =
    (Dict.lookup j d ≡ some i) ⊎ ((m : ℕ) × (i ≡ n + m) × (key_of (line_at m ls) ≡ some j))

noted-lookup :
    (j : Text) (n i : ℕ) (o : Option Text) (d : Dict ℕ)
    → Dict.lookup j (noted n o d) ≡ some i
    → (Dict.lookup j d ≡ some i) ⊎ ((i ≡ n) × (o ≡ some j))
noted-lookup j n i none d h = inl h
noted-lookup j n i (some k) d h = elim (Bool-cases (text_eq k j)) [
  | inl e ↦ inr (ground (arith, h, e, lookup-insert k j n d), ap some ((text_eq_iff k j).0 e))
  | inr e ↦ inl (ground (arith, h, e, lookup-insert k j n d))
]

index_from-lookup :
    (j : Text) (n i : ℕ) (ls : List Text) (d : Dict ℕ)
    → Dict.lookup j (index_from n ls d) ≡ some i
    → IsFrom j n i ls d
unfolding index_from IsFrom
index_from-lookup j n i [] d h = inl h
index_from-lookup j n i (x ∷ ls) d h =
    elim (index_from-lookup j (suc n) i ls (noted n (key_of x) d) h) [
      | inr (m, e, k) ↦ inr (suc m, omega (arith, e), k)
      | inl k ↦ elim (noted-lookup j n i (key_of x) d k) [
        | inl f ↦ inl f
        | inr (e, f) ↦ inr (zero, omega (arith, e), f)
      ]
    ]

-- The line of a key that has a position.
pub position-key :
    (j : Text) (i : ℕ) (ls : List Text)
    → Dict.lookup j (index_from 0 ls []) ≡ some i
    → key_of (line_at i ls) ≡ some j
unfolding IsFrom
position-key j i ls h = elim (index_from-lookup j 0 i ls [] h) [
  | inl e ↦ cc (e, lookup-nil {V = ℕ} j)
  | inr (m, e, k) ↦ ap (λ a. key_of (line_at a ls)) (omega (arith, e)) ∙ k
]

pub line_at-set_line :
    (i : ℕ) (l : Text) (ls : List Text) {k : Text}
    → key_of (line_at i ls) ≡ some k
    → line_at i (set_line i l ls) ≡ l
line_at-set_line i l [] h = cc (h, key_of-nil)
line_at-set_line zero l (x ∷ ls) h = refl
line_at-set_line (suc i) l (x ∷ ls) h = line_at-set_line i l ls h

pub line_at-other :
    (i m : ℕ) (l : Text) (ls : List Text) → m ≢ i → line_at m (set_line i l ls) ≡ line_at m ls
line_at-other i m l [] h = refl
line_at-other zero zero l (x ∷ ls) h = absurd (h refl)
line_at-other zero (suc m) l (x ∷ ls) h = refl
line_at-other (suc i) zero l (x ∷ ls) h = refl
line_at-other (suc i) (suc m) l (x ∷ ls) h = line_at-other i m l ls (λ e. h (ap suc e))

pub line_at-last : (l : Text) (ls : List Text) → line_at (length ls) (ls ++ (l ∷ [])) ≡ l
line_at-last l [] = refl
line_at-last l (x ∷ ls) = line_at-last l ls

pub line_at-append :
    (m : ℕ) (l : Text) (ls : List Text) {k : Text}
    → key_of (line_at m ls) ≡ some k
    → line_at m (ls ++ (l ∷ [])) ≡ line_at m ls
line_at-append m l [] h = cc (h, key_of-nil)
line_at-append zero l (x ∷ ls) h = refl
line_at-append (suc m) l (x ∷ ls) h = line_at-append m l ls h
