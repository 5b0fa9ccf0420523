-- ===== src/Prelude/Splits.antt =====
-- What splitting a text at a character gives, and what is left of a text put together again.
use mathlib.Core.Path.{◌≡◌, refl}
use mathlib.Core.Logic.{◌↔◌, inl, inr}
use mathlib.Core.Bool.{false, ◌||◌}
use mathlib.Core.Option.{none, some}
use mathlib.Core.List.{List, [], ◌∷◌, ◌++◌}
use Prim.Native.Nat.{ℕ}
use native.Mathlib.Omega.{arith}
use pywings.Prelude.Tests.{Option-cases}
use pywings.Prelude.Texts.{Text, has_char, split, join, split_once, split_last}

module _ (c : ℕ) where
  pub has_char-append : (s t : Text) → has_char c (s ++ t) ≡ (has_char c s || has_char c t)
  unfolding has_char
  has_char-append [] t = refl
  has_char-append (d ∷ s) t = ground (arith, has_char-append s t)

  pub split_once-eq :
      (s a b : Text) → split_once c s ≡ some (a, b) → (s ≡ a ++ (c ∷ b)) × (has_char c a ≡ false)
  unfolding split_once has_char
  split_once-eq [] a b h = cc
  split_once-eq (d ∷ s) a b h = elim (Option-cases (split_once c s)) [
    | inl e ↦ ground arith
    | inr ((a', b'), e) ↦ ground (arith, split_once-eq s a' b' e)
  ]

  pub split_once-absent : (s : Text) → has_char c s ≡ false → split_once c s ≡ none
  unfolding split_once has_char
  split_once-absent [] h = refl
  split_once-absent (d ∷ s) h = ground (arith, split_once-absent s)

  pub has_char-absent : (s : Text) → split_once c s ≡ none → has_char c s ≡ false
  unfolding split_once has_char
  has_char-absent [] h = refl
  has_char-absent (d ∷ s) h = ground (arith, has_char-absent s)

  pub split_once-append :
      (a b : Text) → has_char c a ≡ false → split_once c (a ++ (c ∷ b)) ≡ some (a, b)
  unfolding split_once has_char
  split_once-append [] b h = ground arith
  split_once-append (d ∷ a) b h = ground (arith, split_once-append a b)

  pub split_last-absent : (s : Text) → has_char c s ≡ false → split_last c s ≡ none
  unfolding split_last has_char
  split_last-absent [] h = refl
  split_last-absent (d ∷ s) h = ground (arith, split_last-absent s)

  pub split_last-append :
      (a b : Text) → has_char c b ≡ false → split_last c (a ++ (c ∷ b)) ≡ some (a, b)
  unfolding split_last
  split_last-append [] b h = ground (arith, split_last-absent b)
  split_last-append (d ∷ a) b h = ground (arith, split_last-append a b)

  has_char-unsplit : (s : Text) → split_last c s ≡ none → has_char c s ≡ false
  unfolding split_last has_char
  has_char-unsplit [] h = refl
  has_char-unsplit (d ∷ s) h = ground (arith, has_char-unsplit s)

  pub split_last-eq :
      (s a b : Text) → split_last c s ≡ some (a, b) → (s ≡ a ++ (c ∷ b)) × (has_char c b ≡ false)
  unfolding split_last
  split_last-eq [] a b h = cc
  split_last-eq (d ∷ s) a b h = elim (Option-cases (split_last c s)) [
    | inl e ↦ ground (arith, has_char-unsplit s e)
    | inr ((a', b'), e) ↦ ground (arith, split_last-eq s a' b' e)
  ]

  pub split-append :
      (a b : Text)
      → has_char c a ≡ false
      → split c (a ++ (c ∷ b)) ≡ (a, (split c b).0 ∷ (split c b).1)
  unfolding split has_char
  split-append [] b h = ground arith
  split-append (d ∷ a) b h = ground (arith, split-append a b)

  pub has_char-split : (s : Text) → has_char c (split c s).0 ≡ false
  unfolding split has_char
  has_char-split [] = refl
  has_char-split (d ∷ s) = ground (arith, has_char-split s)

  join-cons : (d : ℕ) (w : Text) (ws : List Text) → join c (d ∷ w) ws ≡ d ∷ join c w ws
  unfolding join
  join-cons d w [] = refl
  join-cons d w (v ∷ vs) = refl

  pub join-split : (s : Text) → join c (split c s).0 (split c s).1 ≡ s
  unfolding split join
  join-split [] = refl
  join-split (d ∷ s) = ground (arith, join-split s, join-cons d (split c s).0 (split c s).1)

  pub split-single : (s : Text) → ((split c s).1 ≡ []) ↔ (has_char c s ≡ false)
  unfolding split has_char
  split-single [] = (λ h. refl, λ h. refl)
  split-single (d ∷ s) = ground (arith, split-single s)
