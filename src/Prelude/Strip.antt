-- ===== src/Prelude/Strip.antt =====
-- The ends of a text that `str.strip()` leaves as it is, and its idempotence.
use mathlib.Core.Path.{◌≡◌, refl, ap, ◌≡⟨◌⟩◌, ◌∎}
use mathlib.Core.Logic.{inl, inr}
use mathlib.Core.Bool.{Bool, false}
use mathlib.Core.List.{[], ◌∷◌, ◌++◌, reverse, reverse-append, reverse-reverse, append_assoc}
use Prim.Native.Nat.{ℕ}
use native.Mathlib.Omega.{arith}
use pywings.Prelude.Tests.{Bool-cases}
use pywings.Prelude.Texts.{Text, lstrip, is_space, strip}

module _ (p : ℕ → Bool) where
  -- A text that does not begin with a character that goes.
  abbrev pub IsLed : Text → Type 0
  IsLed [] = Unit {0}
  IsLed (c ∷ s) = p c ≡ false

  lstrip-IsLed : (s : Text) → IsLed (lstrip p s)
  unfolding lstrip
  lstrip-IsLed [] = tt
  lstrip-IsLed (c ∷ s) = elim (Bool-cases (p c)) [
    | inl goes ↦ rw goes (lstrip-IsLed s)
    | inr stays ↦ rw stays stays
  ]

  lstrip_led : (s : Text) → IsLed s → lstrip p s ≡ s
  unfolding lstrip
  lstrip_led [] h = refl
  lstrip_led (c ∷ s) h = rw h

  lstrip-append :
      (s : Text) (c : ℕ) → p c ≡ false → lstrip p (s ++ (c ∷ [])) ≡ lstrip p s ++ (c ∷ [])
  unfolding lstrip
  lstrip-append [] c h = rw h
  lstrip-append (d ∷ s) c h = ground (arith, lstrip-append s c h)

  rstrip : Text → Text
  rstrip s = reverse (lstrip p (reverse s))

  rstrip-cons : (c : ℕ) (s : Text) → p c ≡ false → rstrip (c ∷ s) ≡ c ∷ rstrip s
  unfolding rstrip
  rstrip-cons c s h =
      reverse (lstrip p (reverse (c ∷ s)))
      ≡⟨ ap (λ t. reverse (lstrip p t)) (reverse-append (c ∷ []) s) ⟩
        reverse (lstrip p (reverse s ++ (c ∷ [])))
      ≡⟨ ap reverse (lstrip-append (reverse s) c h) ⟩ reverse (lstrip p (reverse s) ++ (c ∷ []))
      ≡⟨ reverse-append (lstrip p (reverse s)) (c ∷ []) ⟩ c ∷ reverse (lstrip p (reverse s)) ∎

  rstrip-IsLed : (s : Text) → IsLed s → IsLed (rstrip s)
  unfolding lstrip
  rstrip-IsLed [] h = unfold rstrip in tt
  rstrip-IsLed (c ∷ s) h = rw (rstrip-cons c s h) h

  rstrip_idem : (s : Text) → rstrip (rstrip s) ≡ rstrip s
  unfolding rstrip
  rstrip_idem s = rw (reverse-reverse, lstrip_led (lstrip p (reverse s)) (lstrip-IsLed (reverse s)))

-- A text with no white space at its ends.
pub record IsTrimmed (s : Text) : Type 0 where
  pub front : IsLed is_space s
  pub back : IsLed is_space (reverse s)

pub strip_trimmed : (s : Text) → IsTrimmed s → strip s ≡ s
unfolding strip
strip_trimmed s t =
    rw (lstrip_led is_space s t.front, lstrip_led is_space (reverse s) t.back, reverse-reverse) refl

pub strip-IsTrimmed : (s : Text) → IsTrimmed (strip s)
unfolding strip rstrip
strip-IsTrimmed s = record {
  front = rstrip-IsLed is_space (lstrip is_space s) (lstrip-IsLed is_space s);
  back = rw reverse-reverse (lstrip-IsLed is_space (reverse (lstrip is_space s)));
}

pub IsLed-append_left : (s t : Text) → IsLed is_space (s ++ t) → IsLed is_space s
IsLed-append_left [] t h = tt
IsLed-append_left (c ∷ s) t h = h

pub IsLed-join :
    (s : Text) (c : ℕ) (t : Text)
    → is_space c ≡ false
    → IsLed is_space s
    → IsLed is_space (s ++ (c ∷ t))
IsLed-join [] c t h l = h
IsLed-join (d ∷ s) c t h l = l

reverse-join : (s : Text) (c : ℕ) (t : Text) → reverse (s ++ (c ∷ t)) ≡ reverse t ++ (c ∷ reverse s)
reverse-join s c t =
    reverse (s ++ (c ∷ t))
    ≡⟨ reverse-append s (c ∷ t) ⟩ reverse (c ∷ t) ++ reverse s
    ≡⟨ ap (λ r. r ++ reverse s) (reverse-append (c ∷ []) t) ⟩ (reverse t ++ (c ∷ [])) ++ reverse s
    ≡⟨ append_assoc (reverse t) (c ∷ []) (reverse s) ⟩ reverse t ++ (c ∷ reverse s) ∎

-- A text that ends in a separator and a trimmed end.
pub IsTrimmed-join :
    (s : Text) (c : ℕ) (t : Text)
    → is_space c ≡ false
    → IsLed is_space s
    → IsLed is_space (reverse t)
    → IsTrimmed (s ++ (c ∷ t))
IsTrimmed-join s c t h l r = record {
  front = IsLed-join s c t h l;
  back = rw (reverse-join s c t) (IsLed-join (reverse t) c (reverse s) h r);
}

pub IsTrimmed-ends :
    (s : Text) (c : ℕ) (t : Text)
    → IsTrimmed (s ++ (c ∷ t))
    → IsLed is_space s × IsLed is_space (reverse t)
IsTrimmed-ends s c t h = (
  IsLed-append_left s (c ∷ t) h.front,
  IsLed-append_left (reverse t) (c ∷ reverse s) (rw (← reverse-join s c t) h.back),
)

pub strip_idem : (s : Text) → strip (strip s) ≡ strip s
strip_idem s = strip_trimmed (strip s) (strip-IsTrimmed s)
