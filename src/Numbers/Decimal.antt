-- ===== src/Numbers/Decimal.antt =====
-- Two numbers with the same decimal digits are equal.
use pywings.Prelude.{
  ℕ, zero, suc, ◌+◌, ◌-◌, ◌*◌, ◌/◌, ◌%◌, ◌<◌, ◌≡◌, refl, ap, sym, ◌∙◌, [], ◌∷◌, ◌++◌, leb, Text,
  arith, Bool-cases, inl, inr,
}
use pywings.Numbers.{plus, decimal, whole_text}

-- The value of the digits behind a number that is read already.
value_of : ℕ → Text → ℕ
value_of n [] = n
value_of n (c ∷ s) = value_of (n * 10 + (c - b'0')) s

value_of-append :
    (n : ℕ) (s : Text) (c : ℕ) → value_of n (s ++ (c ∷ [])) ≡ value_of n s * 10 + (c - b'0')
unfolding value_of
value_of-append n [] c = refl
value_of-append n (d ∷ s) c = value_of-append (n * 10 + (d - b'0')) s c

value_of-decimal : (fuel n : ℕ) → n < fuel → value_of 0 (decimal fuel n) ≡ n
unfolding decimal value_of
value_of-decimal zero n h = absurd (omega (arith, h))
value_of-decimal (suc fuel) n h = elim (Bool-cases (leb n 9)) [
  | inl e ↦ rw (e, decimal) (omega arith)
  | inr e ↦
      let front = value_of-decimal fuel (n / 10) (ground (arith, e, h)) in
      rw (e, decimal)
        (value_of-append 0 (decimal fuel (n / 10)) (b'0' + n % 10)
          ∙ ap (λ v. v * 10 + ((b'0' + n % 10) - b'0')) front
          ∙ omega arith)
]

pub whole_text_injective : (a b : ℕ) → whole_text (plus a) ≡ whole_text (plus b) → a ≡ b
unfolding whole_text
whole_text_injective a b h =
    sym (value_of-decimal (suc a) a (omega arith))
    ∙ ap (value_of 0) h
    ∙ value_of-decimal (suc b) b (omega arith)
