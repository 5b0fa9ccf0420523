-- ===== src/Processes/Enforced.antt =====
-- When a server is stopped for a limit.
use pywings.Prelude.{
  ℕ, zero, suc, ◌-◌, ◌<◌, ◌≡◌, ◌↔◌, refl, Bool, true, false, ◌&&◌, ◌||◌, none, List, [], ◌∷◌, any,
  ltb, arith, Bool-cases, inl, inr,
}
use pywings.Processes.Limits.{Limits, Reading, is_over, exceeded}

module _ (p : Reading → Bool) where
  -- The first `n` readings are there and pass the test.
  unfoldable pub begins : ℕ → List Reading → Bool
  begins zero rs = true
  begins (suc n) [] = false
  begins (suc n) (r ∷ rs) = p r && begins n rs

  -- Three readings in a row pass the test.
  unfoldable pub three_in_a_row : List Reading → Bool
  three_in_a_row [] = false
  three_in_a_row (r ∷ rs) = begins 3 (r ∷ rs) || three_in_a_row rs

  begins-fewer : (rs : List Reading) → begins 2 rs ≡ true → begins 1 rs ≡ true
  unfolding begins
  begins-fewer [] h = cc
  begins-fewer (r ∷ rs) h = ground arith

  three_in_a_row-begins : (rs : List Reading) → three_in_a_row rs ≡ false → begins 3 rs ≡ false
  unfolding begins three_in_a_row
  three_in_a_row-begins [] h = refl
  three_in_a_row-begins (r ∷ rs) h = ground arith

module _ (l : Limits) where
  abbrev pub is_loaded : Reading → Bool
  is_loaded r = is_over l.share r.load

  abbrev pub is_large : Reading → Bool
  is_large r = is_over l.bytes r.rss || is_over l.disk_bytes r.used

  -- With `v` readings in a row above the limit behind it, the loop goes on to the end exactly if no
  -- reading is too large, and neither the next 3 - v readings nor any 3 in a row are above it.
  exceeded_iff :
      (v : ℕ) (rs : List Reading)
      → v < 3
      → (ltb 0 l.share ≡ false → v ≡ 0)
      → (exceeded l v rs ≡ none) ↔ (
          (any is_large rs ≡ false)
          × (begins is_loaded (3 - v) rs ≡ false)
          × (three_in_a_row is_loaded rs ≡ false))
  unfolding exceeded begins three_in_a_row
  exceeded_iff zero [] few idle = ground arith
  exceeded_iff (suc zero) [] few idle = ground arith
  exceeded_iff (suc (suc zero)) [] few idle = ground arith
  exceeded_iff (suc (suc (suc v))) [] few idle = absurd (omega (arith, few))
  exceeded_iff (suc (suc (suc v))) (r ∷ rs) few idle = absurd (omega (arith, few))
  exceeded_iff zero (r ∷ rs) few idle = elim (Bool-cases (ltb 0 l.share)) [
    | inr off ↦
        let rest = exceeded_iff 0 rs few idle in
        ground (arith, off, rest, three_in_a_row-begins is_loaded rs)
    | inl on ↦
        let rest = exceeded_iff 0 rs few idle in
        let next = exceeded_iff 1 rs (omega arith) (λ e. cc) in
        ground (arith, on, rest, next, three_in_a_row-begins is_loaded rs)
  ]
  exceeded_iff (suc zero) (r ∷ rs) few idle =
      let on : ltb 0 l.share ≡ true = ground arith in
      let rest = exceeded_iff 0 rs (omega arith) (λ e. refl) in
      let next = exceeded_iff 2 rs (omega arith) (λ e. cc) in
      ground (arith, on, rest, next, three_in_a_row-begins is_loaded rs, begins-fewer is_loaded rs)
  exceeded_iff (suc (suc zero)) (r ∷ rs) few idle =
      let on : ltb 0 l.share ≡ true = ground arith in
      let rest = exceeded_iff 0 rs (omega arith) (λ e. refl) in
      ground (arith, on, rest, three_in_a_row-begins is_loaded rs)

  -- A server is left alone until its process ends exactly if no reading is above the limit of the
  -- memory or of the disk, and no three readings in a row are above the limit of the processor.
  pub exceeded-none_iff :
      (rs : List Reading)
      → (exceeded l 0 rs ≡ none)
        ↔ ((any is_large rs ≡ false) × (three_in_a_row is_loaded rs ≡ false))
  exceeded-none_iff rs =
      let all = exceeded_iff 0 rs (omega arith) (λ e. refl) in
      ground (arith, all, three_in_a_row-begins is_loaded rs)
