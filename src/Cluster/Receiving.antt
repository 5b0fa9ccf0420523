-- ===== src/Cluster/Receiving.antt =====
-- `recv_exact` reads what is asked for, however the bytes arrive.
use pywings.Prelude.{
  ℕ, zero, suc, ◌-◌, ◌≤◌, ◌≡◌, refl, ap, sym, ◌∙◌, some, List, [], ◌∷◌, ◌++◌, length, take, drop,
  arith, length-take, length-drop, take-append-drop,
}
use mathlib.Core.List.{append-nil, append_assoc}
use Prim.Native.Nat.{min}
use pywings.Cluster.{Socket, found, later, recv, recv_missing, recv_exact}

module _ {A : Type 0} where
  take-append_le : (k : ℕ) (xs ys : List A) → k ≤ length xs → take k (xs ++ ys) ≡ take k xs
  take-append_le zero xs ys h = refl
  take-append_le (suc k) [] ys h = absurd (omega (arith, h))
  take-append_le (suc k) (x ∷ xs) ys h = ap (λ l. x ∷ l) (take-append_le k xs ys (omega arith))

  drop-append_le : (k : ℕ) (xs ys : List A) → k ≤ length xs → drop k (xs ++ ys) ≡ drop k xs ++ ys
  drop-append_le zero xs ys h = refl
  drop-append_le (suc k) [] ys h = absurd (omega (arith, h))
  drop-append_le (suc k) (x ∷ xs) ys h = drop-append_le k xs ys (omega arith)

found-bounds :
    (n : ℕ) (sizes : List ℕ)
    → (1 ≤ found (min 65536 (suc n)) sizes) × (found (min 65536 (suc n)) sizes ≤ suc n)
found-bounds n [] = (omega arith, omega arith)
found-bounds n (x ∷ xs) = (omega arith, omega arith)

recv-append :
    (n k : ℕ) (xs ys sizes : List ℕ)
    → found n sizes ≡ k
    → k ≤ length xs
    → recv n (record { incoming = xs ++ ys; sizes = sizes })
      ≡ (take k xs, record { incoming = drop k xs ++ ys; sizes = later sizes })
unfolding recv
recv-append n k xs ys sizes e h = rw (e, take-append_le k xs ys h, drop-append_le k xs ys h) refl

recv_missing-step :
    (fuel m b : ℕ) (buffer bs : List ℕ) (s s' : Socket)
    → recv (min 65536 (suc m)) s ≡ (b ∷ bs, s')
    → recv_missing (suc fuel) (suc m) buffer s
      ≡ recv_missing fuel (suc m - length (b ∷ bs)) (buffer ++ (b ∷ bs)) s'
unfolding recv_missing
recv_missing-step fuel m b buffer bs s s' e =
    rw (e, recv_missing)
      (ap (λ r. recv_missing fuel (suc m - length (b ∷ bs)) (buffer ++ (b ∷ bs)) r.1) e)

-- The bytes `xs` that are asked for are read, and what comes behind them is left.
abbrev Reads : ℕ → ℕ → List ℕ → List ℕ → List ℕ → List ℕ → Type 0
Reads fuel n buffer xs ys sizes =
    (rest : List ℕ) × (recv_missing fuel n buffer (record { incoming = xs ++ ys; sizes = sizes })
      ≡ (some (buffer ++ xs), record { incoming = ys; sizes = rest }))

recv_missing-append :
    (fuel n : ℕ) (buffer xs ys sizes : List ℕ)
    → length xs ≡ n
    → n ≤ fuel
    → Reads fuel n buffer xs ys sizes
unfolding recv_missing
recv_missing-append fuel zero buffer [] ys sizes e f =
    (sizes, ap (λ l. (some l, record { incoming = ys; sizes = sizes })) (sym (append-nil buffer)))
recv_missing-append fuel (suc n) buffer [] ys sizes e f = absurd (omega (arith, e))
recv_missing-append fuel zero buffer (x ∷ xs) ys sizes e f = absurd (omega (arith, e))
recv_missing-append zero (suc n) buffer (x ∷ xs) ys sizes e f = absurd (omega (arith, f))
recv_missing-append (suc fuel) (suc n) buffer (x ∷ xs) ys sizes e f =
    go (λ m buffer' xs' sizes'. recv_missing-append fuel m buffer' xs' ys sizes')
      (found (min 65536 (suc n)) sizes) refl (found-bounds n sizes)
  where
    go :
        ((m : ℕ) (buffer' xs' sizes' : List ℕ)
          → length xs' ≡ m
          → m ≤ fuel
          → Reads fuel m buffer' xs' ys sizes')
        → (k : ℕ) → found (min 65536 (suc n)) sizes ≡ k
        → (1 ≤ k) × (k ≤ suc n)
        → Reads (suc fuel) (suc n) buffer (x ∷ xs) ys sizes
    go again zero same (above, below) = absurd (omega (arith, above))
    go again (suc j) same (above, below) =
        let got =
          recv-append (min 65536 (suc n)) (suc j) (x ∷ xs) ys sizes same
            (omega (arith, e, below)) in
        let taken = length-take j xs in
        let left = length-drop j xs in
        let (rest, read) =
          again (suc n - length (x ∷ take j xs)) (buffer ++ (x ∷ take j xs)) (drop j xs)
            (later sizes) (omega (arith, e, below, taken, left)) (omega (arith, f, taken)) in
        let whole : (buffer ++ (x ∷ take j xs)) ++ drop j xs ≡ buffer ++ (x ∷ xs) =
          append_assoc buffer (x ∷ take j xs) (drop j xs)
          ∙ ap (λ l. buffer ++ (x ∷ l)) (take-append-drop j xs) in
        (
          rest,
          recv_missing-step fuel n x buffer (take j xs) _ _ got
              ∙ read
              ∙ ap (λ l. (some l, record { incoming = ys; sizes = rest })) whole,
        )

-- Bytes that arrive in pieces of any size are read as they were sent: `recv_exact` returns just as many
-- as asked for, and leaves what comes behind them.
pub recv_exact-append :
    (xs ys sizes : List ℕ)
    → (rest : List ℕ) × (recv_exact (length xs) (record { incoming = xs ++ ys; sizes = sizes })
        ≡ (some xs, record { incoming = ys; sizes = rest }))
unfolding recv_exact
recv_exact-append xs ys sizes =
    recv_missing-append (length xs) (length xs) [] xs ys sizes refl (omega arith)
