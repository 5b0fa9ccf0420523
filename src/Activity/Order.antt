-- ===== src/Activity/Order.antt =====
-- What the queue of activity events holds after any calls.
use pywings.Prelude.{
  ℕ, zero, suc, ◌+◌, ◌-◌, ◌≤◌, ◌≡◌, refl, ap, sym, ◌∙◌, ◌||◌, List, [], ◌∷◌, ◌++◌, length, take,
  drop, ltb, is_empty, arith, length-append, length-take, length-drop, Bool-cases, inl, inr,
  if◌then◌else◌,
}
use mathlib.Core.List.{append-nil, append_assoc}
use mathlib.Core.Path.{subst}
use pywings.Activity.{Entry, Activity, push, record_event, flush}

-- A call of `record`, and one of `flush`.
pub data Call : Type 0 where
  recording : Entry → Call
  flushing : Call

unfoldable pub perform_all : List Call → Activity → Activity
perform_all [] a = a
perform_all (recording e ∷ cs) a = perform_all cs (record_event e a)
perform_all (flushing ∷ cs) a = perform_all cs (flush a).1

-- The entries that `record` takes: those with a server and an event.
unfoldable pub accepted : List Call → List Entry
accepted [] = []
accepted (recording e ∷ cs) =
    let rest = accepted cs in if is_empty e.server || is_empty e.event then rest else e ∷ rest
accepted (flushing ∷ cs) = accepted cs

-- The queue holds what is left of a list behind its first entries, and no more than 500 of it.
pub record IsTail (xs : List Entry) (a : Activity) : Type 0 where
  pub dropped : ℕ
  pub enough : dropped ≤ length xs
  pub tail : a.queue ≡ drop dropped xs
  pub bounded : length a.queue ≤ 500

drop-nil : (n : ℕ) → drop {A = Entry} n [] ≡ []
drop-nil zero = refl
drop-nil (suc n) = refl

drop-drop : (m n : ℕ) (xs : List Entry) → drop m (drop n xs) ≡ drop (n + m) xs
drop-drop m zero xs = let e : m ≡ 0 + m = omega arith in ap (λ k. drop k xs) e
drop-drop m (suc n) [] = drop-nil m ∙ sym (drop-nil (suc n + m))
drop-drop m (suc n) (x ∷ xs) =
    let e : suc (n + m) ≡ suc n + m = omega arith in drop-drop m n xs ∙ ap (λ k. drop k (x ∷ xs)) e

drop-append_le : (n : ℕ) (xs ys : List Entry) → n ≤ length xs → drop n (xs ++ ys) ≡ drop n xs ++ ys
drop-append_le zero xs ys h = refl
drop-append_le (suc n) [] ys h = absurd (omega (arith, h))
drop-append_le (suc n) (x ∷ xs) ys h = drop-append_le n xs ys (omega (arith, h))

cut-IsTail :
    (xs : List Entry) (a : Activity) (k : ℕ)
    → IsTail xs a
    → k ≤ length a.queue
    → IsTail xs (record a { queue = drop k a.queue })
cut-IsTail xs a k t h = record {
  dropped = t.dropped + k;
  enough =
      let l = length-drop t.dropped xs in
      let m = ap length t.tail in let e = t.enough in omega (arith, l, m, e, h);
  tail = ap (drop k) t.tail ∙ drop-drop k t.dropped xs;
  bounded = let l = length-drop k a.queue in let b = t.bounded in omega (arith, l, b);
}

-- `flush` cuts the batch off.
flush-cut :
    (a : Activity)
    → (k : ℕ) × (k ≤ length a.queue) × ((flush a).1 ≡ record a { queue = drop k a.queue })
unfolding flush
flush-cut a = go a.queue refl
  where
    go :
        (q : List Entry)
        → a.queue ≡ q
        → (k : ℕ) × (k ≤ length a.queue) × ((flush a).1 ≡ record a { queue = drop k a.queue })
    go [] e = (0, omega arith, rw e refl)
    go (x ∷ xs) e =
        let batch = take a.max_batch (x ∷ xs) in
        let l = length-take a.max_batch (x ∷ xs) in
        let m = ap length e in (length batch, omega (arith, l, m), rw e refl)

flush-IsTail : (xs : List Entry) (a : Activity) → IsTail xs a → IsTail xs (flush a).1
flush-IsTail xs a t =
    let (k, short, e) = flush-cut a in subst (IsTail xs) (sym e) (cut-IsTail xs a k t short)

push-IsTail :
    (xs : List Entry) (a : Activity) (e : Entry) → IsTail xs a → IsTail (xs ++ (e ∷ [])) (push e a)
unfolding push
push-IsTail xs a e t =
    let more : a.queue ++ (e ∷ []) ≡ drop t.dropped (xs ++ (e ∷ [])) =
      ap (λ q. q ++ (e ∷ [])) t.tail ∙ sym (drop-append_le t.dropped xs (e ∷ []) t.enough) in
    let l = length-append a.queue (e ∷ []) in
    let n = length-append xs (e ∷ []) in
    let b = t.bounded in
    let f = t.enough in
    elim (Bool-cases (ltb 500 (length (a.queue ++ (e ∷ []))))) [
      | inl long ↦ rw long (
          let k = length (a.queue ++ (e ∷ [])) - 500 in
          let j = ap length more in
          let o = length-drop t.dropped (xs ++ (e ∷ [])) in
          let i = length-drop k (a.queue ++ (e ∷ [])) in
          record {
            dropped = t.dropped + k;
            enough = omega (arith, n, f, j, o);
            tail = ap (drop k) more ∙ drop-drop k t.dropped (xs ++ (e ∷ []));
            bounded = omega (arith, i);
          })
      | inr short ↦ rw short (record {
        dropped = t.dropped;
        enough = omega (arith, n, f);
        tail = more;
        bounded = ground (arith, short);
      })
    ]

record_event-IsTail :
    (xs : List Entry) (a : Activity) (e : Entry)
    → IsTail xs a
    → IsTail (xs ++ accepted (recording e ∷ [])) (record_event e a)
unfolding record_event accepted
record_event-IsTail xs a e t = elim (Bool-cases (is_empty e.server || is_empty e.event)) [
  | inl skipped ↦ rw (skipped, append-nil) t
  | inr taken ↦ rw taken (push-IsTail xs a e t)
]

accepted-cons :
    (e : Entry) (cs : List Call)
    → accepted (recording e ∷ cs) ≡ accepted (recording e ∷ []) ++ accepted cs
unfolding accepted
accepted-cons e cs = ground arith

-- From a queue with the newest of some entries, 500 of them at most, whatever is recorded and flushed,
-- and in whatever order, the queue holds the newest of these and of the accepted entries, in the order
-- of their recording and without a gap, and never more than 500 of them.
pub perform_all-IsTail :
    (cs : List Call) (xs : List Entry) (a : Activity)
    → IsTail xs a
    → IsTail (xs ++ accepted cs) (perform_all cs a)
unfolding perform_all accepted
perform_all-IsTail [] xs a t = rw append-nil t
perform_all-IsTail (recording e ∷ cs) xs a t =
    rw (accepted-cons e cs, ← append_assoc xs (accepted (recording e ∷ [])) (accepted cs))
      (perform_all-IsTail cs (xs ++ accepted (recording e ∷ [])) (record_event e a)
        (record_event-IsTail xs a e t))
perform_all-IsTail (flushing ∷ cs) xs a t =
    perform_all-IsTail cs xs (flush a).1 (flush-IsTail xs a t)
