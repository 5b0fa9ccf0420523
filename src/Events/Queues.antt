-- ===== src/Events/Queues.antt =====
-- The bounded `queue.Queue` of wings/events.py, and the way `publish` puts into it.
use pywings.Prelude.{
  ℕ, ◌≤◌, ◌<◌, Bool, List, [], ◌∷◌, ◌++◌, ◌&&◌, arith, ltb, leb, length, drop, length-append,
  length-drop, if◌then◌else◌,
}

pub record Queue (A : Type 0) : Type 0 where
  pub maxsize : ℕ
  pub items : List A

module _ {A : Type 0} where
  -- A `maxsize` of 0 sets no bound.
  unfoldable pub is_full : Queue A → Bool
  is_full q = ltb 0 q.maxsize && leb q.maxsize (length q.items)

  -- put_nowait, and where that raises Full, get_nowait and then put_nowait.
  unfoldable pub put_latest : A → Queue A → Queue A
  unfolding is_full
  put_latest m q = record q { items = (if is_full q then drop 1 q.items else q.items) ++ (m ∷ []) }

  abbrev pub IsBounded : Queue A → Type 0
  IsBounded q = 0 < q.maxsize → length q.items ≤ q.maxsize

  pub put_latest-IsBounded : (m : A) (q : Queue A) → IsBounded q → IsBounded (put_latest m q)
  unfolding put_latest
  put_latest-IsBounded m q h pos = ground (
    arith,
    h pos,
    length-append {0} (drop 1 q.items) (m ∷ []),
    length-append {0} q.items (m ∷ []),
    length-drop {0} 1 q.items,
  )
