-- ===== src/Activity.antt =====
-- wings/activity.py: the queue of activity events. An entry has its address as Addresses cleans it; the time is given.
pub mod Order
pub mod Addresses
use pywings.Prelude.{
  ℕ, ◌-◌, ◌||◌, Option, none, some, List, [], ◌∷◌, ◌++◌, ltb, length, take, drop, Text, is_empty,
  if◌then◌else◌,
}
use pywings.Json.{Json}

pub record Entry : Type 0 where
  pub user : Option Text
  pub server : Text
  pub event : Text
  pub metadata : Json
  pub ip : Text
  pub timestamp : ℕ

pub record Activity : Type 0 where
  pub queue : List Entry
  pub max_batch : ℕ

-- xs[-n:]
abbrev pub last_n {ℓ} : {A : Type ℓ} → ℕ → List A → List A
last_n n xs = drop (length xs - n) xs

-- The append of `record`, and the cut behind it.
unfoldable pub push : Entry → Activity → Activity
push e a =
    let queue = a.queue ++ (e ∷ []) in
    record a { queue = if ltb 500 (length queue) then last_n 500 queue else queue }

-- `record`
unfoldable pub record_event : Entry → Activity → Activity
unfolding push
record_event e a = if is_empty e.server || is_empty e.event then a else push e a

-- `flush`: the batch that is sent, if there is one, and what stays. A failed send loses the batch.
unfoldable pub flush : Activity → Option (List Entry) × Activity
flush a = elim a.queue [
  | [] ↦ (none, a)
  | e ∷ es ↦
      let batch = take a.max_batch (e ∷ es) in
      (some batch, record a { queue = drop (length batch) (e ∷ es) })
]
