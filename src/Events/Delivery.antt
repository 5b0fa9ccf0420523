-- ===== src/Events/Delivery.antt =====
-- What `publish` does to the queues of the server and to those of the other servers.
use pywings.Prelude.{
  ℕ, ◌<◌, ◌≤◌, ◌⊎◌, ◌≡◌, ◌&&◌, ◌++◌, refl, sym, ltb, leb, length, drop, true, false, List, [], ◌∷◌,
  ◌==◌, Text, arith, Bool-cases, inl, inr, if◌then◌else◌,
}
use pywings.Events.{Event, Payload, Message, Bus, mem, members, update, deliver, publish}
use mathlib.Core.Path.{subst}
use pywings.Events.Queues.{Queue, IsBounded, is_full, put_latest, put_latest-IsBounded}

-- No number stands twice in the list of a set.
abbrev pub IsDistinct : List ℕ → Type 0
IsDistinct [] = Unit
IsDistinct (p ∷ ps) = (mem p ps ≡ false) × IsDistinct ps

module _ (m : Message) where
  deliver_absent :
      (qs : List ℕ) (queue : ℕ → Queue Message) (q : ℕ)
      → mem q qs ≡ false
      → deliver m qs queue q ≡ queue q
  unfolding deliver mem update
  deliver_absent [] queue q h = refl
  deliver_absent (p ∷ ps) queue q h =
      ground (arith, deliver_absent ps (update queue p (put_latest m (queue p))) q)

  deliver_once :
      (qs : List ℕ) (queue : ℕ → Queue Message) (q : ℕ)
      → IsDistinct qs
      → mem q qs ≡ true
      → deliver m qs queue q ≡ put_latest m (queue q)
  unfolding deliver mem update
  deliver_once [] queue q s h = cc
  deliver_once (p ∷ ps) queue q (fresh, s) h = ground (
    arith,
    deliver_absent ps (update queue p (put_latest m (queue p))) q,
    deliver_once ps (update queue p (put_latest m (queue p))) q s,
  )

  pub deliver-IsBounded :
      (qs : List ℕ) (queue : ℕ → Queue Message)
      → ((q : ℕ) → IsBounded (queue q))
      → (q : ℕ) → IsBounded (deliver m qs queue q)
  unfolding deliver
  deliver-IsBounded [] queue h q = h q
  deliver-IsBounded (p ∷ ps) queue h q =
      deliver-IsBounded ps (update queue p (put_latest m (queue p)))
        (λ r. elim (p == r) as (λ b. IsBounded (if b then put_latest m (queue p) else queue r)) [
          | true ↦ put_latest-IsBounded m (queue p) (h p)
          | false ↦ h r
        ])
        q

-- What becomes of a queue that gets a message.
pub record IsLatest (m : Message) (old new : Queue Message) : Type 0 where
  pub bound : new.maxsize ≡ old.maxsize
  pub items :
      ((x : Message) × (rest : List Message) × (0 < old.maxsize)
        × (old.maxsize ≤ length old.items)
        × (old.items ≡ x ∷ rest)
        × (new.items ≡ rest ++ (m ∷ [])))
      ⊎ (((old.maxsize ≡ 0) ⊎ (length old.items < old.maxsize))
          × (new.items ≡ old.items ++ (m ∷ [])))

latest_items :
    (m : Message) (size : ℕ) (items : List Message)
    → let after =
        (if ltb 0 size && leb size (length items) then drop 1 items else items) ++ (m ∷ []) in
      ((x : Message) × (rest : List Message) × (0 < size)
        × (size ≤ length items)
        × (items ≡ x ∷ rest)
        × (after ≡ rest ++ (m ∷ [])))
      ⊎ (((size ≡ 0) ⊎ (length items < size)) × (after ≡ items ++ (m ∷ [])))
latest_items m size [] = elim (Bool-cases (ltb 0 size && leb size 0)) [
  | inl e ↦ absurd (ground (arith, e))
  | inr e ↦ inr (ground (arith, e), rw e refl)
]
latest_items m size (x ∷ rest) = elim (Bool-cases (ltb 0 size && leb size (length (x ∷ rest)))) [
  | inl e ↦ inl (x, rest, ground (arith, e), ground (arith, e), refl, rw e refl)
  | inr e ↦ inr (ground (arith, e), rw e refl)
]

put_latest-IsLatest : (m : Message) (q : Queue Message) → IsLatest m q (put_latest m q)
unfolding put_latest is_full
put_latest-IsLatest m q = record { bound = refl; items = latest_items m q.maxsize q.items }

-- Where no queue listens to the server twice: a queue that listens to the server has the message of a
-- `publish` at its end, behind all its items or, where it was full, behind all but the oldest one; its
-- bound is as it was; and any other queue is as it was.
pub queue-publish :
    (uuid : Text) (event : Event) (args : List Payload) (b : Bus) (q : ℕ)
    → IsDistinct (members uuid b.listeners)
    → ((mem q (members uuid b.listeners) ≡ true)
        × IsLatest
            (record { event = event; args = args })
            (b.queue q)
            ((publish uuid event args b).queue q))
      ⊎ ((mem q (members uuid b.listeners) ≡ false)
          × ((publish uuid event args b).queue q ≡ b.queue q))
unfolding publish
queue-publish uuid event args b q s = elim (Bool-cases (mem q (members uuid b.listeners))) [
  | inl here ↦ inl (
    here,
    subst (IsLatest _ (b.queue q))
        (sym (deliver_once _ (members uuid b.listeners) b.queue q s here))
        (put_latest-IsLatest _ (b.queue q)),
  )
  | inr away ↦ inr (away, deliver_absent _ (members uuid b.listeners) b.queue q away)
]
