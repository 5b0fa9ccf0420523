-- ===== src/Events/Subscriptions.antt =====
-- The invariant of the bus over every sequence of its operations.
use pywings.Prelude.{
  ℕ, ◌<◌, ◌≡◌, ◌≢◌, true, false, some, List, [], ◌∷◌, ◌==◌, Text, text_eq, arith, if◌then◌else◌,
}
use pywings.Prelude.Dict
use pywings.Prelude.Dict.{Dict, dict_laws}
use pywings.Events.{
  Event, Payload, Bus, empty_bus, mem, add, discard, members, keep_nonempty, subscribe, unsubscribe,
  add_callback, remove_callback, publish,
}
use pywings.Events.Queues.{IsBounded}
use pywings.Events.Delivery.{IsDistinct, deliver-IsBounded}

pub mem-discard :
    (q p : ℕ) (ps : List ℕ) → mem p (discard q ps) ≡ (if q == p then false else mem p ps)
unfolding mem discard
mem-discard q p [] = ground arith
mem-discard q p (r ∷ ps) = ground (arith, mem-discard q p ps)

discard-IsDistinct : (q : ℕ) (ps : List ℕ) → IsDistinct ps → IsDistinct (discard q ps)
unfolding discard
discard-IsDistinct q [] s = tt
discard-IsDistinct q (p ∷ ps) (fresh, s) =
    ground (arith, mem-discard q p ps, discard-IsDistinct q ps s)

add-IsDistinct : (q : ℕ) (ps : List ℕ) → IsDistinct ps → IsDistinct (add q ps)
unfolding add
add-IsDistinct q ps s = ground arith

mem-add : (q p : ℕ) (ps : List ℕ) → mem p (add q ps) ≡ (if q == p then true else mem p ps)
unfolding add mem
mem-add q p ps = ground arith

module _ (d : Dict (List ℕ)) (uuid j : Text) where
  members-insert :
      (ps : List ℕ)
      → members j (Dict.insert uuid ps d) ≡ (if text_eq uuid j then ps else members j d)
  members-insert ps = ground (arith, Dict.lookup-insert uuid j ps d)

  members-keep_nonempty :
      (ps : List ℕ)
      → members j (keep_nonempty uuid ps d) ≡ (if text_eq uuid j then ps else members j d)
  unfolding keep_nonempty
  members-keep_nonempty [] = ground (arith, Dict.lookup-erase uuid j d)
  members-keep_nonempty (p ∷ ps) = ground (arith, Dict.lookup-insert uuid j (p ∷ ps) d)

lookup-keep_nonempty :
    (d : Dict (List ℕ)) (uuid j : Text) (ps : List ℕ)
    → Dict.lookup j d ≢ some []
    → Dict.lookup j (keep_nonempty uuid ps d) ≢ some []
unfolding keep_nonempty
lookup-keep_nonempty d uuid j [] h = ground (arith, Dict.lookup-erase uuid j d)
lookup-keep_nonempty d uuid j (p ∷ ps) h = ground (arith, Dict.lookup-insert uuid j (p ∷ ps) d)

-- No set in a dict is empty or lists a member twice.
pub record AreSets (d : Dict (List ℕ)) : Type 0 where
  pub distinct : (j : Text) → IsDistinct (members j d)
  pub inhabited : (j : Text) → Dict.lookup j d ≢ some []

pub record IsValid (b : Bus) : Type 0 where
  pub listening : AreSets b.listeners
  pub calling : AreSets b.callbacks
  pub older : (j : Text) (q : ℕ) → mem q (members j b.listeners) ≡ true → q < b.fresh
  pub bounded : (q : ℕ) → IsBounded (b.queue q)

add-AreSets :
    (d : Dict (List ℕ)) (uuid : Text) (q : ℕ)
    → AreSets d
    → AreSets (Dict.insert uuid (add q (members uuid d)) d)
unfolding add mem
add-AreSets d uuid q h = record {
  distinct = λ j. ground (
    arith,
    members-insert d uuid j (add q (members uuid d)),
    add-IsDistinct q (members uuid d) (h.distinct uuid),
    h.distinct j,
  );
  inhabited = λ j.
      ground (
        arith,
        Dict.lookup-insert uuid j (add q (members uuid d)) d,
        h.inhabited j,
        h.distinct uuid,
      );
}

discard-AreSets :
    (d : Dict (List ℕ)) (uuid : Text) (q : ℕ)
    → AreSets d
    → AreSets (keep_nonempty uuid (discard q (members uuid d)) d)
discard-AreSets d uuid q h = record {
  distinct = λ j. ground (
    arith,
    members-keep_nonempty d uuid j (discard q (members uuid d)),
    discard-IsDistinct q (members uuid d) (h.distinct uuid),
    h.distinct j,
  );
  inhabited = λ j. lookup-keep_nonempty d uuid j (discard q (members uuid d)) (h.inhabited j);
}

subscribe-IsValid : (uuid : Text) (n : ℕ) (b : Bus) → IsValid b → IsValid (subscribe uuid n b).1
unfolding subscribe
subscribe-IsValid uuid n b v = record {
  listening = add-AreSets b.listeners uuid b.fresh v.listening;
  calling = v.calling;
  older = λ j q. ground (
    arith,
    members-insert b.listeners uuid j (add b.fresh (members uuid b.listeners)),
    mem-add b.fresh q (members uuid b.listeners),
    v.older uuid q,
    v.older j q,
  );
  bounded = λ q pos. ground (arith, v.bounded q);
}

unsubscribe-IsValid : (uuid : Text) (q : ℕ) (b : Bus) → IsValid b → IsValid (unsubscribe uuid q b)
unfolding unsubscribe
unsubscribe-IsValid uuid q b v = record {
  listening = discard-AreSets b.listeners uuid q v.listening;
  calling = v.calling;
  older = λ j p. ground (
    arith,
    members-keep_nonempty b.listeners uuid j (discard q (members uuid b.listeners)),
    mem-discard q p (members uuid b.listeners),
    v.older uuid p,
    v.older j p,
  );
  bounded = v.bounded;
}

-- A call of one of the bus's methods.
pub data Call : Type 0 where
  subscription unsubscription registration removal : Text → ℕ → Call
  publication : Text → Event → List Payload → Call

unfoldable pub perform : Call → Bus → Bus
perform (subscription uuid n) b = (subscribe uuid n b).1
perform (unsubscription uuid q) b = unsubscribe uuid q b
perform (registration uuid cb) b = add_callback uuid cb b
perform (removal uuid cb) b = remove_callback uuid cb b
perform (publication uuid event args) b = publish uuid event args b

unfoldable pub perform_all : List Call → Bus → Bus
unfolding perform
perform_all [] b = b
perform_all (c ∷ cs) b = perform_all cs (perform c b)

pub perform-IsValid : (c : Call) (b : Bus) → IsValid b → IsValid (perform c b)
unfolding perform add_callback remove_callback publish
perform-IsValid (subscription uuid n) b v = subscribe-IsValid uuid n b v
perform-IsValid (unsubscription uuid q) b v = unsubscribe-IsValid uuid q b v
perform-IsValid (registration uuid cb) b v = record {
  listening = v.listening;
  calling = add-AreSets b.callbacks uuid cb v.calling;
  older = v.older;
  bounded = v.bounded;
}
perform-IsValid (removal uuid cb) b v = record {
  listening = v.listening;
  calling = discard-AreSets b.callbacks uuid cb v.calling;
  older = v.older;
  bounded = v.bounded;
}
perform-IsValid (publication uuid event args) b v = record {
  listening = v.listening;
  calling = v.calling;
  older = v.older;
  bounded = deliver-IsBounded _ (members uuid b.listeners) b.queue v.bounded;
}

pub empty_bus-IsValid : IsValid empty_bus
unfolding Dict.lookup mem
empty_bus-IsValid = record {
  listening = record { distinct = λ j. tt; inhabited = λ j h. cc };
  calling = record { distinct = λ j. tt; inhabited = λ j h. cc };
  older = λ j q h. cc;
  bounded = λ q pos. omega arith;
}

-- Whatever methods are called on a valid bus, and in whatever order, it stays valid: no set in its
-- dicts is empty or lists a member twice, every listening number belongs to a queue that was handed
-- out before, and no queue with a bound holds more items than its bound.
pub perform_all-IsValid : (cs : List Call) (b : Bus) → IsValid b → IsValid (perform_all cs b)
unfolding perform_all
perform_all-IsValid [] b v = v
perform_all-IsValid (c ∷ cs) b v = perform_all-IsValid cs (perform c b) (perform-IsValid c b v)
