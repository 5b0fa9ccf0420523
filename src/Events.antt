-- ===== src/Events.antt =====
-- wings/events.py: the bus that carries a server's events to queues and callbacks. A queue or a
-- callback is known by a number, as an object is by its identity; the sets are lists of numbers.
pub mod Queues
pub mod Delivery
pub mod Subscriptions
use pywings.Prelude.{
  ℕ, suc, Bool, false, none, some, List, [], ◌∷◌, ◌++◌, ◌||◌, ◌==◌, Text, if◌then◌else◌,
}
use pywings.Prelude.Dict
use pywings.Prelude.Dict.{Dict}
use pywings.Json.{Json}
use Queues.{Queue, put_latest}

pub data Event : Type 0 where
  daemon_message install_output install_started install_completed console_output : Event
  status stats backup_restore_completed backup_completed transfer_logs transfer_status : Event
  deleted token_expiring token_expired : Event

-- An argument: a text, or the text that `json.dumps` gives for a value.
pub data Payload : Type 0 where
  plain : Text → Payload
  dumped : Json → Payload

pub record Message : Type 0 where
  pub event : Event
  pub args : List Payload

pub record Bus : Type 0 where
  pub listeners : Dict (List ℕ)
  pub callbacks : Dict (List ℕ)
  -- The queues by their numbers, and the number of the next one.
  pub queue : ℕ → Queue Message
  pub fresh : ℕ
  -- The calls made to callbacks, in order.
  pub called : List (ℕ × Message)

abbrev pub empty_bus : Bus
empty_bus = record {
  listeners = [];
  callbacks = [];
  queue = λ _. record { maxsize = 0; items = [] };
  fresh = 0;
  called = [];
}

-- Sets of numbers.
unfoldable pub mem : ℕ → List ℕ → Bool
mem q [] = false
mem q (p ∷ ps) = q == p || mem q ps

unfoldable pub add : ℕ → List ℕ → List ℕ
unfolding mem
add q ps = if mem q ps then ps else q ∷ ps

unfoldable pub discard : ℕ → List ℕ → List ℕ
discard q [] = []
discard q (p ∷ ps) = let rest = discard q ps in if q == p then rest else p ∷ rest

-- d.get(server_uuid, ()) of a dict of sets.
abbrev pub members : Text → Dict (List ℕ) → List ℕ
members uuid d = elim (Dict.lookup uuid d) [ none ↦ [] | some ps ↦ ps ]

-- An emptied set is taken out of its dict.
unfoldable pub keep_nonempty : Text → List ℕ → Dict (List ℕ) → Dict (List ℕ)
keep_nonempty uuid [] d = Dict.erase uuid d
keep_nonempty uuid (p ∷ ps) d = Dict.insert uuid (p ∷ ps) d

unfoldable pub update : (ℕ → Queue Message) → ℕ → Queue Message → ℕ → Queue Message
update queue q v p = if q == p then v else queue p

unfoldable pub subscribe : Text → ℕ → Bus → ℕ × Bus
unfolding add update
subscribe uuid maxsize b = (
  b.fresh,
  record b {
    listeners = Dict.insert uuid (add b.fresh (members uuid b.listeners)) b.listeners;
    queue = update b.queue b.fresh (record { maxsize = maxsize; items = [] });
    fresh = suc b.fresh;
  },
)

unfoldable pub unsubscribe : Text → ℕ → Bus → Bus
unfolding discard keep_nonempty
unsubscribe uuid q b = record b {
  listeners = keep_nonempty uuid (discard q (members uuid b.listeners)) b.listeners;
}

unfoldable pub add_callback : Text → ℕ → Bus → Bus
unfolding add
add_callback uuid cb b = record b {
  callbacks = Dict.insert uuid (add cb (members uuid b.callbacks)) b.callbacks;
}

unfoldable pub remove_callback : Text → ℕ → Bus → Bus
unfolding discard keep_nonempty
remove_callback uuid cb b = record b {
  callbacks = keep_nonempty uuid (discard cb (members uuid b.callbacks)) b.callbacks;
}

-- The loop over the listeners of `publish`.
unfoldable pub deliver : Message → List ℕ → (ℕ → Queue Message) → ℕ → Queue Message
unfolding update
deliver m [] queue = queue
deliver m (q ∷ qs) queue = deliver m qs (update queue q (put_latest m (queue q)))

-- The loop over the callbacks. An exception of a callback is caught and logged.
unfoldable pub call_all : Message → List ℕ → List (ℕ × Message) → List (ℕ × Message)
call_all m [] called = called
call_all m (cb ∷ cbs) called = call_all m cbs (called ++ ((cb, m) ∷ []))

unfoldable pub publish : Text → Event → List Payload → Bus → Bus
unfolding deliver call_all
publish uuid event args b =
    let m : Message = record { event = event; args = args } in
    record b {
      queue = deliver m (members uuid b.listeners) b.queue;
      called = call_all m (members uuid b.callbacks) b.called;
    }
