-- ===== src/Tests/Listening.antt =====
-- Runs of the bus.
use pywings.Prelude.{◌⊎◌, true, false, ◌≡◌, refl, List, [], ◌∷◌, lit, text_eq}
use pywings.Prelude.Dict
use pywings.Events.{Bus, status, stats, plain, empty_bus, mem, members, publish}
use pywings.Events.Delivery.{IsLatest, IsDistinct, queue-publish}
use pywings.Events.Subscriptions.{
  IsValid, Call, subscription, unsubscription, registration, publication, perform_all,
  perform_all-IsValid, empty_bus-IsValid,
}

-- Two queues listen to the server, and the first one is full.
abbrev bus : Bus
bus = record empty_bus {
  listeners = (lit "one", 1 ∷ 0 ∷ []) ∷ [];
  queue = λ q. record { maxsize = 1; items = (record { event = stats; args = [] }) ∷ [] };
  fresh = 2;
}

bus-IsDistinct : IsDistinct (members (lit "one") bus.listeners)
unfolding Dict.lookup text_eq mem
bus-IsDistinct = (refl, (refl, tt))

abbrev told : Bus
told = publish (lit "one") status (plain (lit "running") ∷ []) bus

queue-publish_example :
    ((mem 0 (members (lit "one") bus.listeners) ≡ true)
      × IsLatest
          (record { event = status; args = plain (lit "running") ∷ [] })
          (bus.queue 0)
          (told.queue 0))
    ⊎ ((mem 0 (members (lit "one") bus.listeners) ≡ false) × (told.queue 0 ≡ bus.queue 0))
queue-publish_example =
    queue-publish (lit "one") status (plain (lit "running") ∷ []) bus 0 bus-IsDistinct

abbrev calls : List Call
calls =
    subscription (lit "one") 500
    ∷ registration (lit "one") 7
    ∷ publication (lit "one") status []
    ∷ unsubscription (lit "one") 0
    ∷ []

perform_all-IsValid_example : IsValid (perform_all calls empty_bus)
perform_all-IsValid_example = perform_all-IsValid calls empty_bus empty_bus-IsValid
