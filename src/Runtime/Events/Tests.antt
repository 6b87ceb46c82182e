-- ===== src/Runtime/Events/Tests.antt =====
-- event.rs: the laws of a queue at concrete events.
use easycon_sdk.Common.{ℕ, ◌*◌, ◌≡◌, ◌≤◌, refl, true, false, none, some, List, [], ◌∷◌, arith}
use easycon_sdk.Runtime.Events.{
  Event, EventClass, ordinary, critical, state_kind, info, debug, event, gap, QueueState,
  SubscriptionOptions, enqueue_accepted,
}
use easycon_sdk.Runtime.Events.Stream.{Feed, publish, pull, shut, feed, RisingFrom, feed_rising}
use easycon_sdk.Runtime.Events.Account.{IsQueue, IsStored, enqueue_accepted-IsStored}

abbrev two_places : SubscriptionOptions
two_places = record { capacity = 2; minimum_severity = debug; include_logs = true }

abbrev plain_event : ℕ → EventClass → Event
plain_event n c = record {
  sequence = n;
  timestamp_ns = 10 * n;
  class = c;
  kind = state_kind;
  code = "operation.state";
  severity = info;
  operation_id = some 1;
  resource_id = none;
  detail = none;
}

-- A full queue: a gap, an ordinary event and a critical one.
abbrev full_queue : QueueState
full_queue = record {
  entries =
      gap (record { first = 1; last = 3; count = 3; timestamp_ns = 30 })
      ∷ event (plain_event 4 ordinary)
      ∷ event (plain_event 6 critical)
      ∷ [];
  event_count = 2;
  closed = false;
}

full_queue-IsQueue : IsQueue two_places 7 full_queue
full_queue-IsQueue = ground arith

enqueue_accepted-IsStored_example :
    (t : QueueState) × (enqueue_accepted two_places full_queue (plain_event 9 critical) ≡ some t)
    × IsStored two_places full_queue (plain_event 9 critical) t
enqueue_accepted-IsStored_example =
    enqueue_accepted-IsStored two_places 7 full_queue (plain_event 9 critical) (omega arith) refl
      full_queue-IsQueue (omega arith) (omega arith)

-- Publications, reads and a close, one after the other.
abbrev busy : List Feed
busy =
    publish (plain_event 8 ordinary)
    ∷ pull
    ∷ publish (plain_event 9 critical)
    ∷ pull
    ∷ pull
    ∷ shut
    ∷ publish (plain_event 12 critical)
    ∷ pull
    ∷ []

feed_rising_example :
    (t : QueueState) × (es : List Event) × (feed two_places busy full_queue ≡ some (t, es))
    × (t.event_count ≤ two_places.capacity)
    × RisingFrom 1 es
feed_rising_example =
    feed_rising two_places busy 1 7 full_queue (omega arith) full_queue-IsQueue (ground arith)
      (omega arith)
