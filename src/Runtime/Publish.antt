-- ===== src/Runtime/Publish.antt =====
-- runtime.rs: the publication of events to all subscriptions, each function as its section under the lock of the
-- subscriptions. A subscription that is gone is dropped from the list; `none` is a panic.
pub mod Fed
mod Tests
use easycon_sdk.Common.{
  ℕ, zero, suc, ◌+◌, ◌==◌, ◌&&◌, leb, Bool, true, false, String, Option, none, some, List, [], ◌∷◌,
  ◌++◌, if◌then◌else◌,
}
use easycon_sdk.Runtime.Deadline.{fetch_add}
use easycon_sdk.Runtime.Events.{
  Event, EventClass, EventKind, Severity, SubscriptionOptions, QueueState, empty_queue, enqueue,
  close_with_final, close, SubscriptionRead, read_event, timeout, read_closed, read,
}

pub record EventDraft : Type 0 where
  pub class : EventClass
  pub kind : EventKind
  pub code : String
  pub severity : Severity
  pub operation_id : Option ℕ
  pub resource_id : Option ℕ
  pub detail : Option String

-- A subscription, with the least number that a read may still return, and whether all reads kept to that.
pub record Subscriber : Type 0 where
  pub options : SubscriptionOptions
  pub queue : QueueState
  pub unread : ℕ
  pub in_order : Bool

pub record Publisher : Type 0 where
  pub next_sequence : ℕ
  pub last_event_timestamp_ns : ℕ
  pub events_closed : Bool
  pub subscriptions : List Subscriber

abbrev pub new_publisher : Publisher
new_publisher = record {
  next_sequence = 1;
  last_event_timestamp_ns = 0;
  events_closed = false;
  subscriptions = [];
}

-- `finish_event` is this event with the time stored.
abbrev pub event_of : EventDraft → (sequence timestamp_ns : ℕ) → Event
event_of d sequence timestamp_ns = record {
  sequence = sequence;
  timestamp_ns = timestamp_ns;
  class = d.class;
  kind = d.kind;
  code = d.code;
  severity = d.severity;
  operation_id = d.operation_id;
  resource_id = d.resource_id;
  detail = d.detail;
}

abbrev queued : Subscriber → Option QueueState → Option (List Subscriber) → Option (List Subscriber)
queued s (some q) (some ss) = some (record s { queue = q } ∷ ss)
queued s _ _ = none

-- `enqueue_event`.
unfoldable pub enqueue_all : List Subscriber → Event → Option (List Subscriber)
enqueue_all [] e = some []
enqueue_all (s ∷ ss) e = queued s (enqueue s.options s.queue e) (enqueue_all ss e)

-- `close_subscriptions_with_final`.
unfoldable pub close_all : List Subscriber → Event → Option (List Subscriber)
close_all [] e = some []
close_all (s ∷ ss) e = queued s (close_with_final s.options s.queue e) (close_all ss e)

abbrev pub published : Publisher → ℕ → Option (List Subscriber) → Option Publisher
published p timestamp_ns none = none
published p timestamp_ns (some ss) =
    some (record p { last_event_timestamp_ns = timestamp_ns; subscriptions = ss })

abbrev pub publish_as : Publisher → EventDraft → ℕ → ℕ × Option ℕ → Option Publisher
publish_as p d timestamp_ns (next, none) = none
publish_as p d timestamp_ns (next, some sequence) =
    published (record p { next_sequence = next }) timestamp_ns
      (enqueue_all p.subscriptions (event_of d sequence timestamp_ns))

-- `try_publish_event`, which refuses once production is closed.
unfoldable pub try_publish_event : Publisher → EventDraft → (timestamp_ns : ℕ) → Option Publisher
try_publish_event p d timestamp_ns =
    let next = publish_as p d timestamp_ns (fetch_add p.next_sequence) in
    if p.events_closed then some p else next

abbrev pub ended : Option Publisher → Option Publisher
ended none = none
ended (some p) = some (record p { events_closed = true })

abbrev pub close_as : Publisher → EventDraft → ℕ → ℕ × Option ℕ → Option Publisher
close_as p d timestamp_ns (next, none) = none
close_as p d timestamp_ns (next, some sequence) = ended (
    published (record p { next_sequence = next }) timestamp_ns
      (close_all p.subscriptions (event_of d sequence timestamp_ns)))

-- `close_events_with_clock_recovery`, once it has a time.
unfoldable pub close_events : Publisher → EventDraft → (timestamp_ns : ℕ) → Option Publisher
close_events p d timestamp_ns =
    let next = close_as p d timestamp_ns (fetch_add p.next_sequence) in
    if p.events_closed then some p else next

abbrev pub shut_all : List Subscriber → List Subscriber
shut_all [] = []
shut_all (s ∷ ss) = record s { queue = close s.queue } ∷ shut_all ss

unfoldable pub force_close_event_producers : Publisher → Publisher
unfolding close
force_close_event_producers p = record p {
  events_closed = true;
  subscriptions = shut_all p.subscriptions;
}

-- `subscribe` under the lock of the state.
unfoldable pub subscribe : (is_active : Bool) → Publisher → SubscriptionOptions → Publisher
subscribe is_active p options =
    let s : Subscriber = record {
      options = options;
      queue = empty_queue;
      unread = 0;
      in_order = true;
    } in
    if options.capacity == 0
    then p
    else if is_active
    then record p { subscriptions = p.subscriptions ++ s ∷ [] }
    else p

abbrev pub after_read : Subscriber → QueueState × SubscriptionRead → Subscriber
after_read s (q, read_event e) = record s {
  queue = q;
  unread = suc e.sequence;
  in_order = s.in_order && leb s.unread e.sequence;
}
after_read s (q, timeout) = record s { queue = q }
after_read s (q, read_closed) = record s { queue = q }

-- A read of the subscription at a place, and the drop of one.
abbrev pub pull_at : ℕ → List Subscriber → List Subscriber
pull_at i [] = []
pull_at zero (s ∷ ss) = after_read s (read s.queue) ∷ ss
pull_at (suc i) (s ∷ ss) = s ∷ pull_at i ss

abbrev pub drop_at : ℕ → List Subscriber → List Subscriber
drop_at i [] = []
drop_at zero (s ∷ ss) = ss
drop_at (suc i) (s ∷ ss) = s ∷ drop_at i ss
