-- ===== src/Runtime/Events.antt =====
-- crates/easycon-runtime/src/event.rs: the bounded queue of one subscription. Every method runs under
-- the queue's lock. Sequence numbers, times and counts are u64. Waiting is not modelled: `read` is one
-- pull, which answers `timeout` where the source would wait.
pub mod Shape
pub mod Gaps
pub mod Spans
pub mod Criticals
pub mod Enqueue
pub mod Account
pub mod Stream
mod Tests
use easycon_sdk.Common.{
  ℕ, zero, suc, ◌+◌, ◌-◌, Bool, true, false, not, ◌&&◌, ◌||◌, Option, none, some, List, [], ◌∷◌,
  ◌++◌, String, min, max, ltb, leb, ◌==◌, if◌then◌else◌, get_elem?, length, saturating_add,
}

pub data EventClass : Type 0 where
  ordinary critical : EventClass

-- The source's `EventGap`: the first and the last sequence number dropped, and how many.
pub record EventGap : Type 0 where
  pub first_sequence : ℕ
  pub last_sequence : ℕ
  pub dropped_count : ℕ

pub data EventKind : Type 0 where
  state_kind terminal_kind warning_kind timing_deviation data_kind log_kind : EventKind
  gap_kind : EventGap → EventKind

pub data Severity : Type 0 where
  debug info warning error : Severity

-- The derived order of the severities.
abbrev severity_rank : Severity → ℕ
severity_rank debug = 0
severity_rank info = 1
severity_rank warning = 2
severity_rank error = 3

pub record Event : Type 0 where
  pub sequence : ℕ
  pub timestamp_ns : ℕ
  pub class : EventClass
  pub kind : EventKind
  pub code : String
  pub severity : Severity
  pub operation_id : Option ℕ
  pub resource_id : Option ℕ
  pub detail : Option String

pub record SubscriptionOptions : Type 0 where
  pub capacity : ℕ
  pub minimum_severity : Severity
  pub include_logs : Bool

pub record PendingGap : Type 0 where
  pub first : ℕ
  pub last : ℕ
  pub count : ℕ
  pub timestamp_ns : ℕ

pub data QueueEntry : Type 0 where
  event : Event → QueueEntry
  gap : PendingGap → QueueEntry

pub record QueueState : Type 0 where
  pub entries : List QueueEntry
  pub event_count : ℕ
  pub closed : Bool

abbrev pub empty_queue : QueueState
empty_queue = record { entries = []; event_count = 0; closed = false }

-- `PendingGap::from_event`.
abbrev pub gap_of : Event → PendingGap
gap_of e = record {
  first = e.sequence;
  last = e.sequence;
  count = 1;
  timestamp_ns = e.timestamp_ns;
}

abbrev pub merge : PendingGap → PendingGap → PendingGap
merge g other = record {
  first = min g.first other.first;
  last = max g.last other.last;
  count = saturating_add g.count other.count;
  timestamp_ns = max g.timestamp_ns other.timestamp_ns;
}

-- `PendingGap::into_event`.
unfoldable pub into_event : PendingGap → Event
into_event g = record {
  sequence = g.last;
  timestamp_ns = g.timestamp_ns;
  class = critical;
  kind =
      gap_kind
        (record { first_sequence = g.first; last_sequence = g.last; dropped_count = g.count });
  code = "runtime.event_gap";
  severity = warning;
  operation_id = none;
  resource_id = none;
  detail = none;
}

-- `VecDeque::remove` and `VecDeque::insert`, on the entries.
unfoldable pub remove_at : ℕ → List QueueEntry → List QueueEntry
remove_at i [] = []
remove_at zero (x ∷ xs) = xs
remove_at (suc i) (x ∷ xs) = x ∷ remove_at i xs

unfoldable pub insert_at : ℕ → QueueEntry → List QueueEntry → List QueueEntry
insert_at zero x xs = x ∷ xs
insert_at (suc i) x [] = x ∷ []
insert_at (suc i) x (y ∷ ys) = y ∷ insert_at i x ys

-- `entries.get(index)`, if that is a gap.
unfoldable pub gap_at : ℕ → List QueueEntry → Option PendingGap
gap_at i [] = none
gap_at zero (gap g ∷ xs) = some g
gap_at zero (event e ∷ xs) = none
gap_at (suc i) (x ∷ xs) = gap_at i xs

-- The second half of `record_gap_at`: merge with the entry at the index, and insert.
unfoldable pub merge_next : List QueueEntry → ℕ → PendingGap → List QueueEntry
unfolding gap_at insert_at remove_at
merge_next entries index g = elim (gap_at index entries) [
  | none ↦ insert_at index (gap g) entries
  | some next ↦ insert_at index (gap (merge g next)) (remove_at index entries)
]

-- `record_gap_at`, on the entries. The index 0 has no entry in front of it.
unfoldable pub record_gap : List QueueEntry → ℕ → PendingGap → List QueueEntry
unfolding merge_next gap_at remove_at
record_gap entries zero g = merge_next entries zero g
record_gap entries (suc i) g = elim (gap_at i entries) [
  | none ↦ merge_next entries (suc i) g
  | some previous ↦ merge_next (remove_at i entries) i (merge g previous)
]

-- The event at an index, if the entry there is one.
unfoldable pub event_at : ℕ → List QueueEntry → Option Event
event_at i [] = none
event_at zero (event e ∷ xs) = some e
event_at zero (gap g ∷ xs) = none
event_at (suc i) (x ∷ xs) = event_at i xs

-- `drop_event_at`; `none` is its panic where no event stands at the index.
unfoldable pub drop_event_at : QueueState → ℕ → Option QueueState
unfolding event_at record_gap remove_at
drop_event_at s index = elim (event_at index s.entries) [
  | none ↦ none
  | some dropped ↦ some (record s {
    entries = record_gap (remove_at index s.entries) index (gap_of dropped);
    event_count = s.event_count - 1;
  })
]

abbrev pub is_ordinary : Event → Bool
is_ordinary e = elim e.class [ ordinary ↦ true | critical ↦ false ]

abbrev pub any_event : Event → Bool
any_event e = true

abbrev pub shift_index : Option ℕ → Option ℕ
shift_index none = none
shift_index (some i) = some (suc i)

-- `entries.iter().position(…)`, for a test on the events.
unfoldable pub position : (Event → Bool) → List QueueEntry → Option ℕ
position p [] = none
position p (gap g ∷ xs) = shift_index (position p xs)
position p (event e ∷ xs) = let later = shift_index (position p xs) in if p e then some 0 else later

unfoldable pub push_event : QueueState → Event → QueueState
push_event s e = record s { entries = s.entries ++ event e ∷ []; event_count = s.event_count + 1 }

abbrev push_onto : Event → Option QueueState → Option QueueState
push_onto e none = none
push_onto e (some s) = some (push_event s e)

-- Drop the entry at a position and push; `none` is the `expect` on a position that is not there.
abbrev pub drop_and_push : QueueState → Option ℕ → Event → Option QueueState
drop_and_push s none e = none
drop_and_push s (some index) e = push_onto e (drop_event_at s index)

-- A full queue: `ordinary` is the position of the first ordinary event.
abbrev pub enqueue_full : QueueState → Option ℕ → EventClass → Event → Option QueueState
enqueue_full s (some index) class e = drop_and_push s (some index) e
enqueue_full s none critical e = drop_and_push s (position any_event s.entries) e
enqueue_full s none ordinary e =
    some (record s { entries = record_gap s.entries (length s.entries) (gap_of e) })

-- `enqueue_accepted_state`, without its answer whether to notify the reader.
unfoldable pub enqueue_accepted : SubscriptionOptions → QueueState → Event → Option QueueState
enqueue_accepted options s e =
    if s.closed
    then some s
    else if leb options.capacity s.event_count
    then enqueue_full s (position is_ordinary s.entries) e.class e
    else some (push_event s e)

abbrev is_log : EventKind → Bool
is_log log_kind = true
is_log _ = false

-- `SubscriptionInner::enqueue`, the filter in front.
unfoldable pub enqueue : SubscriptionOptions → QueueState → Event → Option QueueState
unfolding enqueue_accepted
enqueue options s e =
    if ltb (severity_rank e.severity) (severity_rank options.minimum_severity)
      || (not options.include_logs && is_log e.kind)
    then some s
    else enqueue_accepted options s e

pub data SubscriptionRead : Type 0 where
  read_event : Event → SubscriptionRead
  timeout : SubscriptionRead
  read_closed : SubscriptionRead

abbrev pub read_entries : List QueueEntry → QueueState → QueueState × SubscriptionRead
read_entries (event e ∷ rest) s =
    (record s { entries = rest; event_count = s.event_count - 1 }, read_event e)
read_entries (gap g ∷ rest) s = (record s { entries = rest }, read_event (into_event g))
read_entries [] s = (s, if s.closed then read_closed else timeout)

-- One pull of `read` with `WaitTimeout::Poll`.
unfoldable pub read : QueueState → QueueState × SubscriptionRead
unfolding into_event
read s = read_entries s.entries s

-- `SubscriptionInner::close`.
unfoldable pub close : QueueState → QueueState
close s = record s { closed = true }

-- One subscription in `close_subscriptions_with_final`.
unfoldable pub close_with_final : SubscriptionOptions → QueueState → Event → Option QueueState
close_with_final options s e = elim (enqueue_accepted options s e) [
  | none ↦ none
  | some next ↦ some (record next { closed = true })
]
