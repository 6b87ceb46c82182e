-- ===== src/Runtime/Deadline.antt =====
-- deadline.rs: the signal of one registration, and the state of the scheduler under its lock. The shared
-- signal of a registration is found under its id, a waker is its task, and the heap is its sorted list.
pub mod Waker
pub mod Queue
pub mod Fire
pub mod Due
pub mod Next
pub mod Scheduler
pub mod Placed
pub mod Resolved
pub mod Drained
pub mod Notify
mod Tests
use easycon_sdk.Common.{
  ℕ, zero, suc, ◌+◌, ◌-◌, ◌^◌, ◌%◌, ltb, leb, ◌==◌, ◌||◌, ◌&&◌, not, Bool, true, false, Option,
  none, some, List, [], ◌∷◌, ◌++◌, map, length, if◌then◌else◌, is_some,
}
use easycon_sdk.Runtime.Table.{get, remove, insert}

pub data DeadlineResolution : Type 0 where
  fired disarmed runtime_closed : DeadlineResolution

pub record DeadlineOutcome : Type 0 where
  pub resolution : DeadlineResolution
  pub order : ℕ

pub record DeadlineResolutionState : Type 0 where
  pub outcome : Option DeadlineOutcome
  pub waker : Option ℕ

abbrev pub armed : DeadlineResolutionState
armed = record { outcome = none; waker = none }

abbrev resolve_in :
    Option DeadlineOutcome
    → DeadlineResolutionState
    → DeadlineOutcome
    → DeadlineResolutionState × Bool
resolve_in (some o) s outcome = (s, false)
resolve_in none s outcome = (record s { outcome = some outcome }, true)

unfoldable pub resolve : DeadlineResolutionState → DeadlineOutcome → DeadlineResolutionState × Bool
resolve s outcome = resolve_in s.outcome s outcome

abbrev pub take_waker : DeadlineResolutionState → DeadlineResolutionState × Option ℕ
take_waker s = (record s { waker = none }, s.waker)

-- `DeadlineSignalInner::commit_resolution`: absent, or the waker to notify.
unfoldable pub commit_resolution :
    DeadlineResolutionState → DeadlineOutcome → DeadlineResolutionState × Option (Option ℕ)
unfolding resolve
commit_resolution s outcome =
    let (s', resolved) = resolve s outcome in
    let (s'', waker) = take_waker s' in if resolved then (s'', some waker) else (s', none)

pub data DeadlinePollResolution : Type 0 where
  ready : DeadlineOutcome → (candidate : ℕ) → DeadlinePollResolution
  pending_unchanged : (candidate : ℕ) → DeadlinePollResolution
  pending_replaced : (displaced : Option ℕ) → DeadlinePollResolution

abbrev will_wake : Option ℕ → ℕ → Bool
will_wake none candidate = false
will_wake (some registered) candidate = registered == candidate

abbrev poll_in :
    Option DeadlineOutcome
    → DeadlineResolutionState
    → ℕ
    → DeadlineResolutionState × DeadlinePollResolution
poll_in (some outcome) s candidate = (s, ready outcome candidate)
poll_in none s candidate =
    if will_wake s.waker candidate
    then (s, pending_unchanged candidate)
    else (record s { waker = some candidate }, pending_replaced s.waker)

-- `DeadlineResolutionState::poll_resolution`.
unfoldable pub poll_resolution :
    DeadlineResolutionState → (candidate : ℕ) → DeadlineResolutionState × DeadlinePollResolution
poll_resolution s candidate = poll_in s.outcome s candidate

-- What `Future::poll` answers, absent while it is pending.
abbrev pub polled : DeadlinePollResolution → Option DeadlineOutcome
polled (ready outcome candidate) = some outcome
polled (pending_unchanged candidate) = none
polled (pending_replaced displaced) = none

pub record ScheduledDeadline : Type 0 where
  pub target_ns : ℕ
  pub trace_id : ℕ

pub record PendingDeadline : Type 0 where
  pub target_ns : ℕ

pub record DeadlineSchedulerState : Type 0 where
  pub admission_open : Bool
  pub pending : List (ℕ × PendingDeadline)
  pub entries : List (ℕ × ScheduledDeadline)
  pub queue : List (ℕ × ℕ)

abbrev pub new_scheduler_state : DeadlineSchedulerState
new_scheduler_state = record { admission_open = true; pending = []; entries = []; queue = [] }

-- The order of the pairs of a target and an id.
abbrev pub key_leb : ℕ → ℕ → ℕ → ℕ → Bool
key_leb t i u j = ltb t u || (t == u && leb i j)

-- `BinaryHeap::push`: `peek` and `pop` see the least pair first.
abbrev pub push : ℕ → ℕ → List (ℕ × ℕ) → List (ℕ × ℕ)
push t i [] = (t, i) ∷ []
push t i ((u, j) ∷ q) = if key_leb t i u j then (t, i) ∷ (u, j) ∷ q else (u, j) ∷ push t i q

-- `fetch_add` on the counters of ids and of orders: absent if the assertion on zero fails.
unfoldable pub fetch_add : (counter : ℕ) → ℕ × Option ℕ
fetch_add counter = ((counter + 1) % 2 ^ 64, if counter == 0 then none else some counter)

-- `reserve` under the lock, once its id is taken.
unfoldable pub reserve_pending :
    DeadlineSchedulerState → (id target_ns : ℕ) → Option DeadlineSchedulerState
reserve_pending s id target_ns =
    if s.admission_open
    then some (record s { pending = insert id (record { target_ns = target_ns }) s.pending })
    else none

abbrev commit_found :
    Option PendingDeadline → DeadlineSchedulerState → ℕ → ℕ → DeadlineSchedulerState × Bool
commit_found none s id trace_id = (s, false)
commit_found (some p) s id trace_id = (
  record s {
    pending = remove id s.pending;
    entries = insert id (record { target_ns = p.target_ns; trace_id = trace_id }) s.entries;
    queue = push p.target_ns id s.queue;
  },
  true,
)

unfoldable pub commit_reservation :
    DeadlineSchedulerState → (id trace_id : ℕ) → DeadlineSchedulerState × Bool
commit_reservation s id trace_id = commit_found (get id s.pending) s id trace_id

-- `abandon_reservation`: whether the worker is woken.
unfoldable pub abandon_reservation : DeadlineSchedulerState → ℕ → DeadlineSchedulerState × Bool
abandon_reservation s id = (record s { pending = remove id s.pending }, is_some (get id s.pending))

abbrev pub seal_admission : DeadlineSchedulerState → DeadlineSchedulerState
seal_admission s = record s { admission_open = false }

abbrev hits : Option ScheduledDeadline → ℕ → Bool
hits none target_ns = false
hits (some e) target_ns = e.target_ns == target_ns

-- Whether a pair of the queue still stands for an entry.
abbrev pub is_live : List (ℕ × ScheduledDeadline) → ℕ → ℕ → Bool
is_live entries target_ns id = hits (get id entries) target_ns

abbrev pub prune : List (ℕ × ScheduledDeadline) → List (ℕ × ℕ) → List (ℕ × ℕ)
prune entries [] = []
prune entries ((t, i) ∷ q) =
    let rest = prune entries q in if is_live entries t i then (t, i) ∷ q else rest

unfoldable pub prune_stale : DeadlineSchedulerState → DeadlineSchedulerState
prune_stale s = record s { queue = prune s.entries s.queue }

abbrev pub precedes : List (ℕ × PendingDeadline) → ℕ → ℕ → ℕ → Bool
precedes [] target_ns id now_ns = false
precedes ((j, p) ∷ pending) target_ns id now_ns =
    (leb p.target_ns now_ns && key_leb p.target_ns j target_ns id)
    || precedes pending target_ns id now_ns

unfoldable pub pending_precedes_or_matches :
    DeadlineSchedulerState → (target_ns id now_ns : ℕ) → Bool
pending_precedes_or_matches s target_ns id now_ns = precedes s.pending target_ns id now_ns

-- The entries that a batch has collected, with their ids.
abbrev pub Due : Type 0
Due = List (ℕ × ScheduledDeadline)

abbrev pub collected : ℕ → Option ScheduledDeadline → Due → Due
collected id none due = due
collected id (some e) due = due ++ (id, e) ∷ []

abbrev turn :
    (now_ns : ℕ)
    → DeadlineSchedulerState
    → List (ℕ × ℕ)
    → Due
    → Option (DeadlineSchedulerState × Due)
turn now_ns s [] due = none
turn now_ns s ((t, i) ∷ q) due =
    if ltb now_ns t || pending_precedes_or_matches s t i now_ns
    then none
    else some (
      prune_stale (record s { queue = q; entries = remove i s.entries }),
      collected i (get i s.entries) due,
    )

-- One turn of the loop of `fire_due_at`, absent where the loop ends.
unfoldable pub fire_turn :
    (now_ns : ℕ) → DeadlineSchedulerState → Due → Option (DeadlineSchedulerState × Due)
unfolding pending_precedes_or_matches prune_stale
fire_turn now_ns s due = turn now_ns s s.queue due

unfoldable pub fire_loop :
    ℕ → (now_ns : ℕ) → DeadlineSchedulerState → Due → DeadlineSchedulerState × Due
fire_loop zero now_ns s due = (s, due)
fire_loop (suc fuel) now_ns s due = elim (fire_turn now_ns s due) [
  | none ↦ (s, due)
  | some (s', due') ↦ fire_loop fuel now_ns s' due'
]

-- `fire_due_at` under the lock; every turn takes a pair off the queue.
unfoldable pub collect_due : DeadlineSchedulerState → (now_ns : ℕ) → DeadlineSchedulerState × Due
unfolding fire_loop fire_turn prune_stale
collect_due s now_ns = let s' = prune_stale s in fire_loop (length s'.queue) now_ns s' []

abbrev pub peek : List (ℕ × ℕ) → Option (ℕ × ℕ)
peek [] = none
peek (p ∷ q) = some p

abbrev pub lesser : ℕ × ℕ → Option (ℕ × ℕ) → Option (ℕ × ℕ)
lesser p none = some p
lesser (t, i) (some (u, j)) = some (if key_leb t i u j then (t, i) else (u, j))

abbrev pub least_pending : List (ℕ × PendingDeadline) → Option (ℕ × ℕ)
least_pending [] = none
least_pending ((j, p) ∷ pending) = lesser (p.target_ns, j) (least_pending pending)

abbrev pub next_of : Option (ℕ × ℕ) → Option (ℕ × ℕ) → Option ℕ
next_of none pending = none
next_of (some (t, i)) none = some t
next_of (some (t, i)) (some (u, j)) = if key_leb u j t i then none else some t

unfoldable pub next_target_ns : DeadlineSchedulerState → DeadlineSchedulerState × Option ℕ
unfolding prune_stale
next_target_ns s =
    let s' = prune_stale s in (s', next_of (peek s'.queue) (least_pending s'.pending))

abbrev pub pending_keys : List (ℕ × PendingDeadline) → List (ℕ × ℕ)
pending_keys [] = []
pending_keys ((j, p) ∷ pending) = (p.target_ns, j) ∷ pending_keys pending

abbrev pub entry_keys : List (ℕ × ScheduledDeadline) → List (ℕ × ℕ)
entry_keys [] = []
entry_keys ((j, e) ∷ entries) = (e.target_ns, j) ∷ entry_keys entries

-- `sort_by_key`.
abbrev pub sort_keys : List (ℕ × ℕ) → List (ℕ × ℕ)
sort_keys [] = []
sort_keys ((t, i) ∷ keys) = push t i (sort_keys keys)

-- `drain_runtime_closed` up to its commits: the targets and ids to resolve, in order.
unfoldable pub drain : DeadlineSchedulerState → DeadlineSchedulerState × List (ℕ × ℕ)
drain s =
    let sealed = seal_admission s in
    (
      record sealed { pending = []; entries = [] },
      sort_keys (pending_keys s.pending ++ entry_keys s.entries),
    )

-- `disarm` up to its commit: whether the entry was still there.
unfoldable pub disarm_entry : DeadlineSchedulerState → ℕ → DeadlineSchedulerState × Bool
disarm_entry s id = (record s { entries = remove id s.entries }, is_some (get id s.entries))
