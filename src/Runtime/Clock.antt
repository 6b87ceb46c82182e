-- ===== src/Runtime/Clock.antt =====
-- clock.rs: the virtual clock, under its lock; a hook is its number, and whether its registration lives is asked.
pub mod Woken
mod Tests
use easycon_sdk.Common.{
  ℕ, ◌+◌, ◌^◌, ltb, leb, ◌==◌, ◌&&◌, not, Bool, true, false, Option, none, some, List, [], ◌∷◌,
  ◌++◌, if◌then◌else◌, checked_add,
}
use easycon_sdk.Runtime.Deadline.{fetch_add, sort_keys}

pub record DeadlineTrace : Type 0 where
  pub id : ℕ
  pub target_ns : ℕ
  pub dispatched_at_ns : Option ℕ
  pub woken : Bool

pub record VirtualClock : Type 0 where
  pub now_ns : ℕ
  pub next_deadline : ℕ
  pub hooks : List ℕ
  pub deadlines : List DeadlineTrace
  pub wake_order : List ℕ

-- `VirtualClock::new`.
abbrev pub new_clock : ℕ → VirtualClock
new_clock now_ns = record {
  now_ns = now_ns;
  next_deadline = 1;
  hooks = [];
  deadlines = [];
  wake_order = [];
}

abbrev pub wakes_at : ℕ → DeadlineTrace → Bool
wakes_at target_ns d = not d.woken && leb d.target_ns target_ns

-- The targets and ids that an advance wakes, in the order of their registration.
abbrev pub newly_woken : ℕ → List DeadlineTrace → List (ℕ × ℕ)
newly_woken target_ns [] = []
newly_woken target_ns (d ∷ ds) =
    let rest = newly_woken target_ns ds in
    if wakes_at target_ns d then (d.target_ns, d.id) ∷ rest else rest

abbrev pub wake_all : ℕ → List DeadlineTrace → List DeadlineTrace
wake_all target_ns [] = []
wake_all target_ns (d ∷ ds) =
    (if wakes_at target_ns d then record d { woken = true } else d) ∷ wake_all target_ns ds

abbrev pub ids : List (ℕ × ℕ) → List ℕ
ids [] = []
ids ((t, i) ∷ keys) = i ∷ ids keys

abbrev retain : (lives : ℕ → Bool) → List ℕ → List ℕ
retain lives [] = []
retain lives (h ∷ hooks) = let rest = retain lives hooks in if lives h then h ∷ rest else rest

-- The clock after an advance, and the hooks to invoke.
unfoldable pub advance_state :
    (lives : ℕ → Bool) → VirtualClock → (target_ns : ℕ) → VirtualClock × List ℕ
advance_state lives c target_ns =
    let hooks = retain lives c.hooks in
    (
      record c {
        hooks = hooks;
        deadlines = wake_all target_ns c.deadlines;
        wake_order = c.wake_order ++ ids (sort_keys (newly_woken target_ns c.deadlines));
      },
      hooks,
    )

-- Absent if it panics.
unfoldable pub advance_to :
    (lives : ℕ → Bool) → VirtualClock → (target_ns : ℕ) → Option (VirtualClock × List ℕ)
unfolding advance_state
advance_to lives c target_ns =
    if ltb target_ns c.now_ns
    then none
    else some (advance_state lives (record c { now_ns = target_ns }) target_ns)

abbrev advanced_by : (lives : ℕ → Bool) → VirtualClock → Option ℕ → Option (VirtualClock × List ℕ)
advanced_by lives c none = none
advanced_by lives c (some target_ns) =
    some (advance_state lives (record c { now_ns = target_ns }) target_ns)

-- By the nanoseconds of a duration.
unfoldable pub advance_by :
    (lives : ℕ → Bool) → VirtualClock → (delta : ℕ) → Option (VirtualClock × List ℕ)
unfolding advance_state
advance_by lives c delta =
    if leb (2 ^ 64) delta then none else advanced_by lives c (checked_add c.now_ns delta)

unfoldable pub on_change : (lives : ℕ → Bool) → VirtualClock → (hook : ℕ) → VirtualClock
on_change lives c hook = record c { hooks = retain lives c.hooks ++ hook ∷ [] }

abbrev registered : VirtualClock → ℕ → ℕ × Option ℕ → VirtualClock × Option ℕ
registered c target_ns (next, none) = (record c { next_deadline = next }, none)
registered c target_ns (next, some id) =
    let woken = leb target_ns c.now_ns in
    let trace : DeadlineTrace = record {
      id = id;
      target_ns = target_ns;
      dispatched_at_ns = none;
      woken = woken;
    } in
    (
      record c {
        next_deadline = next;
        deadlines = c.deadlines ++ trace ∷ [];
        wake_order = if woken then c.wake_order ++ id ∷ [] else c.wake_order;
      },
      some id,
    )

unfoldable pub register_deadline : VirtualClock → (target_ns : ℕ) → VirtualClock × Option ℕ
unfolding fetch_add
register_deadline c target_ns = registered c target_ns (fetch_add c.next_deadline)

-- The first deadline of that id.
abbrev pub dispatch_first : ℕ → ℕ → List DeadlineTrace → List DeadlineTrace
dispatch_first id actual_ns [] = []
dispatch_first id actual_ns (d ∷ ds) =
    let rest = dispatch_first id actual_ns ds in
    if d.id == id then record d { dispatched_at_ns = some actual_ns } ∷ ds else d ∷ rest

unfoldable pub record_dispatch : VirtualClock → (id actual_ns : ℕ) → VirtualClock
record_dispatch c id actual_ns = record c { deadlines = dispatch_first id actual_ns c.deadlines }
