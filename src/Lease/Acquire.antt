-- ===== src/Lease/Acquire.antt =====
-- session.rs, `AcquireRecord` and the future over it: one request for an Automation lease. What the record
-- reads from the token, the clock, the deadline and the controller is its `Signals`; a clock that panics
-- has no time.
pub mod Delivery
mod Tests
use easycon_sdk.Common.{
  ℕ, zero, suc, Bool, true, false, ◌&&◌, Option, none, some, leb, if◌then◌else◌, List, [], ◌∷◌,
  ◌++◌, get_elem?, get_or,
}
use easycon_sdk.Model.Error.{EasyConError}
use easycon_sdk.Lease.{acquire_clock_panic_error, acquire_resolution_panic_error}

-- A granted lease is its generation.
pub data AcquireOutcome : Type 0 where
  granted : ℕ → AcquireOutcome
  acquire_cancelled acquire_deadline acquire_closed : AcquireOutcome
  acquire_failure : EasyConError → AcquireOutcome

pub data DeadlineResolution : Type 0 where
  fired disarmed runtime_closed : DeadlineResolution

pub record Signals : Type 0 where
  pub is_cancelled : Bool
  pub deadline_fired : Bool
  pub deadline_ns : Option ℕ
  pub now_ns : Option ℕ
  pub closing : Bool

abbrev after_deadline : Signals → Option AcquireOutcome
after_deadline g = if g.closing then some acquire_closed else none

abbrev at_deadline : Signals → Option ℕ → Option ℕ → Option AcquireOutcome
at_deadline g none now = after_deadline g
at_deadline g (some deadline) none = some (acquire_failure acquire_clock_panic_error)
at_deadline g (some deadline) (some now) =
    if leb deadline now then some acquire_deadline else after_deadline g

unfoldable pub observed_outcome : Signals → Option AcquireOutcome
observed_outcome g =
    if g.is_cancelled
    then some acquire_cancelled
    else if g.deadline_fired
    then some acquire_deadline
    else at_deadline g g.deadline_ns g.now_ns

-- What a resolver publishes, on the signals that it saw and what its fallback comes to; a fallback that
-- panics comes to nothing.
unfoldable pub resolved_outcome : Signals → Option AcquireOutcome → AcquireOutcome
unfolding observed_outcome
resolved_outcome g fallback = elim (observed_outcome g) [
  | some outcome ↦ outcome
  | none ↦ elim fallback [
    | some outcome ↦ outcome
    | none ↦ acquire_failure acquire_resolution_panic_error
  ]
]

-- The fallback of `resolve_deadline`.
abbrev pub deadline_fallback : DeadlineResolution → AcquireOutcome
deadline_fallback fired = acquire_deadline
deadline_fallback _ = acquire_closed

pub data AcquireStatus : Type 0 where
  pending : AcquireStatus
  resolving : (is_abandoned : Bool) → AcquireStatus
  ready : Option AcquireOutcome → AcquireStatus
  abandoned : AcquireStatus

pub record AcquireRecord : Type 0 where
  pub status : AcquireStatus
  pub waker : Bool
  pub deadline_registered : Bool

abbrev pub new_acquire : Bool → AcquireRecord
new_acquire deadline_registered = record {
  status = pending;
  waker = false;
  deadline_registered = deadline_registered;
}

abbrev reserve_in : AcquireStatus → AcquireRecord → AcquireRecord × Bool
reserve_in pending r = (record r { status = resolving false }, true)
reserve_in _ r = (r, false)

unfoldable pub reserve_resolution : AcquireRecord → AcquireRecord × Bool
reserve_resolution r = reserve_in r.status r

-- What a publication leaves: the record, whether it published, whether a waiter is woken, and an outcome
-- that nobody will take, which is dropped.
pub record Published : Type 0 where
  pub acquire : AcquireRecord
  pub accepted : Bool
  pub woken : Bool
  pub unclaimed : Option AcquireOutcome

abbrev publish_in : AcquireStatus → AcquireRecord → AcquireOutcome → Published
publish_in (resolving false) r outcome = record {
  acquire = record { status = ready (some outcome); waker = false; deadline_registered = false };
  accepted = true;
  woken = r.waker;
  unclaimed = none;
}
publish_in (resolving true) r outcome = record {
  acquire = record r { status = abandoned; deadline_registered = false };
  accepted = true;
  woken = false;
  unclaimed = some outcome;
}
publish_in _ r outcome = record { acquire = r; accepted = false; woken = false; unclaimed = none }

unfoldable pub publish_reserved : AcquireRecord → AcquireOutcome → Published
publish_reserved r outcome = publish_in r.status r outcome

abbrev left : AcquireStatus → AcquireStatus × Option AcquireOutcome
left (ready outcome) = (abandoned, outcome)
left (resolving is_abandoned) = (resolving true, none)
left pending = (abandoned, none)
left abandoned = (abandoned, none)

-- The drop of the future; the outcome is one that was published and never taken.
unfoldable pub abandon : AcquireRecord → AcquireRecord × Option AcquireOutcome
abandon r =
    let (status, outcome) = left r.status in
    (record { status = status; waker = false; deadline_registered = false }, outcome)

pub data AcquirePoll : Type 0 where
  poll_ready : AcquireOutcome → AcquirePoll
  poll_pending poll_panic : AcquirePoll

abbrev poll_in : AcquireStatus → AcquireRecord → AcquireRecord × AcquirePoll
poll_in (ready (some outcome)) r = (record r { status = ready none }, poll_ready outcome)
poll_in (ready none) r = (r, poll_panic)
poll_in pending r = (record r { waker = true }, poll_pending)
poll_in (resolving is_abandoned) r = (record r { waker = true }, poll_pending)
poll_in abandoned r = (r, poll_panic)

-- The end of `poll`, after the signals have had their chance to resolve the record.
unfoldable pub poll_record : AcquireRecord → AcquireRecord × AcquirePoll
poll_record r = poll_in r.status r
