-- ===== src/Lease/Release.antt =====
-- session.rs, `ReleaseRecord`: one release of an Automation lease, from its neutral report to its outcome.
pub mod Close
mod Tests
use easycon_sdk.Common.{Bool, true, false, not, Option, none, some}
use easycon_sdk.Model.Error.{EasyConError, Result}

-- `AutomationLeaseReleaseOutcome`.
pub data ReleaseOutcome : Type 0 where
  neutral_accepted : ReleaseOutcome
  neutral_not_delivered_stream_settled : EasyConError → ReleaseOutcome

pub data ReleasePhase : Type 0 where
  undispatched outstanding : (close_acquired : Bool) → ReleasePhase
  gate_claimed : (close_acquired_before_claim : Bool) → ReleasePhase
  committed : (close_consumed : Bool) → Result ReleaseOutcome → ReleasePhase

pub record ReleaseRecord : Type 0 where
  pub phase : ReleasePhase
  pub waker : Bool

abbrev pub new_release : ReleaseRecord
new_release = record { phase = undispatched false; waker = false }

abbrev begin_in : ReleasePhase → ReleaseRecord → Option (ReleaseRecord × Bool)
begin_in (undispatched close_acquired) r =
    some (record r { phase = outstanding close_acquired }, close_acquired)
begin_in _ r = none

-- The answer is whether close owns the neutral report, which then is not cancelled with the record;
-- `none` is the panic of a second dispatch.
unfoldable pub begin_neutral : ReleaseRecord → Option (ReleaseRecord × Bool)
begin_neutral r = begin_in r.phase r

abbrev gate_in : ReleasePhase → ReleaseRecord → ReleaseRecord × Bool
gate_in (outstanding close_acquired) r = (record r { phase = gate_claimed close_acquired }, true)
gate_in _ r = (r, false)

unfoldable pub reserve_full_accepted : ReleaseRecord → ReleaseRecord × Bool
reserve_full_accepted r = gate_in r.phase r

-- A request of close: whether close consumes this release, and whether the neutral is interrupted.
pub record Interrupt : Type 0 where
  pub release : ReleaseRecord
  pub close_consumed : Bool
  pub interrupts : Bool

abbrev interrupt_in : ReleasePhase → ReleaseRecord → Interrupt
interrupt_in (undispatched close_acquired) r = record {
  release = record r { phase = undispatched true };
  close_consumed = true;
  interrupts = false;
}
interrupt_in (outstanding close_acquired) r = record {
  release = record r { phase = outstanding true };
  close_consumed = true;
  interrupts = not close_acquired;
}
interrupt_in (gate_claimed before) r = record {
  release = r;
  close_consumed = before;
  interrupts = false;
}
interrupt_in (committed consumed outcome) r = record {
  release = r;
  close_consumed = consumed;
  interrupts = false;
}

unfoldable pub request_close_interrupt : ReleaseRecord → Interrupt
request_close_interrupt r = interrupt_in r.phase r

abbrev pub acquired : ReleasePhase → Bool
acquired (undispatched b) = b
acquired (outstanding b) = b
acquired (gate_claimed b) = b
acquired (committed b outcome) = b

abbrev complete_in : ReleasePhase → ReleaseRecord → Result ReleaseOutcome → ReleaseRecord × Bool
complete_in (committed consumed old) r outcome = (r, false)
complete_in phase r outcome =
    (record { phase = committed (acquired phase) outcome; waker = false }, acquired phase)

-- `complete`. A waker that was there is woken.
unfoldable pub complete_release : ReleaseRecord → Result ReleaseOutcome → ReleaseRecord × Bool
complete_release r outcome = complete_in r.phase r outcome

abbrev poll_release_in :
    ReleasePhase → ReleaseRecord → ReleaseRecord × Option (Result ReleaseOutcome)
poll_release_in (committed consumed outcome) r = (r, some outcome)
poll_release_in _ r = (record r { waker = true }, none)

unfoldable pub poll_release : ReleaseRecord → ReleaseRecord × Option (Result ReleaseOutcome)
poll_release r = poll_release_in r.phase r
