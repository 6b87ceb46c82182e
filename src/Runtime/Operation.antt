-- ===== src/Runtime/Operation.antt =====
-- crates/easycon-runtime/src/operation.rs: the data of an operation. A callback is what it does when it
-- is run: a cleanup completes with a result or panics, and an observer of the cleanup returns or
-- panics. Owners and tasks are u64 identifiers.
pub mod Legacy
pub mod Owned
pub mod Handoff
pub mod System
pub mod Sound
pub mod Finish
pub mod Snapshot
pub mod Outcome
pub mod Forward
mod Tests
use easycon_sdk.Common.{ℕ, Bool, true, false, ◌&&◌, Option, none, some, List, [], ◌∷◌, ◌==◌, String}
use easycon_sdk.Model.Error.{
  EasyConError, Result, ok, err, new_error, runtime, internal, domain_rank, code_rank, ErrorCode,
  deadline_exceeded, internal_code,
}
use text.Mathlib.Text.{is_eq}
use Prim.Native.String.{compare}
use easycon_sdk.Runtime.Arbiter.{
  Evidence, effect_accepted, not_delivered, execution_failed, Winner, success, failure,
  cancellation, ArbiterState, new_arbiter,
}

pub data OperationState : Type 0 where
  pending running cancelling succeeded failed cancelled : OperationState

abbrev pub is_terminal : OperationState → Bool
is_terminal succeeded = true
is_terminal failed = true
is_terminal cancelled = true
is_terminal _ = false

pub data CancellationReason : Type 0 where
  requested deadline parent_close : CancellationReason

pub data OperationValue : Type 0 where
  unit_value : OperationValue
  u64_value : ℕ → OperationValue
  bytes : List ℕ → OperationValue

pub record OperationSnapshot : Type 0 where
  pub state : OperationState
  pub result : Option OperationValue
  pub error : Option EasyConError
  pub cancellation_reason : Option CancellationReason

pub data TransitionOutcome : Type 0 where
  applied unchanged already_terminal invalid cleanup_failed : TransitionOutcome

-- `TerminalCandidate`, and the primary result that it becomes.
pub data TerminalCandidate : Type 0 where
  success_candidate : OperationValue → TerminalCandidate
  failure_candidate : EasyConError → TerminalCandidate
  cancellation_candidate : TerminalCandidate

pub data TerminalPrimary : Type 0 where
  success_primary : OperationValue → TerminalPrimary
  failure_primary : EasyConError → TerminalPrimary
  cancellation_primary : CancellationReason → TerminalPrimary

pub data ClaimedTerminalState : Type 0 where
  held finishing abandoned : ClaimedTerminalState

pub data OwnerCleanup : Type 0 where
  completes : Result (Unit {0}) → OwnerCleanup
  panics : OwnerCleanup

-- Whether the observer returns.
abbrev pub CleanupObserver : Type 0
CleanupObserver = Result (Unit {0}) → Bool

-- The evidence is that of the arbiter, which the source mirrors with a type of its own.
pub record ClaimedTerminalTransaction : Type 0 where
  pub owner_id : ℕ
  pub evidence : Evidence
  pub candidate : TerminalCandidate
  pub primary : TerminalPrimary
  pub winner : Winner
  pub propagation : Bool
  pub state : ClaimedTerminalState

pub record OperationOwnerData : Type 0 where
  pub arbiter : ArbiterState
  pub owner_task : Option ℕ
  pub cleanup : Option OwnerCleanup
  pub on_cleanup_settled : Option CleanupObserver
  pub handoff_record : Option (Evidence × TerminalCandidate)
  pub claimed : Option ClaimedTerminalTransaction

pub record OperationData : Type 0 where
  pub state : OperationState
  pub result : Option OperationValue
  pub error : Option EasyConError
  pub cancellation_reason : Option CancellationReason
  pub terminal_in_progress : Bool
  pub owner : Option OperationOwnerData

-- `Operation::new`.
abbrev pub new_operation : OperationData
new_operation = record {
  state = pending;
  result = none;
  error = none;
  cancellation_reason = none;
  terminal_in_progress = false;
  owner = none;
}

-- `Operation::new_owned`.
unfoldable pub new_owned : ℕ → Option ℕ → OwnerCleanup → CleanupObserver → OperationData
new_owned owner_id transfer_owner_id cleanup on_cleanup_settled = record new_operation {
  owner = some (record {
    arbiter = new_arbiter owner_id transfer_owner_id;
    owner_task = none;
    cleanup = some cleanup;
    on_cleanup_settled = some on_cleanup_settled;
    handoff_record = none;
    claimed = none;
  });
}

-- What an operation does beside its data, in its order: events, the cancellation token, callbacks, the
-- registry and the waiters.
pub data Effect : Type 0 where
  published : OperationState → Effect
  token_cancelled token_deactivated propagated cleaned_up : Effect
  observed : Result (Unit {0}) → Effect
  callbacks_discarded unlinked notified : Effect

-- What a method leaves behind: the data, its effects and its answer.
pub record Done (A : Type 0) : Type 0 where
  pub data_after : OperationData
  pub effects : List Effect
  pub outcome : A

abbrev pub done : {A : Type 0} → OperationData → List Effect → A → Done A
done d es a = record { data_after = d; effects = es; outcome = a }

-- A terminal transaction that has been admitted and not yet committed: the arguments of
-- `finish_claimed_terminal`.
pub record Finishing : Type 0 where
  pub primary : TerminalPrimary
  pub owner_commit : Option (ℕ × Winner)
  pub cleanup : OwnerCleanup
  pub on_cleanup_settled : CleanupObserver
  pub domain_cleanup : Result (Unit {0})

-- How the first critical section of a terminal method ends: with an answer, by waiting for the
-- transaction of another caller, or with a transaction of its own.
pub data Admission : Type 0 where
  answers : TransitionOutcome → Admission
  observes_completion : Admission
  finishes : Finishing → Admission

abbrev pub winner_kind : TerminalPrimary → Winner
winner_kind (success_primary v) = success
winner_kind (failure_primary e) = failure
winner_kind (cancellation_primary r) = cancellation

unfoldable pub primary_from_candidate :
    TerminalCandidate → OperationState → Option CancellationReason → Option TerminalPrimary
primary_from_candidate (success_candidate v) running reason = some (success_primary v)
primary_from_candidate (failure_candidate e) pending reason = some (failure_primary e)
primary_from_candidate (failure_candidate e) running reason = some (failure_primary e)
primary_from_candidate cancellation_candidate pending (some r) = some (cancellation_primary r)
primary_from_candidate cancellation_candidate running (some r) = some (cancellation_primary r)
primary_from_candidate _ _ _ = none

unfoldable pub cancellation_error : CancellationReason → EasyConError
cancellation_error requested = new_error runtime ErrorCode.cancelled "operation cancelled"
cancellation_error deadline = new_error runtime deadline_exceeded "operation deadline elapsed"
cancellation_error parent_close =
    new_error runtime ErrorCode.cancelled "parent operation, resource, or Runtime ended"

abbrev pub cleanup_panic_error : EasyConError
cleanup_panic_error = new_error internal internal_code "operation owner cleanup panicked"

abbrev pub cleanup_settlement_panic_error : EasyConError
cleanup_settlement_panic_error =
    new_error internal internal_code "operation cleanup settlement observer panicked"

-- `==` on evidence and candidates, which the source derives.
abbrev pub same_evidence : Evidence → Evidence → Bool
same_evidence effect_accepted effect_accepted = true
same_evidence not_delivered not_delivered = true
same_evidence execution_failed execution_failed = true
same_evidence _ _ = false

abbrev same_bytes : List ℕ → List ℕ → Bool
same_bytes [] [] = true
same_bytes (a ∷ more_a) (b ∷ more_b) = let rest = same_bytes more_a more_b in a == b && rest
same_bytes _ _ = false

abbrev same_value : OperationValue → OperationValue → Bool
same_value unit_value unit_value = true
same_value (u64_value a) (u64_value b) = a == b
same_value (bytes a) (bytes b) = same_bytes a b
same_value _ _ = false

abbrev same_error : EasyConError → EasyConError → Bool
same_error a b =
    domain_rank a.domain == domain_rank b.domain
    && code_rank a.code == code_rank b.code
    && is_eq (compare a.message b.message)

unfoldable pub same_candidate : TerminalCandidate → TerminalCandidate → Bool
same_candidate (success_candidate a) (success_candidate b) = same_value a b
same_candidate (failure_candidate a) (failure_candidate b) = same_error a b
same_candidate cancellation_candidate cancellation_candidate = true
same_candidate _ _ = false

unfoldable pub snapshot : OperationData → OperationSnapshot
snapshot d = record {
  state = d.state;
  result = d.result;
  error = d.error;
  cancellation_reason = d.cancellation_reason;
}

unfoldable pub state_code : OperationState → String
state_code pending = "runtime.operation.pending"
state_code running = "runtime.operation.running"
state_code cancelling = "runtime.operation.cancelling"
state_code succeeded = "runtime.operation.succeeded"
state_code failed = "runtime.operation.failed"
state_code cancelled = "runtime.operation.cancelled"
