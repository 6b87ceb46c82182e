-- ===== src/Runtime/Operation/Legacy.antt =====
-- operation.rs: the methods of every operation, and those that end one without a settlement owner. A
-- method that ends in `finish_claimed_terminal` is its first critical section here.
use easycon_sdk.Common.{
  Bool, true, false, ◌||◌, if◌then◌else◌, Option, none, some, is_some, [], ◌∷◌,
}
use easycon_sdk.Model.Error.{EasyConError, ok}
use easycon_sdk.Runtime.Operation.{
  OperationState, pending, running, cancelling, is_terminal, CancellationReason, requested,
  OperationValue, TransitionOutcome, applied, unchanged, already_terminal, invalid, TerminalPrimary,
  success_primary, failure_primary, cancellation_primary, OwnerCleanup, completes, CleanupObserver,
  OperationData, published, token_cancelled, token_deactivated, propagated, callbacks_discarded,
  notified, Done, done, Finishing, Admission, answers, observes_completion, finishes,
}

abbrev start_in : OperationState → OperationData → Done TransitionOutcome
start_in pending d = done (record d { state = running }) (published running ∷ []) applied
start_in _ d = done d [] invalid

unfoldable pub transition_running : OperationData → Done TransitionOutcome
transition_running d =
    if is_terminal d.state
    then done d [] already_terminal
    else if d.terminal_in_progress
    then done d [] invalid
    else start_in d.state d

abbrev is_cancelling : OperationState → Bool
is_cancelling cancelling = true
is_cancelling _ = false

-- An operation with a settlement owner only records the reason.
abbrev cancel_owned : OperationData → CancellationReason → Done TransitionOutcome
cancel_owned d reason =
    if is_some d.cancellation_reason
    then done d [] unchanged
    else done (record d { cancellation_reason = some reason })
        (token_cancelled ∷ propagated ∷ notified ∷ []) applied

abbrev cancel_in : OperationState → OperationData → CancellationReason → Done TransitionOutcome
cancel_in cancelling d reason = done d [] unchanged
cancel_in _ d reason =
    done (record d { state = cancelling; cancellation_reason = some reason })
      (token_cancelled ∷ published cancelling ∷ propagated ∷ notified ∷ []) applied

unfoldable pub request_cancel : OperationData → CancellationReason → Done TransitionOutcome
request_cancel d reason =
    if is_terminal d.state
    then done d [] already_terminal
    else if is_some d.owner
    then cancel_owned d reason
    else if d.terminal_in_progress
    then done d [] (if is_cancelling d.state then unchanged else invalid)
    else cancel_in d.state d reason

-- A transaction of an operation that has no settlement owner.
abbrev legacy_finish : TerminalPrimary → OwnerCleanup → CleanupObserver → Finishing
legacy_finish primary cleanup observer = record {
  primary = primary;
  owner_commit = none;
  cleanup = cleanup;
  on_cleanup_settled = observer;
  domain_cleanup = ok tt;
}

unfoldable pub finish_strict_cleanup_failure : OperationData → EasyConError → Done Admission
finish_strict_cleanup_failure d e =
    if is_terminal d.state
    then done d [] (answers already_terminal)
    else if is_some d.owner || d.terminal_in_progress
    then done d [] (answers invalid)
    else done (record d { terminal_in_progress = true }) (token_deactivated ∷ [])
        (finishes (legacy_finish (failure_primary e) (completes (ok tt)) (λ r. true)))

pub data LegacyTerminalRequest : Type 0 where
  execution_value : OperationValue → LegacyTerminalRequest
  execution_error : EasyConError → LegacyTerminalRequest
  cancellation_request : LegacyTerminalRequest

abbrev reason_or_requested : Option CancellationReason → CancellationReason
reason_or_requested none = requested
reason_or_requested (some r) = r

abbrev pub legacy_primary :
    OperationState → LegacyTerminalRequest → Option CancellationReason → Option TerminalPrimary
legacy_primary running (execution_value v) r = some (success_primary v)
legacy_primary pending (execution_error e) r = some (failure_primary e)
legacy_primary running (execution_error e) r = some (failure_primary e)
legacy_primary cancelling cancellation_request r =
    some (cancellation_primary (reason_or_requested r))
legacy_primary _ _ _ = none

abbrev admit_legacy :
    OperationData → Option TerminalPrimary → OwnerCleanup → CleanupObserver → Done Admission
admit_legacy d none cleanup observer = done d (callbacks_discarded ∷ []) (answers invalid)
admit_legacy d (some primary) cleanup observer =
    done (record d { terminal_in_progress = true }) (token_deactivated ∷ [])
      (finishes (legacy_finish primary cleanup observer))

unfoldable pub finish_legacy_after_cleanup :
    OperationData → LegacyTerminalRequest → OwnerCleanup → CleanupObserver → Done Admission
finish_legacy_after_cleanup d request cleanup observer =
    if is_terminal d.state
    then done d (callbacks_discarded ∷ []) (answers already_terminal)
    else if is_some d.owner
    then done d (callbacks_discarded ∷ []) (answers invalid)
    else if d.terminal_in_progress
    then done d (callbacks_discarded ∷ []) observes_completion
    else admit_legacy d (legacy_primary d.state request d.cancellation_reason) cleanup observer

-- `finish_success`, `finish_failure` and `finish_cancelled`: a cleanup that does nothing.
unfoldable pub finish_success : OperationData → OperationValue → Done Admission
unfolding finish_legacy_after_cleanup
finish_success d v =
    finish_legacy_after_cleanup d (execution_value v) (completes (ok tt)) (λ r. true)

unfoldable pub finish_failure : OperationData → EasyConError → Done Admission
unfolding finish_legacy_after_cleanup
finish_failure d e =
    finish_legacy_after_cleanup d (execution_error e) (completes (ok tt)) (λ r. true)

unfoldable pub finish_cancelled : OperationData → Done Admission
unfolding finish_legacy_after_cleanup
finish_cancelled d =
    finish_legacy_after_cleanup d cancellation_request (completes (ok tt)) (λ r. true)
