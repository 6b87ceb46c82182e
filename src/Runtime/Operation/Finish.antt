-- ===== src/Runtime/Operation/Finish.antt =====
-- operation.rs, `finish_claimed_terminal`: the end of every terminal transaction. The callbacks run
-- outside the lock; the commit is one critical section.
use easycon_sdk.Common.{ℕ, Bool, true, false, if◌then◌else◌, Option, none, some, [], ◌∷◌}
use easycon_sdk.Model.Error.{EasyConError, Result, ok, err}
use easycon_sdk.Runtime.Arbiter.{Winner, commit}
use easycon_sdk.Runtime.Operation.{
  succeeded, failed, cancelled, OperationValue, TransitionOutcome, applied, cleanup_failed,
  TerminalPrimary, success_primary, failure_primary, cancellation_primary, OwnerCleanup, completes,
  panics, OperationOwnerData, OperationData, published, propagated, cleaned_up, observed, unlinked,
  notified, Done, done, Finishing, cancellation_error, cleanup_panic_error,
  cleanup_settlement_panic_error,
}

abbrev pub is_err : Result (Unit {0}) → Bool
is_err (ok u) = false
is_err (err e) = true

-- `Result::err`.
abbrev pub error_of : Result (Unit {0}) → Option EasyConError
error_of (ok u) = none
error_of (err e) = some e

-- What the cleanup of the runtime comes to, with its panic isolated.
abbrev pub runtime_cleanup : OwnerCleanup → Result (Unit {0})
runtime_cleanup (completes r) = r
runtime_cleanup panics = err cleanup_panic_error

-- The cleanup's outcome that the observer is told: the domain's error comes first.
abbrev pub first_failure : Result (Unit {0}) → Result (Unit {0}) → Result (Unit {0})
first_failure (err e) r = err e
first_failure (ok u) r = r

-- The outcome after the observer: its panic fails a cleanup that had not failed.
abbrev pub after_observer : Bool → Result (Unit {0}) → Result (Unit {0})
after_observer false (ok u) = err cleanup_settlement_panic_error
after_observer _ r = r

abbrev pub told_outcome : Finishing → Result (Unit {0})
told_outcome f = first_failure f.domain_cleanup (runtime_cleanup f.cleanup)

unfoldable pub cleanup_outcome : Finishing → Result (Unit {0})
cleanup_outcome f = after_observer (f.on_cleanup_settled (told_outcome f)) (told_outcome f)

-- The arbiter's commit; `none` is the panic of an `expect` or of the `assert`.
abbrev pub committed_arbiter : OperationOwnerData → ℕ → Winner → Option OperationOwnerData
committed_arbiter o id w =
    let (a, accepted) = commit o.arbiter id w in
    if accepted then some (record o { arbiter = a }) else none

abbrev pub with_owner : OperationData → Option OperationOwnerData → Option OperationData
with_owner d none = none
with_owner d (some o) = some (record d { owner = some o })

abbrev commit_by : OperationData → Option OperationOwnerData → ℕ → Winner → Option OperationData
commit_by d none id w = none
commit_by d (some o) id w = with_owner d (committed_arbiter o id w)

abbrev pub commit_owner : OperationData → Option (ℕ × Winner) → Option OperationData
commit_owner d none = some d
commit_owner d (some (id, w)) = commit_by d d.owner id w

abbrev cleared : OperationData → OperationData
cleared d = record d { terminal_in_progress = false; result = none; error = none }

abbrev success_end : OperationData → OperationValue → Result (Unit {0}) → OperationData
success_end d v (ok u) = record d { state = succeeded; result = some v }
success_end d v (err e) = record d { state = failed; error = some e }

abbrev primary_end : OperationData → TerminalPrimary → Result (Unit {0}) → OperationData
primary_end d (success_primary v) r = success_end d v r
primary_end d (failure_primary e) r = record d { state = failed; error = some e }
primary_end d (cancellation_primary c) r = record d {
  state = cancelled;
  error = some (cancellation_error c);
}

-- The terminal fields of the data.
unfoldable pub projected : OperationData → Finishing → OperationData
unfolding cleanup_outcome cancellation_error
projected d f =
    if is_err f.domain_cleanup
    then record (cleared d) { state = failed; error = error_of (cleanup_outcome f) }
    else primary_end (cleared d) f.primary (cleanup_outcome f)

abbrev committed_by : Finishing → Option OperationData → Option (Done TransitionOutcome)
committed_by f none = none
committed_by f (some d) =
    let after = projected d f in
    some (
      done after
        (propagated
          ∷ cleaned_up
          ∷ observed (told_outcome f)
          ∷ published after.state
          ∷ unlinked
          ∷ notified
          ∷ [])
        (if is_err (cleanup_outcome f) then cleanup_failed else applied))

unfoldable pub finish_claimed_terminal : OperationData → Finishing → Option (Done TransitionOutcome)
unfolding projected
finish_claimed_terminal d f = committed_by f (commit_owner d f.owner_commit)
