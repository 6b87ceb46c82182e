-- ===== src/Runtime/Operation/Handoff.antt =====
-- operation.rs: the handoff of a settlement to the Runtime after its owner's task has been joined.
use easycon_sdk.Common.{
  ℕ, Bool, true, false, not, ◌&&◌, ◌||◌, ◌==◌, if◌then◌else◌, Option, none, some, is_some, [], ◌∷◌,
}
use easycon_sdk.Model.Error.{ok}
use easycon_sdk.Runtime.Arbiter.{
  Evidence, ClaimResult, claimed, ArbiterState, evidence_allows_winner, is_owner, claim, handoff,
  mark_primary_owner_joined,
}
use easycon_sdk.Runtime.Operation.{
  is_terminal, TransitionOutcome, applied, unchanged, already_terminal, invalid, TerminalCandidate,
  TerminalPrimary, finishing, OwnerCleanup, CleanupObserver, ClaimedTerminalTransaction,
  OperationOwnerData, OperationData, token_deactivated, Done, done, Finishing, winner_kind,
  primary_from_candidate, same_evidence, same_candidate,
}
use easycon_sdk.Runtime.Operation.Owned.{set_owner}

abbrev put_record :
    OperationData
    → OperationOwnerData
    → Option (Evidence × TerminalCandidate)
    → Evidence
    → TerminalCandidate
    → Done TransitionOutcome
put_record d o none evidence candidate =
    done (set_owner d (record o { handoff_record = some (evidence, candidate) })) [] applied
put_record d o (some (e, c)) evidence candidate =
    done d []
      (if same_evidence e evidence && same_candidate c candidate then unchanged else invalid)

abbrev record_by :
    OperationData
    → Option OperationOwnerData
    → ℕ
    → Evidence
    → TerminalCandidate
    → Done TransitionOutcome
record_by d none id evidence candidate = done d [] invalid
record_by d (some o) id evidence candidate =
    if not (o.arbiter.primary_owner == id)
      || not (is_some o.arbiter.transfer_owner)
      || is_some o.arbiter.winner
      || not (is_some o.owner_task)
    then done d [] invalid
    else put_record d o o.handoff_record evidence candidate

abbrev record_primary :
    OperationData
    → Option TerminalPrimary
    → ℕ
    → Evidence
    → TerminalCandidate
    → Done TransitionOutcome
record_primary d none id evidence candidate = done d [] invalid
record_primary d (some primary) id evidence candidate =
    if not (evidence_allows_winner evidence (winner_kind primary))
    then done d [] invalid
    else record_by d d.owner id evidence candidate

unfoldable pub record_for_handoff :
    OperationData → ℕ → Evidence → TerminalCandidate → Done TransitionOutcome
unfolding primary_from_candidate evidence_allows_winner same_candidate
record_for_handoff d id evidence candidate =
    if is_terminal d.state
    then done d [] already_terminal
    else record_primary d (primary_from_candidate candidate d.state d.cancellation_reason) id
        evidence candidate

abbrev bind_by : OperationData → Option OperationOwnerData → ℕ → ℕ → Done Bool
bind_by d none id task = done d [] false
bind_by d (some o) id task =
    if not (o.arbiter.primary_owner == id) || is_some o.owner_task
    then done d [] false
    else done (set_owner d (record o { owner_task = some task })) [] true

unfoldable pub bind_owner_task : OperationData → ℕ → ℕ → Done Bool
bind_owner_task d id task = bind_by d d.owner id task

abbrev join_by : OperationData → Option OperationOwnerData → ℕ → Done (Unit {0})
join_by d none task = done d [] tt
join_by d (some o) task =
    if not (is_owner o.owner_task task)
    then done d [] tt
    else done
        (set_owner d
          (record o { arbiter = (mark_primary_owner_joined o.arbiter o.arbiter.primary_owner).0 }))
        [] tt

unfoldable pub mark_owner_task_joined : OperationData → ℕ → Done (Unit {0})
unfolding mark_primary_owner_joined
mark_owner_task_joined d task = join_by d d.owner task

-- `OperationFallbackOutcome`, the two ways to `Settled` told apart: by waiting for the transaction of
-- the owner, or by one of the Runtime's own.
pub data Fallback : Type 0 where
  fallback_legacy fallback_terminal fallback_observes fallback_lost : Fallback
  fallback_settles : Finishing → Fallback

abbrev fallback_claimed : OperationData → Option ClaimedTerminalTransaction → Done Fallback
fallback_claimed d none = done d [] fallback_lost
fallback_claimed d (some c) =
    done d [] (elim c.state [ finishing ↦ fallback_observes | _ ↦ fallback_lost ])

-- The record is taken when the primary is decided, whether the handoff succeeds or not.
abbrev taken : OperationData → OperationOwnerData → OperationData
taken d o = set_owner d (record o { handoff_record = none })

-- The callbacks, once the arbiter has granted the claim; `none` is the panic of an `expect`.
abbrev fallback_callbacks :
    OperationData
    → OperationOwnerData
    → ArbiterState
    → ℕ
    → TerminalPrimary
    → Option OwnerCleanup
    → Option CleanupObserver
    → Option (Done Fallback)
fallback_callbacks d o arbiter id primary (some cleanup) (some observer) = some (
    done
      (record d {
        terminal_in_progress = true;
        owner = some (record o {
          arbiter = arbiter;
          cleanup = none;
          on_cleanup_settled = none;
          handoff_record = none;
        });
      })
      (token_deactivated ∷ [])
      (fallback_settles (record {
        primary = primary;
        owner_commit = some (id, winner_kind primary);
        cleanup = cleanup;
        on_cleanup_settled = observer;
        domain_cleanup = ok tt;
      })))
fallback_callbacks d o arbiter id primary _ _ = none

abbrev fallback_grant :
    OperationData
    → OperationOwnerData
    → ℕ
    → TerminalPrimary
    → ArbiterState × ClaimResult
    → Option (Done Fallback)
fallback_grant d o id primary (a, claimed) =
    fallback_callbacks d o a id primary o.cleanup o.on_cleanup_settled
fallback_grant d o id primary (a, _) =
    some (done (taken d (record o { arbiter = a })) [] fallback_lost)

abbrev fallback_handoff :
    OperationData
    → OperationOwnerData
    → ℕ
    → Evidence
    → TerminalPrimary
    → ArbiterState × Bool
    → Option (Done Fallback)
fallback_handoff d o id evidence primary (a, false) =
    some (done (taken d (record o { arbiter = a })) [] fallback_lost)
fallback_handoff d o id evidence primary (a, true) =
    fallback_grant d o id primary (claim a id evidence (winner_kind primary))

abbrev fallback_primary :
    OperationData
    → OperationOwnerData
    → ℕ
    → Evidence
    → Option TerminalPrimary
    → Option (Done Fallback)
fallback_primary d o id evidence none = some (done (taken d o) [] fallback_lost)
fallback_primary d o id evidence (some primary) =
    fallback_handoff d o id evidence primary (handoff o.arbiter id)

abbrev fallback_record :
    OperationData
    → OperationOwnerData
    → Option ℕ
    → Option (Evidence × TerminalCandidate)
    → Option (Done Fallback)
fallback_record d o (some id) (some (evidence, candidate)) =
    fallback_primary d o id evidence
      (primary_from_candidate candidate d.state d.cancellation_reason)
fallback_record d o _ _ = some (done d [] fallback_lost)

abbrev fallback_by : OperationData → Option OperationOwnerData → Option (Done Fallback)
fallback_by d none = some (done d [] fallback_legacy)
fallback_by d (some o) =
    if d.terminal_in_progress
    then some (fallback_claimed d o.claimed)
    else if not o.arbiter.primary_owner_joined
    then some (done d [] fallback_lost)
    else fallback_record d o o.arbiter.transfer_owner o.handoff_record

-- The critical section of `settle_after_owner_join`. A cancellation calls
-- `publish_claimed_cancellation` next.
unfoldable pub settle_after_owner_join : OperationData → Option (Done Fallback)
unfolding claim handoff primary_from_candidate
settle_after_owner_join d =
    if is_terminal d.state then some (done d [] fallback_terminal) else fallback_by d d.owner
