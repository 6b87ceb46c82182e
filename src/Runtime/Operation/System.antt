-- ===== src/Runtime/Operation/System.antt =====
-- operation.rs: the methods of one operation called in any order by any parties, with the terminal
-- transactions that are in flight between their two critical sections.
use easycon_sdk.Common.{
  ℕ, zero, suc, ◌+◌, Bool, true, false, Option, none, some, List, [], ◌∷◌, get_elem?,
}
use easycon_sdk.Model.Error.{EasyConError, Result}
use easycon_sdk.Runtime.Arbiter.{Evidence}
use easycon_sdk.Runtime.Operation.{
  CancellationReason, TransitionOutcome, TerminalCandidate, TerminalPrimary, cancellation_primary,
  OwnerCleanup, CleanupObserver, OperationData, Done, Finishing, Admission, answers,
  observes_completion, finishes, ClaimedTerminalTransaction,
}
use easycon_sdk.Runtime.Operation.Legacy.{
  transition_running, request_cancel, finish_strict_cleanup_failure, LegacyTerminalRequest,
  finish_legacy_after_cleanup,
}
use easycon_sdk.Runtime.Operation.Owned.{
  ClaimOutcome, claim_granted, publish_claimed_cancellation, claim_owned, finish_claimed,
  abandon_claimed, claimed_by,
}
use easycon_sdk.Runtime.Operation.Handoff.{
  record_for_handoff, bind_owner_task, mark_owner_task_joined, Fallback, fallback_settles,
  settle_after_owner_join,
}
use easycon_sdk.Runtime.Operation.Finish.{finish_claimed_terminal}

-- `announcing` counts the callers that still have to publish the cancellation that they have claimed.
pub record System : Type 0 where
  pub data_now : OperationData
  pub flights : List Finishing
  pub announcing : ℕ

pub data Call : Type 0 where
  starts : Call
  cancels : CancellationReason → Call
  fails_strictly : EasyConError → Call
  ends : LegacyTerminalRequest → OwnerCleanup → CleanupObserver → Call
  claims : ℕ → Evidence → TerminalCandidate → Call
  announces : Call
  finishes_claim : ℕ → Result (Unit {0}) → Call
  abandons : ℕ → Call
  records : ℕ → Evidence → TerminalCandidate → Call
  binds : ℕ → ℕ → Call
  joins : ℕ → Call
  falls_back : Call
  commits : ℕ → Call

abbrev with_data : System → OperationData → System
with_data s d = record s { data_now = d }

abbrev is_cancellation : TerminalPrimary → Bool
is_cancellation (cancellation_primary r) = true
is_cancellation _ = false

abbrev admitted : System → Done Admission → System
admitted s r = elim r.outcome [
  | answers a ↦ with_data s r.data_after
  | observes_completion ↦ with_data s r.data_after
  | finishes f ↦ record s { data_now = r.data_after; flights = f ∷ s.flights }
]

abbrev admitted? : System → Option (Done Admission) → Option System
admitted? s none = none
admitted? s (some r) = some (admitted s r)

abbrev claims_cancellation : Option ClaimedTerminalTransaction → ℕ
claims_cancellation (some c) = elim (is_cancellation c.primary) [ true ↦ 1 | false ↦ 0 ]
claims_cancellation none = 0

-- A claim that recovers an abandoned transaction seals nothing and announces nothing.
abbrev claims_now : Done ClaimOutcome → ℕ
claims_now r = elim r.effects [ [] ↦ 0 | _ ↦ claims_cancellation (claimed_by r.data_after.owner) ]

abbrev claim_made : System → Done ClaimOutcome → System
claim_made s r = elim r.outcome [
  | claim_granted ↦ record s { data_now = r.data_after; announcing = s.announcing + claims_now r }
  | _ ↦ with_data s r.data_after
]

abbrev announced : System → ℕ → System
announced s zero = s
announced s (suc n) = record s {
  data_now = (publish_claimed_cancellation s.data_now).data_after;
  announcing = n;
}

abbrev fallen_back : System → Done Fallback → System
fallen_back s r = elim r.outcome [
  | fallback_settles f ↦ record s {
    data_now = r.data_after;
    flights = f ∷ s.flights;
    announcing = s.announcing + (elim (is_cancellation f.primary) [ true ↦ 1 | false ↦ 0 ]);
  }
  | _ ↦ with_data s r.data_after
]

abbrev fallen_back? : System → Option (Done Fallback) → Option System
fallen_back? s none = none
fallen_back? s (some r) = some (fallen_back s r)

abbrev pub without : ℕ → List Finishing → List Finishing
without i [] = []
without zero (f ∷ fs) = fs
without (suc i) (f ∷ fs) = f ∷ without i fs

abbrev pub landed : System → ℕ → Option (Done (TransitionOutcome)) → Option System
landed s i none = none
landed s i (some r) = some (record s { data_now = r.data_after; flights = without i s.flights })

abbrev pub land : System → ℕ → Option Finishing → Option System
land s i none = some s
land s i (some f) = landed s i (finish_claimed_terminal s.data_now f)

-- `none` is a panic. The call of a commit ends the transaction at the index, if there is one.
unfoldable pub step : System → Call → Option System
unfolding transition_running request_cancel finish_strict_cleanup_failure
    finish_legacy_after_cleanup claim_owned publish_claimed_cancellation finish_claimed
    abandon_claimed record_for_handoff bind_owner_task mark_owner_task_joined
    settle_after_owner_join finish_claimed_terminal
step s starts = some (with_data s (transition_running s.data_now).data_after)
step s (cancels r) = some (with_data s (request_cancel s.data_now r).data_after)
step s (fails_strictly e) = some (admitted s (finish_strict_cleanup_failure s.data_now e))
step s (ends request cleanup observer) =
    some (admitted s (finish_legacy_after_cleanup s.data_now request cleanup observer))
step s (claims id evidence candidate) =
    some (claim_made s (claim_owned s.data_now id evidence candidate))
step s announces = some (announced s s.announcing)
step s (finishes_claim id domain) = admitted? s (finish_claimed s.data_now id domain)
step s (abandons id) = some (with_data s (abandon_claimed s.data_now id).data_after)
step s (records id evidence candidate) =
    some (with_data s (record_for_handoff s.data_now id evidence candidate).data_after)
step s (binds id task) = some (with_data s (bind_owner_task s.data_now id task).data_after)
step s (joins task) = some (with_data s (mark_owner_task_joined s.data_now task).data_after)
step s falls_back = fallen_back? s (settle_after_owner_join s.data_now)
step s (commits i) = land s i (get_elem? s.flights i)

abbrev run_on : (System → Option System) → Option System → Option System
run_on f none = none
run_on f (some s) = f s

unfoldable pub run : List Call → System → Option System
run [] s = some s
run (c ∷ cs) s = run_on (run cs) (step s c)
