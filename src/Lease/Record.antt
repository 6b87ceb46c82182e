-- ===== src/Lease/Record.antt =====
-- session.rs, `OperationSettlementRecord`: the record that keeps the settlement owner of a report's
-- operation until the report is accepted or given up. The owner and the claim are capabilities that the
-- states hold; what a method does with them is a list of uses, in their order.
pub mod Linear
mod Tests
use easycon_sdk.Common.{Bool, true, false, Option, none, some, List, [], ◌∷◌}
use easycon_sdk.Model.Error.{EasyConError}
use easycon_sdk.Runtime.Operation.Owned.{ClaimOutcome, claim_granted}

pub data OperationSettlementState : Type 0 where
  not_dispatched outstanding : OperationSettlementState
  full_accepted_reserved claiming_full :
      (strict_failure : Option EasyConError) → OperationSettlementState
  claimed_full finished failed : OperationSettlementState

-- What becomes of the owner or of the claim: the owner is handed to the caller, settles a cancellation, a
-- failure or a strict failure, or makes the claim; the claim is finished as a success or with an error,
-- or is dropped.
pub data Use : Type 0 where
  hands_over settles_cancellation makes_claim : Use
  settles_failure settles_strict_failure : EasyConError → Use
  finishes_claim : Option EasyConError → Use
  drops_claim : Use

pub record Step : Type 0 where
  pub record_after : OperationSettlementState
  pub uses : List Use
  pub answer : Bool

abbrev to : OperationSettlementState → List Use → Bool → Step
to s us b = record { record_after = s; uses = us; answer = b }

-- `new`.
abbrev pub new_record : OperationSettlementState
new_record = not_dispatched

unfoldable pub mark_report_dispatched : OperationSettlementState → Step
mark_report_dispatched not_dispatched = to outstanding [] true
mark_report_dispatched s = to s [] false

unfoldable pub reserve_generation_rejection : OperationSettlementState → Step
reserve_generation_rejection not_dispatched = to finished (hands_over ∷ []) true
reserve_generation_rejection s = to s [] false

unfoldable pub reserve_full_accepted : OperationSettlementState → Step
reserve_full_accepted outstanding = to (full_accepted_reserved none) [] true
reserve_full_accepted s = to s [] false

-- The critical section of `claim_reserved_full_accepted`; the claim follows, outside the lock.
unfoldable pub claim_reserved_full_accepted : OperationSettlementState → Step
claim_reserved_full_accepted (full_accepted_reserved strict) =
    to (claiming_full strict) (makes_claim ∷ []) true
claim_reserved_full_accepted s = to s [] false

-- A claim that arrives where it is not awaited is dropped.
abbrev unexpected : ClaimOutcome → List Use
unexpected claim_granted = drops_claim ∷ []
unexpected _ = []

abbrev full_claim : Option EasyConError → ClaimOutcome → Step
full_claim none claim_granted = to claimed_full [] true
full_claim (some e) claim_granted = to failed (finishes_claim (some e) ∷ []) false
full_claim strict _ = to failed [] false

unfoldable pub complete_full_claim : OperationSettlementState → ClaimOutcome → Step
complete_full_claim (claiming_full strict) outcome = full_claim strict outcome
complete_full_claim s outcome = to s (unexpected outcome) false

unfoldable pub finish_claimed_success : OperationSettlementState → Step
finish_claimed_success claimed_full = to finished (finishes_claim none ∷ []) true
finish_claimed_success s = to s [] false

unfoldable pub settle_cancellation : OperationSettlementState → Step
settle_cancellation not_dispatched = to finished (settles_cancellation ∷ []) true
settle_cancellation outstanding = to finished (settles_cancellation ∷ []) true
settle_cancellation s = to s [] false

unfoldable pub settle_not_dispatched_cancellation : OperationSettlementState → Step
settle_not_dispatched_cancellation not_dispatched = to finished (settles_cancellation ∷ []) true
settle_not_dispatched_cancellation s = to s [] false

unfoldable pub settle_failure : OperationSettlementState → EasyConError → Step
settle_failure not_dispatched e = to failed (settles_failure e ∷ []) true
settle_failure outstanding e = to failed (settles_failure e ∷ []) true
settle_failure s e = to s [] false

-- `Option::or`.
abbrev first_of : Option EasyConError → EasyConError → Option EasyConError
first_of none e = some e
first_of (some first) e = some first

unfoldable pub settle_strict_failure : OperationSettlementState → EasyConError → Step
settle_strict_failure not_dispatched e = to failed (settles_strict_failure e ∷ []) true
settle_strict_failure outstanding e = to failed (settles_strict_failure e ∷ []) true
settle_strict_failure (full_accepted_reserved strict) e =
    to (full_accepted_reserved (first_of strict e)) [] true
settle_strict_failure (claiming_full strict) e = to (claiming_full (first_of strict e)) [] true
settle_strict_failure claimed_full e = to failed (finishes_claim (some e) ∷ []) true
settle_strict_failure s e = to s [] false

unfoldable pub is_pending : OperationSettlementState → Bool
is_pending finished = false
is_pending failed = false
is_pending _ = true

unfoldable pub is_finished : OperationSettlementState → Bool
is_finished finished = true
is_finished failed = true
is_finished _ = false

-- `ControllerCleanupFailure`: the first failure of a controller's cleanup.
pub record CleanupFailure : Type 0 where
  pub first : Option EasyConError
  pub ownership_lost : Bool

unfoldable pub record_failure : CleanupFailure → EasyConError → CleanupFailure × EasyConError
record_failure f e = elim f.first [
  | none ↦ (record f { first = some e }, e)
  | some first ↦ (f, first)
]

unfoldable pub record_ownership_loss : CleanupFailure → EasyConError → CleanupFailure × EasyConError
record_ownership_loss f e = elim f.first [
  | none ↦ (record { first = some e; ownership_lost = true }, e)
  | some first ↦ (f, first)
]
