-- ===== src/Runtime/Operation/Outcome.antt =====
-- operation.rs: what the cleanups decide about the end of an operation.
use easycon_sdk.Common.{◌≡◌, ◌↔◌, true, some, arith}
use easycon_sdk.Model.Error.{ok}
use easycon_sdk.Runtime.Arbiter.{Winner}
use easycon_sdk.Runtime.Operation.{
  cancelled, OperationValue, success_primary, completes, OperationData, Finishing, winner_kind,
}
use easycon_sdk.Runtime.Operation.Finish.{projected, cleanup_outcome}

-- An operation succeeds with a value exactly if that is its claimed result, both cleanups have
-- completed and the observer, told so, has returned.
pub success_iff :
    (d : OperationData) (f : Finishing) (v : OperationValue)
    → ((projected d f).result ≡ some v) ↔ (
        (f.primary ≡ success_primary v)
        × (f.domain_cleanup ≡ ok tt)
        × (f.cleanup ≡ completes (ok tt))
        × (f.on_cleanup_settled (ok tt) ≡ true))
unfolding projected cleanup_outcome
success_iff d f v = (ground arith, ground arith)

-- An operation ends as cancelled exactly if a cancellation was claimed and the domain's cleanup has
-- not failed, whatever the cleanup of the Runtime and its observer did.
pub cancelled_iff :
    (d : OperationData) (f : Finishing)
    → ((projected d f).state ≡ cancelled)
      ↔ ((winner_kind f.primary ≡ Winner.cancellation) × (f.domain_cleanup ≡ ok tt))
unfolding projected
cancelled_iff d f = (λ h. ground arith, λ h. ground arith)
