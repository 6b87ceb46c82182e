-- ===== src/Lease/Release/Tests.antt =====
-- session.rs: the agreement of close and release at concrete calls.
use easycon_sdk.Common.{List, [], ◌∷◌}
use easycon_sdk.Model.Error.{ok}
use easycon_sdk.Lease.Release.{neutral_accepted}
use easycon_sdk.Lease.Release.Close.{
  Call, gate, close, poll, complete, dispatch, run, told_nothing, IsAgreed, run-dispatch,
}

abbrev finishing : List Call
finishing = poll ∷ gate ∷ close ∷ complete (ok neutral_accepted) ∷ poll ∷ poll ∷ []

run-dispatch_example : IsAgreed (run finishing (dispatch (run (close ∷ []) told_nothing)))
run-dispatch_example = run-dispatch (close ∷ []) finishing
