-- ===== src/Settlement/Tests.antt =====
-- transport.rs: the laws of the settlement gate at concrete calls.
use easycon_sdk.Common.{◌≡◌, true, List, [], ◌∷◌, none, some}
use easycon_sdk.Model.Error.{EasyConError, new_error, io, transport}
use easycon_sdk.Settlement.{
  Outcome, full_accepted, settled, Gate, Call, mark, reserve_full, begin_failure, publish, clean,
  run,
}
use easycon_sdk.Settlement.Runs.{observed, told, run-told}

abbrev unplugged : EasyConError
unplugged = new_error io transport "device unplugged"

-- The last byte is accepted, and a cleanup fails afterwards.
abbrev accepted_then_failed : List Call
accepted_then_failed =
    mark ∷ reserve_full ∷ begin_failure ∷ clean unplugged ∷ publish 70 ∷ clean unplugged ∷ []

abbrev accepted_gate : Gate (List Outcome)
accepted_gate = record {
  phase = settled;
  outcome = some full_accepted;
  accepted_at_ns = some 70;
  dispatch_reservation = none;
  full_reservation = none;
  hook = none;
}

run-told_example :
    let (g, log) = run accepted_then_failed (observed true true) [] in log ≡ told g.outcome
run-told_example = run-told true true accepted_then_failed
