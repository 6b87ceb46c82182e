-- ===== src/Lease/Record/Tests.antt =====
-- session.rs: the laws of a settlement record at concrete calls.
use easycon_sdk.Common.{◌+◌, ◌≤◌, ◌≡◌, List, [], ◌∷◌}
use easycon_sdk.Model.Error.{EasyConError, new_error, io, transport}
use easycon_sdk.Runtime.Operation.Owned.{claim_granted}
use easycon_sdk.Lease.Record.Linear.{
  Call, dispatch, accept, ask_claim, succeed, cancel, answer_claim, run, started, total,
  holds_owner, owner_uses, holds_claim, claim_uses, cancel_use, drop_use, run_once,
}

-- The final byte is accepted, a cancellation comes too late, and the claim succeeds.
abbrev accepted : List Call
accepted = dispatch ∷ accept ∷ cancel ∷ ask_claim ∷ answer_claim claim_granted ∷ succeed ∷ []

run_once_example :
    let h = run accepted started in
    (holds_owner h.now + owner_uses h ≡ 1)
    × (h.claiming + holds_claim h.now + claim_uses h + total cancel_use h.used ≤ 1)
    × (total drop_use h.used ≡ 0)
run_once_example = run_once accepted

abbrev unplugged : EasyConError
unplugged = new_error io transport "device unplugged"
