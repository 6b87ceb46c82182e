-- ===== src/Lease/Record/Linear.antt =====
-- session.rs, `OperationSettlementRecord`: the owner and the claim are each used once.
use easycon_sdk.Common.{
  ℕ, zero, suc, ◌+◌, ◌≤◌, ◌≡◌, refl, ◌∙◌, true, false, none, some, List, [], ◌∷◌, ◌++◌, arith,
}
use easycon_sdk.Model.Error.{EasyConError}
use easycon_sdk.Runtime.Operation.Owned.{ClaimOutcome}
use easycon_sdk.Lease.Record.{
  OperationSettlementState, not_dispatched, outstanding, full_accepted_reserved, claiming_full,
  claimed_full, finished, failed, Use, hands_over, settles_cancellation, finishes_claim,
  drops_claim, Step, new_record, mark_report_dispatched, reserve_generation_rejection,
  reserve_full_accepted, claim_reserved_full_accepted, complete_full_claim, finish_claimed_success,
  settle_cancellation, settle_not_dispatched_cancellation, settle_failure, settle_strict_failure,
}

-- The record, the claims that have been asked for and not yet answered, and all uses so far.
pub record History : Type 0 where
  pub now : OperationSettlementState
  pub claiming : ℕ
  pub used : List Use

pub data Call : Type 0 where
  dispatch reject accept ask_claim succeed cancel cancel_undispatched : Call
  answer_claim : ClaimOutcome → Call
  fail fail_strictly : EasyConError → Call

abbrev after : History → Step → History
after h s = record h { now = s.record_after; used = s.uses ++ h.used }

-- An answer comes only to a claim that was asked for.
abbrev answered : History → ℕ → ClaimOutcome → History
answered h zero outcome = h
answered h (suc n) outcome = record (after h (complete_full_claim h.now outcome)) { claiming = n }

abbrev asked : History → Step → History
asked h s = record (after h s) {
  claiming = elim s.answer [ true ↦ suc h.claiming | false ↦ h.claiming ];
}

unfoldable pub step : Call → History → History
unfolding mark_report_dispatched reserve_generation_rejection reserve_full_accepted
    claim_reserved_full_accepted complete_full_claim finish_claimed_success settle_cancellation
    settle_not_dispatched_cancellation settle_failure settle_strict_failure
step dispatch h = after h (mark_report_dispatched h.now)
step reject h = after h (reserve_generation_rejection h.now)
step accept h = after h (reserve_full_accepted h.now)
step ask_claim h = asked h (claim_reserved_full_accepted h.now)
step succeed h = after h (finish_claimed_success h.now)
step cancel h = after h (settle_cancellation h.now)
step cancel_undispatched h = after h (settle_not_dispatched_cancellation h.now)
step (answer_claim outcome) h = answered h h.claiming outcome
step (fail e) h = after h (settle_failure h.now e)
step (fail_strictly e) h = after h (settle_strict_failure h.now e)

unfoldable pub run : List Call → History → History
run [] h = h
run (c ∷ cs) h = run cs (step c h)

abbrev pub started : History
started = record { now = new_record; claiming = 0; used = [] }

-- The uses of the owner.
abbrev owner_use : Use → ℕ
owner_use (finishes_claim e) = 0
owner_use drops_claim = 0
owner_use _ = 1

abbrev claim_use : Use → ℕ
claim_use (finishes_claim e) = 1
claim_use drops_claim = 1
claim_use _ = 0

abbrev pub cancel_use : Use → ℕ
cancel_use settles_cancellation = 1
cancel_use hands_over = 1
cancel_use _ = 0

abbrev pub drop_use : Use → ℕ
drop_use drops_claim = 1
drop_use _ = 0

abbrev pub success_use : Use → ℕ
success_use (finishes_claim none) = 1
success_use _ = 0

abbrev pub total : (Use → ℕ) → List Use → ℕ
total f [] = 0
total f (u ∷ us) = f u + total f us

abbrev pub owner_uses : History → ℕ
owner_uses h = total owner_use h.used

abbrev pub claim_uses : History → ℕ
claim_uses h = total claim_use h.used

abbrev pub holds_owner : OperationSettlementState → ℕ
holds_owner not_dispatched = 1
holds_owner outstanding = 1
holds_owner (full_accepted_reserved e) = 1
holds_owner _ = 0

abbrev pub is_claiming : OperationSettlementState → ℕ
is_claiming (claiming_full e) = 1
is_claiming _ = 0

abbrev pub holds_claim : OperationSettlementState → ℕ
holds_claim claimed_full = 1
holds_claim _ = 0

-- The owner is in the record or has been used, once; a claim is asked for while the record waits for it.
pub record IsLinear (h : History) : Type 0 where
  pub owner_once : holds_owner h.now + owner_uses h ≡ 1
  pub claim_awaited : h.claiming ≡ is_claiming h.now
  pub claim_once :
      h.claiming + holds_claim h.now + claim_uses h + total cancel_use h.used ≤ owner_uses h
  pub none_dropped : total drop_use h.used ≡ 0

step-IsLinear : (c : Call) (h : History) → IsLinear h → IsLinear (step c h)
unfolding step
step-IsLinear dispatch h v = ground arith
step-IsLinear reject h v = ground arith
step-IsLinear accept h v = ground arith
step-IsLinear ask_claim h v = ground arith
step-IsLinear succeed h v = ground arith
step-IsLinear cancel h v = ground arith
step-IsLinear cancel_undispatched h v = ground arith
step-IsLinear (answer_claim outcome) h v = ground arith
step-IsLinear (fail e) h v = ground arith
step-IsLinear (fail_strictly e) h v = ground arith

started-IsLinear : IsLinear started
started-IsLinear = ground arith

run-IsLinear : (cs : List Call) (h : History) → IsLinear h → IsLinear (run cs h)
unfolding run
run-IsLinear [] h v = v
run-IsLinear (c ∷ cs) h v = run-IsLinear cs (step c h) (step-IsLinear c h v)

-- Over any calls on a new record: the owner is in the record or has been used, once in all; the claims
-- that are awaited, held or used and the owner's cancellations and rejections are together at most one;
-- and no claim is dropped.
pub run_once :
    (cs : List Call)
    → let h = run cs started in
      (holds_owner h.now + owner_uses h ≡ 1)
      × (h.claiming + holds_claim h.now + claim_uses h + total cancel_use h.used ≤ 1)
      × (total drop_use h.used ≡ 0)
run_once cs =
    let v = run-IsLinear cs started started-IsLinear in
    (v.owner_once, omega (arith, v.owner_once, v.claim_once), v.none_dropped)

-- A strict failure has reached the record after the final byte, or the record has ended.
abbrev pub Doomed : OperationSettlementState → Type 0
Doomed (full_accepted_reserved (some e)) = Unit {0}
Doomed (claiming_full (some e)) = Unit {0}
Doomed finished = Unit {0}
Doomed failed = Unit {0}
Doomed _ = ⊥

step-Doomed :
    (c : Call) (h : History)
    → Doomed h.now
    → Doomed (step c h).now × (total success_use (step c h).used ≡ total success_use h.used)
unfolding step
step-Doomed dispatch h v = ground arith
step-Doomed reject h v = ground arith
step-Doomed accept h v = ground arith
step-Doomed ask_claim h v = ground arith
step-Doomed succeed h v = ground arith
step-Doomed cancel h v = ground arith
step-Doomed cancel_undispatched h v = ground arith
step-Doomed (answer_claim outcome) h v = ground arith
step-Doomed (fail e) h v = ground arith
step-Doomed (fail_strictly e) h v = ground arith

run-Doomed :
    (cs : List Call) (h : History)
    → Doomed h.now
    → total success_use (run cs h).used ≡ total success_use h.used
unfolding run
run-Doomed [] h v = refl
run-Doomed (c ∷ cs) h v =
    let (doomed, same) = step-Doomed c h v in run-Doomed cs (step c h) doomed ∙ same

-- After a strict failure on a record in any state, no calls finish a claim as a success.
pub run-settle_strict_failure :
    (cs : List Call) (h : History) (e : EasyConError)
    → total success_use (run cs (step (fail_strictly e) h)).used ≡ total success_use h.used
unfolding step
run-settle_strict_failure cs h e =
    let (doomed, same) = strict-Doomed h e in run-Doomed cs (step (fail_strictly e) h) doomed ∙ same
  where
    strict-Doomed :
        (h : History) (e : EasyConError)
        → Doomed (step (fail_strictly e) h).now
          × (total success_use (step (fail_strictly e) h).used ≡ total success_use h.used)
    strict-Doomed h e = ground arith
