-- ===== src/Settlement/Invariant.antt =====
-- transport.rs: what holds of a settlement gate between two calls.
use easycon_sdk.Common.{ℕ, ◌≡◌, true, false, Option, none, some, arith}
use easycon_sdk.Settlement.{
  Outcome, full_accepted, not_delivered, cleanup_failed, Phase, settled, Gate, Call, mark,
  reserve_full, begin_failure, publish, accept, fail, clean, step, is_full_accepted,
}

-- An outcome is recorded exactly when the gate is settled, and a time exactly for full acceptance.
abbrev pub Consistent : Phase → Option Outcome → Option ℕ → Type 0
Consistent settled (some full_accepted) (some at) = Unit {0}
Consistent settled (some (not_delivered e)) none = Unit {0}
Consistent settled (some (cleanup_failed e)) none = Unit {0}
Consistent settled _ _ = ⊥
Consistent _ none none = Unit {0}
Consistent _ _ _ = ⊥

module _ {W : Type 0} where
  abbrev pub IsConsistent : Gate W → Type 0
  IsConsistent g = Consistent g.phase g.outcome g.accepted_at_ns

  pub step-IsConsistent :
      (c : Call) (g : Gate W) (w : W) → IsConsistent g → IsConsistent (step c g w).gate
  unfolding step
  step-IsConsistent mark g w v = ground arith
  step-IsConsistent reserve_full g w v = ground arith
  step-IsConsistent begin_failure g w v = ground arith
  step-IsConsistent (publish at) g w v = ground arith
  step-IsConsistent (accept at) g w v = ground arith
  step-IsConsistent (fail e) g w v = ground arith
  step-IsConsistent (clean e) g w v = ground arith

  -- A settled gate refuses every call, and no refused call changes the gate's outcome or time.
  pub step_settled :
      (c : Call) (g : Gate W) (w : W)
      → g.phase ≡ settled
      → (step c g w).done ≡ false × (step c g w).gate ≡ g × (step c g w).world ≡ w
  unfolding step
  step_settled mark g w h = ground arith
  step_settled reserve_full g w h = ground arith
  step_settled begin_failure g w h = ground arith
  step_settled (publish at) g w h = ground arith
  step_settled (accept at) g w h = ground arith
  step_settled (fail e) g w h = ground arith
  step_settled (clean e) g w h = ground arith

  pub step-is_full_accepted :
      (c : Call) (g : Gate W) (w : W)
      → IsConsistent g
      → is_full_accepted g ≡ true
      → is_full_accepted (step c g w).gate ≡ true
  unfolding step is_full_accepted
  step-is_full_accepted mark g w v h = ground arith
  step-is_full_accepted reserve_full g w v h = ground arith
  step-is_full_accepted begin_failure g w v h = ground arith
  step-is_full_accepted (publish at) g w v h = ground arith
  step-is_full_accepted (accept at) g w v h = ground arith
  step-is_full_accepted (fail e) g w v h = ground arith
  step-is_full_accepted (clean e) g w v h = ground arith
