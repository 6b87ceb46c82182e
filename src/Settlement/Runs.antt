-- ===== src/Settlement/Runs.antt =====
-- transport.rs: a settlement gate over any order of calls.
use easycon_sdk.Common.{
  ◌≡◌, refl, ◌≢◌, ◌⊎◌, inr, Bool, true, List, [], ◌∷◌, Option, none, some, arith,
}
use easycon_sdk.Settlement.{
  Outcome, settled, Gate, Call, mark, step, run, tracked, is_full_accepted,
}
use easycon_sdk.Settlement.Invariant.{
  IsConsistent, step-IsConsistent, step_settled, step-is_full_accepted,
}

module _ {W : Type 0} where
  -- Any calls keep a gate consistent: an outcome is recorded exactly when the gate is settled, and a
  -- time of acceptance exactly with full acceptance.
  pub run-IsConsistent :
      (cs : List Call) (g : Gate W) (w : W) → IsConsistent g → IsConsistent (run cs g w).0
  unfolding run
  run-IsConsistent [] g w v = v
  run-IsConsistent (c ∷ cs) g w v =
      run-IsConsistent cs (step c g w).gate (step c g w).world (step-IsConsistent c g w v)

  -- A settled gate is final: no calls change it or the world any more.
  pub run_settled : (cs : List Call) (g : Gate W) (w : W) → g.phase ≡ settled → run cs g w ≡ (g, w)
  unfolding run
  run_settled [] g w h = refl
  run_settled (c ∷ cs) g w h =
      let (refused, same, idle) = step_settled c g w h in rw (same, idle) (run_settled cs g w h)

  -- Once a consistent gate has the last byte reserved as accepted, or has settled so, no later call
  -- takes that back.
  pub run-is_full_accepted :
      (cs : List Call) (g : Gate W) (w : W)
      → IsConsistent g
      → is_full_accepted g ≡ true
      → is_full_accepted (run cs g w).0 ≡ true
  unfolding run
  run-is_full_accepted [] g w v h = h
  run-is_full_accepted (c ∷ cs) g w v h =
      run-is_full_accepted cs (step c g w).gate (step c g w).world (step-IsConsistent c g w v)
        (step-is_full_accepted c g w v h)

-- A hook that records what it is told, over reservations that answer as given.
abbrev pub observed : Bool → Bool → Gate (List Outcome)
observed dispatch full =
    tracked (some (λ log. (dispatch, log))) (some (λ log. (full, log))) (some (λ o log. o ∷ log))

abbrev pub told : Option Outcome → List Outcome
told none = []
told (some o) = o ∷ []

abbrev Quiet : Option (List Outcome → Bool × List Outcome) → Type 0
Quiet r = (r ≡ none) ⊎ ((b : Bool) × (r ≡ some (λ log. (b, log))))

-- What ties the log to the gate.
record IsObserved (g : Gate (List Outcome)) (log : List Outcome) : Type 0 where
  consistent : IsConsistent g
  armed : g.phase ≢ settled → g.hook ≡ some (λ o log. o ∷ log)
  heard : log ≡ told g.outcome
  dispatch_quiet : Quiet g.dispatch_reservation
  full_quiet : Quiet g.full_reservation

step-IsObserved :
    (c : Call) (g : Gate (List Outcome)) (log : List Outcome)
    → IsObserved g log
    → IsObserved (step c g log).gate (step c g log).world
unfolding step
step-IsObserved mark g log v = ground arith
step-IsObserved _ g log v = ground arith

run-IsObserved :
    (cs : List Call) (g : Gate (List Outcome)) (log : List Outcome)
    → IsObserved g log
    → IsObserved (run cs g log).0 (run cs g log).1
unfolding run
run-IsObserved [] g log v = v
run-IsObserved (c ∷ cs) g log v =
    run-IsObserved cs (step c g log).gate (step c g log).world (step-IsObserved c g log v)

observed-IsObserved : (dispatch full : Bool) → IsObserved (observed dispatch full) []
unfolding tracked
observed-IsObserved dispatch full = record {
  consistent = tt;
  armed = λ h. refl;
  heard = refl;
  dispatch_quiet = inr (dispatch, refl);
  full_quiet = inr (full, refl);
}

-- Over any calls, in any order, the hook of a tracked gate is told exactly the recorded outcome, once
-- if the gate has settled and never before, whatever its reservations answer.
pub run-told :
    (dispatch full : Bool) (cs : List Call)
    → let (g, log) = run cs (observed dispatch full) [] in log ≡ told g.outcome
run-told dispatch full cs =
    (run-IsObserved cs (observed dispatch full) [] (observed-IsObserved dispatch full)).heard
