-- ===== src/Lease/Generation/Tests.antt =====
-- session.rs: a generation of an Automation lease at concrete calls.
use easycon_sdk.Common.{ℕ, ◌==◌, ◌≡◌, refl, Bool, true, List, [], ◌∷◌, if◌then◌else◌}
use easycon_sdk.Model.Error.{ok, err}
use easycon_sdk.Lease.{invalid_automation_lease_error}
use easycon_sdk.Lease.Generation.{
  LeaseGenerationAction, LeaseGeneration, sealed, Admission, begin_admission, end_admission,
  is_sealed, actions_settled, uses, wakes_lane,
}
use easycon_sdk.Lease.Record.{
  not_dispatched, finished, reserve_generation_rejection, settles_cancellation,
}
use easycon_sdk.Lease.Generation.Cleanup.{request_cleanup}
use easycon_sdk.Lease.Generation.Admitted.{
  step, Call, begins, ends, cleans, dispatches, run, started, new_generation, IsCounted,
  run-IsCounted,
}
use easycon_sdk.Lease.Generation.Sealed.{run-actions_settled}

abbrev press_a : LeaseGenerationAction
press_a = record { operation = 7; settlement = 1 }

abbrev press_b : LeaseGenerationAction
press_b = record { operation = 8; settlement = 2 }

abbrev ended : ℕ → Bool
ended operation = true

-- A second admission is still between its critical sections when the release seals the generation.
abbrev released : List Call
released =
    begins
    ∷ begins
    ∷ ends (ok press_a)
    ∷ dispatches 1
    ∷ cleans ended true 5
    ∷ ends (ok press_b)
    ∷ []

abbrev late : List Call
late = begins ∷ ends (ok press_b) ∷ cleans ended true 6 ∷ []

run-IsCounted_example : IsCounted (run released started)
run-IsCounted_example = run-IsCounted released

run-actions_settled_example :
    ((run late (run released started)).generation.gate ≡ (run released started).generation.gate)
    × (actions_settled ended (run late (run released started)).generation ≡ true)
unfolding reserve_generation_rejection
run-actions_settled_example =
    run-actions_settled released late ended
      (unfold run step begin_admission end_admission request_cleanup is_sealed in refl)
      (unfold run step begin_admission end_admission request_cleanup actions_settled in refl)

abbrev sealed_generation : LeaseGeneration
sealed_generation = record new_generation { gate = sealed 5 [] 1 }

-- The owner of the refused action is settled as cancelled.
abbrev refused : Admission
refused = record {
  generation = record new_generation {
    gate = sealed 5 (press_b ∷ []) 0;
    settlements = λ i. if 2 == i then finished else not_dispatched;
  };
  result = err invalid_automation_lease_error;
  effects = uses 2 (settles_cancellation ∷ []) ∷ wakes_lane ∷ [];
}
