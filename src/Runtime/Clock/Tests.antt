-- ===== src/Runtime/Clock/Tests.antt =====
-- clock.rs: two deadlines, one of them woken by an advance.
use easycon_sdk.Common.{◌≡◌, refl, true, List, [], ◌∷◌, arith}
use easycon_sdk.Runtime.Clock.{new_clock}
use easycon_sdk.Runtime.Clock.Woken.{
  Call, to_time, registers, dispatches, step, run, IsClock, run-IsClock,
}

abbrev some_calls : List Call
some_calls = registers 30 ∷ registers 20 ∷ registers 5 ∷ to_time 40 ∷ dispatches 2 41 ∷ []

-- The third is due at once; the advance wakes the others by their targets.
wakes_in_order : (run (λ h. true) some_calls (new_clock 10)).wake_order ≡ 3 ∷ 2 ∷ 1 ∷ []
unfolding run step
wakes_in_order = refl

run-IsClock_example : IsClock 0 (run (λ h. true) some_calls (new_clock 10))
run-IsClock_example = run-IsClock (λ h. true) some_calls 10 (omega arith)
