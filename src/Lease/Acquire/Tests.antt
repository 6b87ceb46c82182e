-- ===== src/Lease/Acquire/Tests.antt =====
-- session.rs: the laws of an acquisition at concrete calls.
use easycon_sdk.Common.{◌≡◌, true, false, some, none, [], ◌∷◌, List}
use easycon_sdk.Lease.Acquire.{granted, Signals}
use easycon_sdk.Lease.Acquire.Delivery.{
  Request, Call, resolve, publish, poll, drop, run, requested, outcomes, IsPlaced, expected,
  run-outcomes,
}

abbrev calm : Signals
calm = record {
  is_cancelled = false;
  deadline_fired = false;
  deadline_ns = some 90;
  now_ns = some 40;
  closing = false;
}

-- Two resolvers race, and the caller drops its future while the first publishes.
abbrev raced : List Call
raced = poll ∷ resolve calm (some (granted 3)) ∷ resolve calm none ∷ drop ∷ publish 0 ∷ poll ∷ []

run-outcomes_example :
    (t : Request) × (run raced (requested true) ≡ some t)
    × IsPlaced t
    × (outcomes t ≡ expected (requested true) raced)
run-outcomes_example = run-outcomes raced (requested true) tt
