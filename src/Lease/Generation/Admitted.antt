-- ===== src/Lease/Generation/Admitted.antt =====
-- session.rs, `LeaseGeneration`: admissions and cleanups in any order.
use easycon_sdk.Common.{
  inl, inr, Bool-cases, ℕ, zero, suc, ◌+◌, ◌≡◌, refl, Bool, true, false, Option, none, some, List,
  [], ◌∷◌, arith,
}
use easycon_sdk.Model.Error.{EasyConError, Result, ok, err}
use easycon_sdk.Lease.Record.{
  not_dispatched, settle_not_dispatched_cancellation, mark_report_dispatched,
}
use easycon_sdk.Lease.Generation.{
  LeaseGenerationAction, LeaseGenerationGate, unsealed, sealed, LeaseGeneration, Admission, put,
  begin_admission, known_failure, end_admission, record_cleanup_failure, reservations_of,
  fail_strictly,
}
use easycon_sdk.Lease.Generation.Cleanup.{clean_actions, request_cleanup}

abbrev pub new_generation : LeaseGeneration
new_generation = record {
  gate = unsealed [] 0;
  cleanup_failure = none;
  permanent_failure = none;
  settlements = λ i. not_dispatched;
}

-- A generation, the admissions between their two critical sections, and whether one found no reservation.
pub record World : Type 0 where
  pub generation : LeaseGeneration
  pub in_flight : ℕ
  pub underflow : Bool

pub data Call : Type 0 where
  begins : Call
  ends : Result LeaseGenerationAction → Call
  cleans : (ℕ → Bool) → Bool → ℕ → Call
  fails fails_permanently : EasyConError → Call
  dispatches : ℕ → Call

abbrev begun : World → Option (LeaseGeneration × Result (Unit {0})) → World
begun w (some (g, ok x)) = record w { generation = g; in_flight = w.in_flight + 1 }
begun w (some (g, err e)) = record w { generation = g }
begun w none = w

abbrev ended : World → ℕ → Option Admission → World
ended w n (some a) = record w { generation = a.generation; in_flight = n }
ended w n none = record w { underflow = true }

abbrev end_one : Result LeaseGenerationAction → World → ℕ → World
end_one submitted w zero = w
end_one submitted w (suc n) = ended w n (end_admission w.generation submitted)

-- The lane dispatches the report of settlement `i`.
abbrev dispatch : ℕ → LeaseGeneration → LeaseGeneration
dispatch i g = record g {
  settlements = put g.settlements i (mark_report_dispatched (g.settlements i)).record_after;
}

abbrev fail_permanently : LeaseGeneration → EasyConError → LeaseGeneration
fail_permanently g e = elim g.permanent_failure [
  | none ↦ record g { permanent_failure = some e }
  | some first ↦ g
]

unfoldable pub step : Call → World → World
unfolding end_admission mark_report_dispatched
step begins w = begun w (begin_admission w.generation)
step (ends submitted) w = end_one submitted w w.in_flight
step (cleans is_terminal sent fresh) w = record w {
  generation = (request_cleanup is_terminal sent fresh w.generation).generation;
}
step (fails e) w = record w { generation = record_cleanup_failure w.generation e }
step (fails_permanently e) w = record w { generation = fail_permanently w.generation e }
step (dispatches i) w = record w { generation = dispatch i w.generation }

unfoldable pub run : List Call → World → World
run [] w = w
run (c ∷ cs) w = run cs (step c w)

abbrev pub started : World
started = record { generation = new_generation; in_flight = 0; underflow = false }

clean_actions-gate :
    (is_terminal : ℕ → Bool) (failure : Option EasyConError) (actions : List LeaseGenerationAction)
    (g : LeaseGeneration)
    → (clean_actions is_terminal failure actions g).0.gate ≡ g.gate
unfolding clean_actions fail_strictly
clean_actions-gate is_terminal failure [] g = refl
clean_actions-gate is_terminal (some e) (a ∷ actions) g =
    elim (Bool-cases (is_terminal a.operation)) [
      | inl t ↦ rw t (clean_actions-gate is_terminal (some e) actions g)
      | inr t ↦
          rw t (clean_actions-gate is_terminal (some e) actions (fail_strictly g a.settlement e).0)
    ]
clean_actions-gate is_terminal none (a ∷ actions) g =
    let s = settle_not_dispatched_cancellation (g.settlements a.settlement) in
    let next = record g { settlements = put g.settlements a.settlement s.record_after } in
    elim (Bool-cases (is_terminal a.operation)) [
      | inl t ↦ rw t (clean_actions-gate is_terminal none actions g)
      | inr t ↦ rw t (clean_actions-gate is_terminal none actions next)
    ]

abbrev pub IsCounted : World → Type 0
IsCounted w = (reservations_of w.generation.gate ≡ w.in_flight) × (w.underflow ≡ false)

begins-IsCounted : (w : World) → IsCounted w → IsCounted (step begins w)
unfolding step begin_admission
begins-IsCounted w v = ground arith

ends-IsCounted :
    (submitted : Result LeaseGenerationAction) (w : World)
    → IsCounted w
    → IsCounted (step (ends submitted) w)
unfolding step end_admission fail_strictly
ends-IsCounted submitted w v = ground arith

-- A cleanup seals an unsealed generation with the new release, and keeps its actions and reservations.
abbrev pub sealed_gate : LeaseGenerationGate → ℕ → LeaseGenerationGate
sealed_gate (unsealed actions n) fresh = sealed fresh actions n
sealed_gate (sealed release actions n) fresh = sealed release actions n

pub request_cleanup-gate :
    (is_terminal : ℕ → Bool) (sent : Bool) (fresh : ℕ) (g : LeaseGeneration)
    → (request_cleanup is_terminal sent fresh g).generation.gate ≡ sealed_gate g.gate fresh
unfolding request_cleanup
request_cleanup-gate is_terminal sent fresh g = on_gate g.gate refl
  where
    on_gate :
        (gate : LeaseGenerationGate)
        → g.gate ≡ gate
        → (request_cleanup is_terminal sent fresh g).generation.gate ≡ sealed_gate gate fresh
    on_gate (sealed release actions n) e = rw e refl
    on_gate (unsealed actions n) e = rw e (
        clean_actions-gate is_terminal (known_failure g) actions
          (record g { gate = sealed fresh actions n }))

cleans-IsCounted :
    (is_terminal : ℕ → Bool) (sent : Bool) (fresh : ℕ) (w : World)
    → IsCounted w
    → IsCounted (step (cleans is_terminal sent fresh) w)
unfolding step
cleans-IsCounted is_terminal sent fresh w v =
    let e = request_cleanup-gate is_terminal sent fresh w.generation in ground arith

step-IsCounted : (c : Call) (w : World) → IsCounted w → IsCounted (step c w)
step-IsCounted begins w v = begins-IsCounted w v
step-IsCounted (ends submitted) w v = ends-IsCounted submitted w v
step-IsCounted (cleans is_terminal sent fresh) w v = cleans-IsCounted is_terminal sent fresh w v
step-IsCounted (fails e) w v = unfold step record_cleanup_failure in ground arith
step-IsCounted (fails_permanently e) w v = unfold step in ground arith
step-IsCounted (dispatches i) w v = unfold step in v

run_from-IsCounted : (cs : List Call) (w : World) → IsCounted w → IsCounted (run cs w)
unfolding run
run_from-IsCounted [] w v = v
run_from-IsCounted (c ∷ cs) w v = run_from-IsCounted cs (step c w) (step-IsCounted c w v)

-- Whatever admissions, cleanups and failures interleave on a generation, sealed or not: its reservations
-- are the admissions between their two critical sections, and no admission finds its reservation gone.
pub run-IsCounted : (cs : List Call) → IsCounted (run cs started)
run-IsCounted cs = run_from-IsCounted cs started (refl, refl)
