-- ===== src/Lease/Generation/Sealed.antt =====
-- session.rs, `LeaseGeneration`: what a sealed generation still does.
use easycon_sdk.Common.{
  ℕ, ◌≡◌, refl, ◌∙◌, sym, Bool, true, false, some, List, [], ◌∷◌, if◌then◌else◌, arith,
}
use easycon_sdk.Model.Error.{ok, err}
use easycon_sdk.Lease.{invalid_automation_lease_error}
use easycon_sdk.Lease.Record.{
  mark_report_dispatched, reserve_generation_rejection, settle_strict_failure,
}
use easycon_sdk.Lease.Generation.{
  LeaseGenerationAction, LeaseGenerationGate, unsealed, sealed, LeaseGeneration, Admission,
  begin_admission, end_admission, is_sealed, actions_settled, record_cleanup_failure, fail_strictly,
}
use easycon_sdk.Lease.Generation.Admitted.{
  World, Call, begins, ends, cleans, fails, fails_permanently, dispatches, step, run, started,
  IsCounted, request_cleanup-gate, run-IsCounted,
}

-- A sealed generation without an admission in flight.
abbrev Closed : LeaseGenerationGate → World → Type 0
Closed gate w = (w.generation.gate ≡ gate) × (w.in_flight ≡ 0)

step-Closed :
    (c : Call) (release : ℕ) (actions : List LeaseGenerationAction) (w : World)
    → Closed (sealed release actions 0) w
    → Closed (sealed release actions 0) (step c w)
step-Closed begins release actions w v = unfold step begin_admission in ground arith
step-Closed (ends submitted) release actions w v = unfold step in ground arith
step-Closed (cleans is_terminal sent fresh) release actions w v =
    unfold step in
    (let e = request_cleanup-gate is_terminal sent fresh w.generation in ground arith)
step-Closed (fails e) release actions w v = unfold step record_cleanup_failure in ground arith
step-Closed (fails_permanently e) release actions w v = unfold step in ground arith
step-Closed (dispatches i) release actions w v = unfold step in v

run-Closed :
    (cs : List Call) (release : ℕ) (actions : List LeaseGenerationAction) (w : World)
    → Closed (sealed release actions 0) w
    → Closed (sealed release actions 0) (run cs w)
unfolding run
run-Closed [] release actions w v = v
run-Closed (c ∷ cs) release actions w v =
    run-Closed cs release actions (step c w) (step-Closed c release actions w v)

none_in_flight :
    (is_terminal : ℕ → Bool) (w : World) (gate : LeaseGenerationGate)
    → w.generation.gate ≡ gate
    → IsCounted w
    → is_sealed w.generation ≡ true
    → actions_settled is_terminal w.generation ≡ true
    → (release : ℕ) × (actions : List LeaseGenerationAction) × Closed (sealed release actions 0) w
unfolding is_sealed actions_settled
none_in_flight is_terminal w (unsealed actions n) e v h t = ground arith
none_in_flight is_terminal w (sealed release actions n) e v h t = (release, actions, ground arith)

settled_at :
    (cs : List Call) (is_terminal : ℕ → Bool) (w : World)
    → IsCounted w
    → is_sealed w.generation ≡ true
    → actions_settled is_terminal w.generation ≡ true
    → ((run cs w).generation.gate ≡ w.generation.gate)
      × (actions_settled is_terminal (run cs w).generation ≡ true)
unfolding actions_settled
settled_at cs is_terminal w v h t =
    let (release, actions, closed) = none_in_flight is_terminal w w.generation.gate refl v h t in
    let same = (run-Closed cs release actions w closed).0 ∙ sym closed.0 in (same, rw same t)

-- Once a generation that any calls have led to is sealed and its actions are settled, no call changes
-- its gate: its release keeps its record, no action joins, and the actions stay settled.
pub run-actions_settled :
    (before after : List Call) (is_terminal : ℕ → Bool)
    → is_sealed (run before started).generation ≡ true
    → actions_settled is_terminal (run before started).generation ≡ true
    → ((run after (run before started)).generation.gate ≡ (run before started).generation.gate)
      × (actions_settled is_terminal (run after (run before started)).generation ≡ true)
run-actions_settled before after is_terminal h t =
    settled_at after is_terminal (run before started) (run-IsCounted before) h t

-- A sealed generation: an action that is submitted late is never dispatched after `admit`, and `admit`
-- answers with its operation exactly if its record had left its first state before.
pub end_admission-mark_report_dispatched :
    (g : LeaseGeneration) (a : LeaseGenerationAction) (ad : Admission)
    → is_sealed g ≡ true
    → end_admission g (ok a) ≡ some ad
    → ((mark_report_dispatched (ad.generation.settlements a.settlement)).answer ≡ false)
      × (ad.result ≡ (
          if (mark_report_dispatched (g.settlements a.settlement)).answer
          then err invalid_automation_lease_error
          else ok a.operation))
unfolding end_admission mark_report_dispatched reserve_generation_rejection settle_strict_failure
    is_sealed fail_strictly
end_admission-mark_report_dispatched g a ad h e = ground arith
