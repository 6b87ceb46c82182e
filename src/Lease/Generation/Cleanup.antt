-- ===== src/Lease/Generation/Cleanup.antt =====
-- session.rs, `LeaseGeneration::request_cleanup`: the release that seals a generation.
use easycon_sdk.Common.{
  ℕ, Bool, true, false, Option, none, some, List, [], ◌∷◌, ◌++◌, if◌then◌else◌,
}
use easycon_sdk.Model.Error.{EasyConError}
use easycon_sdk.Lease.{lane_ended_error}
use easycon_sdk.Lease.Record.{settle_not_dispatched_cancellation}
use easycon_sdk.Lease.Generation.{
  LeaseGenerationAction, LeaseGenerationGate, unsealed, sealed, LeaseGeneration, Effect, uses,
  requests_cancel, tracks_release, begins_release, fails_release, put, known_failure, fail_strictly,
}

abbrev clean_action :
    Option EasyConError → LeaseGenerationAction → LeaseGeneration → LeaseGeneration × List Effect
clean_action (some e) a g = fail_strictly g a.settlement e
clean_action none a g =
    let s = settle_not_dispatched_cancellation (g.settlements a.settlement) in
    (
      record g { settlements = put g.settlements a.settlement s.record_after },
      requests_cancel a.operation ∷ uses a.settlement s.uses ∷ [],
    )

-- The loop over the actions of a generation that was just sealed.
unfoldable pub clean_actions :
    (ℕ → Bool)
    → Option EasyConError
    → List LeaseGenerationAction
    → LeaseGeneration
    → LeaseGeneration × List Effect
unfolding fail_strictly
clean_actions is_terminal failure [] g = (g, [])
clean_actions is_terminal failure (a ∷ actions) g =
    let (g', first) = if is_terminal a.operation then (g, []) else clean_action failure a g in
    let (last, rest) = clean_actions is_terminal failure actions g' in (last, first ++ rest)

abbrev start_release : Option EasyConError → Bool → ℕ → List Effect
start_release (some e) sent release = tracks_release release ∷ fails_release release e ∷ []
start_release none true release = tracks_release release ∷ begins_release release ∷ []
start_release none false release =
    tracks_release release ∷ fails_release release lane_ended_error ∷ []

pub record Cleanup : Type 0 where
  pub generation : LeaseGeneration
  pub release : ℕ
  pub effects : List Effect

abbrev cleanup_on : LeaseGenerationGate → (ℕ → Bool) → Bool → ℕ → LeaseGeneration → Cleanup
cleanup_on (sealed release actions n) is_terminal sent fresh g = record {
  generation = g;
  release = release;
  effects = [];
}
cleanup_on (unsealed actions n) is_terminal sent fresh g =
    let failure = known_failure g in
    let (g', effects) =
      clean_actions is_terminal failure actions (record g { gate = sealed fresh actions n }) in
    record {
      generation = g';
      release = fresh;
      effects = effects ++ start_release failure sent fresh;
    }

-- `fresh` is the number of a new release record, `sent` whether the lane still takes commands.
unfoldable pub request_cleanup : (ℕ → Bool) → Bool → ℕ → LeaseGeneration → Cleanup
unfolding clean_actions
request_cleanup is_terminal sent fresh g = cleanup_on g.gate is_terminal sent fresh g
