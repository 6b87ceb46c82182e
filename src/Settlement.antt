-- ===== src/Settlement.antt =====
-- crates/easycon-controller/src/transport.rs, `WriteSettlement`: the gate at which one logical report
-- is settled. Each method runs under the gate's lock, so it is one step on the state. The reservations
-- and the hook are closures over the Controller's records: functions on a world W, used once. A
-- panic of the hook is isolated by the source; it is part of what the function does to the world.
pub mod Invariant
pub mod Runs
mod Tests
use easycon_sdk.Common.{ℕ, Bool, true, false, ◌&&◌, ◌||◌, Option, none, some, List, [], ◌∷◌}
use easycon_sdk.Model.Error.{EasyConError}

pub data Outcome : Type 0 where
  full_accepted : Outcome
  not_delivered cleanup_failed : EasyConError → Outcome

pub data Phase : Type 0 where
  not_dispatched dispatch_rejected outstanding full_reserved full_rejected settling_non_full
        settled :
      Phase

pub record Gate (W : Type 0) : Type 0 where
  pub phase : Phase
  pub outcome : Option Outcome
  pub accepted_at_ns : Option ℕ
  pub dispatch_reservation : Option (W → Bool × W)
  pub full_reservation : Option (W → Bool × W)
  pub hook : Option (Outcome → W → W)

-- A method's answer, with the gate and the world after it.
pub record Answer (W : Type 0) : Type 0 where
  pub done : Bool
  pub gate : Gate W
  pub world : W

abbrev is_reserved : Phase → Bool
is_reserved full_reserved = true
is_reserved _ = false

abbrev is_full : Option Outcome → Bool
is_full (some full_accepted) = true
is_full _ = false

module _ {W : Type 0} where
  abbrev answer : Bool → Gate W → W → Answer W
  answer b g w = record { done = b; gate = g; world = w }

  pub untracked : Gate W
  untracked = record {
    phase = outstanding;
    outcome = none;
    accepted_at_ns = none;
    dispatch_reservation = none;
    full_reservation = none;
    hook = none;
  }

  -- `tracked_with_reservations`.
  unfoldable pub tracked :
      Option (W → Bool × W) → Option (W → Bool × W) → Option (Outcome → W → W) → Gate W
  tracked dispatch full hook = record {
    phase = not_dispatched;
    outcome = none;
    accepted_at_ns = none;
    dispatch_reservation = dispatch;
    full_reservation = full;
    hook = hook;
  }

  -- A reservation that is absent lets the gate pass.
  abbrev reserve : Option (W → Bool × W) → W → Bool × W
  reserve none w = (true, w)
  reserve (some f) w = f w

  -- The end of `mark_dispatched`, on the reservation's answer.
  abbrev dispatched : Gate W → Bool × W → Answer W
  dispatched g (true, w) =
      answer true (record g { phase = outstanding; dispatch_reservation = none }) w
  dispatched g (false, w) =
      answer false (record g { phase = dispatch_rejected; dispatch_reservation = none }) w

  abbrev mark_in : Phase → Gate W → W → Answer W
  mark_in not_dispatched g w = dispatched g (reserve g.dispatch_reservation w)
  mark_in _ g w = answer false g w

  unfoldable pub mark_dispatched : Gate W → W → Answer W
  mark_dispatched g w = mark_in g.phase g w

  abbrev reserved : Gate W → Bool × W → Answer W
  reserved g (true, w) = answer true (record g { phase = full_reserved; full_reservation = none }) w
  reserved g (false, w) =
      answer false (record g { phase = full_rejected; full_reservation = none }) w

  abbrev reserve_in : Phase → Gate W → W → Answer W
  reserve_in outstanding g w = reserved g (reserve g.full_reservation w)
  reserve_in _ g w = answer false g w

  unfoldable pub reserve_full_acceptance : Gate W → W → Answer W
  reserve_full_acceptance g w = reserve_in g.phase g w

  abbrev invoke_hook : Option (Outcome → W → W) → Outcome → W → W
  invoke_hook none o w = w
  invoke_hook (some h) o w = h o w

  -- The gate settled with an outcome; the hook has been taken.
  abbrev settle : Gate W → Outcome → Option ℕ → Gate W
  settle g o at = record g { phase = settled; outcome = some o; accepted_at_ns = at; hook = none }

  abbrev publish_in : Phase → Gate W → ℕ → W → Answer W
  publish_in full_reserved g at w =
      answer true (settle g full_accepted (some at)) (invoke_hook g.hook full_accepted w)
  publish_in _ g at w = answer false g w

  unfoldable pub publish_reserved_full_acceptance : Gate W → ℕ → W → Answer W
  publish_reserved_full_acceptance g at w = publish_in g.phase g at w

  abbrev then_publish : ℕ → Answer W → Answer W
  then_publish at r = elim r.done [
    | true ↦ publish_reserved_full_acceptance r.gate at r.world
    | false ↦ r
  ]

  unfoldable pub full_accepted_at : Gate W → ℕ → W → Answer W
  unfolding reserve_full_acceptance publish_reserved_full_acceptance
  full_accepted_at g at w = then_publish at (reserve_full_acceptance g w)

  abbrev begin_in : Phase → Gate W → W → Answer W
  begin_in outstanding g w = answer true (record g { phase = settling_non_full }) w
  begin_in full_rejected g w = answer true (record g { phase = settling_non_full }) w
  begin_in _ g w = answer false g w

  unfoldable pub begin_non_full : Gate W → W → Answer W
  begin_non_full g w = begin_in g.phase g w

  -- `complete`, which both non-full outcomes call with the phase `SettlingNonFull` and no time.
  abbrev complete_in : Phase → Gate W → Outcome → W → Answer W
  complete_in settling_non_full g o w = answer true (settle g o none) (invoke_hook g.hook o w)
  complete_in _ g o w = answer false g w

  unfoldable pub complete : Gate W → Outcome → W → Answer W
  complete g o w = complete_in g.phase g o w

  unfoldable pub not_delivered_stream_settled : Gate W → EasyConError → W → Answer W
  unfolding complete
  not_delivered_stream_settled g e w = complete g (not_delivered e) w

  unfoldable pub cleanup_failed_stream : Gate W → EasyConError → W → Answer W
  unfolding complete
  cleanup_failed_stream g e w = complete g (cleanup_failed e) w

  unfoldable pub is_full_accepted : Gate W → Bool
  is_full_accepted g = is_reserved g.phase || is_full g.outcome

-- One call of a method by a backend or by the Controller.
pub data Call : Type 0 where
  mark reserve_full begin_failure : Call
  publish accept : ℕ → Call
  fail clean : EasyConError → Call

module _ {W : Type 0} where
  pub step : Call → Gate W → W → Answer W
  unfolding mark_dispatched reserve_full_acceptance publish_reserved_full_acceptance
      full_accepted_at begin_non_full not_delivered_stream_settled cleanup_failed_stream
  step mark g w = mark_dispatched g w
  step reserve_full g w = reserve_full_acceptance g w
  step begin_failure g w = begin_non_full g w
  step (publish at) g w = publish_reserved_full_acceptance g at w
  step (accept at) g w = full_accepted_at g at w
  step (fail e) g w = not_delivered_stream_settled g e w
  step (clean e) g w = cleanup_failed_stream g e w

  pub run : List Call → Gate W → W → Gate W × W
  run [] g w = (g, w)
  run (c ∷ cs) g w = let r = step c g w in run cs r.gate r.world
