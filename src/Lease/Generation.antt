-- ===== src/Lease/Generation.antt =====
-- session.rs, `LeaseGeneration`: one grant of an Automation lease. Actions are admitted under it until a
-- release seals it. The operations and the settlement records of its actions are shared: they are
-- numbers, and the records stand in a store.
pub mod Cleanup
pub mod Admitted
pub mod Sealed
mod Tests
use easycon_sdk.Common.{
  ℕ, ◌+◌, ◌-◌, ◌==◌, ◌<◌, Bool, true, false, ◌&&◌, Option, none, some, List, [], ◌∷◌, ◌++◌,
  if◌then◌else◌,
}
use easycon_sdk.Model.Error.{EasyConError, Result, ok, err}
use easycon_sdk.Lease.{invalid_automation_lease_error}
use easycon_sdk.Lease.Record.{
  OperationSettlementState, Use, settles_cancellation, settles_strict_failure,
  reserve_generation_rejection, settle_strict_failure,
}

pub record LeaseGenerationAction : Type 0 where
  pub operation : ℕ
  pub settlement : ℕ

pub data LeaseGenerationGate : Type 0 where
  unsealed : (actions : List LeaseGenerationAction) → (reservations : ℕ) → LeaseGenerationGate
  sealed :
      (release : ℕ)
      → (actions : List LeaseGenerationAction) → (reservations : ℕ) → LeaseGenerationGate

abbrev pub Settlements : Type 0
Settlements = ℕ → OperationSettlementState

pub record LeaseGeneration : Type 0 where
  pub gate : LeaseGenerationGate
  pub cleanup_failure : Option EasyConError
  pub permanent_failure : Option EasyConError
  pub settlements : Settlements

-- What is done once the gate's lock is released, in this order.
pub data Effect : Type 0 where
  uses : (settlement : ℕ) → List Use → Effect
  requests_cancel : (operation : ℕ) → Effect
  tracks_release begins_release : (release : ℕ) → Effect
  fails_release : (release : ℕ) → EasyConError → Effect
  wakes_lane : Effect

-- `usize::MAX`.
abbrev max_reservations : ℕ
max_reservations = 18446744073709551615

abbrev reserve_on :
    LeaseGenerationGate → LeaseGeneration → Option (LeaseGeneration × Result (Unit {0}))
reserve_on (unsealed actions n) g =
    if n == max_reservations
    then none
    else some (record g { gate = unsealed actions (n + 1) }, ok tt)
reserve_on (sealed release actions n) g = some (g, err invalid_automation_lease_error)

abbrev admission_in :
    Option EasyConError → LeaseGeneration → Option (LeaseGeneration × Result (Unit {0}))
admission_in (some e) g = some (g, err e)
admission_in none g = reserve_on g.gate g

-- `admit`, up to the end of its first critical section; `none` is its panic.
unfoldable pub begin_admission : LeaseGeneration → Option (LeaseGeneration × Result (Unit {0}))
begin_admission g = admission_in g.permanent_failure g

abbrev pub put : Settlements → ℕ → OperationSettlementState → Settlements
put settlements i s j = if i == j then s else settlements j

-- `self.permanent_failure.get().or_else(|| self.cleanup_failure())`.
abbrev pub known_failure : LeaseGeneration → Option EasyConError
known_failure g = elim g.permanent_failure [ some e ↦ some e | none ↦ g.cleanup_failure ]

-- The owner that `reserve_generation_rejection` took is settled by its holder.
abbrev settle_rejected : Option EasyConError → ℕ → List Effect
settle_rejected (some e) i = uses i (settles_strict_failure e ∷ []) ∷ []
settle_rejected none i = uses i (settles_cancellation ∷ []) ∷ []

unfoldable pub fail_strictly : LeaseGeneration → ℕ → EasyConError → LeaseGeneration × List Effect
fail_strictly g i e =
    let s = settle_strict_failure (g.settlements i) e in
    (record g { settlements = put g.settlements i s.record_after }, uses i s.uses ∷ [])

abbrev settle_dispatched :
    Option EasyConError → LeaseGenerationAction → LeaseGeneration → LeaseGeneration × List Effect
settle_dispatched (some e) a g = fail_strictly g a.settlement e
settle_dispatched none a g = (g, requests_cancel a.operation ∷ [])

pub record Admission : Type 0 where
  pub generation : LeaseGeneration
  pub result : Result ℕ
  pub effects : List Effect

abbrev end_unsealed :
    List LeaseGenerationAction → ℕ → Result LeaseGenerationAction → LeaseGeneration → Admission
end_unsealed actions n (ok a) g = record {
  generation = record g { gate = unsealed (actions ++ a ∷ []) n };
  result = ok a.operation;
  effects = [];
}
end_unsealed actions n (err e) g = record {
  generation = record g { gate = unsealed actions n };
  result = err e;
  effects = [];
}

-- An action that is submitted once its generation is sealed: whether its owner could still be taken.
abbrev end_late : Bool → LeaseGenerationAction → LeaseGeneration → Admission
end_late true a g = record {
  generation = g;
  result = err invalid_automation_lease_error;
  effects = settle_rejected (known_failure g) a.settlement ++ wakes_lane ∷ [];
}
end_late false a g =
    let (g', effects) = settle_dispatched (known_failure g) a g in
    record { generation = g'; result = ok a.operation; effects = effects ++ wakes_lane ∷ [] }

abbrev end_sealed :
    ℕ → List LeaseGenerationAction → ℕ → Result LeaseGenerationAction → LeaseGeneration → Admission
end_sealed release actions n (ok a) g =
    let s = reserve_generation_rejection (g.settlements a.settlement) in
    end_late s.answer a (record g {
      gate = sealed release (actions ++ a ∷ []) n;
      settlements = put g.settlements a.settlement s.record_after;
    })
end_sealed release actions n (err e) g = record {
  generation = record g { gate = sealed release actions n };
  result = err invalid_automation_lease_error;
  effects = wakes_lane ∷ [];
}

abbrev end_on :
    LeaseGenerationGate → Result LeaseGenerationAction → LeaseGeneration → Option Admission
end_on (unsealed actions n) submitted g =
    if n == 0 then none else some (end_unsealed actions (n - 1) submitted g)
end_on (sealed release actions n) submitted g =
    if n == 0 then none else some (end_sealed release actions (n - 1) submitted g)

-- `admit`, from its second critical section on, with what `submit` gave; `none` is its panic.
unfoldable pub end_admission : LeaseGeneration → Result LeaseGenerationAction → Option Admission
unfolding fail_strictly
end_admission g submitted = end_on g.gate submitted g

unfoldable pub is_sealed : LeaseGeneration → Bool
is_sealed g = elim g.gate [ sealed release actions n ↦ true | unsealed actions n ↦ false ]

abbrev pub actions_of : LeaseGenerationGate → List LeaseGenerationAction
actions_of (unsealed actions n) = actions
actions_of (sealed release actions n) = actions

abbrev pub reservations_of : LeaseGenerationGate → ℕ
reservations_of (unsealed actions n) = n
reservations_of (sealed release actions n) = n

abbrev pub all_terminal : (ℕ → Bool) → List LeaseGenerationAction → Bool
all_terminal is_terminal [] = true
all_terminal is_terminal (a ∷ actions) = is_terminal a.operation && all_terminal is_terminal actions

-- `is_terminal` tells of an operation whether its snapshot is terminal.
unfoldable pub actions_settled : (ℕ → Bool) → LeaseGeneration → Bool
actions_settled is_terminal g =
    reservations_of g.gate == 0 && all_terminal is_terminal (actions_of g.gate)

unfoldable pub record_cleanup_failure : LeaseGeneration → EasyConError → LeaseGeneration
record_cleanup_failure g e = elim g.cleanup_failure [
  | none ↦ record g { cleanup_failure = some e }
  | some first ↦ g
]
