-- ===== src/Runtime/Lifecycle/Order.antt =====
-- concurrency.rs: the calls of a task's life succeed in one order only.
use easycon_sdk.Common.{
  ◌≡◌, refl, ◌∙◌, Bool, true, false, Option, none, some, List, [], ◌∷◌, ◌++◌, arith,
}
use easycon_sdk.Runtime.Lifecycle.{
  missing, retained, joining, joined, TaskState, registered, Call, bind, complete, claim, finish,
  persist, unlink, abort, step, run, kept,
}
use mathlib.Core.List.{append-nil}

-- Where a task stands.
pub data Stage (O : Type 0) : Type 0 where
  spawning bound : Stage O
  finished claiming awaiting : O → Stage O
  persisted : O → Stage O
  removed : O → Bool → Bool → Stage O
  aborted : Stage O

-- The edges, written as an automaton that knows nothing of the fields.
abbrev pub next : {O : Type 0} → Stage O → Call O → Option (Stage O)
next spawning bind = some bound
next spawning abort = some aborted
next bound (complete o) = some (finished o)
next (finished o) claim = some (claiming o)
next (claiming o) finish = some (awaiting o)
next (awaiting o) persist = some (persisted o)
next (awaiting o) (unlink false) = some (removed o false false)
next (persisted o) (unlink required) = some (removed o true required)
next _ _ = none

module _ {O : Type 0} where
  abbrev pub state_of : Stage O → TaskState O
  state_of spawning = registered
  state_of bound = record {
    owner_bound = true;
    body_outcome = none;
    handle = retained;
    panic_diagnostic_durable = false;
    registry_linked = true;
  }
  state_of (finished o) = record {
    owner_bound = true;
    body_outcome = some o;
    handle = retained;
    panic_diagnostic_durable = false;
    registry_linked = true;
  }
  state_of (claiming o) = record {
    owner_bound = true;
    body_outcome = some o;
    handle = joining;
    panic_diagnostic_durable = false;
    registry_linked = true;
  }
  state_of (awaiting o) = record {
    owner_bound = true;
    body_outcome = some o;
    handle = joined;
    panic_diagnostic_durable = false;
    registry_linked = true;
  }
  state_of (persisted o) = record {
    owner_bound = true;
    body_outcome = some o;
    handle = joined;
    panic_diagnostic_durable = true;
    registry_linked = true;
  }
  state_of (removed o durable required) = record {
    owner_bound = true;
    body_outcome = some o;
    handle = joined;
    panic_diagnostic_durable = durable;
    registry_linked = false;
  }
  state_of aborted = record {
    owner_bound = false;
    body_outcome = none;
    handle = missing;
    panic_diagnostic_durable = false;
    registry_linked = false;
  }

  abbrev stage_after : Stage O → Option (Stage O) → Stage O
  stage_after t none = t
  stage_after t (some u) = u

  abbrev moved : Option (Stage O) → Bool
  moved none = false
  moved (some u) = true

  -- A method succeeds exactly along an edge of the automaton, and leaves the state alone otherwise.
  pub step-next :
      (t : Stage O) (c : Call O)
      → step c (state_of t) ≡ (state_of (stage_after t (next t c)), moved (next t c))
  unfolding step registered
  step-next spawning bind = refl
  step-next t c = ground arith

  -- The calls that lead to a stage.
  abbrev pub history : Stage O → List (Call O)
  history spawning = []
  history bound = bind ∷ []
  history (finished o) = bind ∷ complete o ∷ []
  history (claiming o) = bind ∷ complete o ∷ claim ∷ []
  history (awaiting o) = bind ∷ complete o ∷ claim ∷ finish ∷ []
  history (persisted o) = bind ∷ complete o ∷ claim ∷ finish ∷ persist ∷ []
  history (removed o false required) = bind ∷ complete o ∷ claim ∷ finish ∷ unlink required ∷ []
  history (removed o true required) =
      bind ∷ complete o ∷ claim ∷ finish ∷ persist ∷ unlink required ∷ []
  history aborted = abort ∷ []

  history_kept :
      (t : Stage O) (c : Call O) (rest : List (Call O))
      → history t ++ kept c (moved (next t c)) rest ≡ history (stage_after t (next t c)) ++ rest
  history_kept spawning bind rest = refl
  history_kept t c rest = ground arith

  run-history :
      (cs : List (Call O)) (t : Stage O)
      → (u : Stage O) × ((run cs (state_of t)).0 ≡ state_of u)
        × (history t ++ (run cs (state_of t)).1 ≡ history u)
  unfolding run
  run-history [] t = (t, refl, append-nil (history t))
  run-history (c ∷ cs) t =
      let t' = stage_after t (next t c) in
      let (u, same, told) = run-history cs t' in
      (
        u,
        rw (step-next t c) same,
        rw (step-next t c) (history_kept t c (run cs (state_of t')).1 ∙ told),
      )

  -- Over any calls on a registered task, the calls that succeed are the history of the stage that the
  -- task has reached: binding, completion, the claim of the join, the join, perhaps the diagnostic, and
  -- the removal, each once and in this order, or an abort alone.
  pub run-registered :
      (cs : List (Call O))
      → (u : Stage O) × ((run cs registered).0 ≡ state_of u) × ((run cs registered).1 ≡ history u)
  run-registered cs = run-history cs spawning
