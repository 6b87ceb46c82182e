-- ===== src/Runtime/Lifecycle.antt =====
-- crates/easycon-runtime/src/concurrency.rs, `TaskLifecycleState`: the life of a supervised task from
-- its registration to its removal from the registry. Each method runs under the registry's lock.
pub mod Order
mod Tests
use easycon_sdk.Common.{
  Bool, true, false, not, ◌&&◌, ◌||◌, Option, none, some, is_some, if◌then◌else◌, List, [], ◌∷◌,
}

pub data Handle : Type 0 where
  missing retained joining joined : Handle

abbrev pub same_handle : Handle → Handle → Bool
same_handle missing missing = true
same_handle retained retained = true
same_handle joining joining = true
same_handle joined joined = true
same_handle _ _ = false

-- O is the type of a body's outcome.
pub record TaskState (O : Type 0) : Type 0 where
  pub owner_bound : Bool
  pub body_outcome : Option O
  pub handle : Handle
  pub panic_diagnostic_durable : Bool
  pub registry_linked : Bool

module _ {O : Type 0} where
  unfoldable pub registered : TaskState O
  registered = record {
    owner_bound = false;
    body_outcome = none;
    handle = missing;
    panic_diagnostic_durable = false;
    registry_linked = true;
  }

  unfoldable pub bind_owner_and_retain_handle : TaskState O → TaskState O × Bool
  bind_owner_and_retain_handle s =
      if not s.registry_linked
        || s.owner_bound
        || is_some s.body_outcome
        || not (same_handle s.handle missing)
      then (s, false)
      else (record s { owner_bound = true; handle = retained }, true)

  unfoldable pub complete_body : TaskState O → O → TaskState O × Bool
  complete_body s outcome =
      if not s.registry_linked
        || not s.owner_bound
        || is_some s.body_outcome
        || not (same_handle s.handle retained)
      then (s, false)
      else (record s { body_outcome = some outcome }, true)

  unfoldable pub claim_join_handle : TaskState O → TaskState O × Bool
  claim_join_handle s =
      if not s.registry_linked
        || not (is_some s.body_outcome)
        || not (same_handle s.handle retained)
      then (s, false)
      else (record s { handle = joining }, true)

  unfoldable pub finish_join : TaskState O → TaskState O × Bool
  finish_join s =
      if not s.registry_linked || not (is_some s.body_outcome) || not (same_handle s.handle joining)
      then (s, false)
      else (record s { handle = joined }, true)

  unfoldable pub persist_panic_diagnostic : TaskState O → TaskState O × Bool
  persist_panic_diagnostic s =
      if not s.registry_linked || not (same_handle s.handle joined) || s.panic_diagnostic_durable
      then (s, false)
      else (record s { panic_diagnostic_durable = true }, true)

  unfoldable pub unlink_registry : TaskState O → Bool → TaskState O × Bool
  unlink_registry s panic_diagnostic_required =
      if not s.registry_linked
        || not (same_handle s.handle joined)
        || (panic_diagnostic_required && not s.panic_diagnostic_durable)
      then (s, false)
      else (record s { registry_linked = false }, true)

  unfoldable pub abort_spawn : TaskState O → TaskState O × Bool
  abort_spawn s =
      if not s.registry_linked
        || s.owner_bound
        || is_some s.body_outcome
        || not (same_handle s.handle missing)
      then (s, false)
      else (record s { registry_linked = false }, true)

pub data Call (O : Type 0) : Type 0 where
  bind : Call O
  complete : O → Call O
  claim : Call O
  finish : Call O
  persist : Call O
  unlink : Bool → Call O
  abort : Call O

module _ {O : Type 0} where
  unfoldable pub step : Call O → TaskState O → TaskState O × Bool
  unfolding bind_owner_and_retain_handle complete_body claim_join_handle finish_join
      persist_panic_diagnostic unlink_registry abort_spawn
  step bind s = bind_owner_and_retain_handle s
  step (complete o) s = complete_body s o
  step claim s = claim_join_handle s
  step finish s = finish_join s
  step persist s = persist_panic_diagnostic s
  step (unlink required) s = unlink_registry s required
  step abort s = abort_spawn s

  -- The calls that succeed, in their order, beside the last state.
  abbrev pub kept : Call O → Bool → List (Call O) → List (Call O)
  kept c true cs = c ∷ cs
  kept c false cs = cs

  unfoldable pub run : List (Call O) → TaskState O → TaskState O × List (Call O)
  run [] s = (s, [])
  run (c ∷ cs) s =
      let (s', done) = step c s in let (last, others) = run cs s' in (last, kept c done others)
