-- ===== src/Runtime/Supervisor/Shut.antt =====
-- runtime.rs: nothing is admitted any more once a Runtime is not active.
use easycon_sdk.Common.{ℕ, ◌≤◌, ◌≡◌, ◌∙◌, refl, false, List, [], ◌∷◌, arith}
use easycon_sdk.Runtime.Table.{occurs, occurs-remove}
use easycon_sdk.Runtime.Supervisor.{
  RuntimeInner, an_operation, a_resource, a_task, is_active, ended_closed, ended_failed,
}
use easycon_sdk.Runtime.Supervisor.System.{
  World, new_world, Call, unregister_one, complete_one, step, run,
}
use easycon_sdk.Runtime.Supervisor.Once.{ClosesOnce, step-ClosesOnce, run-ClosesOnce}

-- No id is given, no admission of the deadlines is open, and the registries only lose ids.
pub record OnlyShrinks (r s : RuntimeInner) : Type 0 where
  pub shut : is_active s.state ≡ false
  pub sealed : s.admission_open ≡ false
  pub no_id : s.next_id ≡ r.next_id
  pub fewer_operations : (k : ℕ) → occurs k s.operations ≤ occurs k r.operations
  pub fewer_resources : (k : ℕ) → occurs k s.resources ≤ occurs k r.resources
  pub fewer_tasks : (k : ℕ) → occurs k s.tasks ≤ occurs k r.tasks

step-OnlyShrinks :
    (c : Call) (r : RuntimeInner) (w : World)
    → OnlyShrinks r w.runtime
    → OnlyShrinks r (step c w).runtime
unfolding step
step-OnlyShrinks (unregister_one an_operation id) r w h = record {
  shut = h.shut;
  sealed = h.sealed;
  no_id = h.no_id;
  fewer_operations =
      λ k. ground (arith, h.fewer_operations k, occurs-remove k id w.runtime.operations);
  fewer_resources = h.fewer_resources;
  fewer_tasks = h.fewer_tasks;
}
step-OnlyShrinks (unregister_one a_resource id) r w h = record {
  shut = h.shut;
  sealed = h.sealed;
  no_id = h.no_id;
  fewer_operations = h.fewer_operations;
  fewer_resources =
      λ k. ground (arith, h.fewer_resources k, occurs-remove k id w.runtime.resources);
  fewer_tasks = h.fewer_tasks;
}
step-OnlyShrinks (unregister_one a_task id) r w h = record {
  shut = h.shut;
  sealed = h.sealed;
  no_id = h.no_id;
  fewer_operations = h.fewer_operations;
  fewer_resources = h.fewer_resources;
  fewer_tasks = λ k. ground (arith, h.fewer_tasks k, occurs-remove k id w.runtime.tasks);
}
step-OnlyShrinks (complete_one outcome) r w h = record {
  shut = ground arith;
  sealed = ground arith;
  no_id = ground arith;
  fewer_operations = λ k. ground (arith, h.fewer_operations k);
  fewer_resources = λ k. ground (arith, h.fewer_resources k);
  fewer_tasks = λ k. ground (arith, h.fewer_tasks k);
}
step-OnlyShrinks c r w h = record {
  shut = ground arith;
  sealed = ground arith;
  no_id = ground arith;
  fewer_operations = λ k. ground (arith, h.fewer_operations k);
  fewer_resources = λ k. ground (arith, h.fewer_resources k);
  fewer_tasks = λ k. ground (arith, h.fewer_tasks k);
}

run-OnlyShrinks_from :
    (calls : List Call) (r : RuntimeInner) (w : World)
    → OnlyShrinks r w.runtime
    → OnlyShrinks r (run calls w).runtime
unfolding run
run-OnlyShrinks_from [] r w h = h
run-OnlyShrinks_from (c ∷ calls) r w h =
    run-OnlyShrinks_from calls r (step c w) (step-OnlyShrinks c r w h)

step_sealed :
    (c : Call) (w : World)
    → ClosesOnce w
    → w.runtime.admission_open ≡ is_active w.runtime.state
    → (step c w).runtime.admission_open ≡ is_active (step c w).runtime.state
unfolding step
step_sealed (complete_one ended_closed) w v h = ground arith
step_sealed (complete_one (ended_failed report)) w v h = ground arith
step_sealed c w v h = ground arith

run_sealed :
    (calls : List Call) (w : World)
    → ClosesOnce w
    → w.runtime.admission_open ≡ is_active w.runtime.state
    → (run calls w).runtime.admission_open ≡ is_active (run calls w).runtime.state
unfolding run
run_sealed [] w v h = h
run_sealed (c ∷ calls) w v h =
    run_sealed calls (step c w) (step-ClosesOnce c w v) (step_sealed c w v h)

-- Once a Runtime has left its first state, by a close or with its last handle, no later call of any thread
-- is given an id or brings the Runtime back: its registries only lose ids, and no deadline is admitted.
pub run-OnlyShrinks :
    (calls more : List Call)
    → is_active (run calls new_world).runtime.state ≡ false
    → OnlyShrinks (run calls new_world).runtime (run more (run calls new_world)).runtime
run-OnlyShrinks calls more shut =
    run-OnlyShrinks_from more (run calls new_world).runtime (run calls new_world) (record {
      shut = shut;
      sealed = run_sealed calls new_world (unfold run in run-ClosesOnce []) refl ∙ shut;
      no_id = refl;
      fewer_operations = λ k. omega arith;
      fewer_resources = λ k. omega arith;
      fewer_tasks = λ k. omega arith;
    })
