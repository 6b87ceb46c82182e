-- ===== src/Runtime/Supervisor/Tests.antt =====
-- runtime.rs: two threads close a Runtime, a close in which a resource and a task fail
-- and a settlement panics, and a task that panics.
use easycon_sdk.Common.{some, ◌≡◌, refl, true, false, List, [], ◌∷◌, ◌++◌}
use easycon_sdk.Runtime.Supervisor.{RuntimeCounts, a_resource, a_task, ended_closed, close}
use easycon_sdk.Runtime.Supervisor.System.{
  new_world, Call, admit_one, own_one, unregister_one, close_one, complete_one, bind_one,
  unbind_one, drop_one, step, run,
}
use easycon_sdk.Runtime.Supervisor.Once.{ClosesOnce, run-ClosesOnce}
use easycon_sdk.Runtime.Supervisor.Shut.{OnlyShrinks, run-OnlyShrinks}
use easycon_sdk.Runtime.Supervisor.Path.{
  Answers, settling, closes_well, close_errs, completes, body_panics, legacy, worker_stops,
  events_close, finish_close,
}
use easycon_sdk.Runtime.Supervisor.Path.Failure.{ends_closed, all_well, finish_close-all_well}
use easycon_sdk.Runtime.Supervisor.Task as Task
use easycon_sdk.Runtime.Supervisor.Task.Joined.{IsJoinedOnce, run-IsJoinedOnce}

abbrev begin_calls : List Call
begin_calls =
    admit_one a_resource ∷ own_one true true ∷ close_one 7 false ∷ bind_one ∷ close_one 8 false ∷ []

abbrev end_calls : List Call
end_calls =
    admit_one a_task
    ∷ unregister_one a_resource 2
    ∷ complete_one ended_closed
    ∷ close_one 8 false
    ∷ unbind_one
    ∷ drop_one
    ∷ []

run-ClosesOnce_example : ClosesOnce (run (begin_calls ++ end_calls) new_world)
run-ClosesOnce_example = run-ClosesOnce (begin_calls ++ end_calls)

run-OnlyShrinks_example :
    OnlyShrinks
      (run begin_calls new_world).runtime
      (run end_calls (run begin_calls new_world)).runtime
unfolding run step close
run-OnlyShrinks_example = run-OnlyShrinks begin_calls end_calls refl

abbrev no_counts : RuntimeCounts
no_counts = record { active_operations = 0; active_resources = 0; active_tasks = 0 }

abbrev failing : Answers
failing = record {
  publishes_closing = true;
  operations =
      (record { id = 6; ended_before = false; ended_after = false; fallback = legacy }) ∷ [];
  resources = (5, closes_well) ∷ (3, close_errs "busy") ∷ [];
  external_tasks = (9, body_panics) ∷ (4, completes) ∷ [];
  prior_failures = [];
  panics = some (settling, 1);
  worker = worker_stops;
  counts = no_counts;
  failed_counts = no_counts;
  final_close = events_close;
  failed_close = events_close;
  recovering_close = events_close;
}

finish_close-all_well_example : ends_closed (finish_close failing).1 ≡ all_well failing
finish_close-all_well_example = finish_close-all_well failing

-- Two threads join a task that panics; the second finds its record gone.
abbrev task_calls : List Task.Call
task_calls =
    Task.spawns
    ∷ Task.installs_handle
    ∷ Task.binds_owner
    ∷ Task.opens_gate
    ∷ Task.join_begins
    ∷ Task.body_ends Task.body_panicked
    ∷ Task.body_finishes
    ∷ Task.join_claims
    ∷ Task.join_waits
    ∷ Task.join_records
    ∷ Task.join_unlinks
    ∷ Task.join_begins
    ∷ Task.join_claims
    ∷ []

run-IsJoinedOnce_example : IsJoinedOnce (Task.run task_calls Task.new_task)
run-IsJoinedOnce_example = run-IsJoinedOnce task_calls
