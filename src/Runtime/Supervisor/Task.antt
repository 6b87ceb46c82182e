-- ===== src/Runtime/Supervisor/Task.antt =====
-- runtime.rs: one supervised task, from its registration to its removal. Its spawn, its body and the threads that
-- join it are interleaved sections; `broken` is a failed `assert` or `expect`.
pub mod Joined
use easycon_sdk.Common.{
  ℕ, ◌+◌, ◌==◌, ◌&&◌, ◌||◌, not, Bool, true, false, Option, none, some, List, [], ◌∷◌,
  if◌then◌else◌,
}
use easycon_sdk.Runtime.Lifecycle.{
  TaskState, registered, bind_owner_and_retain_handle, complete_body, claim_join_handle,
  finish_join, persist_panic_diagnostic, unlink_registry, abort_spawn,
}

pub data SupervisedTaskOutcome : Type 0 where
  body_completed body_panicked : SupervisedTaskOutcome

abbrev pub is_panic : SupervisedTaskOutcome → Bool
is_panic body_completed = false
is_panic body_panicked = true

-- Where the spawning thread is.
pub data Spawn : Type 0 where
  at_spawn at_install at_bind at_start spawn_ended spawn_failed : Spawn

-- Where the thread of the task is.
pub data Body : Type 0 where
  body_waits body_runs body_over : Body
  body_reported : SupervisedTaskOutcome → Body

-- Where the thread is that holds the join gate.
pub data Joiner : Type 0 where
  no_joiner joiner_waits : Joiner
  joiner_claimed joiner_joined joiner_recorded : SupervisedTaskOutcome → Joiner

-- `linked` is the record in the registry, `outcome` and `slot` are those of the completion; `failures` is how often the
-- task stands among the failures of the Runtime, and `answers` is what the joins have returned.
pub record TaskWorld : Type 0 where
  pub spawn : Spawn
  pub body : Body
  pub joiner : Joiner
  pub linked : Option (TaskState SupervisedTaskOutcome)
  pub outcome : Option SupervisedTaskOutcome
  pub slot : Bool
  pub failures : ℕ
  pub thread_joins : ℕ
  pub answers : List SupervisedTaskOutcome
  pub broken : Bool

unfoldable pub new_task : TaskWorld
unfolding registered
new_task = record {
  spawn = at_spawn;
  body = body_waits;
  joiner = no_joiner;
  linked = some registered;
  outcome = none;
  slot = false;
  failures = 0;
  thread_joins = 0;
  answers = [];
  broken = false;
}

pub data Call : Type 0 where
  spawns fails_to_spawn installs_handle binds_owner opens_gate : Call
  body_ends : SupervisedTaskOutcome → Call
  body_finishes join_begins join_claims join_waits join_records join_unlinks : Call

abbrev asserted : TaskWorld → TaskState SupervisedTaskOutcome × Bool → TaskWorld
asserted w (s, held) = record w { linked = some s; broken = w.broken || not held }

-- A method on the record, which is expected to be there.
abbrev on_record :
    TaskWorld
    → Option (TaskState SupervisedTaskOutcome)
    → (TaskState SupervisedTaskOutcome → TaskState SupervisedTaskOutcome × Bool)
    → TaskWorld
on_record w none method = record w { broken = true }
on_record w (some s) method = asserted w (method s)

abbrev removed : TaskWorld → TaskWorld
removed w = record w { linked = none }

abbrev spawn_on : Spawn → TaskWorld → TaskWorld
spawn_on at_spawn w = record w { spawn = at_install }
spawn_on _ w = w

abbrev fail_on : Spawn → TaskWorld → TaskWorld
fail_on at_spawn w = removed (on_record (record w { spawn = spawn_failed }) w.linked abort_spawn)
fail_on _ w = w

-- `install_handle` asserts that the slot is free.
abbrev install_on : Spawn → TaskWorld → TaskWorld
install_on at_install w = record w { spawn = at_bind; slot = true; broken = w.broken || w.slot }
install_on _ w = w

abbrev bind_on : Spawn → TaskWorld → TaskWorld
bind_on at_bind w = on_record (record w { spawn = at_start }) w.linked bind_owner_and_retain_handle
bind_on _ w = w

abbrev open_on : Spawn → TaskWorld → TaskWorld
open_on at_start w = record w { spawn = spawn_ended; body = body_runs }
open_on _ w = w

abbrev body_on : Body → TaskWorld → SupervisedTaskOutcome → TaskWorld
body_on body_runs w o =
    on_record (record w { body = body_reported o }) w.linked (λ s. complete_body s o)
body_on _ w o = w

-- `TaskCompletion::finish`.
abbrev finish_on : Body → TaskWorld → TaskWorld
finish_on (body_reported o) w = record w { body = body_over; outcome = some o }
finish_on _ w = w

-- A task is handed out, and a close begins, when its spawn has ended; the gate is for one joiner.
abbrev join_on : Spawn → Joiner → TaskWorld → TaskWorld
join_on spawn_ended no_joiner w = record w { joiner = joiner_waits }
join_on _ _ w = w

abbrev claim_found :
    TaskWorld → Option (TaskState SupervisedTaskOutcome) → SupervisedTaskOutcome → TaskWorld
claim_found w none o = record w { joiner = no_joiner; answers = o ∷ w.answers }
claim_found w (some s) o = asserted (record w { joiner = joiner_claimed o }) (claim_join_handle s)

-- The wait for the outcome, and the claim of the handle.
abbrev claim_on : Joiner → Option SupervisedTaskOutcome → TaskWorld → TaskWorld
claim_on joiner_waits (some o) w = claim_found w w.linked o
claim_on _ _ w = w

-- `take_handle`, which is expected to be there, and the join of the thread.
abbrev wait_on : Joiner → TaskWorld → TaskWorld
wait_on (joiner_claimed o) w = record w {
  joiner = joiner_joined o;
  slot = false;
  thread_joins = w.thread_joins + 1;
  broken = w.broken || not w.slot;
}
wait_on _ w = w

abbrev record_on : Joiner → TaskWorld → TaskWorld
record_on (joiner_joined o) w = record w {
  joiner = joiner_recorded o;
  failures = if is_panic o && (w.failures == 0) then w.failures + 1 else w.failures;
}
record_on _ w = w

-- The last section: the end of the join, the diagnostic of a panic, and the removal.
abbrev unlink_with :
    SupervisedTaskOutcome → TaskState SupervisedTaskOutcome → TaskState SupervisedTaskOutcome × Bool
unlink_with o s =
    let (joined, ended) = finish_join s in
    let (durable, persisted) = persist_panic_diagnostic joined in
    let last = if is_panic o then durable else joined in
    let (gone, unlinked) = unlink_registry last (is_panic o) in
    (gone, ended && (persisted || not (is_panic o)) && unlinked)

abbrev unlink_on : Joiner → TaskWorld → TaskWorld
unlink_on (joiner_recorded o) w =
    removed (
      on_record (record w { joiner = no_joiner; answers = o ∷ w.answers }) w.linked (unlink_with o))
unlink_on _ w = w

unfoldable pub step : Call → TaskWorld → TaskWorld
unfolding bind_owner_and_retain_handle complete_body claim_join_handle finish_join
    persist_panic_diagnostic unlink_registry abort_spawn
step spawns w = spawn_on w.spawn w
step fails_to_spawn w = fail_on w.spawn w
step installs_handle w = install_on w.spawn w
step binds_owner w = bind_on w.spawn w
step opens_gate w = open_on w.spawn w
step (body_ends o) w = body_on w.body w o
step body_finishes w = finish_on w.body w
step join_begins w = join_on w.spawn w.joiner w
step join_claims w = claim_on w.joiner w.outcome w
step join_waits w = wait_on w.joiner w
step join_records w = record_on w.joiner w
step join_unlinks w = unlink_on w.joiner w

unfoldable pub run : List Call → TaskWorld → TaskWorld
run [] w = w
run (c ∷ calls) w = run calls (step c w)
