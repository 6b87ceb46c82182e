-- ===== src/Runtime/Supervisor/Task/Joined.antt =====
-- runtime.rs: what is called on a supervised task follows a small automaton, and no assertion fails.
use easycon_sdk.Common.{
  ℕ, ◌≤◌, ◌≡◌, ◌∙◌, ap, refl, Bool, true, false, Option, none, some, List, [], ◌∷◌, arith, All,
  replicate, zero, suc,
}
use easycon_sdk.Runtime.Lifecycle.{TaskState, Handle, missing, retained, joining, registered}
use easycon_sdk.Runtime.Supervisor.Task.{
  SupervisedTaskOutcome, body_completed, body_panicked, Spawn, at_spawn, at_install, at_bind,
  at_start, spawn_ended, spawn_failed, Body, body_waits, body_runs, body_over, body_reported,
  Joiner, no_joiner, joiner_waits, joiner_claimed, joiner_joined, joiner_recorded, TaskWorld,
  new_task, Call, spawns, fails_to_spawn, installs_handle, binds_owner, opens_gate, body_ends,
  body_finishes, join_begins, join_claims, join_waits, join_records, join_unlinks, step, run,
}

-- How far a task has come, and whether a joiner holds the gate in front of its claim. `unlinked` counts the joins that
-- found the record gone.
pub data Phase : Type 0 where
  unspawned spawned installed bound failed : Phase
  running : Bool → Phase
  reported finished : SupervisedTaskOutcome → Bool → Phase
  claimed thread_joined recorded : SupervisedTaskOutcome → Phase
  unlinked : SupervisedTaskOutcome → Bool → ℕ → Phase

abbrev linked_state :
    Bool → Option SupervisedTaskOutcome → Handle → Option (TaskState SupervisedTaskOutcome)
linked_state owned o handle = some (record {
  owner_bound = owned;
  body_outcome = o;
  handle = handle;
  panic_diagnostic_durable = false;
  registry_linked = true;
})

abbrev gate : Bool → Joiner
gate true = joiner_waits
gate false = no_joiner

abbrev spawning : Spawn → Option (TaskState SupervisedTaskOutcome) → Bool → TaskWorld
spawning s linked slot = record {
  spawn = s;
  body = body_waits;
  joiner = no_joiner;
  linked = linked;
  outcome = none;
  slot = slot;
  failures = 0;
  thread_joins = 0;
  answers = [];
  broken = false;
}

abbrev going :
    Body
    → Joiner
    → Option (TaskState SupervisedTaskOutcome)
    → Option SupervisedTaskOutcome
    → TaskWorld
going body joiner linked outcome = record {
  spawn = spawn_ended;
  body = body;
  joiner = joiner;
  linked = linked;
  outcome = outcome;
  slot = true;
  failures = 0;
  thread_joins = 0;
  answers = [];
  broken = false;
}

abbrev ending :
    Joiner
    → Option (TaskState SupervisedTaskOutcome)
    → SupervisedTaskOutcome
    → (failures : ℕ) → List SupervisedTaskOutcome
    → TaskWorld
ending joiner linked o failures answers = record {
  spawn = spawn_ended;
  body = body_over;
  joiner = joiner;
  linked = linked;
  outcome = some o;
  slot = false;
  failures = failures;
  thread_joins = 1;
  answers = answers;
  broken = false;
}

abbrev pub failure_of : SupervisedTaskOutcome → ℕ
failure_of body_completed = 0
failure_of body_panicked = 1

-- The world in each phase.
abbrev world_in : Phase → TaskWorld
world_in unspawned = spawning at_spawn (linked_state false none missing) false
world_in spawned = spawning at_install (linked_state false none missing) false
world_in installed = spawning at_bind (linked_state false none missing) true
world_in bound = spawning at_start (linked_state true none retained) true
world_in failed = spawning spawn_failed none false
world_in (running waits) = going body_runs (gate waits) (linked_state true none retained) none
world_in (reported o waits) =
    going (body_reported o) (gate waits) (linked_state true (some o) retained) none
world_in (finished o waits) =
    going body_over (gate waits) (linked_state true (some o) retained) (some o)
world_in (claimed o) =
    going body_over (joiner_claimed o) (linked_state true (some o) joining) (some o)
world_in (thread_joined o) = ending (joiner_joined o) (linked_state true (some o) joining) o 0 []
world_in (recorded o) =
    ending (joiner_recorded o) (linked_state true (some o) joining) o (failure_of o) []
world_in (unlinked o waits n) = ending (gate waits) none o (failure_of o) (o ∷ replicate n o)

-- The edges, written as an automaton that knows nothing of the fields.
abbrev next : Call → Phase → Phase
next spawns unspawned = spawned
next fails_to_spawn unspawned = failed
next installs_handle spawned = installed
next binds_owner installed = bound
next opens_gate bound = running false
next (body_ends o) (running waits) = reported o waits
next body_finishes (reported o waits) = finished o waits
next join_begins (running waits) = running true
next join_begins (reported o waits) = reported o true
next join_begins (finished o waits) = finished o true
next join_begins (unlinked o waits n) = unlinked o true n
next join_claims (finished o true) = claimed o
next join_claims (unlinked o true n) = unlinked o false (suc n)
next join_waits (claimed o) = thread_joined o
next join_records (thread_joined o) = recorded o
next join_unlinks (recorded o) = unlinked o false 0
next _ p = p

step-next : (c : Call) (p : Phase) → step c (world_in p) ≡ world_in (next c p)
unfolding step
step-next c p = ground arith

-- Over any calls on a new task, it is in a phase of the automaton.
run-world_in : (calls : List Call) (p : Phase) → (q : Phase) × (run calls (world_in p) ≡ world_in q)
unfolding run
run-world_in [] p = (p, refl)
run-world_in (c ∷ calls) p =
    let (q, same) = run-world_in calls (next c p) in (q, ap (run calls) (step-next c p) ∙ same)

-- The task of an answered join: the answer is how the body ended, the thread is joined once and its handle gone, the
-- record is removed, and a panic stands among the failures once.
abbrev pub IsAnswer : TaskWorld → SupervisedTaskOutcome → Type 0
IsAnswer w o =
    (w.outcome ≡ some o)
    × (w.body ≡ body_over)
    × (w.linked ≡ none)
    × (w.slot ≡ false)
    × (w.thread_joins ≡ 1)
    × (w.failures ≡ failure_of o)

abbrev pub IsJoinedOnce : TaskWorld → Type 0
IsJoinedOnce w =
    (w.broken ≡ false) × (w.thread_joins ≤ 1) × (w.failures ≤ 1) × All (IsAnswer w) w.answers

replicate-All :
    (P : SupervisedTaskOutcome → Type 0) (o : SupervisedTaskOutcome) (n : ℕ)
    → P o
    → All P (replicate n o)
replicate-All P o zero holds = tt
replicate-All P o (suc n) holds = (holds, replicate-All P o n holds)

failure_of_bound : (o : SupervisedTaskOutcome) → failure_of o ≤ 1
failure_of_bound o = ground arith

world_in-IsJoinedOnce : (p : Phase) → IsJoinedOnce (world_in p)
world_in-IsJoinedOnce (recorded o) = (refl, omega arith, failure_of_bound o, tt)
world_in-IsJoinedOnce (unlinked o waits n) =
    let answer : IsAnswer (world_in (unlinked o waits n)) o =
      (refl, refl, refl, refl, refl, refl) in
    (refl, omega arith, failure_of_bound o, (answer, replicate-All _ o n answer))
world_in-IsJoinedOnce p = ground arith

-- Over any calls on a registered task, no assertion and no expectation of its spawn, its body and its joins fails; its
-- thread is joined at most once and at most one failure is recorded. Each answer that a join has returned is the outcome
-- the body ended with, and by then the thread is over and joined, the record is removed, and a panic is recorded.
pub run-IsJoinedOnce : (calls : List Call) → IsJoinedOnce (run calls new_task)
unfolding new_task registered
run-IsJoinedOnce calls =
    let (q, same) = run-world_in calls unspawned in rw same (world_in-IsJoinedOnce q)
