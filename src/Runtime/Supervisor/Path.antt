-- ===== src/Runtime/Supervisor/Path.antt =====
-- runtime.rs: the deterministic close, as the effects it attempts in order and the outcome. What resources, tasks,
-- operations and the event queues answer is given; `catch_isolated` makes a panic one of the answers, and a panic that
-- leaves a phase ends the work there.
pub mod Failure
pub mod Phases
pub mod Work
use easycon_sdk.Common.{
  ℕ, ◌+◌, leb, ltb, ◌==◌, ◌&&◌, ◌||◌, not, Bool, true, false, String, Option, none, some, List, [],
  ◌∷◌, ◌++◌, if◌then◌else◌, is_some, min, take,
}
use easycon_sdk.Runtime.Supervisor.{
  RuntimeCounts, ClosePhase, at_start, resource_cleanup, task_join, operation_finalization,
  internal_task_join, registry_convergence, final_event, CloseReport, CloseOutcome, ended_closed,
  ended_failed,
}

pub record CloseFailure : Type 0 where
  pub phase : ClosePhase
  pub diagnostic : String
  pub resource_id : Option ℕ
  pub task_id : Option ℕ

abbrev pub new_failure : ClosePhase → String → CloseFailure
new_failure phase diagnostic = record {
  phase = phase;
  diagnostic = diagnostic;
  resource_id = none;
  task_id = none;
}

abbrev pub with_resource : CloseFailure → ℕ → CloseFailure
with_resource f id = record f { resource_id = some id }

abbrev pub with_task : CloseFailure → ℕ → CloseFailure
with_task f id = record f { task_id = some id }

-- What a resource answers to its close; a stale one is gone.
pub data ResourceClose : Type 0 where
  is_stale closes_well close_panics : ResourceClose
  close_errs : String → ResourceClose

-- How the join of a task ends.
pub data TaskEnd : Type 0 where
  completes body_panics joins_itself : TaskEnd

pub data Fallback : Type 0 where
  legacy already_ended is_settled ownership_lost : Fallback

-- An operation, with whether it has ended when the close looks first and when it looks again.
pub record CloseOperation : Type 0 where
  pub id : ℕ
  pub ended_before : Bool
  pub ended_after : Bool
  pub fallback : Fallback

-- A panic of the drain, which resumes that of a waker, is one of the phase.
pub data WorkerStop : Type 0 where
  worker_stops : WorkerStop
  worker_joins_itself worker_panicked : (id : ℕ) → WorkerStop

-- The close of the event queues: a panic is one of the clock or of the sequence.
pub data EventClose : Type 0 where
  events_close events_fail events_panic : EventClose

-- The phases of the work, each a value of the source's cell; it sets `OperationFinalization` twice.
pub data PathPhase : Type 0 where
  announcing cancelling closing_resources joining_tasks settling stopping_worker counting :
      PathPhase

abbrev pub phase_of : PathPhase → ClosePhase
phase_of announcing = at_start
phase_of cancelling = operation_finalization
phase_of closing_resources = resource_cleanup
phase_of joining_tasks = task_join
phase_of settling = operation_finalization
phase_of stopping_worker = internal_task_join
phase_of counting = registry_convergence

-- `panics` is the phase that a panic leaves, with how many of its effects were attempted by then.
pub record Answers : Type 0 where
  pub panics : Option (PathPhase × ℕ)
  pub publishes_closing : Bool
  pub operations : List CloseOperation
  pub resources : List (ℕ × ResourceClose)
  pub external_tasks : List (ℕ × TaskEnd)
  pub prior_failures : List ℕ
  pub worker : WorkerStop
  pub counts : RuntimeCounts
  pub failed_counts : RuntimeCounts
  pub final_close : EventClose
  pub failed_close : EventClose
  pub recovering_close : EventClose

pub data CloseEffect : Type 0 where
  publishes closes_events : (code : String) → CloseEffect
  requests_cancel closes_resource joins_task settles_operation finishes_cancelled : ℕ → CloseEffect
  cancels_root stops_worker forces_producers : CloseEffect

module _ {A : Type 0} (key : A → ℕ) where
  abbrev pub insert_by : A → List A → List A
  insert_by a [] = a ∷ []
  insert_by a (b ∷ bs) =
      let rest = insert_by a bs in if leb (key a) (key b) then a ∷ b ∷ bs else b ∷ rest

  -- `sort_by_key`.
  abbrev pub sort_by : List A → List A
  sort_by [] = []
  sort_by (a ∷ rest) = insert_by a (sort_by rest)

abbrev pub or_else {ℓ} : {A : Type ℓ} → Option A → Option A → Option A
or_else none b = b
or_else (some a) b = some a

abbrev pub request_cancels : List CloseOperation → List CloseEffect
request_cancels [] = []
request_cancels (o ∷ os) =
    let rest = request_cancels os in if o.ended_before then rest else requests_cancel o.id ∷ rest

abbrev pub live : List (ℕ × ResourceClose) → List (ℕ × ResourceClose)
live [] = []
live ((id, is_stale) ∷ rs) = live rs
live ((id, r) ∷ rs) = (id, r) ∷ live rs

abbrev pub resource_effects : ℕ → ResourceClose → List CloseEffect
resource_effects id (close_errs message) =
    closes_resource id ∷ publishes "runtime.resource.close_failed" ∷ []
resource_effects id close_panics =
    closes_resource id ∷ publishes "runtime.resource.close_panicked" ∷ []
resource_effects id _ = closes_resource id ∷ []

abbrev pub resource_failure : ℕ → ResourceClose → Option CloseFailure
resource_failure id (close_errs message) =
    some (with_resource (new_failure resource_cleanup message) id)
resource_failure id close_panics =
    some (with_resource (new_failure resource_cleanup "ManagedResource::close panicked") id)
resource_failure id _ = none

-- The loop over the live resources, with the first failure.
unfoldable pub close_resources :
    List (ℕ × ResourceClose) → Option CloseFailure → List CloseEffect × Option CloseFailure
close_resources [] failure = ([], failure)
close_resources ((id, r) ∷ rs) failure =
    let (effects, last) = close_resources rs (or_else failure (resource_failure id r)) in
    (resource_effects id r ++ effects, last)

abbrev pub contains : ℕ → List ℕ → Bool
contains id [] = false
contains id (x ∷ xs) = x == id || contains id xs

abbrev pub add_prior : List ℕ → List ℕ → List ℕ
add_prior panicked [] = panicked
add_prior panicked (id ∷ prior) =
    add_prior (if contains id panicked then panicked else panicked ++ id ∷ []) prior

abbrev pub least : List ℕ → Option ℕ
least [] = none
least (x ∷ xs) = some (elim (least xs) [ none ↦ x | some y ↦ min x y ])

abbrev pub panic_failure : Option ℕ → Option CloseFailure
panic_failure none = none
panic_failure (some id) =
    some (with_task (new_failure task_join "supervised task body panicked") id)

abbrev pub self_join_failure : ℕ → CloseFailure
self_join_failure id =
    with_task (new_failure task_join "Runtime close attempted to join its calling task") id

-- `join_external_tasks` on the sorted tasks: a join of the own task leaves the loop.
unfoldable pub join_external_tasks :
    List (ℕ × TaskEnd) → (panicked prior : List ℕ) → List CloseEffect × Option CloseFailure
join_external_tasks [] panicked prior = ([], panic_failure (least (add_prior panicked prior)))
join_external_tasks ((id, joins_itself) ∷ tasks) panicked prior = ([], some (self_join_failure id))
join_external_tasks ((id, completes) ∷ tasks) panicked prior =
    let (effects, failure) = join_external_tasks tasks panicked prior in
    (joins_task id ∷ effects, failure)
join_external_tasks ((id, body_panics) ∷ tasks) panicked prior =
    let (effects, failure) = join_external_tasks tasks (panicked ++ id ∷ []) prior in
    (joins_task id ∷ effects, failure)

abbrev pub settle_effects : CloseOperation → List CloseEffect
settle_effects o =
    if o.ended_after
    then []
    else settles_operation o.id ∷ elim o.fallback [ legacy ↦ finishes_cancelled o.id ∷ [] | _ ↦ [] ]

abbrev pub lost : CloseOperation → Bool
lost o = not o.ended_after && elim o.fallback [ ownership_lost ↦ true | _ ↦ false ]

abbrev pub lost_failure : CloseFailure
lost_failure =
    new_failure operation_finalization "operation settlement ownership and evidence are unavailable"

-- The second loop over the operations; `failed` is whether there was a failure before it.
unfoldable pub settle_operations :
    List CloseOperation
    → (failed : Bool) → Option CloseFailure
    → List CloseEffect × Option CloseFailure
settle_operations [] failed failure = ([], failure)
settle_operations (o ∷ os) failed failure =
    let next =
      if lost o && not (is_some failure) && not failed then some lost_failure else failure in
    let (effects, last) = settle_operations os failed next in (settle_effects o ++ effects, last)

abbrev pub worker_failure : WorkerStop → Option CloseFailure
worker_failure worker_stops = none
worker_failure (worker_joins_itself id) =
    some (
      with_task (new_failure internal_task_join "Runtime deadline task attempted to join itself")
        id)
worker_failure (worker_panicked id) =
    some (with_task (new_failure internal_task_join "Runtime deadline task panicked") id)

abbrev pub converges : RuntimeCounts → Bool
converges c = c.active_operations == 0 && c.active_resources == 0 && c.active_tasks == 0

abbrev pub convergence_failure : RuntimeCounts → Option CloseFailure
convergence_failure c =
    if converges c
    then none
    else some (new_failure registry_convergence "Runtime registries did not converge during close")

abbrev pub start_failure : Bool → Option CloseFailure
start_failure published =
    if published
    then none
    else some (new_failure at_start "Runtime closing event could not be published")

pub data PathResult : Type 0 where
  path_ends : PathResult
  path_fails : CloseFailure → PathResult
  path_panics : ClosePhase → PathResult

abbrev pub final_result : EventClose → PathResult
final_result events_close = path_ends
final_result events_fail =
    path_fails (new_failure final_event "Runtime final event delivery failed")
final_result events_panic = path_panics final_event

abbrev pub path_end : Option CloseFailure → EventClose → List CloseEffect × PathResult
path_end (some failure) answer = ([], path_fails failure)
path_end none answer = (closes_events "runtime.closed" ∷ [], final_result answer)

abbrev rank : PathPhase → ℕ
rank announcing = 0
rank cancelling = 1
rank closing_resources = 2
rank joining_tasks = 3
rank settling = 4
rank stopping_worker = 5
rank counting = 6

abbrev panics_in : Option (PathPhase × ℕ) → PathPhase → Option ℕ
panics_in none phase = none
panics_in (some (panicking, n)) phase = if rank panicking == rank phase then some n else none

-- The effects of the phases up to a panic, and the phase it leaves.
abbrev pub run_phases :
    Option (PathPhase × ℕ)
    → List (PathPhase × List CloseEffect)
    → List CloseEffect × Option ClosePhase
run_phases p [] = ([], none)
run_phases p ((phase, effects) ∷ phases) =
    let (later, left) = run_phases p phases in
    elim (panics_in p phase) [
      | none ↦ (effects ++ later, left)
      | some n ↦ (take n effects, some (phase_of phase))
    ]

abbrev pub phases_of :
    (cancels resources joins settles : List CloseEffect) → List (PathPhase × List CloseEffect)
phases_of cancels resources joins settles =
    (announcing, publishes "runtime.closing" ∷ cancels_root ∷ [])
    ∷ (cancelling, cancels)
    ∷ (closing_resources, resources)
    ∷ (joining_tasks, joins)
    ∷ (settling, settles)
    ∷ (stopping_worker, stops_worker ∷ [])
    ∷ (counting, [])
    ∷ []

abbrev pub path_after :
    List CloseEffect × Option ClosePhase
    → List CloseEffect × PathResult
    → List CloseEffect × PathResult
path_after (log, none) (final_log, result) = (log ++ final_log, result)
path_after (log, some phase) end = (log, path_panics phase)

unfoldable pub finish_close_success_path : Answers → List CloseEffect × PathResult
unfolding close_resources join_external_tasks settle_operations
finish_close_success_path a =
    let operations = sort_by (λ (o : CloseOperation). o.id) a.operations in
    let resources = sort_by (λ (r : ℕ × ResourceClose). r.0) (live a.resources) in
    let tasks = sort_by (λ (t : ℕ × TaskEnd). t.0) a.external_tasks in
    let (resource_log, of_resources) = close_resources resources none in
    let (task_log, of_tasks) = join_external_tasks tasks [] a.prior_failures in
    let first = or_else (or_else (start_failure a.publishes_closing) of_resources) of_tasks in
    let (operation_log, of_operations) = settle_operations operations (is_some first) none in
    let first' = if is_some of_operations then first else or_else first (worker_failure a.worker) in
    let first'' =
      if is_some of_operations then first' else or_else first' (convergence_failure a.counts) in
    path_after
      (run_phases a.panics
        (phases_of (request_cancels operations) resource_log task_log operation_log))
      (path_end (or_else first'' of_operations) a.final_close)

abbrev pub is_closed : EventClose → Bool
is_closed events_close = true
is_closed _ = false

-- The end of `failed_close_outcome`: two attempts to close the queues, and then by force.
abbrev pub failed_events : Answers → List CloseEffect
failed_events a =
    closes_events "runtime.close_failed"
    ∷ (if is_closed a.failed_close
        then []
        else closes_events "runtime.close_failed"
          ∷ (if is_closed a.recovering_close then [] else forces_producers ∷ []))

unfoldable pub failed_close_outcome : Answers → CloseFailure → List CloseEffect × CloseOutcome
failed_close_outcome a f = (
  cancels_root ∷ stops_worker ∷ failed_events a,
  ended_failed (record {
    phase = f.phase;
    diagnostic = f.diagnostic;
    resource_id = f.resource_id;
    task_id = f.task_id;
    counts = a.failed_counts;
  }),
)

abbrev pub close_result : Answers → PathResult → List CloseEffect × CloseOutcome
close_result a path_ends = ([], ended_closed)
close_result a (path_fails failure) = failed_close_outcome a failure
close_result a (path_panics phase) =
    failed_close_outcome a (new_failure phase "Runtime close phase panicked")

unfoldable pub finish_close : Answers → List CloseEffect × CloseOutcome
unfolding finish_close_success_path failed_close_outcome
finish_close a =
    let (log, result) = finish_close_success_path a in
    let (more, outcome) = close_result a result in (log ++ more, outcome)
