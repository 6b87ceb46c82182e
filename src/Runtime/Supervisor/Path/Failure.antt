-- ===== src/Runtime/Supervisor/Path/Failure.antt =====
-- runtime.rs: when a close ends well.
use easycon_sdk.Common.{
  ℕ, ◌≡◌, ◌∙◌, ap, refl, ◌&&◌, ◌||◌, not, Bool, true, false, Bool-cases, Option, none, some, List,
  [], ◌∷◌, ◌++◌, arith, if◌then◌else◌, is_some, inl, inr,
}
use easycon_sdk.Runtime.Supervisor.{
  ClosePhase, CloseOutcome, ended_closed, ended_failed, RuntimeCounts,
}
use easycon_sdk.Runtime.Supervisor.Path.{
  Answers, CloseFailure, ResourceClose, is_stale, closes_well, close_errs, close_panics, TaskEnd,
  completes, body_panics, joins_itself, CloseOperation, WorkerStop, worker_stops,
  worker_joins_itself, worker_panicked, insert_by, sort_by, or_else, live, resource_failure,
  close_resources, add_prior, least, join_external_tasks, lost, settle_operations, worker_failure,
  converges, convergence_failure, start_failure, is_closed, PathPhase, announcing, cancelling,
  closing_resources, joining_tasks, settling, stopping_worker, counting, run_phases, phases_of,
  path_after, CloseEffect, request_cancels, failed_close_outcome, finish_close, contains,
  lost_failure, panic_failure, close_result, path_end,
}

module _ {A : Type 0} where
  abbrev pub all_of : (A → Bool) → List A → Bool
  all_of test [] = true
  all_of test (x ∷ xs) = test x && all_of test xs

  all_of-insert_by :
      (key : A → ℕ) (test : A → Bool) (a : A) (xs : List A)
      → all_of test (insert_by key a xs) ≡ (test a && all_of test xs)
  all_of-insert_by key test a [] = refl
  all_of-insert_by key test a (x ∷ xs) = ground (arith, all_of-insert_by key test a xs)

  all_of-sort_by :
      (key : A → ℕ) (test : A → Bool) (xs : List A) → all_of test (sort_by key xs) ≡ all_of test xs
  all_of-sort_by key test [] = refl
  all_of-sort_by key test (x ∷ xs) =
      all_of-insert_by key test x (sort_by key xs)
      ∙ ap (λ b. test x && b) (all_of-sort_by key test xs)

abbrev is_well : ℕ × ResourceClose → Bool
is_well (id, r) = not (is_some (resource_failure id r))

resources_well :
    (rs : List (ℕ × ResourceClose)) (failure : Option CloseFailure)
    → is_some (close_resources rs failure).1 ≡ (is_some failure || not (all_of is_well rs))
unfolding close_resources
resources_well [] failure = ground arith
resources_well ((id, r) ∷ rs) failure =
    ground (arith, resources_well rs (or_else failure (resource_failure id r)))

all_of-live : (rs : List (ℕ × ResourceClose)) → all_of is_well (live rs) ≡ all_of is_well rs
all_of-live [] = refl
all_of-live ((id, is_stale) ∷ rs) = all_of-live rs
all_of-live ((id, closes_well) ∷ rs) = all_of-live rs
all_of-live ((id, close_panics) ∷ rs) = refl
all_of-live ((id, close_errs m) ∷ rs) = refl

abbrev is_complete : ℕ × TaskEnd → Bool
is_complete (id, completes) = true
is_complete (id, _) = false

abbrev is_empty : List ℕ → Bool
is_empty [] = true
is_empty (x ∷ xs) = false

empty-add_prior :
    (panicked prior : List ℕ)
    → is_empty (add_prior panicked prior) ≡ (is_empty panicked && is_empty prior)
empty-add_prior [] [] = refl
empty-add_prior (x ∷ xs) [] = refl
empty-add_prior [] (p ∷ prior) = empty-add_prior (p ∷ []) prior
empty-add_prior (x ∷ xs) (p ∷ prior) = elim (Bool-cases (contains p (x ∷ xs))) [
  | inl there ↦ rw there (empty-add_prior (x ∷ xs) prior)
  | inr new ↦ rw new (empty-add_prior (x ∷ (xs ++ p ∷ [])) prior)
]

some-least : (xs : List ℕ) → is_some (panic_failure (least xs)) ≡ not (is_empty xs)
some-least [] = refl
some-least (x ∷ xs) = refl

empty-append : (xs : List ℕ) (id : ℕ) → is_empty (xs ++ id ∷ []) ≡ false
empty-append [] id = refl
empty-append (x ∷ xs) id = refl

tasks_well :
    (tasks : List (ℕ × TaskEnd)) (panicked prior : List ℕ)
    → is_some (join_external_tasks tasks panicked prior).1
      ≡ not (all_of is_complete tasks && (is_empty panicked && is_empty prior))
unfolding join_external_tasks
tasks_well [] panicked prior =
    some-least (add_prior panicked prior) ∙ ap not (empty-add_prior panicked prior)
tasks_well ((id, joins_itself) ∷ tasks) panicked prior = refl
tasks_well ((id, completes) ∷ tasks) panicked prior = tasks_well tasks panicked prior
tasks_well ((id, body_panics) ∷ tasks) panicked prior =
    ground (arith, tasks_well tasks (panicked ++ id ∷ []) prior, empty-append panicked id)

operations_well :
    (os : List CloseOperation) (failed : Bool) (failure : Option CloseFailure)
    → is_some (settle_operations os failed failure).1
      ≡ (is_some failure || (not failed && not (all_of (λ o. not (lost o)) os)))
unfolding settle_operations
operations_well [] failed failure = ground arith
operations_well (o ∷ os) failed failure =
    ground (arith, operations_well os failed failure, operations_well os failed (some lost_failure))

abbrev pub is_stopped : WorkerStop → Bool
is_stopped worker_stops = true
is_stopped _ = false

-- All that a close needs to end well: no panic leaves a phase of it, it is announced, every resource closes or is gone, every task has
-- completed and none has failed before, no operation has lost its owner, the deadline worker stops, the
-- registries are empty, and the event queues take the last event.
abbrev pub all_well : Answers → Bool
all_well a =
    a.publishes_closing
    && all_of is_well a.resources
    && (all_of is_complete a.external_tasks && is_empty a.prior_failures)
    && all_of (λ o. not (lost o)) a.operations
    && is_stopped a.worker
    && converges a.counts
    && (is_closed a.final_close && not (is_some a.panics))

abbrev pub ends_closed : CloseOutcome → Bool
ends_closed ended_closed = true
ends_closed (ended_failed report) = false

-- The failures in their order; one of the operations counts only if there is none before it.
abbrev first_failure : (s r t o w c : Option CloseFailure) → Option CloseFailure
first_failure s r t o w c =
    let first = or_else (or_else s r) t in
    let first' = if is_some o then first else or_else first w in
    let first'' = if is_some o then first' else or_else first' c in or_else first'' o

first_failure_well :
    (s r t o w c : Option CloseFailure) (any_lost : Bool)
    → is_some o ≡ (not (is_some (or_else (or_else s r) t)) && any_lost)
    → is_some (first_failure s r t o w c)
      ≡ (is_some s || is_some r || is_some t || any_lost || is_some w || is_some c)
first_failure_well (some f) r t o w c any_lost h = ground arith
first_failure_well none (some f) t o w c any_lost h = ground arith
first_failure_well none none (some f) o w c any_lost h = ground arith
first_failure_well none none none (some f) w c any_lost h = ground arith
first_failure_well none none none none w c any_lost h = ground arith

ends_well :
    (a : Answers) (log : List CloseEffect) (left : Option ClosePhase)
    (failure : Option CloseFailure)
    → ends_closed (close_result a (path_after (log, left) (path_end failure a.final_close)).1).1
      ≡ (not (is_some failure) && (is_closed a.final_close && not (is_some left)))
unfolding failed_close_outcome
ends_well a log none none = ground arith
ends_well a log none (some f) = refl
ends_well a log (some phase) failure = ground arith

run_phases_left :
    (p : Option (PathPhase × ℕ)) (c r t o : List CloseEffect)
    → is_some (run_phases p (phases_of c r t o)).1 ≡ is_some p
run_phases_left none c r t o = refl
run_phases_left (some (announcing, n)) c r t o = refl
run_phases_left (some (cancelling, n)) c r t o = refl
run_phases_left (some (closing_resources, n)) c r t o = refl
run_phases_left (some (joining_tasks, n)) c r t o = refl
run_phases_left (some (settling, n)) c r t o = refl
run_phases_left (some (stopping_worker, n)) c r t o = refl
run_phases_left (some (counting, n)) c r t o = refl

none_failed :
    (s r t l w c e s' r' t' l' w' c' : Bool)
    → s ≡ not s'
    → r ≡ not r'
    → t ≡ not t'
    → l ≡ not l'
    → w ≡ not w'
    → c ≡ not c'
    → (not (s || r || t || l || w || c) && e) ≡ (s' && r' && t' && l' && w' && c' && e)
none_failed s r t l w c e s' r' t' l' w' c' p q u v x y = ground arith

start_well : (published : Bool) → is_some (start_failure published) ≡ not published
start_well true = refl
start_well false = refl

worker_well : (stop : WorkerStop) → is_some (worker_failure stop) ≡ not (is_stopped stop)
worker_well worker_stops = refl
worker_well (worker_joins_itself id) = refl
worker_well (worker_panicked id) = refl

convergence_well : (c : RuntimeCounts) → is_some (convergence_failure c) ≡ not (converges c)
convergence_well c = ground arith

-- A close ends as closed exactly if all of its parts went well.
pub finish_close-all_well : (a : Answers) → ends_closed (finish_close a).1 ≡ all_well a
unfolding finish_close
finish_close-all_well a =
    let operations = sort_by (λ (o : CloseOperation). o.id) a.operations in
    let resources = sort_by (λ (r : ℕ × ResourceClose). r.0) (live a.resources) in
    let tasks = sort_by (λ (t : ℕ × TaskEnd). t.0) a.external_tasks in
    let r = (close_resources resources none).1 in
    let t = (join_external_tasks tasks [] a.prior_failures).1 in
    let first = or_else (or_else (start_failure a.publishes_closing) r) t in
    let o = (settle_operations operations (is_some first) none).1 in
    let failure =
      first_failure (start_failure a.publishes_closing) r t o (worker_failure a.worker)
        (convergence_failure a.counts) in
    let r_well =
      resources_well resources none
      ∙ ap not (all_of-sort_by _ is_well (live a.resources) ∙ all_of-live a.resources) in
    let t_well = tasks_well tasks [] a.prior_failures in
    let t_all = all_of-sort_by (λ (t : ℕ × TaskEnd). t.0) is_complete a.external_tasks in
    let o_well = operations_well operations (is_some first) none in
    let o_all = all_of-sort_by (λ (o : CloseOperation). o.id) (λ o. not (lost o)) a.operations in
    let cancels = request_cancels operations in
    let r_log = (close_resources resources none).0 in
    let t_log = (join_external_tasks tasks [] a.prior_failures).0 in
    let o_log = (settle_operations operations (is_some first) none).0 in
    let (log, left) = run_phases a.panics (phases_of cancels r_log t_log o_log) in
    let goes_on = is_closed a.final_close && not (is_some a.panics) in
    ends_well a log left failure
    ∙ ap (λ b. not (is_some failure) && (is_closed a.final_close && not b))
        (run_phases_left a.panics cancels r_log t_log o_log)
    ∙ ap (λ b. not b && goes_on)
        (first_failure_well (start_failure a.publishes_closing) r t o (worker_failure a.worker)
          (convergence_failure a.counts) (not (all_of (λ o. not (lost o)) a.operations))
          (o_well ∙ ap (λ b. not (is_some first) && not b) o_all))
    ∙ none_failed _ _ _ _ _ _ goes_on _ _ _ _ _ _ (start_well a.publishes_closing) r_well
        (t_well ∙ ap (λ b. not (b && is_empty a.prior_failures)) t_all) refl (worker_well a.worker)
        (convergence_well a.counts)
