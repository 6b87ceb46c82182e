-- ===== src/Runtime/Supervisor/Path/Work.antt =====
-- runtime.rs: what a close does, whatever fails and wherever a phase panics.
use easycon_sdk.Runtime.Supervisor.{ClosePhase}
use easycon_sdk.Common.{ℕ, ◌&&◌, Bool, true, false, Option, none, some, List, [], ◌∷◌, ◌++◌}
use easycon_sdk.Runtime.Supervisor.Path.Phases.{work_until}
use easycon_sdk.Runtime.Supervisor.Path.{
  Answers, CloseFailure, ResourceClose, TaskEnd, joins_itself, CloseOperation, CloseEffect,
  closes_events, joins_task, cancels_root, stops_worker, forces_producers, sort_by, request_cancels,
  live, PathPhase, path_panics, resource_effects, settle_effects, path_end, close_result,
}

abbrev pub all_resources : List (ℕ × ResourceClose) → List CloseEffect
all_resources [] = []
all_resources ((id, r) ∷ rs) = resource_effects id r ++ all_resources rs

-- Up to a task that would join itself.
abbrev pub all_joins : List (ℕ × TaskEnd) → List CloseEffect
all_joins [] = []
all_joins ((id, joins_itself) ∷ tasks) = []
all_joins ((id, t) ∷ tasks) = joins_task id ∷ all_joins tasks

abbrev pub all_settles : List CloseOperation → List CloseEffect
all_settles [] = []
all_settles (o ∷ os) = settle_effects o ++ all_settles os

abbrev pub all_cancels : Answers → List CloseEffect
all_cancels a = request_cancels (sort_by (λ (o : CloseOperation). o.id) a.operations)

abbrev pub live_resources : Answers → List (ℕ × ResourceClose)
live_resources a = sort_by (λ (r : ℕ × ResourceClose). r.0) (live a.resources)

abbrev pub tasks_of : Answers → List (ℕ × TaskEnd)
tasks_of a = sort_by (λ (t : ℕ × TaskEnd). t.0) a.external_tasks

abbrev pub settles_of : Answers → List CloseEffect
settles_of a = all_settles (sort_by (λ (o : CloseOperation). o.id) a.operations)

-- The work of a close in which a panic leaves the phases at the given point, or none does.
abbrev pub work : Answers → Option (PathPhase × ℕ) → List CloseEffect
work a p =
    work_until p (all_cancels a) (all_resources (live_resources a)) (all_joins (tasks_of a))
      (settles_of a)

-- What follows the work: only the end of the Runtime and of its events.
abbrev is_end : CloseEffect → Bool
is_end cancels_root = true
is_end stops_worker = true
is_end (closes_events code) = true
is_end forces_producers = true
is_end _ = false

abbrev pub all_ends : List CloseEffect → Bool
all_ends [] = true
all_ends (e ∷ es) = is_end e && all_ends es

-- The last effect closes the event queues, or does so by force.
abbrev pub ends_shut : List CloseEffect → Bool
ends_shut [] = false
ends_shut (closes_events code ∷ []) = true
ends_shut (forces_producers ∷ []) = true
ends_shut (e ∷ es) = ends_shut es

-- What follows the phases.
abbrev after_work : Answers → Option ClosePhase → Option CloseFailure → List CloseEffect
after_work a none failure =
    let (last, result) = path_end failure a.final_close in last ++ (close_result a result).0
after_work a (some phase) failure = (close_result a (path_panics phase)).0
