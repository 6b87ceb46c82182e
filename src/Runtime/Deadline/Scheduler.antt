-- ===== src/Runtime/Deadline/Scheduler.antt =====
-- deadline.rs: registrations, the worker, owners and a close as interleaved critical sections. What one
-- of them takes off the scheduler is handed over to its thread, which resolves the signals afterwards.
use easycon_sdk.Common.{
  ℕ, ◌+◌, ◌==◌, Bool, true, false, Option, none, some, List, [], ◌∷◌, ◌++◌, if◌then◌else◌,
}
use easycon_sdk.Runtime.Table.{get, remove}
use easycon_sdk.Runtime.Deadline.{
  DeadlineResolution, fired, disarmed, runtime_closed, DeadlineResolutionState, armed,
  commit_resolution, DeadlineSchedulerState, new_scheduler_state, fetch_add, reserve_pending,
  commit_reservation, abandon_reservation, seal_admission, Due, collect_due, next_target_ns, drain,
  disarm_entry,
}

-- The scheduler with the signals of all registrations; the ids that were taken but are not admitted yet,
-- those that were refused or abandoned, and the signals that were handed over; how often a signal
-- was found resolved, and whether a counter has overflown.
pub record DeadlineScheduler : Type 0 where
  pub next_id : ℕ
  pub next_resolution_order : ℕ
  pub state : DeadlineSchedulerState
  pub signals : ℕ → DeadlineResolutionState
  pub reserving : List (ℕ × ℕ)
  pub turned_down : List (ℕ × ℕ)
  pub handed : List (ℕ × DeadlineResolution)
  pub found_resolved : ℕ
  pub overflown : Bool

-- `DeadlineScheduler::new`.
abbrev pub new_scheduler : DeadlineScheduler
new_scheduler = record {
  next_id = 1;
  next_resolution_order = 1;
  state = new_scheduler_state;
  signals = λ k. armed;
  reserving = [];
  turned_down = [];
  handed = [];
  found_resolved = 0;
  overflown = false;
}

abbrev pub set_signal :
    (ℕ → DeadlineResolutionState) → ℕ → DeadlineResolutionState → ℕ → DeadlineResolutionState
set_signal signals k s j = if j == k then s else signals j

pub data Call : Type 0 where
  take_id : (target_ns : ℕ) → Call
  admit : (id : ℕ) → Call
  commit_one : (id trace_id : ℕ) → Call
  abandon_one : (id : ℕ) → Call
  fire_one : (now_ns : ℕ) → Call
  disarm_one : (id : ℕ) → Call
  resolve_one : (id : ℕ) → Call
  seal_one drain_one ask_next : Call

abbrev taken_id : DeadlineScheduler → ℕ → ℕ × Option ℕ → DeadlineScheduler
taken_id w target_ns (next, none) = record w { next_id = next; overflown = true }
taken_id w target_ns (next, some id) = record w {
  next_id = next;
  reserving = (id, target_ns) ∷ w.reserving;
}

abbrev admitted : DeadlineScheduler → ℕ → ℕ → Option DeadlineSchedulerState → DeadlineScheduler
admitted w id target_ns none = record w { turned_down = (id, target_ns) ∷ w.turned_down }
admitted w id target_ns (some s) = record w { state = s }

-- `reserve` is two sections: the id is taken first, and then the lock.
abbrev admit_found : DeadlineScheduler → ℕ → Option ℕ → DeadlineScheduler
admit_found w id none = w
admit_found w id (some target_ns) =
    admitted (record w { reserving = remove id w.reserving }) id target_ns
      (reserve_pending w.state id target_ns)

abbrev abandoned : DeadlineScheduler → ℕ → DeadlineSchedulerState × Bool → DeadlineScheduler
abandoned w id (s, removed) =
    if removed
    then record w { state = s; turned_down = (id, 0) ∷ w.turned_down }
    else record w { state = s }

abbrev pub tag_due : DeadlineResolution → Due → List (ℕ × DeadlineResolution)
tag_due r [] = []
tag_due r ((i, e) ∷ due) = (i, r) ∷ tag_due r due

abbrev pub tag_keys : DeadlineResolution → List (ℕ × ℕ) → List (ℕ × DeadlineResolution)
tag_keys r [] = []
tag_keys r ((t, i) ∷ keys) = (i, r) ∷ tag_keys r keys

abbrev handed_over :
    DeadlineScheduler → DeadlineSchedulerState → List (ℕ × DeadlineResolution) → DeadlineScheduler
handed_over w s more = record w { state = s; handed = w.handed ++ more }

abbrev disarmed_one : DeadlineScheduler → ℕ → DeadlineSchedulerState × Bool → DeadlineScheduler
disarmed_one w id (s, removed) = handed_over w s (if removed then (id, disarmed) ∷ [] else [])

abbrev told :
    DeadlineScheduler → ℕ → DeadlineResolutionState × Option (Option ℕ) → DeadlineScheduler
told w id (s, none) = record w {
  signals = set_signal w.signals id s;
  found_resolved = w.found_resolved + 1;
}
told w id (s, some waker) = record w { signals = set_signal w.signals id s }

abbrev ordered : DeadlineScheduler → ℕ → DeadlineResolution → ℕ × Option ℕ → DeadlineScheduler
ordered w id r (next, none) = record w { next_resolution_order = next; overflown = true }
ordered w id r (next, some order) =
    told (record w { next_resolution_order = next }) id
      (commit_resolution (w.signals id) (record { resolution = r; order = order }))

-- `commit_signal`.
unfoldable pub commit_signal : DeadlineScheduler → ℕ → DeadlineResolution → DeadlineScheduler
unfolding commit_resolution fetch_add
commit_signal w id r = ordered w id r (fetch_add w.next_resolution_order)

abbrev resolve_found : DeadlineScheduler → ℕ → Option DeadlineResolution → DeadlineScheduler
resolve_found w id none = w
resolve_found w id (some r) = commit_signal (record w { handed = remove id w.handed }) id r

unfoldable pub step : Call → DeadlineScheduler → DeadlineScheduler
unfolding fetch_add reserve_pending commit_reservation abandon_reservation disarm_entry drain
    commit_signal next_target_ns
step (take_id target_ns) w = taken_id w target_ns (fetch_add w.next_id)
step (admit id) w = admit_found w id (get id w.reserving)
step (commit_one id trace_id) w = record w { state = (commit_reservation w.state id trace_id).0 }
step (abandon_one id) w = abandoned w id (abandon_reservation w.state id)
step (fire_one now_ns) w =
    let (s, due) = collect_due w.state now_ns in handed_over w s (tag_due fired due)
step (disarm_one id) w = disarmed_one w id (disarm_entry w.state id)
step (resolve_one id) w = resolve_found w id (get id w.handed)
step seal_one w = record w { state = seal_admission w.state }
step drain_one w = let (s, keys) = drain w.state in handed_over w s (tag_keys runtime_closed keys)
step ask_next w = record w { state = (next_target_ns w.state).0 }

unfoldable pub run : List Call → DeadlineScheduler → DeadlineScheduler
run [] w = w
run (c ∷ calls) w = run calls (step c w)
