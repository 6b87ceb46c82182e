-- ===== src/Runtime/Deadline/Tests.antt =====
-- deadline.rs: a few registrations.
use easycon_sdk.Common.{
  ℕ, ◌≡◌, refl, ◌==◌, true, false, Option, none, some, List, [], ◌∷◌, length, arith, if◌then◌else◌,
  ◌↔◌,
}
use easycon_sdk.Runtime.Deadline.{
  fired, disarmed, DeadlineSchedulerState, ScheduledDeadline, armed, collect_due, next_target_ns,
}
use easycon_sdk.Runtime.Deadline.Fire.{IsScheduled}
use easycon_sdk.Runtime.Deadline.Due.{Fires, collect_due-Fires}
use easycon_sdk.Runtime.Deadline.Next.{due_by, collect_due-next_target_ns}
use easycon_sdk.Runtime.Deadline.Waker.{
  SignalCall, polls, resolves, run_signal, heard, run_signal-heard,
}
use easycon_sdk.Runtime.Deadline.Scheduler.{
  new_scheduler, Call, take_id, admit, commit_one, fire_one, disarm_one, resolve_one, drain_one,
  step, run,
}
use easycon_sdk.Runtime.Deadline.Placed.{is_resolved}
use easycon_sdk.Runtime.Deadline.Resolved.{IsSound, run-IsSound}
use easycon_sdk.Runtime.Deadline.Drained.{resolve_all, run-resolve_all_outcome}
use easycon_sdk.Runtime.Deadline.Notify.{finish_fire, fired_with, finish_fire-wakers}

abbrev deadline : ℕ → ℕ → ScheduledDeadline
deadline target_ns trace_id = record { target_ns = target_ns; trace_id = trace_id }

-- Two entries, a pending deadline between them, and a stale pair in front.
abbrev three_deadlines : DeadlineSchedulerState
three_deadlines = record {
  admission_open = true;
  pending = (3, record { target_ns = 20 }) ∷ [];
  entries = (4, deadline 30 8) ∷ (2, deadline 10 9) ∷ [];
  queue = (5, 1) ∷ (10, 2) ∷ (30, 4) ∷ [];
}

-- The pending one holds the last back, though it is due.
fires_first : (collect_due three_deadlines 50).1 ≡ (2, deadline 10 9) ∷ []
unfolding collect_due
fires_first = refl

three_deadlines-IsScheduled : IsScheduled three_deadlines
three_deadlines-IsScheduled = record {
  unique = λ k. ground arith;
  sorted = ground arith;
  covered = λ k e found. ground arith;
}

collect_due-Fires_example :
    Fires 50 three_deadlines (collect_due three_deadlines 50).0 (collect_due three_deadlines 50).1
collect_due-Fires_example = collect_due-Fires 50 three_deadlines three_deadlines-IsScheduled

collect_due-next_target_ns_example :
    (length (collect_due three_deadlines 12).1 ≡ 0)
    ↔ (due_by (next_target_ns three_deadlines).1 12 ≡ false)
collect_due-next_target_ns_example = collect_due-next_target_ns 12 three_deadlines

abbrev signal_calls : List SignalCall
signal_calls =
    polls 1
    ∷ polls 2
    ∷ resolves (record { resolution = fired; order = 7 })
    ∷ polls 1
    ∷ resolves (record { resolution = disarmed; order = 8 })
    ∷ []

run_signal-heard_example : run_signal signal_calls armed ≡ heard none signal_calls
run_signal-heard_example = run_signal-heard signal_calls

-- One deadline fires while its owner disarms it, the other waits for the close.
abbrev some_calls : List Call
some_calls =
    take_id 10
    ∷ take_id 90
    ∷ admit 2
    ∷ admit 1
    ∷ commit_one 1 5
    ∷ fire_one 50
    ∷ disarm_one 1
    ∷ resolve_one 1
    ∷ commit_one 2 6
    ∷ []

run-IsSound_example : IsSound 0 (run some_calls new_scheduler)
run-IsSound_example = run-IsSound some_calls (omega arith)

run-resolve_all_outcome_example :
    let closed = run (disarm_one 2 ∷ []) (step drain_one (run some_calls new_scheduler)) in
    is_resolved (run (resolve_all closed.handed) closed) 2 ≡ true
unfolding run step collect_due
run-resolve_all_outcome_example =
    run-resolve_all_outcome some_calls (disarm_one 2 ∷ []) 2 (omega arith) refl refl refl

abbrev panicking : ℕ → Option ℕ
panicking task = if task == 2 then some 9 else none

finish_fire-wakers_example :
    let end =
      finish_fire panicking panicking (some 2 ∷ none ∷ some 3 ∷ []) ((2, deadline 10 9) ∷ []) in
    (end.woken ≡ 2 ∷ 3 ∷ []) × (end.result ≡ fired_with (some 9) 1)
finish_fire-wakers_example =
    finish_fire-wakers panicking panicking (some 2 ∷ none ∷ some 3 ∷ []) ((2, deadline 10 9) ∷ [])
