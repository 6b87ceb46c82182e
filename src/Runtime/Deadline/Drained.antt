-- ===== src/Runtime/Deadline/Drained.antt =====
-- deadline.rs: once a close has drained the scheduler, every registration has its outcome.
use easycon_sdk.Common.{
  ℕ, suc, ◌+◌, ◌^◌, ◌<◌, ◌≡◌, ◌∙◌, refl, ◌==◌, true, false, List, [], ◌∷◌, length, arith,
  if◌then◌else◌,
}
use easycon_sdk.Runtime.Table.{occurs, occurs-remove, occurs-none}
use easycon_sdk.Runtime.Deadline.{DeadlineResolution, collect_due}
use easycon_sdk.Runtime.Deadline.Due.{Fires, collect_due-Fires}
use easycon_sdk.Runtime.Deadline.Scheduler.{
  DeadlineScheduler, new_scheduler, Call, commit_one, fire_one, disarm_one, resolve_one, drain_one,
  step, run, commit_signal,
}
use easycon_sdk.Runtime.Deadline.Placed.{is_resolved, given}
use easycon_sdk.Runtime.Deadline.Resolved.{
  IsSound, step-IsSound, run-IsSound_from, new_scheduler-IsSound,
}

-- Closed, with nothing that waits in it.
pub record IsDrained (w : DeadlineScheduler) : Type 0 where
  pub closed : w.state.admission_open ≡ false
  pub no_pending : w.state.pending ≡ []
  pub no_entries : (k : ℕ) → occurs k w.state.entries ≡ 0

drain_one-IsDrained : (w : DeadlineScheduler) → IsDrained (step drain_one w)
unfolding step
drain_one-IsDrained w = record { closed = refl; no_pending = refl; no_entries = λ k. refl }

step-IsDrained :
    (c : Call) (left : ℕ) (w : DeadlineScheduler)
    → IsSound (suc left) w
    → IsDrained w
    → IsDrained (step c w)
unfolding step
step-IsDrained (fire_one now) left w v h =
    let f : Fires now w.state (collect_due w.state now).0 (collect_due w.state now).1 =
      collect_due-Fires now w.state v.scheduled in
    record {
      closed = f.keeps_admission ∙ h.closed;
      no_pending = f.keeps_pending ∙ h.no_pending;
      no_entries = λ k. omega (arith, f.leaves k, h.no_entries k);
    }
step-IsDrained (disarm_one id) left w v h = record {
  closed = ground arith;
  no_pending = ground arith;
  no_entries = λ k. ground (arith, h.no_entries k, occurs-remove k id w.state.entries);
}
step-IsDrained (commit_one id trace) left w v h = record {
  closed = ground arith;
  no_pending = ground arith;
  no_entries = λ k. ground (arith, h.no_entries k);
}
step-IsDrained c left w v h = record {
  closed = ground arith;
  no_pending = ground arith;
  no_entries = λ k. ground (arith, h.no_entries k);
}

run-IsDrained :
    (calls : List Call) (left : ℕ) (w : DeadlineScheduler)
    → IsSound (length calls + left) w
    → IsDrained w
    → IsDrained (run calls w)
unfolding run
run-IsDrained [] left w v h = h
run-IsDrained (c ∷ calls) left w v h =
    let e : suc (length calls) + left ≡ suc (length calls + left) = omega arith in
    let v' : IsSound (suc (length calls + left)) w = rw e at v in
    run-IsDrained calls left (step c w) (step-IsSound c (length calls + left) w v')
      (step-IsDrained c (length calls + left) w v' h)

-- The threads carry out what was handed over to them.
abbrev pub resolve_all : List (ℕ × DeadlineResolution) → List Call
resolve_all [] = []
resolve_all ((id, r) ∷ m) = resolve_one id ∷ resolve_all m

resolve_one_handed :
    (id k : ℕ) (w : DeadlineScheduler)
    → occurs k (step (resolve_one id) w).handed ≡ (if k == id then 0 else occurs k w.handed)
unfolding step commit_signal
resolve_one_handed id k w = ground (arith, occurs-remove k id w.handed, occurs-none id w.handed)

resolve_one_same :
    (id : ℕ) (w : DeadlineScheduler)
    → ((step (resolve_one id) w).reserving ≡ w.reserving)
      × ((step (resolve_one id) w).turned_down ≡ w.turned_down)
      × ((step (resolve_one id) w).next_id ≡ w.next_id)
unfolding step commit_signal
resolve_one_same id w = (ground arith, ground arith, ground arith)

-- All are resolved, and nothing else moves.
run-resolve_all :
    (k : ℕ) (m : List (ℕ × DeadlineResolution)) (w : DeadlineScheduler)
    → (occurs k (run (resolve_all m) w).handed ≡ (if occurs k m == 0 then occurs k w.handed else 0))
      × ((run (resolve_all m) w).reserving ≡ w.reserving)
      × ((run (resolve_all m) w).turned_down ≡ w.turned_down)
      × ((run (resolve_all m) w).next_id ≡ w.next_id)
unfolding run
run-resolve_all k [] w = (ground arith, refl, refl, refl)
run-resolve_all k ((id, r) ∷ m) w =
    let w' = step (resolve_one id) w in
    let (a, b, c, d) = run-resolve_all k m w' in
    let (b', c', d') = resolve_one_same id w in
    (ground (arith, resolve_one_handed id k w), b ∙ b', c ∙ c', d ∙ d')

length-resolve_all : (m : List (ℕ × DeadlineResolution)) → length (resolve_all m) ≡ length m
length-resolve_all [] = refl
length-resolve_all ((id, r) ∷ m) = omega (arith, length-resolve_all m)

-- Where a drained scheduler has handed over nothing that is not resolved, a registration that is given and
-- neither on its way nor turned down has its outcome.
all_resolved :
    (left k : ℕ) (w : DeadlineScheduler)
    → IsSound left w
    → IsDrained w
    → occurs k w.handed ≡ 0
    → given k w ≡ 1
    → occurs k w.reserving ≡ 0
    → occurs k w.turned_down ≡ 0
    → is_resolved w k ≡ true
all_resolved left k w v h done here arrived kept =
    let none_pending : occurs k w.state.pending ≡ 0 = rw h.no_pending refl in
    ground (arith, v.placed k, h.no_entries k)

hands_resolved :
    (k : ℕ) (w : DeadlineScheduler)
    → IsSound (length (resolve_all w.handed) + 0) w
    → IsDrained w
    → given k w ≡ 1
    → occurs k w.reserving ≡ 0
    → occurs k w.turned_down ≡ 0
    → is_resolved (run (resolve_all w.handed) w) k ≡ true
hands_resolved k w v h here arrived kept =
    let done = run (resolve_all w.handed) w in
    let (a, b, c, d) = run-resolve_all k w.handed w in
    let empty : occurs k done.handed ≡ 0 = ground arith in
    let same : given k done ≡ given k w = rw d refl in
    all_resolved 0 k done (run-IsSound_from (resolve_all w.handed) 0 w v)
      (run-IsDrained (resolve_all w.handed) 0 w v h) empty (same ∙ here) (rw b arrived) (rw c kept)

-- After a close, whatever was called before it and after it, the threads that still have signals in hand
-- resolve them, and then every registration has its outcome: a wait without a limit ends. Left out are
-- those that have only taken their id, and those that were refused or abandoned.
pub run-resolve_all_outcome :
    (calls more : List Call) (k : ℕ)
    → let closed = run more (step drain_one (run calls new_scheduler)) in
      length calls + length more + length closed.handed + 2 < 2 ^ 64
      → given k closed ≡ 1
      → occurs k closed.reserving ≡ 0
      → occurs k closed.turned_down ≡ 0
      → is_resolved (run (resolve_all closed.handed) closed) k ≡ true
run-resolve_all_outcome calls more k few here arrived kept =
    let opened = run calls new_scheduler in
    let closed = run more (step drain_one opened) in
    let last = length (resolve_all closed.handed) + 0 in
    let size = length-resolve_all closed.handed in
    let v0 = new_scheduler-IsSound (length calls + suc (length more + last)) (omega arith) in
    let v1 = run-IsSound_from calls (suc (length more + last)) new_scheduler v0 in
    let v2 = step-IsSound drain_one (length more + last) opened v1 in
    hands_resolved k closed (run-IsSound_from more last (step drain_one opened) v2)
      (run-IsDrained more last (step drain_one opened) v2 (drain_one-IsDrained opened)) here arrived
      kept
