-- ===== src/Runtime/Deadline/Resolved.antt =====
-- deadline.rs: each registration has at most one outcome, and a close leaves none without.
use easycon_sdk.Common.{
  ℕ, suc, ◌+◌, ◌^◌, ◌<◌, ◌≡◌, refl, false, Option-cases, none, some, List, [], ◌∷◌, length, arith,
  inl, inr,
}
use easycon_sdk.Runtime.Table.{get, insert, occurs-remove, get-remove, occurs-get}
use easycon_sdk.Runtime.Deadline.{
  DeadlineResolution, DeadlineOutcome, DeadlineSchedulerState, push, ScheduledDeadline, prune_stale,
  next_target_ns, commit_reservation, disarm_entry,
}
use easycon_sdk.Runtime.Deadline.Queue.{Covers, Sorted-push, member-push}
use easycon_sdk.Runtime.Deadline.Fire.{IsScheduled, prune_stale-IsScheduled}
use easycon_sdk.Runtime.Deadline.Due.{collect_due-Fires}
use easycon_sdk.Runtime.Deadline.Scheduler.{
  DeadlineScheduler, new_scheduler, Call, take_id, admit, commit_one, abandon_one, fire_one,
  disarm_one, resolve_one, seal_one, drain_one, ask_next, step, run,
}
use easycon_sdk.Runtime.Deadline.Placed.{
  IsPlaced, IsCounting, take_id-IsPlaced, admit-IsPlaced, commit_one-IsPlaced, abandon_one-IsPlaced,
  fire_one-IsPlaced, disarm_one-IsPlaced, resolve_one-IsPlaced, drain_one-IsPlaced, step-IsCounting,
}

Covers-insert :
    (t i trace : ℕ) (es : List (ℕ × ScheduledDeadline)) (q : List (ℕ × ℕ))
    → Covers es q
    → Covers (insert i (record { target_ns = t; trace_id = trace }) es) (push t i q)
Covers-insert t i trace es q c k e found =
    ground (arith, member-push e.target_ns k t i q, get-remove k i es, c k e)

commit_reservation-IsScheduled :
    (s : DeadlineSchedulerState) (id trace : ℕ)
    → IsScheduled s
    → IsScheduled (commit_reservation s id trace).0
unfolding commit_reservation
commit_reservation-IsScheduled s id trace v = elim (Option-cases (get id s.pending)) [
  | inl gone ↦ rw gone v
  | inr (p, there) ↦ rw there (record {
    unique = λ k. ground (arith, occurs-remove k id s.entries, v.unique k);
    sorted = Sorted-push p.target_ns id s.queue v.sorted;
    covered = Covers-insert p.target_ns id trace s.entries s.queue v.covered;
  })
]

disarm_entry-IsScheduled :
    (s : DeadlineSchedulerState) (id : ℕ) → IsScheduled s → IsScheduled (disarm_entry s id).0
unfolding disarm_entry
disarm_entry-IsScheduled s id v = record {
  unique = λ k. ground (arith, occurs-remove k id s.entries, v.unique k);
  sorted = v.sorted;
  covered = λ k e found. ground (arith, get-remove k id s.entries, v.covered k e);
}

same-IsScheduled :
    (s s' : DeadlineSchedulerState)
    → s'.entries ≡ s.entries
    → s'.queue ≡ s.queue
    → IsScheduled s
    → IsScheduled s'
same-IsScheduled s s' e q v = record {
  unique = rw e (v.unique);
  sorted = rw q (v.sorted);
  covered = rw (e, q) (v.covered);
}

-- Two outcomes never have one order.
pub record IsRanked (w : DeadlineScheduler) : Type 0 where
  pub below :
      (k : ℕ) (o : DeadlineOutcome)
      → (w.signals k).outcome ≡ some o
      → o.order < w.next_resolution_order
  pub apart :
      (j k : ℕ) (o p : DeadlineOutcome)
      → (w.signals j).outcome ≡ some o
      → (w.signals k).outcome ≡ some p
      → o.order ≡ p.order
      → j ≡ k

pub record IsSound (left : ℕ) (w : DeadlineScheduler) : Type 0 where
  pub counting : IsCounting left w
  pub scheduled : IsScheduled w.state
  pub placed : IsPlaced w
  pub ranked : IsRanked w
  pub resolved_once : w.found_resolved ≡ 0
  pub in_range : w.overflown ≡ false

step-IsScheduled :
    (c : Call) (left : ℕ) (w : DeadlineScheduler)
    → IsCounting (suc left) w
    → IsScheduled w.state
    → IsScheduled (step c w).state
unfolding step
step-IsScheduled (take_id target) left w c v = ground arith
step-IsScheduled (admit id) left w c v =
    same-IsScheduled w.state (step (admit id) w).state (ground arith) (ground arith) v
step-IsScheduled (commit_one id trace) left w c v =
    commit_reservation-IsScheduled w.state id trace v
step-IsScheduled (abandon_one id) left w c v =
    same-IsScheduled w.state (step (abandon_one id) w).state (ground arith) (ground arith) v
step-IsScheduled (fire_one now) left w c v = (collect_due-Fires now w.state v).stays
step-IsScheduled (disarm_one id) left w c v = disarm_entry-IsScheduled w.state id v
step-IsScheduled (resolve_one id) left w c v =
    same-IsScheduled w.state (step (resolve_one id) w).state (ground arith) (ground arith) v
step-IsScheduled seal_one left w c v = same-IsScheduled w.state (step seal_one w).state refl refl v
step-IsScheduled drain_one left w c v = record {
  unique = λ k. omega arith;
  sorted = v.sorted;
  covered = λ k e found. ground arith;
}
step-IsScheduled ask_next left w c v =
    unfold step next_target_ns in prune_stale-IsScheduled w.state v

-- The sections that resolve no signal leave all outcomes and the counter of orders.
same-IsRanked :
    (w w' : DeadlineScheduler)
    → w'.signals ≡ w.signals
    → w'.next_resolution_order ≡ w.next_resolution_order
    → IsRanked w
    → IsRanked w'
same-IsRanked w w' e n h = record { below = rw (e, n) (h.below); apart = rw e (h.apart) }

-- A signal that was handed over is not resolved yet.
handed_unresolved :
    (id left : ℕ) (r : DeadlineResolution) (w : DeadlineScheduler)
    → IsPlaced w
    → get id w.handed ≡ some r
    → (w.signals id).outcome ≡ none
handed_unresolved id left r w h there = ground (arith, h id, occurs-get id w.handed)

resolve_one-IsRanked :
    (id left : ℕ) (w : DeadlineScheduler)
    → IsCounting (suc left) w
    → IsPlaced w
    → IsRanked w
    → IsRanked (step (resolve_one id) w)
unfolding step
resolve_one-IsRanked id left w c h v = elim (Option-cases (get id w.handed)) [
  | inl gone ↦ rw gone v
  | inr (r, there) ↦
      let fresh = handed_unresolved id left r w h there in
      record {
        below = λ k o found. ground (arith, v.below k o);
        apart = λ j k o p a b same. ground (arith, v.below k p, v.below j o, v.apart j k o p);
      }
]

step-IsRanked :
    (c : Call) (left : ℕ) (w : DeadlineScheduler)
    → IsCounting (suc left) w
    → IsPlaced w
    → IsRanked w
    → IsRanked (step c w)
unfolding step
step-IsRanked (resolve_one id) left w c h v = resolve_one-IsRanked id left w c h v
step-IsRanked c left w k h v = same-IsRanked w (step c w) (ground arith) (ground arith) v

step_once :
    (c : Call) (left : ℕ) (w : DeadlineScheduler)
    → IsCounting (suc left) w
    → IsPlaced w
    → w.found_resolved ≡ 0
    → w.overflown ≡ false
    → ((step c w).found_resolved ≡ 0) × ((step c w).overflown ≡ false)
unfolding step
step_once (resolve_one id) left w c h none_yet fits = elim (Option-cases (get id w.handed)) [
  | inl gone ↦ rw gone (none_yet, fits)
  | inr (r, there) ↦
      let fresh = handed_unresolved id left r w h there in (ground arith, ground arith)
]
step_once (take_id target) left w k h none_yet fits = (ground arith, ground arith)
step_once c left w k h none_yet fits = (ground arith, ground arith)

step-IsPlaced :
    (c : Call) (left : ℕ) (w : DeadlineScheduler) → IsSound (suc left) w → IsPlaced (step c w)
step-IsPlaced (take_id target) left w v = take_id-IsPlaced target left w v.counting v.placed
step-IsPlaced (admit id) left w v = admit-IsPlaced id w v.placed
step-IsPlaced (commit_one id trace) left w v = commit_one-IsPlaced id trace w v.placed
step-IsPlaced (abandon_one id) left w v = abandon_one-IsPlaced id w v.placed
step-IsPlaced (fire_one now) left w v = fire_one-IsPlaced now w v.scheduled v.placed
step-IsPlaced (disarm_one id) left w v = disarm_one-IsPlaced id w v.placed
step-IsPlaced (resolve_one id) left w v = resolve_one-IsPlaced id left w v.counting v.placed
step-IsPlaced seal_one left w v = λ k. unfold step in v.placed k
step-IsPlaced drain_one left w v = drain_one-IsPlaced w v.placed
step-IsPlaced ask_next left w v = λ k. unfold step next_target_ns prune_stale in v.placed k

pub step-IsSound :
    (c : Call) (left : ℕ) (w : DeadlineScheduler) → IsSound (suc left) w → IsSound left (step c w)
step-IsSound c left w v =
    let once = step_once c left w v.counting v.placed v.resolved_once v.in_range in
    record {
      counting = step-IsCounting c left w v.counting;
      scheduled = step-IsScheduled c left w v.counting v.scheduled;
      placed = step-IsPlaced c left w v;
      ranked = step-IsRanked c left w v.counting v.placed v.ranked;
      resolved_once = once.0;
      in_range = once.1;
    }

pub run-IsSound_from :
    (calls : List Call) (left : ℕ) (w : DeadlineScheduler)
    → IsSound (length calls + left) w
    → IsSound left (run calls w)
unfolding run
run-IsSound_from [] left w v = let e : 0 + left ≡ left = omega arith in rw e at v
run-IsSound_from (c ∷ calls) left w v =
    let e : suc (length calls) + left ≡ suc (length calls + left) = omega arith in
    run-IsSound_from calls left (step c w) (step-IsSound c (length calls + left) w (rw e at v))

pub new_scheduler-IsSound : (left : ℕ) → left + 1 < 2 ^ 64 → IsSound left new_scheduler
new_scheduler-IsSound left h = record {
  counting = omega arith;
  scheduled = record {
    unique = λ k. omega arith;
    sorted = tt;
    covered = λ k e found. ground arith;
  };
  placed = λ k. ground arith;
  ranked = record { below = λ k o found. ground arith; apart = λ j k o p a b same. ground arith };
  resolved_once = refl;
  in_range = refl;
}

pub run-IsSound :
    (calls : List Call) → length calls + 1 < 2 ^ 64 → IsSound 0 (run calls new_scheduler)
run-IsSound calls few =
    run-IsSound_from calls 0 new_scheduler (new_scheduler-IsSound (length calls + 0) (omega arith))
