-- ===== src/Runtime/Deadline/Due.antt =====
-- deadline.rs: the batch of `fire_due_at`.
use easycon_sdk.Common.{
  ℕ, zero, suc, ◌+◌, ◌≤◌, ◌≡◌, ◌∙◌, sym, ◌⊎◌, inl, inr, refl, Option-cases, none, some, [], length,
  arith, ◌↔◌,
}
use easycon_sdk.Runtime.Table.{get, occurs, occurs-get}
use easycon_sdk.Runtime.Deadline.{
  entry_keys, ScheduledDeadline, DeadlineSchedulerState, prune_stale, Due, fire_turn, fire_loop,
  collect_due,
}
use easycon_sdk.Runtime.Deadline.Queue.{Sorted, HeadLive-prune, true-ne-false}
use easycon_sdk.Runtime.Deadline.Fire.{
  IsScheduled, prune_stale-IsScheduled, IsDue, Collecting, Finished, ends, goes_on, turns,
}

pub loop_step :
    (fuel now : ℕ) (s : DeadlineSchedulerState) (due : Due) (s' : DeadlineSchedulerState)
    (due' : Due)
    → fire_turn now s due ≡ some (s', due')
    → fire_loop (suc fuel) now s due ≡ fire_loop fuel now s' due'
unfolding fire_loop
loop_step fuel now s due s' due' e = rw (e, fire_loop) refl

pub loop_end :
    (fuel now : ℕ) (s : DeadlineSchedulerState) (due : Due)
    → fire_turn now s due ≡ none
    → fire_loop fuel now s due ≡ (s, due)
unfolding fire_loop
loop_end zero now s due e = refl
loop_end (suc fuel) now s due e = rw (e, fire_loop) refl

-- The loop ends by its own test, with a turn for each pair of the queue.
fire_loop-Collecting :
    (fuel now : ℕ) (first s : DeadlineSchedulerState) (due : Due)
    → length s.queue ≤ fuel
    → Collecting now first s due
    → Collecting now first (fire_loop fuel now s due).0 (fire_loop fuel now s due).1
      × Finished now (fire_loop fuel now s due).0
fire_loop-Collecting zero now first s due enough h = elim (turns now first s due h) [
  | ends stop done ↦ rw (loop_end zero now s due stop) (h, done)
  | goes_on s' due' go less h' ↦ absurd (omega arith)
]
fire_loop-Collecting (suc fuel) now first s due enough h = elim (turns now first s due h) [
  | ends stop done ↦ rw (loop_end (suc fuel) now s due stop) (h, done)
  | goes_on s' due' go less h' ↦
      rw (loop_step fuel now s due s' due' go)
        (fire_loop-Collecting fuel now first s' due' (omega arith) h')
]

-- A batch and the state that it leaves.
pub record Fires (now : ℕ) (s s' : DeadlineSchedulerState) (due : Due) : Type 0 where
  pub fires_due :
      (k : ℕ) (e : ScheduledDeadline)
      → get k s.entries ≡ some e
      → (get k due ≡ some e) ↔ IsDue now s.pending k e
  pub in_order : Sorted (entry_keys due)
  pub leaves : (k : ℕ) → occurs k s'.entries + occurs k due ≡ occurs k s.entries
  pub rest_same : (k : ℕ) → get k s'.entries ≡ none ⊎ get k s'.entries ≡ get k s.entries
  pub keeps_pending : s'.pending ≡ s.pending
  pub keeps_admission : s'.admission_open ≡ s.admission_open
  pub stays : IsScheduled s'

module _ (now : ℕ) (s s' : DeadlineSchedulerState) (due : Due) (v : IsScheduled s)
    (h : Collecting now s s' due) (done : Finished now s') where
  still_there :
      (k : ℕ) (e : ScheduledDeadline)
      → get k s.entries ≡ some e
      → get k due ≡ none
      → get k s'.entries ≡ some e
  still_there k e found missing = ground (
    arith,
    h.counted k,
    h.kept k,
    v.unique k,
    occurs-get k due,
    occurs-get k s.entries (v.unique k),
    occurs-get k s'.entries,
  )

  is_fired :
      (k : ℕ) (e : ScheduledDeadline)
      → get k s.entries ≡ some e
      → IsDue now s.pending k e
      → get k due ≡ some e
  is_fired k e found (late, clear) = elim (Option-cases (get k due)) [
    | inr (d, taken) ↦ ground (arith, h.all_due k d)
    | inl missing ↦
        let blocked = done k e (still_there k e found missing) late in
        absurd (true-ne-false (sym blocked ∙ (rw h.same_pending clear)))
  ]

  collecting_Fires : Fires now s s' due
  collecting_Fires = record {
    fires_due = λ k e found. ((λ taken. (h.all_due k e taken).1), is_fired k e found);
    in_order = h.rising;
    leaves = h.counted;
    rest_same = h.kept;
    keeps_pending = h.same_pending;
    keeps_admission = h.same_admission;
    stays = h.scheduled;
  }

start : (now : ℕ) (s : DeadlineSchedulerState) → IsScheduled s → Collecting now s (prune_stale s) []
unfolding prune_stale
start now s v = record {
  scheduled = unfold prune_stale in prune_stale-IsScheduled s v;
  head_live = HeadLive-prune s.entries s.queue;
  same_pending = refl;
  same_admission = refl;
  counted = λ k. omega arith;
  kept = λ k. inr refl;
  all_due = λ k e found. ground arith;
  rising = tt;
  before = tt;
}

-- `fire_due_at` takes exactly the entries that are due and come before all pending ones that are due,
-- in the order of targets and ids, and leaves the others as they are.
pub collect_due-Fires :
    (now : ℕ) (s : DeadlineSchedulerState)
    → IsScheduled s
    → Fires now s (collect_due s now).0 (collect_due s now).1
collect_due-Fires now s v =
    let s' = prune_stale s in
    let (h, done) =
      fire_loop-Collecting (length s'.queue) now s s' [] (omega arith) (start now s v) in
    let fires =
      collecting_Fires now s (fire_loop (length s'.queue) now s' []).0
        (fire_loop (length s'.queue) now s' []).1 v h done in
    unfold collect_due in fires
