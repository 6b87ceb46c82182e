-- ===== src/Runtime/Deadline/Next.antt =====
-- deadline.rs: the next target of the scheduler.
use easycon_sdk.Common.{
  ℕ, zero, suc, ◌≤◌, ◌≡◌, sym, ap, inl, inr, refl, ltb, leb, ◌&&◌, ◌||◌, Bool, true, false,
  Bool-cases, Option-cases, Option, none, some, List, [], ◌∷◌, length, arith, ◌↔◌, length-append,
}
use easycon_sdk.Runtime.Table.{get, remove}
use easycon_sdk.Runtime.Deadline.{
  PendingDeadline, DeadlineSchedulerState, ScheduledDeadline, prune, prune_stale, precedes, key_leb,
  Due, fire_turn, fire_loop, collect_due, least_pending, next_target_ns, next_of, peek, lesser,
  collected,
}
use easycon_sdk.Runtime.Deadline.Queue.{HeadLive, HeadLive-prune, live_entry}
use easycon_sdk.Runtime.Deadline.Due.{loop_step, loop_end}

abbrev pub key_below : Option (ℕ × ℕ) → ℕ → ℕ → Bool
key_below none t i = false
key_below (some (u, j)) t i = key_leb u j t i

key_below-lesser :
    (u j : ℕ) (o : Option (ℕ × ℕ)) (t i : ℕ)
    → key_below (lesser (u, j) o) t i ≡ (key_leb u j t i || key_below o t i)
key_below-lesser u j none t i = ground arith
key_below-lesser u j (some (v, k)) t i = ground arith

-- Of the pending deadlines the least one decides, whether all or only those that are due are asked.
precedes-least_pending :
    (pending : List (ℕ × PendingDeadline)) (t i now : ℕ)
    → t ≤ now
    → precedes pending t i now ≡ key_below (least_pending pending) t i
precedes-least_pending [] t i now h = refl
precedes-least_pending ((j, p) ∷ pending) t i now h =
    let first : (leb p.target_ns now && key_leb p.target_ns j t i) ≡ key_leb p.target_ns j t i =
      ground arith in
    rw (first, precedes-least_pending pending t i now h)
      (sym (key_below-lesser p.target_ns j (least_pending pending) t i))

abbrev pub due_by : Option ℕ → ℕ → Bool
due_by none now = false
due_by (some t) now = leb t now

length-collected :
    (i : ℕ) (o : Option ScheduledDeadline) (due : Due) → length due ≤ length (collected i o due)
length-collected i none due = omega arith
length-collected i (some e) due = omega (arith, length-append due ((i, e) ∷ []))

fire_turn-length :
    (now : ℕ) (s : DeadlineSchedulerState) (due : Due) (s' : DeadlineSchedulerState) (due' : Due)
    → fire_turn now s due ≡ some (s', due')
    → length due ≤ length due'
unfolding fire_turn
fire_turn-length now s due s' due' e = on_queue s.queue refl
  where
    on_queue : (queue : List (ℕ × ℕ)) → s.queue ≡ queue → length due ≤ length due'
    on_queue [] head = ground arith
    on_queue ((t, i) ∷ q) head = ground (arith, length-collected i (get i s.entries) due)

length-fire_loop :
    (fuel now : ℕ) (s : DeadlineSchedulerState) (due : Due)
    → length due ≤ length (fire_loop fuel now s due).1
length-fire_loop zero now s due = unfold fire_loop in omega arith
length-fire_loop (suc fuel) now s due = elim (Option-cases (fire_turn now s due)) [
  | inl stop ↦ rw (loop_end (suc fuel) now s due stop) (omega arith)
  | inr ((s', due'), go) ↦
      rw (loop_step fuel now s due s' due' go)
        (omega (arith, fire_turn-length now s due s' due' go, length-fire_loop fuel now s' due'))
]

loop_due :
    (fuel now : ℕ) (s s' : DeadlineSchedulerState) (due' : Due)
    → 1 ≤ fuel
    → fire_turn now s [] ≡ some (s', due')
    → length due' ≡ 1
    → 1 ≤ length (fire_loop fuel now s []).1
loop_due zero now s s' due' some_fuel go one = absurd (omega arith)
loop_due (suc fuel) now s s' due' some_fuel go one =
    rw (loop_step fuel now s [] s' due' go) (omega (arith, length-fire_loop fuel now s' due'))

module _ (now : ℕ) (s : DeadlineSchedulerState) where
  -- The first turn on a queue that is pruned.
  first_turn :
      (queue : List (ℕ × ℕ))
      → s.queue ≡ queue
      → HeadLive s.entries queue
      → due_by (next_of (peek queue) (least_pending s.pending)) now ≡ false
      → fire_turn now s [] ≡ none
  unfolding fire_turn
  first_turn [] head live early = rw head
  first_turn ((t, i) ∷ q) head live early =
      rw head (ground (arith, precedes-least_pending s.pending t i now))

  first_due :
      (queue : List (ℕ × ℕ))
      → s.queue ≡ queue
      → HeadLive s.entries queue
      → due_by (next_of (peek queue) (least_pending s.pending)) now ≡ true
      → (s' : DeadlineSchedulerState) × (due' : Due) × (fire_turn now s [] ≡ some (s', due'))
        × (length due' ≡ 1)
  unfolding fire_turn prune_stale
  first_due [] head live late = ground arith
  first_due ((t, i) ∷ q) head live late =
      let (e, there, same) = live_entry s.entries t i live in
      let go : (ltb now t || precedes s.pending t i now) ≡ false =
        ground (arith, precedes-least_pending s.pending t i now) in
      (
        prune_stale (record s { queue = q; entries = remove i s.entries }),
        (i, e) ∷ [],
        rw (head, go, there) refl,
        refl,
      )

module _ (now : ℕ) (s : DeadlineSchedulerState) where
  sleeps : due_by (next_target_ns s).1 now ≡ false → length (collect_due s now).1 ≡ 0
  unfolding collect_due next_target_ns prune_stale
  sleeps early =
      let stop =
        first_turn now (prune_stale s) (prune s.entries s.queue) refl
          (HeadLive-prune s.entries s.queue) early in
      let entries = prune s.entries s.queue in
      ap (λ (r : DeadlineSchedulerState × Due). length r.1)
        (loop_end (length entries) now (prune_stale s) [] stop)

  wakes :
      (queue : List (ℕ × ℕ))
      → prune s.entries s.queue ≡ queue
      → due_by (next_target_ns s).1 now ≡ true
      → 1 ≤ length (collect_due s now).1
  unfolding collect_due next_target_ns prune_stale
  wakes [] head late = ground arith
  wakes (p ∷ q) head late =
      let (s', due', go, one) =
        first_due now (prune_stale s) (prune s.entries s.queue) refl
          (HeadLive-prune s.entries s.queue) late in
      loop_due (length (prune s.entries s.queue)) now (prune_stale s) s' due'
        (ground (arith, ap length head)) go one

-- The next target is the first moment at which something fires: a call of `fire_due_at` fires something exactly from the time
-- on that `next_target_ns` answers, and never while it answers with nothing.
pub collect_due-next_target_ns :
    (now : ℕ) (s : DeadlineSchedulerState)
    → (length (collect_due s now).1 ≡ 0) ↔ (due_by (next_target_ns s).1 now ≡ false)
collect_due-next_target_ns now s = elim (Bool-cases (due_by (next_target_ns s).1 now)) [
  | inl late ↦ (
    (λ none_due. ground (arith, wakes now s (prune s.entries s.queue) refl)),
    (λ early. ground arith),
  )
  | inr early ↦ ((λ none_due. early), (λ e. sleeps now s e))
]
