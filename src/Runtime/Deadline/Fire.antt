-- ===== src/Runtime/Deadline/Fire.antt =====
-- deadline.rs: what `fire_due_at` takes from a scheduler whose queue is sorted and has a pair for every entry.
use easycon_sdk.Common.{
  ℕ, ◌+◌, ◌≤◌, ◌<◌, ◌≡◌, ◌∙◌, sym, ap, ◌⊎◌, inl, inr, refl, ltb, leb, ◌||◌, true, false, Bool-cases,
  none, some, List, [], ◌∷◌, ◌++◌, length, arith,
}
use easycon_sdk.Runtime.Table.{
  get, remove, occurs, IsTable, get-remove, occurs-remove, occurs-get, occurs-append, get-append,
}
use easycon_sdk.Runtime.Deadline.{
  entry_keys, ScheduledDeadline, PendingDeadline, DeadlineSchedulerState, key_leb, prune,
  prune_stale, precedes, Due, fire_turn,
}
use easycon_sdk.Runtime.Deadline.Queue.{
  AtLeast, Sorted, Covers, member, HeadLive, HeadLive-prune, Covers-remove, Covers-prune,
  Sorted-prune, AtLeast-prune, AtLeast-member, live_entry, true-ne-false, key_leb_trans,
}

pub record IsScheduled (s : DeadlineSchedulerState) : Type 0 where
  pub unique : IsTable s.entries
  pub sorted : Sorted s.queue
  pub covered : Covers s.entries s.queue

pub prune_stale-IsScheduled :
    (s : DeadlineSchedulerState) → IsScheduled s → IsScheduled (prune_stale s)
unfolding prune_stale
prune_stale-IsScheduled s v = record {
  unique = v.unique;
  sorted = Sorted-prune s.entries s.queue v.sorted;
  covered = Covers-prune s.entries s.queue v.covered;
}

-- Every deadline of a batch comes before all pairs of the queue.
abbrev Before : Due → List (ℕ × ℕ) → Type 0
Before [] q = Unit {0}
Before ((k, d) ∷ due) q = AtLeast d.target_ns k q × Before due q

Before-prune :
    (es : List (ℕ × ScheduledDeadline)) (due : Due) (q : List (ℕ × ℕ))
    → Before due q
    → Before due (prune es q)
Before-prune es [] q h = tt
Before-prune es ((k, d) ∷ due) q h =
    (AtLeast-prune es d.target_ns k q h.0, Before-prune es due q h.1)

Before-append :
    (due : Due) (i : ℕ) (e : ScheduledDeadline) (q : List (ℕ × ℕ))
    → Before due ((e.target_ns, i) ∷ q)
    → AtLeast e.target_ns i q
    → Before (due ++ (i, e) ∷ []) q
Before-append [] i e q h a = (a, tt)
Before-append ((k, d) ∷ due) i e q h a = (h.0.1, Before-append due i e q h.1 a)

AtLeast-append :
    (t j : ℕ) (due : Due) (i : ℕ) (e : ScheduledDeadline)
    → AtLeast t j (entry_keys due)
    → key_leb t j e.target_ns i ≡ true
    → AtLeast t j (entry_keys (due ++ (i, e) ∷ []))
AtLeast-append t j [] i e h l = (l, tt)
AtLeast-append t j ((k, d) ∷ due) i e h l = (h.0, AtLeast-append t j due i e h.1 l)

Sorted-append :
    (due : Due) (i : ℕ) (e : ScheduledDeadline) (q : List (ℕ × ℕ))
    → Sorted (entry_keys due)
    → Before due ((e.target_ns, i) ∷ q)
    → Sorted (entry_keys (due ++ (i, e) ∷ []))
Sorted-append [] i e q h b = (tt, tt)
Sorted-append ((k, d) ∷ due) i e q h b =
    (AtLeast-append d.target_ns k due i e h.0 b.0.0, Sorted-append due i e q h.1 b.1)

-- What a batch has taken from `entries`: each deadline is due and no pending one precedes it.
abbrev pub IsDue : ℕ → List (ℕ × PendingDeadline) → ℕ → ScheduledDeadline → Type 0
IsDue now pending k e = (e.target_ns ≤ now) × (precedes pending e.target_ns k now ≡ false)

pub record Collecting (now : ℕ) (first s : DeadlineSchedulerState) (due : Due) : Type 0 where
  pub scheduled : IsScheduled s
  pub head_live : HeadLive s.entries s.queue
  pub same_pending : s.pending ≡ first.pending
  pub same_admission : s.admission_open ≡ first.admission_open
  pub counted : (k : ℕ) → occurs k s.entries + occurs k due ≡ occurs k first.entries
  pub kept : (k : ℕ) → get k s.entries ≡ none ⊎ get k s.entries ≡ get k first.entries
  pub all_due :
      (k : ℕ) (e : ScheduledDeadline)
      → get k due ≡ some e
      → (get k first.entries ≡ some e) × IsDue now first.pending k e
  pub rising : Sorted (entry_keys due)
  pub before : Before due s.queue

module _ (now : ℕ) (first s : DeadlineSchedulerState) (due : Due) (t i : ℕ) (q : List (ℕ × ℕ))
    (e : ScheduledDeadline) (head : s.queue ≡ (t, i) ∷ q) (there : get i s.entries ≡ some e)
    (same : e.target_ns ≡ t) (h : Collecting now first s due) where
  shown : IsScheduled s
  shown = h.scheduled

  taken_counted :
      (k : ℕ)
      → occurs k (remove i s.entries) + occurs k (due ++ (i, e) ∷ []) ≡ occurs k first.entries
  taken_counted k = ground (
    arith,
    occurs-remove k i s.entries,
    occurs-append k i e due,
    h.counted k,
    occurs-get i s.entries (shown.unique i),
  )

  taken_kept :
      (k : ℕ) → get k (remove i s.entries) ≡ none ⊎ get k (remove i s.entries) ≡ get k first.entries
  taken_kept k = ground (arith, get-remove k i s.entries, h.kept k)

  taken_origin : get i first.entries ≡ some e
  taken_origin = ground (arith, h.kept i)

  taken-IsDue :
      (leb t now ≡ true)
      → (precedes first.pending t i now ≡ false)
      → (k : ℕ) (d : ScheduledDeadline) → get k (due ++ (i, e) ∷ []) ≡ some d
      → (get k first.entries ≡ some d) × IsDue now first.pending k d
  taken-IsDue late clear k d f = elim (get-append k i e d due f) [
    | inl old ↦ h.all_due k d old
    | inr (a, b) ↦ rw (← b) (rw a (taken_origin, (rw same (ground arith), rw same clear)))
  ]

  taken-Sorted : AtLeast t i q × Sorted q
  taken-Sorted = rw head at (shown.sorted)

  taken :
      (leb t now ≡ true)
      → (precedes first.pending t i now ≡ false)
      → Collecting now first
          (prune_stale (record s { queue = q; entries = remove i s.entries }))
          (due ++ (i, e) ∷ [])
  unfolding prune_stale
  taken late clear = record {
    scheduled = record {
      unique = λ k. ground (arith, occurs-remove k i s.entries, shown.unique k);
      sorted = Sorted-prune (remove i s.entries) q taken-Sorted.1;
      covered =
          Covers-prune (remove i s.entries) q
            (Covers-remove s.entries t i q (rw head at (shown.covered)));
    };
    head_live = HeadLive-prune (remove i s.entries) q;
    same_pending = h.same_pending;
    same_admission = h.same_admission;
    counted = taken_counted;
    kept = taken_kept;
    all_due = taken-IsDue late clear;
    rising = Sorted-append due i e q h.rising taken_before;
    before =
        Before-prune (remove i s.entries) (due ++ (i, e) ∷ []) q
          (Before-append due i e q taken_before (rw same taken-Sorted.0));
  }
    where
      taken_before : Before due ((e.target_ns, i) ∷ q)
      taken_before = rw same (rw head at (h.before))

-- Where the loop ends: all that is still in the scheduler and due comes after a pending deadline.
abbrev pub Finished : ℕ → DeadlineSchedulerState → Type 0
Finished now s =
    (k : ℕ) (e : ScheduledDeadline)
    → get k s.entries ≡ some e
    → e.target_ns ≤ now
    → precedes s.pending e.target_ns k now ≡ true

precedes-higher :
    (pending : List (ℕ × PendingDeadline)) (t i u j now : ℕ)
    → key_leb t i u j ≡ true
    → precedes pending t i now ≡ true
    → precedes pending u j now ≡ true
precedes-higher [] t i u j now l h = h
precedes-higher ((k, p) ∷ pending) t i u j now l h =
    ground (arith, precedes-higher pending t i u j now, key_leb_trans p.target_ns k t i u j)

pub data Turn (now : ℕ) (first s : DeadlineSchedulerState) (due : Due) : Type 0 where
  ends : fire_turn now s due ≡ none → Finished now s → Turn now first s due
  goes_on :
      (s' : DeadlineSchedulerState) (due' : Due)
      → fire_turn now s due ≡ some (s', due')
      → length s'.queue < length s.queue
      → Collecting now first s' due'
      → Turn now first s due

pub length-prune :
    (es : List (ℕ × ScheduledDeadline)) (q : List (ℕ × ℕ)) → length (prune es q) ≤ length q
length-prune es [] = omega arith
length-prune es ((t, i) ∷ q) = ground (arith, length-prune es q)

module _ (now : ℕ) (first s : DeadlineSchedulerState) (due : Due)
    (h : Collecting now first s due) where
  blocked :
      (t i : ℕ) (q : List (ℕ × ℕ))
      → s.queue ≡ (t, i) ∷ q
      → (ltb now t || precedes s.pending t i now) ≡ true
      → Finished now s
  blocked t i q head stop k e found late =
      let covered : (member e.target_ns k ((t, i) ∷ q)) ≡ true =
        ap (member e.target_ns k) (sym head) ∙ h.scheduled.covered k e found in
      let sorted : Sorted ((t, i) ∷ q) = rw head at (h.scheduled.sorted) in
      let later : key_leb t i e.target_ns k ≡ true =
        ground (arith, AtLeast-member t i e.target_ns k q) in
      ground (arith, precedes-higher s.pending t i e.target_ns k now)

  nothing :
      {A : Type 0} (k : ℕ) (e : ScheduledDeadline) → get k s.entries ≡ some e → s.queue ≡ [] → A
  nothing k e found head =
      let covered = h.scheduled.covered k e found in
      absurd (true-ne-false (sym covered ∙ ap (member e.target_ns k) head))

  step_on :
      (t i : ℕ) (q : List (ℕ × ℕ))
      → s.queue ≡ (t, i) ∷ q
      → (ltb now t || precedes s.pending t i now) ≡ false
      → Turn now first s due
  unfolding fire_turn prune_stale
  step_on t i q head go =
      let live : HeadLive s.entries ((t, i) ∷ q) = rw head at (h.head_live) in
      let (e, there, same) = live_entry s.entries t i live in
      let clear : precedes first.pending t i now ≡ false = rw (← h.same_pending) (ground arith) in
      goes_on (prune_stale (record s { queue = q; entries = remove i s.entries }))
        (due ++ (i, e) ∷ []) (rw (head, go, there))
        (ground (arith, length-prune (remove i s.entries) q))
        (taken now first s due t i q e head there same h (ground arith) clear)

  pub turns : Turn now first s due
  unfolding fire_turn
  turns = on_queue s.queue refl
    where
      on_queue : (queue : List (ℕ × ℕ)) → s.queue ≡ queue → Turn now first s due
      on_queue [] head = ends (rw head) (λ k e found late. nothing k e found head)
      on_queue ((t, i) ∷ q) head = elim (Bool-cases (ltb now t || precedes s.pending t i now)) [
        | inl stop ↦ ends (rw (head, stop)) (blocked t i q head stop)
        | inr go ↦ step_on t i q head go
      ]
