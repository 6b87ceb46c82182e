-- ===== src/Runtime/Deadline/Placed.antt =====
-- deadline.rs: where each registration is while the sections of the scheduler interleave.
use easycon_sdk.Common.{
  ℕ, suc, ◌+◌, ◌^◌, ◌<◌, ◌≡◌, ap, refl, ltb, leb, ◌==◌, ◌&&◌, Bool, List, [], ◌∷◌, ◌++◌, arith,
  if◌then◌else◌, is_some,
}
use easycon_sdk.Runtime.Table.{occurs, occurs-remove, occurs-get, occurs_sum}
use easycon_sdk.Runtime.Deadline.{
  DeadlineResolution, fired, runtime_closed, Due, collect_due, push, sort_keys, ScheduledDeadline,
  PendingDeadline, pending_keys, entry_keys,
}
use easycon_sdk.Runtime.Deadline.Fire.{IsScheduled}
use easycon_sdk.Runtime.Deadline.Due.{Fires, collect_due-Fires}
use easycon_sdk.Runtime.Deadline.Scheduler.{
  DeadlineScheduler, Call, take_id, admit, commit_one, abandon_one, fire_one, disarm_one,
  resolve_one, seal_one, drain_one, ask_next, step, tag_due, tag_keys,
}

abbrev pub is_resolved : DeadlineScheduler → ℕ → Bool
is_resolved w k = is_some ((w.signals k).outcome)

-- The places of a registration, from the one that takes its id to its outcome.
abbrev pub places : ℕ → DeadlineScheduler → ℕ
places k w =
    occurs k w.reserving
    + occurs k w.turned_down
    + occurs k w.state.pending
    + occurs k w.state.entries
    + occurs k w.handed
    + (if is_resolved w k then 1 else 0)

abbrev pub given : ℕ → DeadlineScheduler → ℕ
given k w = if leb 1 k && ltb k w.next_id then 1 else 0

abbrev pub IsPlaced : DeadlineScheduler → Type 0
IsPlaced w = (k : ℕ) → places k w ≡ given k w

-- With that many calls to come no counter overflows.
pub record IsCounting (left : ℕ) (w : DeadlineScheduler) : Type 0 where
  pub ids : 0 < w.next_id
  pub ids_left : w.next_id + left < 2 ^ 64
  pub orders : 0 < w.next_resolution_order
  pub orders_left : w.next_resolution_order + left < 2 ^ 64

pub take_id-IsPlaced :
    (target left : ℕ) (w : DeadlineScheduler)
    → IsCounting (suc left) w
    → IsPlaced w
    → IsPlaced (step (take_id target) w)
unfolding step
take_id-IsPlaced target left w c h k = ground (arith, h k)

pub admit-IsPlaced : (id : ℕ) (w : DeadlineScheduler) → IsPlaced w → IsPlaced (step (admit id) w)
unfolding step
admit-IsPlaced id w h k = ground (
  arith,
  h k,
  occurs-remove k id w.reserving,
  occurs-remove k id w.state.pending,
  occurs-get id w.reserving,
)

pub commit_one-IsPlaced :
    (id trace : ℕ) (w : DeadlineScheduler) → IsPlaced w → IsPlaced (step (commit_one id trace) w)
unfolding step
commit_one-IsPlaced id trace w h k = ground (
  arith,
  h k,
  occurs-remove k id w.state.pending,
  occurs-remove k id w.state.entries,
  occurs-get id w.state.pending,
)

pub abandon_one-IsPlaced :
    (id : ℕ) (w : DeadlineScheduler) → IsPlaced w → IsPlaced (step (abandon_one id) w)
unfolding step
abandon_one-IsPlaced id w h k =
    ground (arith, h k, occurs-remove k id w.state.pending, occurs-get id w.state.pending)

occurs-tag_due :
    (k : ℕ) (r : DeadlineResolution) (due : Due) → occurs k (tag_due r due) ≡ occurs k due
occurs-tag_due k r [] = refl
occurs-tag_due k r ((i, e) ∷ due) = omega (arith, occurs-tag_due k r due)

pub fire_one-IsPlaced :
    (now : ℕ) (w : DeadlineScheduler)
    → IsScheduled w.state
    → IsPlaced w
    → IsPlaced (step (fire_one now) w)
unfolding step
fire_one-IsPlaced now w v h k =
    let f : Fires now w.state (collect_due w.state now).0 (collect_due w.state now).1 =
      collect_due-Fires now w.state v in
    let due = (collect_due w.state now).1 in
    let same : occurs k (collect_due w.state now).0.pending ≡ occurs k w.state.pending =
      ap (occurs k) f.keeps_pending in
    omega (
      arith,
      h k,
      f.leaves k,
      same,
      occurs_sum k w.handed (tag_due fired due),
      occurs-tag_due k fired due,
    )

pub disarm_one-IsPlaced :
    (id : ℕ) (w : DeadlineScheduler) → IsPlaced w → IsPlaced (step (disarm_one id) w)
unfolding step
disarm_one-IsPlaced id w h k = ground (
  arith,
  h k,
  occurs-remove k id w.state.entries,
  occurs-get id w.state.entries,
  occurs_sum k w.handed ((id, DeadlineResolution.disarmed) ∷ []),
  occurs_sum k w.handed [],
)

pub resolve_one-IsPlaced :
    (id left : ℕ) (w : DeadlineScheduler)
    → IsCounting (suc left) w
    → IsPlaced w
    → IsPlaced (step (resolve_one id) w)
unfolding step
resolve_one-IsPlaced id left w c h k =
    ground (arith, h k, occurs-remove k id w.handed, occurs-get id w.handed)

occurs-push :
    (k : ℕ) (r : DeadlineResolution) (t i : ℕ) (q : List (ℕ × ℕ))
    → occurs k (tag_keys r (push t i q)) ≡ (if k == i then 1 else 0) + occurs k (tag_keys r q)
occurs-push k r t i [] = refl
occurs-push k r t i ((u, j) ∷ q) = ground (arith, occurs-push k r t i q)

occurs-sort_keys :
    (k : ℕ) (r : DeadlineResolution) (keys : List (ℕ × ℕ))
    → occurs k (tag_keys r (sort_keys keys)) ≡ occurs k (tag_keys r keys)
occurs-sort_keys k r [] = refl
occurs-sort_keys k r ((t, i) ∷ keys) =
    omega (arith, occurs-push k r t i (sort_keys keys), occurs-sort_keys k r keys)

occurs_keys :
    (k : ℕ) (r : DeadlineResolution) (pending : List (ℕ × PendingDeadline))
    (entries : List (ℕ × ScheduledDeadline))
    → occurs k (tag_keys r (pending_keys pending ++ entry_keys entries))
      ≡ occurs k pending + occurs k entries
occurs_keys k r [] [] = omega arith
occurs_keys k r [] ((j, e) ∷ entries) = omega (arith, occurs_keys k r [] entries)
occurs_keys k r ((j, p) ∷ pending) entries = omega (arith, occurs_keys k r pending entries)

pub drain_one-IsPlaced : (w : DeadlineScheduler) → IsPlaced w → IsPlaced (step drain_one w)
unfolding step
drain_one-IsPlaced w h k =
    let keys = pending_keys w.state.pending ++ entry_keys w.state.entries in
    ground (
      arith,
      h k,
      occurs_sum k w.handed (tag_keys runtime_closed (sort_keys keys)),
      occurs-sort_keys k runtime_closed keys,
      occurs_keys k runtime_closed w.state.pending w.state.entries,
    )

-- No step but those that begin and end a registration changes the counters.
pub step-IsCounting :
    (c : Call) (left : ℕ) (w : DeadlineScheduler)
    → IsCounting (suc left) w
    → IsCounting left (step c w)
unfolding step
step-IsCounting (take_id target) left w c = ground arith
step-IsCounting (admit id) left w c = ground arith
step-IsCounting (commit_one id trace) left w c = ground arith
step-IsCounting (abandon_one id) left w c = ground arith
step-IsCounting (fire_one now) left w c = ground arith
step-IsCounting (disarm_one id) left w c = ground arith
step-IsCounting (resolve_one id) left w c = ground arith
step-IsCounting seal_one left w c = ground arith
step-IsCounting drain_one left w c = ground arith
step-IsCounting ask_next left w c = ground arith
