-- ===== src/Runtime/Clock/Woken.antt =====
-- clock.rs: which deadlines a virtual clock has woken, over any calls.
use easycon_sdk.Common.{
  ℕ, suc, ◌+◌, ◌^◌, ◌≤◌, ◌<◌, ◌≡◌, ◌∙◌, sym, refl, ltb, leb, ◌==◌, ◌&&◌, Bool, Bool-cases, Option,
  none, some, List, [], ◌∷◌, ◌++◌, arith, if◌then◌else◌, All, inl, inr, length,
}
use easycon_sdk.Runtime.Deadline.{push, sort_keys}
use easycon_sdk.Runtime.Clock.{
  DeadlineTrace, VirtualClock, new_clock, newly_woken, wake_all, ids, advance_state, advance_to,
  advance_by, on_change, register_deadline, record_dispatch, dispatch_first,
}

pub data Call : Type 0 where
  to_time by_time registers : ℕ → Call
  hooks_on : ℕ → Call
  dispatches : (id actual_ns : ℕ) → Call

abbrev kept_clock : VirtualClock → Option (VirtualClock × List ℕ) → VirtualClock
kept_clock c none = c
kept_clock c (some (c', hooks)) = c'

-- A panic leaves the clock as it was.
unfoldable pub step : (lives : ℕ → Bool) → Call → VirtualClock → VirtualClock
unfolding advance_to advance_by on_change register_deadline record_dispatch
step lives (to_time t) c = kept_clock c (advance_to lives c t)
step lives (by_time delta) c = kept_clock c (advance_by lives c delta)
step lives (registers t) c = (register_deadline c t).0
step lives (hooks_on h) c = on_change lives c h
step lives (dispatches id actual) c = record_dispatch c id actual

unfoldable pub run : (lives : ℕ → Bool) → List Call → VirtualClock → VirtualClock
run lives [] c = c
run lives (x ∷ xs) c = run lives xs (step lives x c)

abbrev pub tally : ℕ → List ℕ → ℕ
tally k [] = 0
tally k (j ∷ js) = (if k == j then 1 else 0) + tally k js

-- How many deadlines have an id, and how many of them are woken.
abbrev pub traced : ℕ → List DeadlineTrace → ℕ
traced k [] = 0
traced k (d ∷ ds) = (if k == d.id then 1 else 0) + traced k ds

abbrev pub woken_ones : ℕ → List DeadlineTrace → ℕ
woken_ones k [] = 0
woken_ones k (d ∷ ds) = (if k == d.id && d.woken then 1 else 0) + woken_ones k ds

abbrev pub WokenBy : ℕ → List DeadlineTrace → Type 0
WokenBy now ds = All (λ d. d.woken ≡ leb d.target_ns now) ds

pub record IsClock (left : ℕ) (c : VirtualClock) : Type 0 where
  pub on_time : WokenBy c.now_ns c.deadlines
  pub in_order : (k : ℕ) → tally k c.wake_order ≡ woken_ones k c.deadlines
  pub once : (k : ℕ) → traced k c.deadlines ≡ (if leb 1 k && ltb k c.next_deadline then 1 else 0)
  pub counting : (0 < c.next_deadline) × (c.next_deadline + left < 2 ^ 64)

tally-append : (k : ℕ) (js is : List ℕ) → tally k (js ++ is) ≡ tally k js + tally k is
tally-append k [] is = omega arith
tally-append k (j ∷ js) is = omega (arith, tally-append k js is)

tally-push :
    (k t i : ℕ) (q : List (ℕ × ℕ))
    → tally k (ids (push t i q)) ≡ (if k == i then 1 else 0) + tally k (ids q)
tally-push k t i [] = refl
tally-push k t i ((u, j) ∷ q) = ground (arith, tally-push k t i q)

tally-sort_keys : (k : ℕ) (q : List (ℕ × ℕ)) → tally k (ids (sort_keys q)) ≡ tally k (ids q)
tally-sort_keys k [] = refl
tally-sort_keys k ((t, i) ∷ q) = omega (arith, tally-push k t i (sort_keys q), tally-sort_keys k q)

wake_all-tally :
    (k target : ℕ) (ds : List DeadlineTrace)
    → woken_ones k ds + tally k (ids (newly_woken target ds)) ≡ woken_ones k (wake_all target ds)
wake_all-tally k target [] = omega arith
wake_all-tally k target (d ∷ ds) = ground (arith, wake_all-tally k target ds)

traced-wake_all :
    (k target : ℕ) (ds : List DeadlineTrace) → traced k (wake_all target ds) ≡ traced k ds
traced-wake_all k target [] = refl
traced-wake_all k target (d ∷ ds) = ground (arith, traced-wake_all k target ds)

wake_all-WokenBy :
    (now target : ℕ) (ds : List DeadlineTrace)
    → now ≤ target
    → WokenBy now ds
    → WokenBy target (wake_all target ds)
wake_all-WokenBy now target [] h w = tt
wake_all-WokenBy now target (d ∷ ds) h w = (ground arith, wake_all-WokenBy now target ds h w.1)

advance_state-IsClock :
    (lives : ℕ → Bool) (left target : ℕ) (c : VirtualClock)
    → c.now_ns ≤ target
    → IsClock left c
    → IsClock left (advance_state lives (record c { now_ns = target }) target).0
unfolding advance_state
advance_state-IsClock lives left target c h v = record {
  on_time = wake_all-WokenBy c.now_ns target c.deadlines h v.on_time;
  in_order = λ k.
      let keys = newly_woken target c.deadlines in
      omega (
        arith,
        v.in_order k,
        tally-append k c.wake_order (ids (sort_keys keys)),
        tally-sort_keys k keys,
        wake_all-tally k target c.deadlines,
      );
  once = λ k. traced-wake_all k target c.deadlines ∙ v.once k;
  counting = v.counting;
}

lower-IsClock : (left : ℕ) (c : VirtualClock) → IsClock (suc left) c → IsClock left c
lower-IsClock left c v = record {
  on_time = v.on_time;
  in_order = v.in_order;
  once = v.once;
  counting = omega (arith, v.counting.0, v.counting.1);
}

WokenBy-append :
    (now : ℕ) (ds : List DeadlineTrace) (d : DeadlineTrace)
    → WokenBy now ds
    → d.woken ≡ leb d.target_ns now
    → WokenBy now (ds ++ d ∷ [])
WokenBy-append now [] d w h = (h, tt)
WokenBy-append now (x ∷ ds) d w h = (w.0, WokenBy-append now ds d w.1 h)

traced-append :
    (k : ℕ) (ds : List DeadlineTrace) (d : DeadlineTrace)
    → traced k (ds ++ d ∷ []) ≡ traced k ds + (if k == d.id then 1 else 0)
traced-append k [] d = omega arith
traced-append k (x ∷ ds) d = omega (arith, traced-append k ds d)

woken_ones-append :
    (k : ℕ) (ds : List DeadlineTrace) (d : DeadlineTrace)
    → woken_ones k (ds ++ d ∷ []) ≡ woken_ones k ds + (if k == d.id && d.woken then 1 else 0)
woken_ones-append k [] d = omega arith
woken_ones-append k (x ∷ ds) d = omega (arith, woken_ones-append k ds d)

register_deadline-IsClock :
    (left target : ℕ) (c : VirtualClock)
    → IsClock (suc left) c
    → IsClock left (register_deadline c target).0
unfolding register_deadline
register_deadline-IsClock left target c v =
    let trace : DeadlineTrace = record {
      id = c.next_deadline;
      target_ns = target;
      dispatched_at_ns = none;
      woken = leb target c.now_ns;
    } in
    record {
      on_time = ground (arith, WokenBy-append c.now_ns c.deadlines trace v.on_time refl);
      in_order = λ k. ground (
        arith,
        v.in_order k,
        tally-append k c.wake_order (c.next_deadline ∷ []),
        woken_ones-append k c.deadlines trace,
      );
      once = λ k. ground (arith, v.once k, traced-append k c.deadlines trace);
      counting = ground arith;
    }

dispatch_first-WokenBy :
    (now id actual : ℕ) (ds : List DeadlineTrace)
    → WokenBy now ds
    → WokenBy now (dispatch_first id actual ds)
dispatch_first-WokenBy now id actual [] w = tt
dispatch_first-WokenBy now id actual (d ∷ ds) w =
    ground (arith, dispatch_first-WokenBy now id actual ds)

dispatch_first_counts :
    (k id actual : ℕ) (ds : List DeadlineTrace)
    → (traced k (dispatch_first id actual ds) ≡ traced k ds)
      × (woken_ones k (dispatch_first id actual ds) ≡ woken_ones k ds)
dispatch_first_counts k id actual [] = (refl, refl)
dispatch_first_counts k id actual (d ∷ ds) =
    let (a, b) = dispatch_first_counts k id actual ds in (ground arith, ground arith)

record_dispatch-IsClock :
    (left id actual : ℕ) (c : VirtualClock)
    → IsClock left c
    → IsClock left (record_dispatch c id actual)
unfolding record_dispatch
record_dispatch-IsClock left id actual c v = record {
  on_time = dispatch_first-WokenBy c.now_ns id actual c.deadlines v.on_time;
  in_order = λ k. v.in_order k ∙ sym (dispatch_first_counts k id actual c.deadlines).1;
  once = λ k. (dispatch_first_counts k id actual c.deadlines).0 ∙ v.once k;
  counting = v.counting;
}

advance_to-IsClock :
    (lives : ℕ → Bool) (left t : ℕ) (c : VirtualClock)
    → IsClock left c
    → IsClock left (kept_clock c (advance_to lives c t))
unfolding advance_to
advance_to-IsClock lives left t c v = elim (Bool-cases (ltb t c.now_ns)) [
  | inl back ↦ rw back v
  | inr on ↦ rw on (advance_state-IsClock lives left t c (ground arith) v)
]

advance_by-IsClock :
    (lives : ℕ → Bool) (left delta : ℕ) (c : VirtualClock)
    → IsClock left c
    → IsClock left (kept_clock c (advance_by lives c delta))
unfolding advance_by
advance_by-IsClock lives left delta c v = elim (Bool-cases (leb (2 ^ 64) delta)) [
  | inl too_long ↦ rw too_long v
  | inr fits ↦ elim (Bool-cases (ltb (c.now_ns + delta) (2 ^ 64))) [
    | inl sum ↦
        rw (fits, sum) (advance_state-IsClock lives left (c.now_ns + delta) c (omega arith) v)
    | inr over ↦ rw (fits, over) v
  ]
]

on_change-IsClock :
    (lives : ℕ → Bool) (left h : ℕ) (c : VirtualClock)
    → IsClock left c
    → IsClock left (on_change lives c h)
unfolding on_change
on_change-IsClock lives left h c v = record {
  on_time = v.on_time;
  in_order = v.in_order;
  once = v.once;
  counting = v.counting;
}

step-IsClock :
    (lives : ℕ → Bool) (x : Call) (left : ℕ) (c : VirtualClock)
    → IsClock (suc left) c
    → IsClock left (step lives x c)
step-IsClock lives (to_time t) left c v =
    unfold step in advance_to-IsClock lives left t c (lower-IsClock left c v)
step-IsClock lives (by_time delta) left c v =
    unfold step in advance_by-IsClock lives left delta c (lower-IsClock left c v)
step-IsClock lives (registers t) left c v = unfold step in register_deadline-IsClock left t c v
step-IsClock lives (hooks_on h) left c v =
    unfold step in on_change-IsClock lives left h c (lower-IsClock left c v)
step-IsClock lives (dispatches id actual) left c v =
    unfold step in record_dispatch-IsClock left id actual c (lower-IsClock left c v)

run-IsClock_from :
    (lives : ℕ → Bool) (xs : List Call) (left : ℕ) (c : VirtualClock)
    → IsClock (length xs + left) c
    → IsClock left (run lives xs c)
unfolding run
run-IsClock_from lives [] left c v = let e : 0 + left ≡ left = omega arith in rw e at v
run-IsClock_from lives (x ∷ xs) left c v =
    let e : suc (length xs) + left ≡ suc (length xs + left) = omega arith in
    run-IsClock_from lives xs left (step lives x c)
      (step-IsClock lives x (length xs + left) c (rw e at v))

-- Over fewer than 2^64 calls on a new virtual clock every id is given to one deadline, a deadline is woken
-- exactly once the clock has reached its target, and the wake order names it once then and never before.
pub run-IsClock :
    (lives : ℕ → Bool) (xs : List Call) (now : ℕ)
    → length xs + 1 < 2 ^ 64
    → IsClock 0 (run lives xs (new_clock now))
run-IsClock lives xs now few = run-IsClock_from lives xs 0 (new_clock now) (record {
  on_time = tt;
  in_order = λ k. refl;
  once = λ k. ground arith;
  counting = omega arith;
})
