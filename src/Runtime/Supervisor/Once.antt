-- ===== src/Runtime/Supervisor/Once.antt =====
-- runtime.rs: a Runtime is closed once, and every close returns the same outcome.
use easycon_sdk.Common.{
  ℕ, ◌+◌, ◌≡◌, refl, Bool, true, false, Option, none, some, List, [], ◌∷◌, arith, All,
  if◌then◌else◌, is_some, ◌||◌, ltb, Bool-cases, inl, inr,
}
use easycon_sdk.Runtime.Supervisor.{
  RuntimeInner, RuntimeState, active, closing, closed, close_failed, drop_close_owner, is_thread,
  turn_in, usize_limit, an_operation, a_resource, a_task,
}
use easycon_sdk.Runtime.Supervisor.System.{
  World, new_world, Call, admit_one, create_one, own_one, unregister_one, close_one, complete_one,
  bind_one, unbind_one, clone_one, drop_one, step, run, closed_by, unbound,
}

abbrev pub is_ended : RuntimeState → Bool
is_ended closed = true
is_ended close_failed = true
is_ended _ = false

-- One thread at most has become the owner; an outcome is saved exactly in the last states, once; and all calls
-- that have returned have returned it.
pub record ClosesOnce (w : World) : Type 0 where
  pub in_progress : w.runtime.close_in_progress ≡ (is_some w.closer || is_ended w.runtime.state)
  pub one_owner : w.owners ≡ (if w.runtime.close_in_progress then 1 else 0)
  pub one_commit : w.commits ≡ (if is_ended w.runtime.state then 1 else 0)
  pub saved : is_some w.runtime.close_outcome ≡ is_ended w.runtime.state
  pub owned : is_some w.closer ≡ true → w.runtime.state ≡ closing
  pub same : All (λ o. o ≡ w.runtime.close_outcome) w.returned
  pub ended : is_ended w.runtime.state ≡ false → w.returned ≡ []

-- Sections that leave what concerns the close.
same-ClosesOnce :
    (w : World) (r : RuntimeInner)
    → r.state ≡ w.runtime.state
    → r.close_in_progress ≡ w.runtime.close_in_progress
    → r.close_outcome ≡ w.runtime.close_outcome
    → ClosesOnce w
    → ClosesOnce (record w { runtime = r })
same-ClosesOnce w r s p o h = record {
  in_progress = rw (s, p) (h.in_progress);
  one_owner = rw p (h.one_owner);
  one_commit = rw s (h.one_commit);
  saved = rw (s, o) (h.saved);
  owned = rw s (h.owned);
  same = rw o (h.same);
  ended = rw s (h.ended);
}

-- A close that comes late returns what is saved.
close_same :
    (thread : ℕ) (is_supervised : Bool) (w : World)
    → ClosesOnce w
    → All
        (λ o. o ≡ (step (close_one thread is_supervised) w).runtime.close_outcome)
        (step (close_one thread is_supervised) w).returned
unfolding step
close_same thread is_supervised w h = elim (Bool-cases is_supervised) [
  | inl own ↦ rw own (h.same)
  | inr other ↦ elim (Bool-cases (is_thread w.runtime.close_owner thread)) [
    | inl bound ↦ rw (other, bound) (h.same)
    | inr free ↦ rw (other, free) (on_state w.runtime.state refl)
  ]
]
  where
    on_state :
        (s : RuntimeState)
        → w.runtime.state ≡ s
        → All
            (λ o.
              o ≡ (closed_by w thread (turn_in w.runtime.state w.runtime)).runtime.close_outcome)
            (closed_by w thread (turn_in w.runtime.state w.runtime)).returned
    on_state active e = rw e (h.same)
    on_state closing e = elim (Bool-cases w.runtime.close_in_progress) [
      | inl busy ↦ rw (e, busy) (h.same)
      | inr orphan ↦ rw (e, orphan) (h.same)
    ]
    on_state closed e = rw e (refl, h.same)
    on_state close_failed e = rw e (refl, h.same)

pub step-ClosesOnce : (c : Call) (w : World) → ClosesOnce w → ClosesOnce (step c w)
unfolding step
step-ClosesOnce (admit_one kind) w h = ground arith
step-ClosesOnce (create_one owned alive) w h = ground arith
step-ClosesOnce (own_one alive transferable) w h =
    same-ClosesOnce w (step (own_one alive transferable) w).runtime (ground arith) (ground arith)
      (ground arith) h
step-ClosesOnce (unregister_one an_operation id) w h = ground arith
step-ClosesOnce (unregister_one a_resource id) w h = ground arith
step-ClosesOnce (unregister_one a_task id) w h = ground arith
step-ClosesOnce (close_one thread is_supervised) w h = record {
  in_progress = ground arith;
  one_owner = ground arith;
  one_commit = ground arith;
  saved = ground arith;
  owned = ground arith;
  same = unfold step in close_same thread is_supervised w h;
  ended = ground arith;
}
step-ClosesOnce (complete_one outcome) w h = ground arith
step-ClosesOnce bind_one w h = ground arith
step-ClosesOnce unbind_one w h = on_closer w.closer
  where
    on_closer : (o : Option ℕ) → ClosesOnce (unbound w o)
    on_closer none = same-ClosesOnce w (drop_close_owner w.runtime) refl refl refl h
    on_closer (some t) = h
step-ClosesOnce clone_one w h =
    elim (Bool-cases (ltb (w.runtime.runtime_handles + 1) usize_limit)) [
      | inl fits ↦ rw fits (
          same-ClosesOnce w (record w.runtime { runtime_handles = w.runtime.runtime_handles + 1 })
            refl refl refl h)
      | inr over ↦ rw over h
    ]
step-ClosesOnce drop_one w h =
    let kept : (step drop_one w).runtime.close_outcome ≡ w.runtime.close_outcome = ground arith in
    record {
      in_progress = ground arith;
      one_owner = ground arith;
      one_commit = ground arith;
      saved = ground arith;
      owned = ground arith;
      same = rw kept (h.same);
      ended = ground arith;
    }

run-ClosesOnce_from : (calls : List Call) (w : World) → ClosesOnce w → ClosesOnce (run calls w)
unfolding run
run-ClosesOnce_from [] w h = h
run-ClosesOnce_from (c ∷ calls) w h = run-ClosesOnce_from calls (step c w) (step-ClosesOnce c w h)

-- Whatever is called on a new Runtime by any threads: one thread at most becomes the owner of its close, an
-- outcome is saved exactly if the Runtime has come to an end, and once, and every close that returns returns it.
pub run-ClosesOnce : (calls : List Call) → ClosesOnce (run calls new_world)
run-ClosesOnce calls = run-ClosesOnce_from calls new_world (record {
  in_progress = refl;
  one_owner = refl;
  one_commit = refl;
  saved = refl;
  owned = λ e. ground arith;
  same = tt;
  ended = λ e. refl;
})
