-- ===== src/Runtime/Deadline/Notify.antt =====
-- deadline.rs: the end of `fire_due_at`, outside of the locks: the wakers and the clock may panic.
use easycon_sdk.Common.{
  ℕ, ◌≡◌, ap, refl, Option, none, some, List, [], ◌∷◌, length, Option-cases, inl, inr,
}
use easycon_sdk.Runtime.Deadline.{Due}

-- What was called, in order, and the panic to resume.
pub record Calls {ℓ} (P : Type ℓ) : Type ℓ where
  pub called : List ℕ
  pub panic : Option P

abbrev pub first_of {ℓ} : {P : Type ℓ} → Option P → Option P → Option P
first_of none q = q
first_of (some p) q = some p

-- The count that `fire_due_at` returns, or the panic that leaves it.
pub data Fired {ℓ} (P : Type ℓ) : Type ℓ where
  counts : ℕ → Fired P
  resumes : P → Fired P

pub record FireEnd {ℓ} (P : Type ℓ) : Type ℓ where
  pub woken : List ℕ
  pub traced : List ℕ
  pub result : Fired P

abbrev pub wakers : List (Option ℕ) → List ℕ
wakers [] = []
wakers (none ∷ notifications) = wakers notifications
wakers (some task ∷ notifications) = task ∷ wakers notifications

abbrev pub traces : Due → List ℕ
traces [] = []
traces ((id, e) ∷ due) = e.trace_id ∷ traces due

module _ {ℓ} {P : Type ℓ} where
  abbrev added : ℕ → Option P → Calls P → Calls P
  added task p rest = record { called = task ∷ rest.called; panic = first_of p rest.panic }

  -- `notify_deadline_signals`: a signal without a waker is only broadcast.
  unfoldable pub notify_deadline_signals : (wake : ℕ → Option P) → List (Option ℕ) → Calls P
  notify_deadline_signals wake [] = record { called = []; panic = none }
  notify_deadline_signals wake (none ∷ notifications) = notify_deadline_signals wake notifications
  notify_deadline_signals wake (some task ∷ notifications) =
      added task (wake task) (notify_deadline_signals wake notifications)

  abbrev recorded : ℕ → Option P → Calls P → Calls P
  recorded trace none rest = record { called = trace ∷ rest.called; panic = rest.panic }
  recorded trace (some p) rest = record { called = trace ∷ []; panic = some p }

  -- The loop over `record_dispatch`, which a panic leaves.
  unfoldable pub dispatch : (record_dispatch : ℕ → Option P) → Due → Calls P
  dispatch record_dispatch [] = record { called = []; panic = none }
  dispatch record_dispatch ((id, e) ∷ due) =
      recorded e.trace_id (record_dispatch e.trace_id) (dispatch record_dispatch due)

  abbrev pub fired_with : Option P → ℕ → Fired P
  fired_with none count = counts count
  fired_with (some p) count = resumes p

  -- `fire_due_at` once the batch is committed.
  unfoldable pub finish_fire :
      (wake record_dispatch : ℕ → Option P) → List (Option ℕ) → Due → FireEnd P
  unfolding notify_deadline_signals dispatch
  finish_fire wake record_dispatch notifications due =
      let notified = notify_deadline_signals wake notifications in
      let dispatched = dispatch record_dispatch due in
      record {
        woken = notified.called;
        traced = dispatched.called;
        result = fired_with (first_of dispatched.panic notified.panic) (length due);
      }

  abbrev pub first_panic : (ℕ → Option P) → List ℕ → Option P
  first_panic call [] = none
  first_panic call (x ∷ xs) = first_of (call x) (first_panic call xs)

  notify_deadline_signals_lem :
      (wake : ℕ → Option P) (notifications : List (Option ℕ))
      → (notify_deadline_signals wake notifications)
        ≡ record { called = wakers notifications; panic = first_panic wake (wakers notifications) }
  unfolding notify_deadline_signals
  notify_deadline_signals_lem wake [] = refl
  notify_deadline_signals_lem wake (none ∷ notifications) =
      notify_deadline_signals_lem wake notifications
  notify_deadline_signals_lem wake (some task ∷ notifications) =
      rw (notify_deadline_signals_lem wake notifications) refl

  dispatch_panic :
      (record_dispatch : ℕ → Option P) (due : Due)
      → (dispatch record_dispatch due).panic ≡ first_panic record_dispatch (traces due)
  unfolding dispatch
  dispatch_panic record_dispatch [] = refl
  dispatch_panic record_dispatch ((id, e) ∷ due) =
      elim (Option-cases (record_dispatch e.trace_id)) [
        | inl call ↦ rw call (dispatch_panic record_dispatch due)
        | inr (p, call) ↦ rw call refl
      ]

  -- Every waker of a batch is called, in order, whichever of the calls panic; the batch ends with the first
  -- panic of the clock, else the first one of a waker, else with its size.
  pub finish_fire-wakers :
      (wake record_dispatch : ℕ → Option P) (notifications : List (Option ℕ)) (due : Due)
      → ((finish_fire wake record_dispatch notifications due).woken ≡ wakers notifications)
        × ((finish_fire wake record_dispatch notifications due).result
            ≡ fired_with
                (first_of
                  (first_panic record_dispatch (traces due))
                  (first_panic wake (wakers notifications)))
                (length due))
  unfolding finish_fire
  finish_fire-wakers wake record_dispatch notifications due =
      let told = notify_deadline_signals_lem wake notifications in
      (
        ap (λ (c : Calls P). c.called) told,
        rw (dispatch_panic record_dispatch due, ap (λ (c : Calls P). c.panic) told) refl,
      )
