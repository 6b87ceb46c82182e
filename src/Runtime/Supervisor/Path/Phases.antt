-- ===== src/Runtime/Supervisor/Path/Phases.antt =====
-- runtime.rs: the phases of a close, and what a panic that leaves one cuts off.
use mathlib.Core.List.{append_assoc, append-nil}
use easycon_sdk.Common.{
  zero, suc, sym, take, drop, take-append-drop, ℕ, ◌≡◌, ◌∙◌, ap, refl, Option, none, some, List, [],
  ◌∷◌, ◌++◌,
}
use easycon_sdk.Runtime.Supervisor.Path.{
  CloseEffect, publishes, cancels_root, stops_worker, PathPhase, announcing, cancelling,
  closing_resources, joining_tasks, settling, stopping_worker, counting, run_phases, phases_of,
}

-- The work, with a panic: the phases before it, and the first of its own effects.
abbrev pub work_until : Option (PathPhase × ℕ) → (c r t o : List CloseEffect) → List CloseEffect
work_until none c r t o =
    publishes "runtime.closing" ∷ cancels_root ∷ (c ++ (r ++ (t ++ (o ++ stops_worker ∷ []))))
work_until (some (announcing, n)) c r t o = take n (publishes "runtime.closing" ∷ cancels_root ∷ [])
work_until (some (cancelling, n)) c r t o = publishes "runtime.closing" ∷ cancels_root ∷ take n c
work_until (some (closing_resources, n)) c r t o =
    publishes "runtime.closing" ∷ cancels_root ∷ (c ++ take n r)
work_until (some (joining_tasks, n)) c r t o =
    publishes "runtime.closing" ∷ cancels_root ∷ (c ++ (r ++ take n t))
work_until (some (settling, n)) c r t o =
    publishes "runtime.closing" ∷ cancels_root ∷ (c ++ (r ++ (t ++ take n o)))
work_until (some (stopping_worker, n)) c r t o =
    publishes "runtime.closing"
    ∷ cancels_root
    ∷ (c ++ (r ++ (t ++ (o ++ take n (stops_worker ∷ [])))))
work_until (some (counting, n)) c r t o =
    publishes "runtime.closing" ∷ cancels_root ∷ (c ++ (r ++ (t ++ (o ++ stops_worker ∷ []))))

pub logs_work :
    {r r' t t' o o' : List CloseEffect} (p : Option (PathPhase × ℕ)) (c : List CloseEffect)
    → r ≡ r'
    → t ≡ t'
    → o ≡ o'
    → work_until p c r t o ≡ work_until p c r' t' o'
logs_work p c e f g = λ i. work_until p c (e i) (f i) (g i)

pub run_phases_work :
    (p : Option (PathPhase × ℕ)) (c r t o : List CloseEffect)
    → (run_phases p (phases_of c r t o)).0 ≡ work_until p c r t o
run_phases_work none c r t o = refl
run_phases_work (some (announcing, n)) c r t o = refl
run_phases_work (some (cancelling, n)) c r t o = refl
run_phases_work (some (closing_resources, n)) c r t o = refl
run_phases_work (some (joining_tasks, n)) c r t o = refl
run_phases_work (some (settling, n)) c r t o = refl
run_phases_work (some (stopping_worker, n)) c r t o = refl
run_phases_work (some (counting, zero)) c r t o = refl
run_phases_work (some (counting, suc n)) c r t o = refl

abbrev pub whole_work : (c r t o : List CloseEffect) → List CloseEffect
whole_work c r t o = work_until none c r t o

module _ (n : ℕ) (c r t o : List CloseEffect) where
  until_announcing :
      whole_work c r t o
      ≡ work_until (some (announcing, n)) c r t o
        ++ (drop n (publishes "runtime.closing" ∷ cancels_root ∷ [])
            ++ (c ++ (r ++ (t ++ (o ++ stops_worker ∷ [])))))
  until_announcing =
      let first = publishes "runtime.closing" ∷ cancels_root ∷ [] in
      let rest = c ++ (r ++ (t ++ (o ++ stops_worker ∷ []))) in
      ap (λ es. es ++ rest) (sym (take-append-drop n first))
      ∙ append_assoc (take n first) (drop n first) rest

  until_cancelling :
      whole_work c r t o
      ≡ work_until (some (cancelling, n)) c r t o
        ++ (drop n c ++ (r ++ (t ++ (o ++ stops_worker ∷ []))))
  until_cancelling = ap (λ es. whole_work es r t o) (sym (take-append-drop n c)) ∙ simp append_assoc

  until_closing :
      whole_work c r t o
      ≡ work_until (some (closing_resources, n)) c r t o
        ++ (drop n r ++ (t ++ (o ++ stops_worker ∷ [])))
  until_closing = ap (λ es. whole_work c es t o) (sym (take-append-drop n r)) ∙ simp append_assoc

  until_joining :
      whole_work c r t o
      ≡ work_until (some (joining_tasks, n)) c r t o ++ (drop n t ++ (o ++ stops_worker ∷ []))
  until_joining = ap (λ es. whole_work c r es o) (sym (take-append-drop n t)) ∙ simp append_assoc

  until_settling :
      whole_work c r t o
      ≡ work_until (some (settling, n)) c r t o ++ (drop n o ++ stops_worker ∷ [])
  until_settling = ap (λ es. whole_work c r t es) (sym (take-append-drop n o)) ∙ simp append_assoc

  until_stopping :
      whole_work c r t o
      ≡ work_until (some (stopping_worker, n)) c r t o ++ drop n (stops_worker ∷ [])
  until_stopping =
      ap (λ es. publishes "runtime.closing" ∷ cancels_root ∷ (c ++ (r ++ (t ++ (o ++ es)))))
        (sym (take-append-drop n (stops_worker ∷ [])))
      ∙ simp append_assoc

-- Up to a panic the work is the beginning of the whole.
pub work_until-whole :
    (p : Option (PathPhase × ℕ)) (c r t o : List CloseEffect)
    → (skipped : List CloseEffect) × (whole_work c r t o ≡ work_until p c r t o ++ skipped)
work_until-whole none c r t o = ([], sym (append-nil (whole_work c r t o)))
work_until-whole (some (announcing, n)) c r t o = (_, until_announcing n c r t o)
work_until-whole (some (cancelling, n)) c r t o = (_, until_cancelling n c r t o)
work_until-whole (some (closing_resources, n)) c r t o = (_, until_closing n c r t o)
work_until-whole (some (joining_tasks, n)) c r t o = (_, until_joining n c r t o)
work_until-whole (some (settling, n)) c r t o = (_, until_settling n c r t o)
work_until-whole (some (stopping_worker, n)) c r t o = (_, until_stopping n c r t o)
work_until-whole (some (counting, n)) c r t o = ([], sym (append-nil (whole_work c r t o)))
