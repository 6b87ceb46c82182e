-- ===== src/Runtime/Deadline/Waker.antt =====
-- deadline.rs: the polls of a signal and its one resolution, in any order.
use easycon_sdk.Common.{
  ℕ, ◌≡◌, refl, ◌==◌, Option, none, some, List, [], ◌∷◌, ◌++◌, ==_iff, Bool-cases, inl, inr,
}
use easycon_sdk.Runtime.Deadline.{
  DeadlineResolutionState, DeadlineOutcome, armed, poll_resolution, polled, commit_resolution,
}

pub data SignalCall : Type 0 where
  polls : (candidate : ℕ) → SignalCall
  resolves : DeadlineOutcome → SignalCall

-- The signal, the tasks that were woken, and what the polls answered, the first one first.
pub record Heard : Type 0 where
  pub signal : DeadlineResolutionState
  pub woken : List ℕ
  pub answers : List (Option DeadlineOutcome)

abbrev wake : Option (Option ℕ) → List ℕ
wake (some (some task)) = task ∷ []
wake _ = []

abbrev add_answer : Option DeadlineOutcome → Heard → Heard
add_answer a h = record h { answers = a ∷ h.answers }

abbrev add_woken : List ℕ → Heard → Heard
add_woken tasks h = record h { woken = tasks ++ h.woken }

unfoldable pub run_signal : List SignalCall → DeadlineResolutionState → Heard
unfolding poll_resolution commit_resolution
run_signal [] s = record { signal = s; woken = []; answers = [] }
run_signal (polls candidate ∷ calls) s =
    let (s', answer) = poll_resolution s candidate in
    add_answer (polled answer) (run_signal calls s')
run_signal (resolves outcome ∷ calls) s =
    let (s', notification) = commit_resolution s outcome in
    add_woken (wake notification) (run_signal calls s')

-- Once it is resolved every poll answers the outcome, and nobody is woken any more.
abbrev pub after_outcome : DeadlineOutcome → List SignalCall → Heard
after_outcome o [] = record {
  signal = record { outcome = some o; waker = none };
  woken = [];
  answers = [];
}
after_outcome o (polls candidate ∷ calls) = add_answer (some o) (after_outcome o calls)
after_outcome o (resolves outcome ∷ calls) = after_outcome o calls

-- Before that every poll is pending, and the task that polled last is woken by the resolution.
abbrev pub heard : Option ℕ → List SignalCall → Heard
heard last [] = record {
  signal = record { outcome = none; waker = last };
  woken = [];
  answers = [];
}
heard last (polls candidate ∷ calls) = add_answer none (heard (some candidate) calls)
heard last (resolves outcome ∷ calls) = add_woken (wake (some last)) (after_outcome outcome calls)

run-after_outcome :
    (o : DeadlineOutcome) (calls : List SignalCall)
    → run_signal calls (record { outcome = some o; waker = none }) ≡ after_outcome o calls
unfolding run_signal
run-after_outcome o [] = refl
run-after_outcome o (polls candidate ∷ calls) = rw (run-after_outcome o calls) refl
run-after_outcome o (resolves outcome ∷ calls) = rw (run-after_outcome o calls) refl

run-waiting :
    (last : Option ℕ) (calls : List SignalCall)
    → run_signal calls (record { outcome = none; waker = last }) ≡ heard last calls
unfolding run_signal
run-waiting last [] = refl
run-waiting last (resolves outcome ∷ calls) = rw (run-after_outcome outcome calls) refl
run-waiting none (polls candidate ∷ calls) = rw (run-waiting (some candidate) calls) refl
run-waiting (some task) (polls candidate ∷ calls) = elim (Bool-cases (task == candidate)) [
  | inl same ↦
      let e : task ≡ candidate = (==_iff task candidate).0 same in
      rw same (rw e (rw (run-waiting (some candidate) calls) refl))
  | inr other ↦ rw other (rw (run-waiting (some candidate) calls) refl)
]

-- Over any polls and resolutions of a new signal the first resolution is kept, wakes exactly the task that
-- polled last before it, and is the answer of every later poll; the earlier polls are pending.
pub run_signal-heard : (calls : List SignalCall) → run_signal calls armed ≡ heard none calls
run_signal-heard calls = run-waiting none calls
