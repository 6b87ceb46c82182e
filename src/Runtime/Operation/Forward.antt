-- ===== src/Runtime/Operation/Forward.antt =====
-- operation.rs: the public states of an operation are passed in one direction.
use easycon_sdk.Common.{ℕ, ◌≤◌, ◌≡◌, refl, Option, none, some, List, [], ◌∷◌, arith}
use mathlib.Core.Path.{subst}
use easycon_sdk.Runtime.Operation.{OperationState, pending, running, cancelling, OperationData}
use easycon_sdk.Runtime.Operation.System.{
  System, Call, starts, cancels, fails_strictly, ends, claims, announces, finishes_claim, abandons,
  records, binds, joins, falls_back, commits, step, run,
}
use easycon_sdk.Runtime.Operation.Sound.{IsSound, step_total}

-- Pending before Running before Cancelling before the three terminal states.
abbrev pub stage : OperationState → ℕ
stage pending = 0
stage running = 1
stage cancelling = 2
stage _ = 3

abbrev NotBefore : OperationData → Option System → Type 0
NotBefore d none = Unit {0}
NotBefore d (some t) = stage d.state ≤ stage t.data_now.state

step-NotBefore : (s : System) (c : Call) → IsSound s → NotBefore s.data_now (step s c)
unfolding step
step-NotBefore s starts v = ground arith
step-NotBefore s (cancels r) v = ground arith
step-NotBefore s (fails_strictly e) v = ground arith
step-NotBefore s (ends q c o) v = ground arith
step-NotBefore s (claims id e c) v = ground arith
step-NotBefore s announces v = ground arith
step-NotBefore s (finishes_claim id r) v = ground arith
step-NotBefore s (abandons id) v = ground arith
step-NotBefore s (records id e c) v = ground arith
step-NotBefore s (binds id task) v = ground arith
step-NotBefore s (joins task) v = ground arith
step-NotBefore s falls_back v = ground arith
step-NotBefore s (commits i) v = ground arith

-- From a sound operation every sequence of calls runs to its end, and the state that it ends in is never
-- before the state that it began in.
pub run-stage :
    (cs : List Call) (s : System)
    → IsSound s
    → (t : System) × (run cs s ≡ some t) × (stage s.data_now.state ≤ stage t.data_now.state)
unfolding run
run-stage [] s v = (s, refl, omega arith)
run-stage (c ∷ cs) s v =
    let (t, there, sound) = step_total s c v in
    let once : NotBefore s.data_now (some t) =
      subst (NotBefore s.data_now) there (step-NotBefore s c v) in
    let (u, later, rest) = run-stage cs t sound in (u, rw there later, omega arith)
