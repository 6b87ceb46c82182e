-- ===== src/Runtime/Operation/Snapshot.antt =====
-- operation.rs: what a caller of `snapshot` can rely on, over any order of calls.
use easycon_sdk.Common.{ℕ, ◌≡◌, refl, ◌∙◌, true, Option, none, some, List, [], ◌∷◌, arith}
use easycon_sdk.Runtime.Arbiter.{new_arbiter}
use easycon_sdk.Runtime.Operation.{
  is_terminal, CancellationReason, OwnerCleanup, CleanupObserver, OperationData, new_operation,
  new_owned, snapshot,
}
use easycon_sdk.Runtime.Operation.System.{
  System, Call, starts, cancels, fails_strictly, ends, claims, announces, finishes_claim, abandons,
  records, binds, joins, falls_back, commits, step, run,
}
use easycon_sdk.Runtime.Operation.Sound.{Consistent, IsSound, step_total, run_total}
use mathlib.Core.Path.{subst}

abbrev pub alone : OperationData → System
alone d = record { data_now = d; flights = []; announcing = 0 }

pub new_operation-IsSound : IsSound (alone new_operation)
new_operation-IsSound = ground arith

pub new_owned-IsSound :
    (id : ℕ) (transfer : Option ℕ) (c : OwnerCleanup) (o : CleanupObserver)
    → IsSound (alone (new_owned id transfer c o))
unfolding new_owned new_arbiter
new_owned-IsSound id transfer c o = ground arith

abbrev Same : OperationData → Option System → Type 0
Same d none = Unit {0}
Same d (some t) =
    (t.data_now.state ≡ d.state)
    × (t.data_now.result ≡ d.result)
    × (t.data_now.error ≡ d.error)
    × (t.data_now.cancellation_reason ≡ d.cancellation_reason)

Same-terminal :
    (s : System) (c : Call)
    → IsSound s
    → is_terminal s.data_now.state ≡ true
    → Same s.data_now (step s c)
unfolding step
Same-terminal s starts v h = ground arith
Same-terminal s (cancels r) v h = ground arith
Same-terminal s (fails_strictly e) v h = ground arith
Same-terminal s (ends q c o) v h = ground arith
Same-terminal s (claims id e c) v h = ground arith
Same-terminal s announces v h = ground arith
Same-terminal s (finishes_claim id r) v h = ground arith
Same-terminal s (abandons id) v h = ground arith
Same-terminal s (records id e c) v h = ground arith
Same-terminal s (binds id task) v h = ground arith
Same-terminal s (joins task) v h = ground arith
Same-terminal s falls_back v h = ground arith
Same-terminal s (commits i) v h = ground arith

abbrev Keeps : CancellationReason → Option System → Type 0
Keeps r none = Unit {0}
Keeps r (some t) = t.data_now.cancellation_reason ≡ some r

Keeps-reason :
    (s : System) (c : Call) (r : CancellationReason)
    → IsSound s
    → s.data_now.cancellation_reason ≡ some r
    → Keeps r (step s c)
unfolding step
Keeps-reason s starts r v h = ground arith
Keeps-reason s (cancels r2) r v h = ground arith
Keeps-reason s (fails_strictly e) r v h = ground arith
Keeps-reason s (ends q c o) r v h = ground arith
Keeps-reason s (claims id e c) r v h = ground arith
Keeps-reason s announces r v h = ground arith
Keeps-reason s (finishes_claim id r2) r v h = ground arith
Keeps-reason s (abandons id) r v h = ground arith
Keeps-reason s (records id e c) r v h = ground arith
Keeps-reason s (binds id task) r v h = ground arith
Keeps-reason s (joins task) r v h = ground arith
Keeps-reason s falls_back r v h = ground arith
Keeps-reason s (commits i) r v h = ground arith

Same-snapshot :
    (d : OperationData) (s t : System) → Same d (some t) → snapshot t.data_now ≡ snapshot d
unfolding snapshot
Same-snapshot d s t h = ground arith

-- A terminal state is final: from a sound operation that has ended, every sequence of calls runs to its
-- end and leaves the snapshot as it is.
pub run_terminal :
    (cs : List Call) (s : System)
    → IsSound s
    → is_terminal s.data_now.state ≡ true
    → (t : System) × (run cs s ≡ some t) × (snapshot t.data_now ≡ snapshot s.data_now)
unfolding run
run_terminal [] s v h = (s, refl, refl)
run_terminal (c ∷ cs) s v h =
    let (t, there, sound) = step_total s c v in
    let same : Same s.data_now (some t) = subst (Same s.data_now) there (Same-terminal s c v h) in
    let (u, later, kept) = run_terminal cs t sound (rw same.0 h) in
    (u, rw there later, kept ∙ Same-snapshot s.data_now s t same)

-- The first cancellation reason of a sound operation is kept by every sequence of calls, other
-- requests to cancel included.
pub run_reason :
    (cs : List Call) (s : System) (r : CancellationReason)
    → IsSound s
    → s.data_now.cancellation_reason ≡ some r
    → (t : System) × (run cs s ≡ some t) × (t.data_now.cancellation_reason ≡ some r)
unfolding run
run_reason [] s r v h = (s, refl, h)
run_reason (c ∷ cs) s r v h =
    let (t, there, sound) = step_total s c v in
    let same : Keeps r (some t) = subst (Keeps r) there (Keeps-reason s c r v h) in
    let (u, later, kept) = run_reason cs t r sound same in (u, rw there later, kept)

-- Whatever is called on a new operation with a settlement owner, nothing panics, the result is there
-- exactly in the state Succeeded, and the error exactly in the states Failed and Cancelled.
pub run-new_owned :
    (cs : List Call) (id : ℕ) (transfer : Option ℕ) (c : OwnerCleanup) (o : CleanupObserver)
    → (t : System) × (run cs (alone (new_owned id transfer c o)) ≡ some t)
      × Consistent t.data_now.state t.data_now.result t.data_now.error
run-new_owned cs id transfer c o =
    let (t, there, sound) =
      run_total cs (alone (new_owned id transfer c o)) (new_owned-IsSound id transfer c o) in
    (t, there, sound.consistent)
