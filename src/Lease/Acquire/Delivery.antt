-- ===== src/Lease/Acquire/Delivery.antt =====
-- session.rs, `AcquireRecord`: resolvers, polls and the drop of the future in any order.
use easycon_sdk.Common.{
  sym, ◌∙◌, ◌++◌, ℕ, zero, suc, ◌<◌, ◌≡◌, refl, Bool, true, false, Option, none, some, List, [],
  ◌∷◌, get_elem?, arith, ◌↔◌,
}
use mathlib.Core.Path.{subst}
use easycon_sdk.Lease.Acquire.{
  AcquireOutcome, granted, Signals, resolved_outcome, AcquireStatus, pending, resolving, ready,
  abandoned, AcquireRecord, new_acquire, reserve_resolution, publish_reserved, abandon, AcquirePoll,
  poll_ready, poll_pending, poll_panic, poll_record,
}

-- The record with the resolvers that have reserved it and not yet published, and where outcomes went: to
-- the caller, or dropped. `holds` is whether the caller still has the future.
pub record Request : Type 0 where
  pub acquire : AcquireRecord
  pub resolvers : List AcquireOutcome
  pub delivered : List AcquireOutcome
  pub dropped : List AcquireOutcome
  pub holds : Bool

pub data Call : Type 0 where
  resolve : Signals → Option AcquireOutcome → Call
  publish : ℕ → Call
  poll drop : Call

abbrev pub add : Option AcquireOutcome → List AcquireOutcome → List AcquireOutcome
add none os = os
add (some o) os = o ∷ os

abbrev without : ℕ → List AcquireOutcome → List AcquireOutcome
without i [] = []
without zero (o ∷ os) = os
without (suc i) (o ∷ os) = o ∷ without i os

abbrev reserved : Request → AcquireOutcome → AcquireRecord × Bool → Request
reserved q outcome (r, true) = record q { acquire = r; resolvers = outcome ∷ q.resolvers }
reserved q outcome (r, false) = q

abbrev publishes : Request → ℕ → Option AcquireOutcome → Request
publishes q i none = q
publishes q i (some outcome) =
    let p = publish_reserved q.acquire outcome in
    record q {
      acquire = p.acquire;
      resolvers = without i q.resolvers;
      dropped = add p.unclaimed q.dropped;
    }

-- A poll that is ready uses the future up.
abbrev polled : Request → AcquireRecord × AcquirePoll → Option Request
polled q (r, poll_ready outcome) =
    some (record q { acquire = r; delivered = outcome ∷ q.delivered; holds = false })
polled q (r, poll_pending) = some (record q { acquire = r })
polled q (r, poll_panic) = none

abbrev drops : Request → AcquireRecord × Option AcquireOutcome → Request
drops q (r, unclaimed) = record q { acquire = r; dropped = add unclaimed q.dropped; holds = false }

-- `none` is a panic. A caller that no longer has the future neither polls nor drops it.
unfoldable pub step : Call → Request → Option Request
unfolding resolved_outcome reserve_resolution publish_reserved abandon poll_record
step (resolve g fallback) q =
    some (reserved q (resolved_outcome g fallback) (reserve_resolution q.acquire))
step (publish i) q = some (publishes q i (get_elem? q.resolvers i))
step poll q = elim q.holds [ true ↦ polled q (poll_record q.acquire) | false ↦ some q ]
step drop q = elim q.holds [ true ↦ some (drops q (abandon q.acquire)) | false ↦ some q ]

abbrev then_run : (Request → Option Request) → Option Request → Option Request
then_run f none = none
then_run f (some q) = f q

unfoldable pub run : List Call → Request → Option Request
run [] q = some q
run (c ∷ cs) q = then_run (run cs) (step c q)

abbrev pub requested : Bool → Request
requested deadline_registered = record {
  acquire = new_acquire deadline_registered;
  resolvers = [];
  delivered = [];
  dropped = [];
  holds = true;
}

-- Where the outcome is, by the record's status.
abbrev Placed :
    AcquireStatus → List AcquireOutcome → List AcquireOutcome → List AcquireOutcome → Bool → Type 0
Placed pending [] [] [] true = Unit {0}
Placed (resolving false) (o ∷ []) [] [] true = Unit {0}
Placed (resolving true) (o ∷ []) [] [] false = Unit {0}
Placed (ready (some p)) [] [] [] true = Unit {0}
Placed (ready none) [] (o ∷ []) [] false = Unit {0}
Placed abandoned [] [] [] false = Unit {0}
Placed abandoned [] [] (o ∷ []) false = Unit {0}
Placed _ _ _ _ _ = ⊥

abbrev pub IsPlaced : Request → Type 0
IsPlaced q = Placed q.acquire.status q.resolvers q.delivered q.dropped q.holds

abbrev Goes : Option Request → Type 0
Goes none = ⊥
Goes (some q) = IsPlaced q

publish-IsPlaced : (i : ℕ) (q : Request) → IsPlaced q → Goes (step (publish i) q)
unfolding step
publish-IsPlaced zero q v = ground arith
publish-IsPlaced (suc i) q v = ground arith

step-IsPlaced : (c : Call) (q : Request) → IsPlaced q → Goes (step c q)
unfolding step
step-IsPlaced (resolve g fallback) q v = ground arith
step-IsPlaced (publish i) q v = publish-IsPlaced i q v
step-IsPlaced poll q v = ground arith
step-IsPlaced drop q v = ground arith

reached : (r : Option Request) → Goes r → (q : Request) × (r ≡ some q) × IsPlaced q
reached none h = elim h [ ]
reached (some q) h = (q, refl, h)

-- The outcome that a record still holds, and all that there are.
abbrev held : AcquireStatus → List AcquireOutcome
held (ready (some o)) = o ∷ []
held _ = []

abbrev pub outcomes : Request → List AcquireOutcome
outcomes q = q.resolvers ++ (held q.acquire.status ++ (q.delivered ++ q.dropped))

-- The outcome that calls give to a pending request: what its first resolver comes to, unless the future is dropped
-- before it.
abbrev pub first_answer : List Call → List AcquireOutcome
first_answer [] = []
first_answer (resolve g fallback ∷ cs) = resolved_outcome g fallback ∷ []
first_answer (drop ∷ cs) = []
first_answer (publish i ∷ cs) = first_answer cs
first_answer (poll ∷ cs) = first_answer cs

-- The outcomes that there are after the calls.
abbrev later_outcomes : AcquireStatus → Request → List Call → List AcquireOutcome
later_outcomes pending q cs = first_answer cs
later_outcomes _ q cs = outcomes q

abbrev pub expected : Request → List Call → List AcquireOutcome
expected q cs = later_outcomes q.acquire.status q cs

abbrev Expects : List AcquireOutcome → Option Request → List Call → Type 0
Expects os none cs = ⊥
Expects os (some q) cs = expected q cs ≡ os

step-expected :
    (c : Call) (cs : List Call) (q : Request)
    → IsPlaced q
    → Expects (expected q (c ∷ cs)) (step c q) cs
unfolding step
step-expected (resolve g fallback) cs q v = ground arith
step-expected (publish zero) cs q v = ground arith
step-expected (publish (suc i)) cs q v = ground arith
step-expected poll cs q v = ground arith
step-expected drop cs q v = ground arith

expected-nil : (q : Request) → IsPlaced q → expected q [] ≡ outcomes q
expected-nil q v = ground arith

-- Resolvers, polls and the drop of the future in any order, on a request whose outcome is in its place: no poll panics.
-- The outcome that there is stays the same, at its resolver, in the record, with the caller or among the dropped, one of
-- these alone; a pending request gets that of its first resolver, unless the future is dropped before it.
pub run-outcomes :
    (cs : List Call) (q : Request)
    → IsPlaced q
    → (t : Request) × (run cs q ≡ some t) × IsPlaced t × (outcomes t ≡ expected q cs)
unfolding run
run-outcomes [] q v = (q, refl, v, sym (expected-nil q v))
run-outcomes (c ∷ cs) q v =
    let (t, there, placed) = reached (step c q) (step-IsPlaced c q v) in
    let same : Expects (expected q (c ∷ cs)) (some t) cs =
      subst (λ r. Expects (expected q (c ∷ cs)) r cs) there (step-expected c cs q v) in
    let (u, later, placed', all) = run-outcomes cs t placed in
    (u, rw there later, placed', all ∙ same)

-- The deadline has not passed: there is none, or the clock has a time before it.
abbrev Before : Option ℕ → Option ℕ → Type 0
Before none now = Unit {0}
Before (some deadline) none = ⊥
Before (some deadline) (some now) = now < deadline

-- A resolver grants a lease exactly if its fallback does and it saw no cancellation, no fired or passed
-- deadline, no panic of the clock and no close.
pub granted_iff :
    (g : Signals) (lease : ℕ)
    → (resolved_outcome g (some (granted lease)) ≡ granted lease) ↔ (
        (g.is_cancelled ≡ false)
        × (g.deadline_fired ≡ false)
        × Before g.deadline_ns g.now_ns
        × (g.closing ≡ false))
unfolding resolved_outcome
granted_iff g lease = (λ h. ground arith, λ h. ground arith)
