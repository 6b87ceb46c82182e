-- ===== src/Runtime/Supervisor/Unique.antt =====
-- runtime.rs: the ids of a Runtime are told apart over its three registries.
use easycon_sdk.Common.{
  ℕ, suc, ◌+◌, ◌*◌, ◌^◌, ◌≤◌, ◌<◌, ◌≡◌, ltb, leb, ◌&&◌, Bool, true, false, List, [], ◌∷◌, arith,
  if◌then◌else◌, length,
}
use easycon_sdk.Runtime.Table.{occurs, occurs-remove}
use easycon_sdk.Runtime.Supervisor.{RuntimeInner, Kind, an_operation, a_resource, a_task}
use easycon_sdk.Runtime.Supervisor.System.{
  World, new_world, Call, admit_one, create_one, own_one, unregister_one, step, run,
}

-- Every id stands in one registry at most, once, and was given before; with that many calls to come the ids last.
pub record HasUniqueIds (left : ℕ) (r : RuntimeInner) : Type 0 where
  pub unique :
      (k : ℕ)
      → occurs k r.operations + occurs k r.resources + occurs k r.tasks
        ≤ (if leb 1 k && ltb k r.next_id then 1 else 0)
  pub positive : 0 < r.next_id
  pub enough : r.next_id + 3 * left < 2 ^ 64

admit_one-HasUniqueIds :
    (kind : Kind) (left : ℕ) (w : World)
    → HasUniqueIds (suc left) w.runtime
    → HasUniqueIds left (step (admit_one kind) w).runtime
unfolding step
admit_one-HasUniqueIds an_operation left w h = record {
  unique = λ k. ground (arith, h.unique k, occurs-remove k w.runtime.next_id w.runtime.operations);
  positive = ground arith;
  enough = ground arith;
}
admit_one-HasUniqueIds a_resource left w h = record {
  unique = λ k. ground (arith, h.unique k, occurs-remove k w.runtime.next_id w.runtime.resources);
  positive = ground arith;
  enough = ground arith;
}
admit_one-HasUniqueIds a_task left w h = record {
  unique = λ k. ground (arith, h.unique k, occurs-remove k w.runtime.next_id w.runtime.tasks);
  positive = ground arith;
  enough = ground arith;
}

create_one-HasUniqueIds :
    (owned alive : Bool) (left : ℕ) (w : World)
    → HasUniqueIds (suc left) w.runtime
    → HasUniqueIds left (step (create_one owned alive) w).runtime
unfolding step
create_one-HasUniqueIds owned alive left w h = record {
  unique = λ k. ground (arith, h.unique k, occurs-remove k w.runtime.next_id w.runtime.operations);
  positive = ground arith;
  enough = ground arith;
}

own_one-HasUniqueIds :
    (alive transferable : Bool) (left : ℕ) (w : World)
    → HasUniqueIds (suc left) w.runtime
    → HasUniqueIds left (step (own_one alive transferable) w).runtime
unfolding step
own_one-HasUniqueIds alive true left w h = record {
  unique = λ k. ground (arith, h.unique k, occurs-remove k w.runtime.next_id w.runtime.operations);
  positive = ground arith;
  enough = ground arith;
}
own_one-HasUniqueIds alive false left w h = record {
  unique = λ k. ground (arith, h.unique k, occurs-remove k w.runtime.next_id w.runtime.operations);
  positive = ground arith;
  enough = ground arith;
}

unregister_one-HasUniqueIds :
    (kind : Kind) (id left : ℕ) (w : World)
    → HasUniqueIds (suc left) w.runtime
    → HasUniqueIds left (step (unregister_one kind id) w).runtime
unfolding step
unregister_one-HasUniqueIds an_operation id left w h = record {
  unique = λ k. ground (arith, h.unique k, occurs-remove k id w.runtime.operations);
  positive = h.positive;
  enough = ground arith;
}
unregister_one-HasUniqueIds a_resource id left w h = record {
  unique = λ k. ground (arith, h.unique k, occurs-remove k id w.runtime.resources);
  positive = h.positive;
  enough = ground arith;
}
unregister_one-HasUniqueIds a_task id left w h = record {
  unique = λ k. ground (arith, h.unique k, occurs-remove k id w.runtime.tasks);
  positive = h.positive;
  enough = ground arith;
}

step-HasUniqueIds :
    (c : Call) (left : ℕ) (w : World)
    → HasUniqueIds (suc left) w.runtime
    → HasUniqueIds left (step c w).runtime
unfolding step
step-HasUniqueIds (admit_one kind) left w h = admit_one-HasUniqueIds kind left w h
step-HasUniqueIds (create_one owned alive) left w h = create_one-HasUniqueIds owned alive left w h
step-HasUniqueIds (own_one alive transferable) left w h =
    own_one-HasUniqueIds alive transferable left w h
step-HasUniqueIds (unregister_one kind id) left w h = unregister_one-HasUniqueIds kind id left w h
step-HasUniqueIds c left w h = record {
  unique = λ k. ground (arith, h.unique k);
  positive = ground arith;
  enough = ground arith;
}

run-HasUniqueIds_from :
    (calls : List Call) (left : ℕ) (w : World)
    → HasUniqueIds (length calls + left) w.runtime
    → HasUniqueIds left (run calls w).runtime
unfolding run
run-HasUniqueIds_from [] left w h = let e : 0 + left ≡ left = omega arith in rw e at h
run-HasUniqueIds_from (c ∷ calls) left w h =
    let e : suc (length calls) + left ≡ suc (length calls + left) = omega arith in
    run-HasUniqueIds_from calls left (step c w)
      (step-HasUniqueIds c (length calls + left) w (rw e at h))

-- Whatever is called on a new Runtime, fewer than 2^62 times, an id is given once: it stands in one of the three
-- registries at most, and was given before.
pub run-HasUniqueIds :
    (calls : List Call) → length calls < 2 ^ 62 → HasUniqueIds 0 (run calls new_world).runtime
run-HasUniqueIds calls few =
    run-HasUniqueIds_from calls 0 new_world
      (record { unique = λ k. ground arith; positive = omega arith; enough = omega arith })
