-- ===== src/Lease/Registry/Settled.antt =====
-- session.rs, `ReleaseInterruptRegistry`: no release outlives a settled stream without an outcome.
use easycon_sdk.Common.{
  get_elem?, ℕ, ◌≡◌, refl, Bool, true, false, Option, none, some, List, [], ◌∷◌, ◌++◌, arith,
}
use easycon_sdk.Model.Error.{EasyConError, Result, err}
use easycon_sdk.Lease.Release.{ReleaseOutcome, reserve_full_accepted, begin_neutral}
use easycon_sdk.Lease.Registry.{
  ReleaseCleanupProjection, proven, ownership_lost, Store, put, retain, complete_at, Chore,
  completing, interrupting, do_chore, chores_for, stream_settled_outcome, track,
  record_cleanup_failure, record_ownership_loss, request_close_interrupts,
  settle_stream_after_close,
}
use easycon_sdk.Lease.Registry.Threads.{
  World, Call, tracks, fails, loses, interrupts, settles, works, completes, gates, begins, begun,
  after_work, step, run, unused_registry, settled_world,
}
use easycon_sdk.Lease.Registry.Committed.{
  Stays, complete_at-Stays, owes-append, AllCovered, Keeps, AllCovered-Keeps, append-Keeps,
  Stays-Keeps, without, work-Keeps, retain-AllCovered, AllCovered-append, chores_for-AllCovered,
  AllCommitted, all_done-AllCommitted,
}

-- The registry has an outcome for every release: a proven failure, or a settled stream.
abbrev has_outcome : Option ReleaseCleanupProjection → Bool → Bool
has_outcome (some (proven e)) settled = true
has_outcome (some ownership_lost) settled = false
has_outcome none settled = settled

abbrev Under : Bool → Type 0 → Type 0
Under true P = P
Under false P = Unit {0}

abbrev pub IsCovered : World → Type 0
IsCovered w =
    let g = w.registry in
    Under (has_outcome g.cleanup_projection g.stream_settled) (AllCovered w.store w.owed g.records)

abbrev pub IsSettled : World → Type 0
IsSettled w =
    let g = w.registry in
    Under (has_outcome g.cleanup_projection g.stream_settled) (AllCommitted w.store g.records)

Under-map : {P Q : Type 0} (b : Bool) → (P → Q) → Under b P → Under b Q
Under-map true f v = f v
Under-map false f v = v

Keeps-IsCovered :
    (w : World) (store : Store) (owed : List (ℕ × Chore))
    → Keeps w.store w.owed store owed
    → IsCovered w
    → IsCovered (record w { store = store; owed = owed })
Keeps-IsCovered w store owed keeps v =
    let g = w.registry in
    Under-map (has_outcome g.cleanup_projection g.stream_settled)
      (AllCovered-Keeps w.store w.owed store owed g.records keeps) v

lane-IsCovered :
    (w : World) (store : Store)
    → Stays w.store store
    → IsCovered w
    → IsCovered (record w { store = store })
lane-IsCovered w store stays v =
    Keeps-IsCovered w store w.owed (Stays-Keeps w.store store w.owed stays) v

gates-Stays :
    (i : ℕ) (store : Store) → Stays store (put store i (reserve_full_accepted (store i)).0)
unfolding reserve_full_accepted
gates-Stays i store j h = ground arith

begins-Stays :
    (i : ℕ) (store : Store) → Stays store (put store i (begun (store i) (begin_neutral (store i))))
unfolding begin_neutral
begins-Stays i store j h = ground arith

-- The list after `track`: the live records and the new one, whose outcome is owed.
track-list :
    (alive : ℕ → Bool) (store : Store) (owed : List (ℕ × Chore)) (is : List ℕ) (i : ℕ)
    (outcome : Result ReleaseOutcome)
    → AllCovered store owed is
    → AllCovered store (owed ++ (i, completing outcome) ∷ []) (retain alive is ++ i ∷ [])
track-list alive store owed is i outcome v =
    let more : List (ℕ × Chore) = (i, completing outcome) ∷ [] in
    AllCovered-append store (owed ++ more) (retain alive is) i
      (AllCovered-Keeps store owed store (owed ++ more) (retain alive is)
        (append-Keeps store owed more) (retain-AllCovered alive store owed is v))
      (ground (arith, owes-append i owed more))

tracks-IsCovered :
    (alive : ℕ → Bool) (w : World) (i : ℕ) → IsCovered w → IsCovered (step alive (tracks i) w)
unfolding step track
tracks-IsCovered alive w i v =
    in_projection w.registry.cleanup_projection w.registry.stream_settled refl refl
  where
    listed :
        (outcome : Result ReleaseOutcome)
        → AllCovered w.store w.owed w.registry.records
        → AllCovered w.store
            (w.owed ++ (i, completing outcome) ∷ [])
            (retain alive w.registry.records ++ i ∷ [])
    listed = track-list alive w.store w.owed w.registry.records i

    in_projection :
        (p : Option ReleaseCleanupProjection) (b : Bool)
        → w.registry.cleanup_projection ≡ p
        → w.registry.stream_settled ≡ b
        → IsCovered (step alive (tracks i) w)
    in_projection (some ownership_lost) b e f = rw e tt
    in_projection (some (proven x)) b e f = ground (arith, listed (err x))
    in_projection none true e f = ground (arith, listed stream_settled_outcome)
    in_projection none false e f = ground arith

fails-IsCovered :
    (alive : ℕ → Bool) (w : World) (e : EasyConError)
    → IsCovered w
    → IsCovered (step alive (fails e) w)
unfolding step record_cleanup_failure
fails-IsCovered alive w e v = in_projection w.registry.cleanup_projection refl
  where
    in_projection :
        (p : Option ReleaseCleanupProjection)
        → w.registry.cleanup_projection ≡ p
        → IsCovered (step alive (fails e) w)
    in_projection (some ownership_lost) same = rw same tt
    in_projection (some (proven first)) same =
        rw same (chores_for-AllCovered w.store (err first) w.owed (retain alive w.registry.records))
    in_projection none same =
        rw same (chores_for-AllCovered w.store (err e) w.owed (retain alive w.registry.records))

loses-IsCovered : (alive : ℕ → Bool) (w : World) → IsCovered w → IsCovered (step alive loses w)
unfolding step record_ownership_loss
loses-IsCovered alive w v = ground arith

interrupts-IsCovered :
    (alive : ℕ → Bool) (w : World) → IsCovered w → IsCovered (step alive interrupts w)
unfolding step request_close_interrupts
interrupts-IsCovered alive w v =
    let g = w.registry in
    let live = retain alive g.records in
    let more = chores_for interrupting live in
    Under-map (has_outcome g.cleanup_projection g.stream_settled)
      (λ all.
        AllCovered-Keeps w.store w.owed w.store (w.owed ++ more) live
          (append-Keeps w.store w.owed more) (retain-AllCovered alive w.store w.owed g.records all))
      v

settles-IsCovered : (alive : ℕ → Bool) (w : World) → IsCovered w → IsCovered (step alive settles w)
unfolding step settle_stream_after_close
settles-IsCovered alive w v = in_projection w.registry.cleanup_projection refl
  where
    listed :
        AllCovered w.store
          (w.owed
            ++ chores_for (completing stream_settled_outcome) (retain alive w.registry.records))
          (retain alive w.registry.records)
    listed =
        chores_for-AllCovered w.store stream_settled_outcome w.owed
          (retain alive w.registry.records)

    in_projection :
        (p : Option ReleaseCleanupProjection)
        → w.registry.cleanup_projection ≡ p
        → IsCovered (step alive settles w)
    in_projection (some ownership_lost) same = rw same tt
    in_projection (some (proven first)) same = rw same listed
    in_projection none same = rw same listed

works-IsCovered :
    (alive : ℕ → Bool) (k : ℕ) (w : World) → IsCovered w → IsCovered (step alive (works k) w)
unfolding step
works-IsCovered alive k w v = there (get_elem? w.owed k) refl
  where
    there : (o : Option (ℕ × Chore)) → get_elem? w.owed k ≡ o → IsCovered (after_work w k o)
    there none found = v
    there (some chore) found =
        Keeps-IsCovered w (do_chore chore w.store).0 (without k w.owed)
          (work-Keeps w.store w.owed k chore found) v

step-IsCovered :
    (alive : ℕ → Bool) (c : Call) (w : World) → IsCovered w → IsCovered (step alive c w)
step-IsCovered alive (tracks i) w v = tracks-IsCovered alive w i v
step-IsCovered alive (fails e) w v = fails-IsCovered alive w e v
step-IsCovered alive loses w v = loses-IsCovered alive w v
step-IsCovered alive interrupts w v = interrupts-IsCovered alive w v
step-IsCovered alive settles w v = settles-IsCovered alive w v
step-IsCovered alive (works k) w v = works-IsCovered alive k w v
step-IsCovered alive (completes i outcome) w v =
    unfold step in
    lane-IsCovered w (complete_at outcome i w.store) (complete_at-Stays outcome i w.store) v
step-IsCovered alive (gates i) w v =
    unfold step in
    lane-IsCovered w (put w.store i (reserve_full_accepted (w.store i)).0) (gates-Stays i w.store) v
step-IsCovered alive (begins i) w v =
    unfold step in
    lane-IsCovered w (put w.store i (begun (w.store i) (begin_neutral (w.store i))))
      (begins-Stays i w.store) v

run_from-IsCovered :
    (cs : List ((ℕ → Bool) × Call)) (w : World) → IsCovered w → IsCovered (run cs w)
unfolding run
run_from-IsCovered [] w v = v
run_from-IsCovered ((alive, c) ∷ cs) w v =
    run_from-IsCovered cs (step alive c w) (step-IsCovered alive c w v)

-- Whatever is called on a registry and on its releases, in any order and whichever releases are still alive, the loops of
-- the threads behind its lock included: once a cleanup failure is proven or the stream is settled without a loss of
-- ownership, every release in the registry is committed or owed its completion by a thread, those tracked later
-- included, and is committed when the threads have done what they owe.
pub run-IsSettled :
    (cs : List ((ℕ → Bool) × Call)) (store : Store)
    → let w = run cs (unused_registry store) in IsCovered w × IsSettled (settled_world w)
run-IsSettled cs store =
    let w = run cs (unused_registry store) in
    let covered = run_from-IsCovered cs (unused_registry store) tt in
    let g = w.registry in
    (
      covered,
      Under-map (has_outcome g.cleanup_projection g.stream_settled)
          (all_done-AllCommitted w.owed w.store g.records) covered,
    )
