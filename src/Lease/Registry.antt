-- ===== src/Lease/Registry.antt =====
-- session.rs, `ReleaseInterruptRegistry`: the releases of a controller, which its close interrupts and
-- settles. Releases are shared, so they stand in a store by number; the registry's weak references are
-- their numbers, and `alive` says which of them can still be upgraded.
pub mod Committed
pub mod Threads
pub mod Settled
mod Tests
use easycon_sdk.Common.{
  ℕ, Bool, true, false, ◌||◌, Option, none, some, List, [], ◌∷◌, ◌++◌, ◌==◌, if◌then◌else◌,
}
use easycon_sdk.Model.Error.{EasyConError, Result, ok, err}
use easycon_sdk.Lease.{closed_lane_error}
use easycon_sdk.Lease.Release.{
  ReleaseOutcome, neutral_not_delivered_stream_settled, ReleaseRecord, complete_release,
  request_close_interrupt,
}

pub data ReleaseCleanupProjection : Type 0 where
  proven : EasyConError → ReleaseCleanupProjection
  ownership_lost : ReleaseCleanupProjection

pub record ReleaseInterruptState : Type 0 where
  pub records : List ℕ
  pub retained_ownership_loss_records : List ℕ
  pub close_requested : Bool
  pub stream_settled : Bool
  pub cleanup_projection : Option ReleaseCleanupProjection

abbrev pub new_registry : ReleaseInterruptState
new_registry = record {
  records = [];
  retained_ownership_loss_records = [];
  close_requested = false;
  stream_settled = false;
  cleanup_projection = none;
}

abbrev pub Store : Type 0
Store = ℕ → ReleaseRecord

abbrev pub put : Store → ℕ → ReleaseRecord → Store
put store i r j = if i == j then r else store j

-- `records.retain(…)`.
abbrev pub retain : (ℕ → Bool) → List ℕ → List ℕ
retain alive [] = []
retain alive (i ∷ is) = let rest = retain alive is in if alive i then i ∷ rest else rest

abbrev pub complete_at : Result ReleaseOutcome → ℕ → Store → Store
complete_at outcome i store = put store i (complete_release (store i) outcome).0

abbrev pub interrupt_at : ℕ → Store → Store × Bool
interrupt_at i store =
    let r = request_close_interrupt (store i) in (put store i r.release, r.close_consumed)

-- What a method does to an upgraded record behind the registry's lock.
pub data Chore : Type 0 where
  completing : Result ReleaseOutcome → Chore
  interrupting : Chore

-- The body of its loop; the answer is whether close was consumed.
unfoldable pub do_chore : ℕ × Chore → Store → Store × Bool
do_chore (i, completing outcome) store = (complete_at outcome i store, false)
do_chore (i, interrupting) store = interrupt_at i store

abbrev pub chores_for : Chore → List ℕ → List (ℕ × Chore)
chores_for chore [] = []
chores_for chore (i ∷ is) = (i, chore) ∷ chores_for chore is

abbrev pub stream_settled_outcome : Result ReleaseOutcome
stream_settled_outcome = ok (neutral_not_delivered_stream_settled closed_lane_error)

-- A method is its section under the registry's lock, and the chores that its thread does behind it.
abbrev pub Section : Type 0
Section = ReleaseInterruptState × List (ℕ × Chore)

abbrev tracked : ReleaseInterruptState → (ℕ → Bool) → ℕ → ReleaseInterruptState
tracked g alive i = record g { records = retain alive g.records ++ i ∷ [] }

abbrev signal : ReleaseInterruptState → ℕ → List (ℕ × Chore)
signal g i =
    if g.stream_settled
    then (i, completing stream_settled_outcome) ∷ []
    else if g.close_requested
    then (i, interrupting) ∷ []
    else []

abbrev track_in : Option ReleaseCleanupProjection → ReleaseInterruptState → ℕ → Section
track_in (some ownership_lost) g i =
    (record g { retained_ownership_loss_records = g.retained_ownership_loss_records ++ i ∷ [] }, [])
track_in (some (proven e)) g i = (g, (i, completing (err e)) ∷ [])
track_in none g i = (g, signal g i)

unfoldable pub track : (ℕ → Bool) → ReleaseInterruptState → ℕ → Section
track alive g i = track_in g.cleanup_projection (tracked g alive i) i

abbrev retained : ReleaseInterruptState → (ℕ → Bool) → ReleaseInterruptState
retained g alive = record g { records = retain alive g.records }

abbrev first_projection : Option ReleaseCleanupProjection → EasyConError → ReleaseCleanupProjection
first_projection none e = proven e
first_projection (some p) e = p

abbrev fail_in : ReleaseCleanupProjection → (ℕ → Bool) → ReleaseInterruptState → Section
fail_in ownership_lost alive g = (g, [])
fail_in (proven e) alive g =
    let g' = record (retained g alive) { cleanup_projection = some (proven e) } in
    (g', chores_for (completing (err e)) g'.records)

unfoldable pub record_cleanup_failure : (ℕ → Bool) → ReleaseInterruptState → EasyConError → Section
record_cleanup_failure alive g e = fail_in (first_projection g.cleanup_projection e) alive g

abbrev lose : ReleaseInterruptState → (ℕ → Bool) → ReleaseInterruptState
lose g alive =
    let live = retain alive g.records in
    record g {
      records = live;
      retained_ownership_loss_records = g.retained_ownership_loss_records ++ live;
      stream_settled = false;
      cleanup_projection = some ownership_lost;
    }

abbrev lose_in :
    Option ReleaseCleanupProjection → (ℕ → Bool) → ReleaseInterruptState → ReleaseInterruptState
lose_in (some (proven e)) alive g = g
lose_in _ alive g = lose g alive

unfoldable pub record_ownership_loss : (ℕ → Bool) → ReleaseInterruptState → ReleaseInterruptState
record_ownership_loss alive g = lose_in g.cleanup_projection alive g

unfoldable pub request_close_interrupts : (ℕ → Bool) → ReleaseInterruptState → Section
request_close_interrupts alive g =
    let g' = record (retained g alive) { close_requested = true } in
    (g', chores_for interrupting g'.records)

abbrev settle_in : Option ReleaseCleanupProjection → (ℕ → Bool) → ReleaseInterruptState → Section
settle_in (some ownership_lost) alive g = (record g { close_requested = true }, [])
settle_in _ alive g =
    let g' = record (retained g alive) { close_requested = true; stream_settled = true } in
    (g', chores_for (completing stream_settled_outcome) g'.records)

unfoldable pub settle_stream_after_close : (ℕ → Bool) → ReleaseInterruptState → Section
settle_stream_after_close alive g = settle_in g.cleanup_projection alive g
