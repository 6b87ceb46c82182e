-- ===== src/Lease/Registry/Threads.antt =====
-- session.rs, `ReleaseInterruptRegistry`: its sections and the loops behind them, one chore at a time, in any order.
use easycon_sdk.Common.{get_elem?, ℕ, Bool, Option, none, some, List, [], ◌∷◌, ◌++◌}
use easycon_sdk.Model.Error.{EasyConError, Result}
use easycon_sdk.Lease.Release.{ReleaseOutcome, ReleaseRecord, reserve_full_accepted, begin_neutral}
use easycon_sdk.Lease.Registry.{
  ReleaseInterruptState, Store, put, complete_at, Chore, do_chore, Section, track,
  record_cleanup_failure, record_ownership_loss, request_close_interrupts,
  settle_stream_after_close, new_registry,
}
use easycon_sdk.Lease.Registry.Committed.{without, all_done}

-- The registry, the releases, and the chores that threads have taken and not yet done.
pub record World : Type 0 where
  pub registry : ReleaseInterruptState
  pub store : Store
  pub owed : List (ℕ × Chore)

-- The sections of the registry, each with the records that are alive then, a chore that is done, and the lane's own
-- methods on one release.
pub data Call : Type 0 where
  tracks : ℕ → Call
  fails : EasyConError → Call
  loses interrupts settles : Call
  works : ℕ → Call
  completes : ℕ → Result ReleaseOutcome → Call
  gates begins : ℕ → Call

-- A second dispatch panics and leaves the record as it is.
abbrev pub begun : ReleaseRecord → Option (ReleaseRecord × Bool) → ReleaseRecord
begun r none = r
begun r (some (r', owned)) = r'

abbrev pub after_section : World → Section → World
after_section w (g, chores) = record w { registry = g; owed = w.owed ++ chores }

abbrev pub after_work : World → ℕ → Option (ℕ × Chore) → World
after_work w k none = w
after_work w k (some chore) = record w {
  store = (do_chore chore w.store).0;
  owed = without k w.owed;
}

unfoldable pub step : (ℕ → Bool) → Call → World → World
unfolding reserve_full_accepted begin_neutral do_chore
step alive (tracks i) w = after_section w (track alive w.registry i)
step alive (fails e) w = after_section w (record_cleanup_failure alive w.registry e)
step alive loses w = record w { registry = record_ownership_loss alive w.registry }
step alive interrupts w = after_section w (request_close_interrupts alive w.registry)
step alive settles w = after_section w (settle_stream_after_close alive w.registry)
step alive (works k) w = after_work w k (get_elem? w.owed k)
step alive (completes i outcome) w = record w { store = complete_at outcome i w.store }
step alive (gates i) w = record w { store = put w.store i (reserve_full_accepted (w.store i)).0 }
step alive (begins i) w = record w {
  store = put w.store i (begun (w.store i) (begin_neutral (w.store i)));
}

unfoldable pub run : List ((ℕ → Bool) × Call) → World → World
run [] w = w
run ((alive, c) ∷ cs) w = run cs (step alive c w)

abbrev pub unused_registry : Store → World
unused_registry store = record { registry = new_registry; store = store; owed = [] }

-- The threads do what they owe.
abbrev pub settled_world : World → World
settled_world w = record w { store = all_done w.owed w.store; owed = [] }
