-- ===== src/Lease/Registry/Tests.antt =====
-- session.rs: the registry of releases at concrete calls.
use easycon_sdk.Common.{ℕ, Bool, true, List, [], ◌∷◌}
use easycon_sdk.Lease.Release.{new_release}
use easycon_sdk.Lease.Registry.{Store}
use easycon_sdk.Lease.Registry.Threads.{
  Call, tracks, begins, interrupts, settles, works, run, unused_registry, settled_world,
}
use easycon_sdk.Lease.Registry.Settled.{IsCovered, IsSettled, run-IsSettled}

abbrev everyone : ℕ → Bool
everyone i = true

abbrev unused : Store
unused i = new_release

-- One release is dispatched, close settles the stream, a thread completes the release before another interrupts it, and
-- another release is tracked late.
abbrev closing : List ((ℕ → Bool) × Call)
closing =
    (everyone, tracks 1)
    ∷ (everyone, begins 1)
    ∷ (everyone, interrupts)
    ∷ (everyone, settles)
    ∷ (everyone, works 1)
    ∷ (everyone, tracks 2)
    ∷ []

run-IsSettled_example :
    let w = run closing (unused_registry unused) in IsCovered w × IsSettled (settled_world w)
run-IsSettled_example = run-IsSettled closing unused
