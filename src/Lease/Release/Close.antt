-- ===== src/Lease/Release/Close.antt =====
-- session.rs, `ReleaseRecord`: a close and a release agree on which of them came first.
use easycon_sdk.Common.{
  ℕ, ◌+◌, ◌≤◌, ◌≡◌, Bool, true, false, ◌||◌, Option, none, some, List, [], ◌∷◌, arith,
}
use easycon_sdk.Model.Error.{Result}
use easycon_sdk.Lease.Release.{
  ReleaseOutcome, ReleasePhase, undispatched, outstanding, committed, ReleaseRecord, new_release,
  begin_neutral, reserve_full_accepted, Interrupt, request_close_interrupt, acquired,
  complete_release, poll_release,
}

-- The record; whether some close was told that it consumes the release; how often the neutral was
-- interrupted; and the outcomes that polls returned.
pub record Story : Type 0 where
  pub release : ReleaseRecord
  pub told : Bool
  pub interruptions : ℕ
  pub seen : List (Result ReleaseOutcome)

pub data Call : Type 0 where
  gate close poll : Call
  complete : Result ReleaseOutcome → Call

abbrev closed : Story → Interrupt → Story
closed s i = record s {
  release = i.release;
  told = i.close_consumed || s.told;
  interruptions = (elim i.interrupts [ true ↦ 1 | false ↦ 0 ]) + s.interruptions;
}

abbrev polled : Story → ReleaseRecord × Option (Result ReleaseOutcome) → Story
polled s (r, none) = record s { release = r }
polled s (r, some outcome) = record s { release = r; seen = outcome ∷ s.seen }

-- A second dispatch panics and leaves the record as it is.
abbrev begun : Story → Option (ReleaseRecord × Bool) → Story
begun s none = s
begun s (some (r, owned)) = record s { release = r }

-- The lane dispatches the neutral once, at any point of the story: before the calls of `run`, or between.
unfoldable pub dispatch : Story → Story
unfolding begin_neutral
dispatch s = begun s (begin_neutral s.release)

unfoldable pub step : Call → Story → Story
unfolding reserve_full_accepted request_close_interrupt complete_release poll_release
step gate s = record s { release = (reserve_full_accepted s.release).0 }
step close s = closed s (request_close_interrupt s.release)
step poll s = polled s (poll_release s.release)
step (complete outcome) s = record s { release = (complete_release s.release outcome).0 }

unfoldable pub run : List Call → Story → Story
run [] s = s
run (c ∷ cs) s = run cs (step c s)

abbrev pub told_nothing : Story
told_nothing = record { release = new_release; told = false; interruptions = 0; seen = [] }

abbrev Interrupted : ReleasePhase → ℕ → Type 0
Interrupted (undispatched b) n = n ≡ 0
Interrupted (outstanding false) n = n ≡ 0
Interrupted _ n = n ≤ 1

-- The polls all returned the outcome that is committed.
abbrev Same : Result ReleaseOutcome → List (Result ReleaseOutcome) → Type 0
Same outcome [] = Unit {0}
Same outcome (o ∷ os) = (o ≡ outcome) × Same outcome os

abbrev Seen : ReleasePhase → List (Result ReleaseOutcome) → Type 0
Seen (committed b outcome) os = Same outcome os
Seen _ [] = Unit {0}
Seen _ (o ∷ os) = ⊥

pub record IsAgreed (s : Story) : Type 0 where
  pub agreed : acquired s.release.phase ≡ s.told
  pub interrupted : Interrupted s.release.phase s.interruptions
  pub seen_same : Seen s.release.phase s.seen

dispatch-IsAgreed : (s : Story) → IsAgreed s → IsAgreed (dispatch s)
unfolding dispatch
dispatch-IsAgreed s v = ground arith

step-IsAgreed : (c : Call) (s : Story) → IsAgreed s → IsAgreed (step c s)
unfolding step
step-IsAgreed gate s v = ground arith
step-IsAgreed close s v = ground arith
step-IsAgreed poll s v = ground arith
step-IsAgreed (complete outcome) s v = ground arith

run-IsAgreed : (cs : List Call) (s : Story) → IsAgreed s → IsAgreed (run cs s)
unfolding run
run-IsAgreed [] s v = v
run-IsAgreed (c ∷ cs) s v = run-IsAgreed cs (step c s) (step-IsAgreed c s v)

-- Any calls, the dispatch of the neutral, and any calls again: the record says that close acquired it
-- exactly if some close was told so, the neutral is interrupted at most once, and all polls that are
-- ready return the one outcome that was committed first.
pub run-dispatch :
    (before after : List Call) → IsAgreed (run after (dispatch (run before told_nothing)))
run-dispatch before after =
    run-IsAgreed after _ (dispatch-IsAgreed _ (run-IsAgreed before told_nothing (ground arith)))
