-- ===== src/Sequence.antt =====
-- crates/easycon-controller/src/sequence.rs, and the planning of a sequence in session.rs
-- (`schedule_sequence`). Times are u64 nanoseconds.
pub mod Validation
pub mod Groups
pub mod Plan
mod Tests
use easycon_sdk.Common.{
  ℕ, zero, suc, ◌+◌, ◌≤◌, max, Bool, true, false, ◌||◌, List, [], ◌∷◌, map, Option, none, some, ltb,
  leb, ◌==◌, if◌then◌else◌, length, checked_add, saturating_add,
}
use easycon_sdk.Model.Error.{Result, ok, err, validation_error}
use easycon_sdk.Report.{SwitchReport}
use easycon_sdk.Report.Actions.{ControllerAction, apply_all}

abbrev pub max_sequence_steps : ℕ
max_sequence_steps = 10_000

abbrev pub max_sequence_duration_ns : ℕ
max_sequence_duration_ns = 86_400_000_000_000

pub record SequenceStep : Type 0 where
  pub offset_ns : ℕ
  pub action : ControllerAction

-- `steps.windows(2).any(…)`.
unfoldable pub goes_back : List SequenceStep → Bool
goes_back [] = false
goes_back (s ∷ []) = false
goes_back (s ∷ t ∷ rest) = ltb t.offset_ns s.offset_ns || goes_back (t ∷ rest)

-- `steps.last().is_some_and(…)`.
unfoldable pub last_too_late : List SequenceStep → Bool
last_too_late [] = false
last_too_late (s ∷ []) = ltb max_sequence_duration_ns s.offset_ns
last_too_late (s ∷ t ∷ rest) = last_too_late (t ∷ rest)

-- `PreciseSequence::new`; the sequence is the list of its steps.
unfoldable pub new_sequence : List SequenceStep → Result (List SequenceStep)
new_sequence steps =
    if length steps == 0
    then err (validation_error "precise sequence must contain at least one step")
    else if ltb max_sequence_steps (length steps)
    then err (validation_error "precise sequence exceeds the step limit")
    else if goes_back steps
    then err (validation_error "precise sequence offsets must be monotonically non-decreasing")
    else if last_too_late steps
    then err (validation_error "precise sequence exceeds the duration limit")
    else ok steps

-- A group of steps at one offset: its first step and the others.
abbrev pub Group : Type 0
Group = SequenceStep × List SequenceStep

abbrev pub join_group : SequenceStep → List Group → List Group
join_group s [] = (s, []) ∷ []
join_group s ((first, others) ∷ groups) = (s, first ∷ others) ∷ groups

-- `chunk_by` on equal offsets.
unfoldable pub chunk_by_offset : List SequenceStep → List Group
chunk_by_offset [] = []
chunk_by_offset (s ∷ []) = (s, []) ∷ []
chunk_by_offset (s ∷ t ∷ rest) =
    let groups = chunk_by_offset (t ∷ rest) in
    if s.offset_ns == t.offset_ns then join_group s groups else (s, []) ∷ groups

-- The fields of a `ScheduledReport` that the plan decides.
pub record PlannedReport : Type 0 where
  pub target_ns : ℕ
  pub due_ns : ℕ
  pub report : SwitchReport
  pub final_report : Bool

-- `previous_due.map_or(target_ns, |previous| previous.max(target_ns))`.
abbrev pub due_after : Option ℕ → ℕ → ℕ
due_after none target = target
due_after (some previous) target = max previous target

abbrev planned_steps : SequenceStep → List SequenceStep → List ControllerAction
planned_steps first others = map (λ s. s.action) (first ∷ others)

abbrev pub put_first : PlannedReport → Option (List PlannedReport) → Option (List PlannedReport)
put_first p none = none
put_first p (some ps) = some (p ∷ ps)

-- The loop of `schedule_sequence`; `none` is the overflow of a target, which drops the whole plan.
unfoldable pub plan_groups :
    (origin interval group_count : ℕ)
    → ℕ
    → SwitchReport
    → Option ℕ
    → List Group
    → Option (List PlannedReport)
plan_groups origin interval group_count index planned previous [] = some []
plan_groups origin interval group_count index planned previous ((first, others) ∷ groups) =
    elim (checked_add origin first.offset_ns) [
      | none ↦ none
      | some target ↦
          let planned' = apply_all (planned_steps first others) planned in
          let due = due_after previous target in
          put_first
            (record {
              target_ns = target;
              due_ns = due;
              report = planned';
              final_report = index + 1 == group_count;
            })
            (plan_groups origin interval group_count (index + 1) planned'
              (some (saturating_add due interval)) groups)
    ]

abbrev pub earliest_due : Option ℕ → ℕ → Option ℕ
earliest_due none interval = none
earliest_due (some last) interval = some (saturating_add last interval)

-- `schedule_sequence`: the origin, the interval, the last acceptance, the desired report, the steps.
unfoldable pub schedule_sequence :
    (origin interval : ℕ)
    → Option ℕ
    → SwitchReport
    → List SequenceStep
    → Option (List PlannedReport)
schedule_sequence origin interval last desired steps =
    let groups = chunk_by_offset steps in
    plan_groups origin interval (length groups) 0 desired (earliest_due last interval) groups
