-- ===== src/Sequence/Plan.antt =====
-- session.rs, `schedule_sequence`: the reports that a sequence becomes.
use easycon_sdk.Common.{
  ℕ, ◌+◌, ◌≡◌, true, false, List, [], ◌∷◌, Option, some, map, ◌==◌, saturating_add,
}
use easycon_sdk.Report.{SwitchReport}
use easycon_sdk.Report.Actions.{ControllerAction, apply_all}
use easycon_sdk.Sequence.{SequenceStep, Group, PlannedReport, due_after, earliest_due}
use easycon_sdk.Sequence.Groups.{distinct}

-- A report is due at its target, or as soon as the one in front of it allows.
abbrev pub Paced : ℕ → Option ℕ → List PlannedReport → Type 0
Paced interval previous [] = Unit {0}
Paced interval previous (p ∷ ps) =
    (p.due_ns ≡ due_after previous p.target_ns)
    × Paced interval (some (saturating_add p.due_ns interval)) ps

abbrev pub last_report : SwitchReport → List PlannedReport → SwitchReport
last_report s [] = s
last_report s (p ∷ ps) = last_report p.report ps

-- The last report is marked as the final one, and no other.
abbrev pub EndsFinal : List PlannedReport → Type 0
EndsFinal [] = Unit {0}
EndsFinal (p ∷ []) = p.final_report ≡ true
EndsFinal (p ∷ q ∷ ps) = (p.final_report ≡ false) × EndsFinal (q ∷ ps)

abbrev actions : List SequenceStep → List ControllerAction
actions = map (λ s. s.action)

module _ (origin interval n : ℕ) where
  -- The first report of a plan.
  abbrev first_planned : ℕ → SwitchReport → Option ℕ → Group → PlannedReport
  first_planned i s previous (first, others) = record {
    target_ns = origin + first.offset_ns;
    due_ns = due_after previous (origin + first.offset_ns);
    report = apply_all (actions (first ∷ others)) s;
    final_report = i + 1 == n;
  }

-- What the plan of a sequence is: reports at the distinct offsets, each due at its target or as soon
-- as the interval behind the one before allows, the last one with all actions applied and alone
-- marked as final.
pub record IsPlan (origin interval : ℕ) (last : Option ℕ) (desired : SwitchReport)
    (steps : List SequenceStep) (ps : List PlannedReport) : Type 0 where
  pub targets : map (λ p. p.target_ns) ps ≡ distinct (map (λ s. origin + s.offset_ns) steps)
  pub paced : Paced interval (earliest_due last interval) ps
  pub complete : last_report desired ps ≡ apply_all (actions steps) desired
  pub ends_final : EndsFinal ps
