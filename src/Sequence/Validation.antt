-- ===== src/Sequence/Validation.antt =====
-- sequence.rs: which lists of steps become sequences.
use easycon_sdk.Common.{
  ◌≤◌, ◌≡◌, ◌⊎◌, inl, inr, true, false, List, [], ◌∷◌, String, arith, length, All, Bool-cases, ltb,
  ◌==◌,
}
use easycon_sdk.Model.Error.{ok, err, validation_error}
use easycon_sdk.Sequence.{
  SequenceStep, max_sequence_steps, max_sequence_duration_ns, goes_back, last_too_late,
  new_sequence,
}

-- Offsets do not fall.
abbrev pub IsMonotone : List SequenceStep → Type 0
IsMonotone [] = Unit {0}
IsMonotone (s ∷ []) = Unit {0}
IsMonotone (s ∷ t ∷ rest) = (s.offset_ns ≤ t.offset_ns) × IsMonotone (t ∷ rest)

abbrev pub InTime : SequenceStep → Type 0
InTime s = s.offset_ns ≤ max_sequence_duration_ns

pub record IsSequence (steps : List SequenceStep) : Type 0 where
  pub some_step : 1 ≤ length steps
  pub few_steps : length steps ≤ max_sequence_steps
  pub monotone : IsMonotone steps
  pub in_time : All InTime steps

goes_back-false : (steps : List SequenceStep) → goes_back steps ≡ false → IsMonotone steps
unfolding goes_back
goes_back-false [] h = tt
goes_back-false (s ∷ []) h = tt
goes_back-false (s ∷ t ∷ rest) h = (ground arith, goes_back-false (t ∷ rest) (ground arith))

goes_back-true : (steps : List SequenceStep) → goes_back steps ≡ true → ¬ IsMonotone steps
unfolding goes_back
goes_back-true [] h m = cc
goes_back-true (s ∷ []) h m = cc
goes_back-true (s ∷ t ∷ rest) h m = elim (Bool-cases (goes_back (t ∷ rest))) [
  | inl e ↦ goes_back-true (t ∷ rest) e m.1
  | inr e ↦ ground arith
]

late-false :
    (steps : List SequenceStep) → IsMonotone steps → last_too_late steps ≡ false → All InTime steps
unfolding last_too_late
late-false [] m h = tt
late-false (s ∷ []) m h = (ground arith, tt)
late-false (s ∷ t ∷ rest) m h = let later = late-false (t ∷ rest) m.1 h in (omega arith, later)

late-true : (steps : List SequenceStep) → last_too_late steps ≡ true → ¬ All InTime steps
unfolding last_too_late
late-true [] h a = cc
late-true (s ∷ []) h a = ground arith
late-true (s ∷ t ∷ rest) h a = late-true (t ∷ rest) h a.1

-- Exactly the sequences are accepted, with their steps as given; any other list is refused with an
-- invalid-argument error of the validation domain.
pub new_sequence_complete :
    (steps : List SequenceStep)
    → (IsSequence steps × (new_sequence steps ≡ ok steps))
      ⊎ ((m : String) × (¬ IsSequence steps) × (new_sequence steps ≡ err (validation_error m)))
unfolding new_sequence
new_sequence_complete steps = elim (Bool-cases (length steps == 0)) [
  | inl e ↦
      inr
        ("precise sequence must contain at least one step", λ v. ground (arith, v.some_step), rw e)
  | inr some_step ↦ elim (Bool-cases (ltb max_sequence_steps (length steps))) [
    | inl e ↦ inr (
      "precise sequence exceeds the step limit",
      λ v. ground (arith, v.few_steps),
      rw (some_step, e),
    )
    | inr few ↦ elim (Bool-cases (goes_back steps)) [
      | inl e ↦ inr (
        "precise sequence offsets must be monotonically non-decreasing",
        λ v. goes_back-true steps e v.monotone,
        rw (some_step, few, e),
      )
      | inr sorted ↦ elim (Bool-cases (last_too_late steps)) [
        | inl e ↦ inr (
          "precise sequence exceeds the duration limit",
          λ v. late-true steps e v.in_time,
          rw (some_step, few, sorted, e),
        )
        | inr timely ↦
            let m = goes_back-false steps sorted in
            inl (
              record {
                some_step = ground arith;
                few_steps = ground arith;
                monotone = m;
                in_time = late-false steps m timely;
              },
              rw (some_step, few, sorted, timely),
            )
      ]
    ]
  ]
]
