-- ===== src/Sequence/Groups.antt =====
-- session.rs, `schedule_sequence`: the groups of steps at one offset.
use easycon_sdk.Common.Tests.{if◌then◌else◌}
use easycon_sdk.Common.{
  ℕ, ◌+◌, ◌^◌, ◌<◌, ◌≡◌, refl, ap, ◌∙◌, inl, inr, List, [], ◌∷◌, ◌++◌, arith, All, Bool-cases, map,
  ◌==◌,
}
use easycon_sdk.Sequence.{
  SequenceStep, max_sequence_duration_ns, Group, join_group, chunk_by_offset,
}
use easycon_sdk.Sequence.Validation.{InTime}

-- The steps of the groups, in order.
abbrev pub ungroup : List Group → List SequenceStep
ungroup [] = []
ungroup ((s, others) ∷ groups) = s ∷ (others ++ ungroup groups)

ungroup-join_group :
    (s : SequenceStep) (gs : List Group) → ungroup (join_group s gs) ≡ s ∷ ungroup gs
ungroup-join_group s [] = refl
ungroup-join_group s ((t, others) ∷ gs) = refl

pub ungroup-chunk_by_offset : (steps : List SequenceStep) → ungroup (chunk_by_offset steps) ≡ steps
unfolding chunk_by_offset
ungroup-chunk_by_offset [] = refl
ungroup-chunk_by_offset (s ∷ []) = refl
ungroup-chunk_by_offset (s ∷ t ∷ rest) = elim (Bool-cases (s.offset_ns == t.offset_ns)) [
  | inl e ↦ rw e (
      ungroup-join_group s (chunk_by_offset (t ∷ rest))
      ∙ ap (◌∷◌ s) (ungroup-chunk_by_offset (t ∷ rest)))
  | inr e ↦ rw e (ap (◌∷◌ s) (ungroup-chunk_by_offset (t ∷ rest)))
]

-- A list without the repeats that stand next to each other.
abbrev pub distinct : List ℕ → List ℕ
distinct [] = []
distinct (a ∷ []) = a ∷ []
distinct (a ∷ b ∷ rest) = let others = distinct (b ∷ rest) in if a == b then others else a ∷ others

chunk_head :
    (t : SequenceStep) (rest : List SequenceStep)
    → (others : List SequenceStep) × (gs : List Group) × (chunk_by_offset (t ∷ rest)
        ≡ (t, others) ∷ gs)
unfolding chunk_by_offset
chunk_head t [] = ([], [], refl)
chunk_head t (u ∷ rest) = elim (Bool-cases (t.offset_ns == u.offset_ns)) [
  | inl e ↦ let (others, gs, shape) = chunk_head u rest in (u ∷ others, gs, rw (e, shape))
  | inr e ↦ ([], chunk_by_offset (u ∷ rest), rw e)
]

pub group_offsets :
    (origin : ℕ) (steps : List SequenceStep)
    → map (λ (g : Group). origin + g.0.offset_ns) (chunk_by_offset steps)
      ≡ distinct (map (λ s. origin + s.offset_ns) steps)
unfolding chunk_by_offset
group_offsets origin [] = refl
group_offsets origin (s ∷ []) = refl
group_offsets origin (s ∷ t ∷ rest) =
    let (others, gs, shape) = chunk_head t rest in
    let later = group_offsets origin (t ∷ rest) in
    let there : map (λ (g : Group). origin + g.0.offset_ns) ((t, others) ∷ gs)
        ≡ distinct (map (λ s. origin + s.offset_ns) (t ∷ rest)) =
      rw shape at later in
    elim (Bool-cases (s.offset_ns == t.offset_ns)) [
      | inl e ↦ rw (e, shape) (ground (arith, there))
      | inr e ↦ rw (e, shape) (ground (arith, there))
    ]

pub groups-InTime :
    (origin : ℕ) (steps : List SequenceStep)
    → origin + max_sequence_duration_ns < 2 ^ 64
    → All InTime steps
    → All (λ (g : Group). origin + g.0.offset_ns < 2 ^ 64) (chunk_by_offset steps)
unfolding chunk_by_offset
groups-InTime origin [] h v = tt
groups-InTime origin (s ∷ []) h v = (omega arith, tt)
groups-InTime origin (s ∷ t ∷ rest) h v =
    let (others, gs, shape) = chunk_head t rest in
    let later = groups-InTime origin (t ∷ rest) h v.1 in
    let there : All (λ (g : Group). origin + g.0.offset_ns < 2 ^ 64) ((t, others) ∷ gs) =
      rw shape at later in
    elim (Bool-cases (s.offset_ns == t.offset_ns)) [
      | inl e ↦ rw (e, shape) (omega arith, there.1)
      | inr e ↦ rw (e, shape) (omega arith, there)
    ]
