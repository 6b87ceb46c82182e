-- ===== src/Runtime/Events/Shape.antt =====
-- event.rs: the work by index of `record_gap_at` and `drop_event_at`, as recursions on the entries.
use easycon_sdk.Common.{
  ℕ, zero, suc, ◌-◌, ◌≡◌, refl, ap, ◌∙◌, ◌⊎◌, inl, inr, Bool, true, false, ◌||◌, Option, none, some,
  List, [], ◌∷◌, arith, if◌then◌else◌, Bool-cases, length,
}
use easycon_sdk.Runtime.Events.{
  Event, QueueEntry, event, gap, PendingGap, gap_of, merge, remove_at, merge_next, record_gap,
  event_at, position, shift_index, QueueState, drop_event_at,
}

-- A gap in front of the entries, merged with the first if that is a gap.
abbrev pub glue : PendingGap → List QueueEntry → List QueueEntry
glue g (gap h ∷ xs) = gap (merge g h) ∷ xs
glue g xs = gap g ∷ xs

-- A gap behind the entries, merged with the last if that is a gap.
abbrev pub append_gap : List QueueEntry → PendingGap → List QueueEntry
append_gap [] g = gap g ∷ []
append_gap (gap h ∷ []) g = gap (merge g h) ∷ []
append_gap (x ∷ xs) g = x ∷ append_gap xs g

-- The first event that passes the test becomes a gap, merged with its neighbours.
abbrev pub drop_first : (Event → Bool) → List QueueEntry → List QueueEntry
drop_first p [] = []
drop_first p (event e ∷ xs) = if p e then glue (gap_of e) xs else event e ∷ drop_first p xs
drop_first p (gap h ∷ []) = gap h ∷ []
drop_first p (gap h ∷ gap k ∷ xs) = gap h ∷ drop_first p (gap k ∷ xs)
drop_first p (gap h ∷ event e ∷ xs) =
    if p e then glue (merge (gap_of e) h) xs else gap h ∷ event e ∷ drop_first p xs

merge_next_shift :
    (x : QueueEntry) (xs : List QueueEntry) (i : ℕ) (g : PendingGap)
    → merge_next (x ∷ xs) (suc i) g ≡ x ∷ merge_next xs i g
unfolding merge_next
merge_next_shift x xs i g = ground arith

record_gap_shift :
    (x : QueueEntry) (xs : List QueueEntry) (i : ℕ) (g : PendingGap)
    → record_gap (x ∷ xs) (suc (suc i)) g ≡ x ∷ record_gap xs (suc i) g
unfolding record_gap
record_gap_shift x xs i g = ground arith

merge_next_zero : (xs : List QueueEntry) (g : PendingGap) → merge_next xs 0 g ≡ glue g xs
unfolding merge_next
merge_next_zero [] g = refl
merge_next_zero (event e ∷ xs) g = refl
merge_next_zero (gap h ∷ xs) g = refl

-- `record_gap_at` behind the last entry.
pub record_gap_end :
    (xs : List QueueEntry) (g : PendingGap) → record_gap xs (length xs) g ≡ append_gap xs g
unfolding record_gap
record_gap_end [] g = refl
record_gap_end (event e ∷ []) g = refl
record_gap_end (gap h ∷ []) g = refl
record_gap_end (event e ∷ y ∷ xs) g =
    record_gap_shift (event e) (y ∷ xs) (length xs) g
    ∙ ap (◌∷◌ (event e)) (record_gap_end (y ∷ xs) g)
record_gap_end (gap h ∷ y ∷ xs) g =
    record_gap_shift (gap h) (y ∷ xs) (length xs) g ∙ ap (◌∷◌ (gap h)) (record_gap_end (y ∷ xs) g)

record_gap_event :
    (e : Event) (xs : List QueueEntry) (i : ℕ) (g : PendingGap)
    → record_gap (event e ∷ xs) (suc i) g ≡ event e ∷ record_gap xs i g
unfolding record_gap
record_gap_event e xs zero g = merge_next_shift (event e) xs 0 g
record_gap_event e xs (suc i) g = record_gap_shift (event e) xs i g

-- What dropping at an index does, where the index is the position of the first passing event.
abbrev Drops : (Event → Bool) → List QueueEntry → ℕ → Type 0
Drops p xs i =
    (d : Event) × (event_at i xs ≡ some d)
    × (record_gap (remove_at i xs) i (gap_of d) ≡ drop_first p xs)

shift-eq-some :
    (o : Option ℕ) {i : ℕ} → shift_index o ≡ some i → (j : ℕ) × (o ≡ some j) × (i ≡ suc j)
shift-eq-some none e = cc
shift-eq-some (some j) e = (j, refl, ground arith)

position-Drops :
    (p : Event → Bool) (xs : List QueueEntry) (i : ℕ) → position p xs ≡ some i → Drops p xs i
unfolding position event_at remove_at
position-Drops p [] i h = cc
position-Drops p (event e ∷ xs) i h = elim (Bool-cases (p e)) [
  | inl passes ↦
      let first : i ≡ 0 = cc (rw (passes, position) at h) in
      rw (first, passes) (e, refl, unfold record_gap in merge_next_zero xs (gap_of e))
  | inr fails ↦
      let (j, there, next) = shift-eq-some (position p xs) (rw (fails, position) at h) in
      let (d, found, shape) = position-Drops p xs j there in
      rw (next, fails)
        (d, found, record_gap_event e (remove_at j xs) j (gap_of d) ∙ ap (◌∷◌ (event e)) shape)
]
position-Drops p (gap h ∷ []) i e = cc
position-Drops p (gap h ∷ gap k ∷ xs) i e =
    let (j, there, next) = shift-eq-some (position p (gap k ∷ xs)) e in
    let (m, beyond, after) = shift-eq-some (position p xs) there in
    let (d, found, shape) = position-Drops p (gap k ∷ xs) j there in
    let rest = remove_at j (gap k ∷ xs) in
    let g = gap_of d in
    let step : record_gap (gap h ∷ rest) (suc j) g ≡ gap h ∷ record_gap rest j g =
      rw after (record_gap_shift (gap h) (remove_at (suc m) (gap k ∷ xs)) m g) in
    rw next (d, found, step ∙ ap (◌∷◌ (gap h)) shape)
position-Drops p (gap h ∷ event f ∷ xs) i e = elim (Bool-cases (p f)) [
  | inl passes ↦
      let second : i ≡ 1 = cc (rw (passes, position) at e) in
      rw (second, passes) (f, refl, unfold record_gap in merge_next_zero xs (merge (gap_of f) h))
  | inr fails ↦
      let (j, there, next) = shift-eq-some (position p (event f ∷ xs)) e in
      let (m, beyond, after) = shift-eq-some (position p xs) (rw (fails, position) at there) in
      let (d, found, shape) = position-Drops p xs m beyond in
      let g = gap_of d in
      let rest = remove_at m xs in
      rw (next, after, fails)
        (
          d,
          found,
          record_gap_shift (gap h) (event f ∷ rest) m g
              ∙ ap (λ (l : List QueueEntry). gap h ∷ l) (record_gap_event f rest m g)
              ∙ ap (λ (l : List QueueEntry). gap h ∷ event f ∷ l) shape,
        )
]

-- `drop_event_at` at the position of the first passing event.
pub drop_event_at-position :
    (p : Event → Bool) (s : QueueState) (i : ℕ)
    → position p s.entries ≡ some i
    → drop_event_at s i
      ≡ some (record s { entries = drop_first p s.entries; event_count = s.event_count - 1 })
unfolding drop_event_at
drop_event_at-position p s i h =
    let (d, found, shape) = position-Drops p s.entries i h in rw (found, drop_event_at) (rw shape)

-- Whether some event passes the test.
abbrev pub has : (Event → Bool) → List QueueEntry → Bool
has p [] = false
has p (event e ∷ xs) = p e || has p xs
has p (gap g ∷ xs) = has p xs

pub position-has :
    (p : Event → Bool) (xs : List QueueEntry)
    → ((has p xs ≡ true) × ((i : ℕ) × (position p xs ≡ some i)))
      ⊎ ((has p xs ≡ false) × (position p xs ≡ none))
unfolding position
position-has p [] = inr (refl, refl)
position-has p (event e ∷ xs) = ground (arith, position-has p xs)
position-has p (gap g ∷ xs) = ground (arith, position-has p xs)
