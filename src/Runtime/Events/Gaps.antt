-- ===== src/Runtime/Events/Gaps.antt =====
-- event.rs: what dropping the first passing event, and a gap at the end, keep.
use easycon_sdk.Common.{
  ℕ, suc, ◌+◌, ◌^◌, ◌≤◌, ◌<◌, ◌≡◌, refl, ap, ◌⊎◌, inl, inr, Bool, true, List, [], ◌∷◌, ◌++◌, arith,
  Bool-cases,
}
use easycon_sdk.Runtime.Events.{Event, QueueEntry, event, gap, PendingGap, gap_of, merge}
use easycon_sdk.Runtime.Events.Shape.{glue, append_gap, drop_first, has}

-- How many events are queued, and how many the gaps count.
abbrev pub events : List QueueEntry → ℕ
events [] = 0
events (event e ∷ xs) = suc (events xs)
events (gap g ∷ xs) = events xs

abbrev pub dropped : List QueueEntry → ℕ
dropped [] = 0
dropped (event e ∷ xs) = dropped xs
dropped (gap g ∷ xs) = g.count + dropped xs

events-glue : (g : PendingGap) (xs : List QueueEntry) → events (glue g xs) ≡ events xs
events-glue g [] = refl
events-glue g (event e ∷ xs) = refl
events-glue g (gap h ∷ xs) = refl

dropped-glue :
    (g : PendingGap) (xs : List QueueEntry)
    → g.count + dropped xs < 2 ^ 64
    → dropped (glue g xs) ≡ g.count + dropped xs
dropped-glue g [] h = refl
dropped-glue g (event e ∷ xs) h = refl
dropped-glue g (gap k ∷ xs) h = omega arith

pub events-drop_first :
    (p : Event → Bool) (xs : List QueueEntry)
    → has p xs ≡ true
    → events (drop_first p xs) + 1 ≡ events xs
events-drop_first p [] h = cc
events-drop_first p (event e ∷ xs) h =
    ground (arith, events-glue (gap_of e) xs, events-drop_first p xs)
events-drop_first p (gap g ∷ []) h = cc
events-drop_first p (gap g ∷ gap k ∷ xs) h = events-drop_first p (gap k ∷ xs) h
events-drop_first p (gap g ∷ event e ∷ xs) h =
    ground (arith, events-glue (merge (gap_of e) g) xs, events-drop_first p xs)

pub dropped-drop_first :
    (p : Event → Bool) (xs : List QueueEntry)
    → has p xs ≡ true
    → dropped xs + 1 < 2 ^ 64
    → dropped (drop_first p xs) ≡ dropped xs + 1
dropped-drop_first p [] h small = cc
dropped-drop_first p (event e ∷ xs) h small =
    ground (arith, dropped-glue (gap_of e) xs, dropped-drop_first p xs)
dropped-drop_first p (gap g ∷ []) h small = cc
dropped-drop_first p (gap g ∷ gap k ∷ xs) h small =
    omega (arith, dropped-drop_first p (gap k ∷ xs) h (omega arith))
dropped-drop_first p (gap g ∷ event e ∷ xs) h small = elim (Bool-cases (p e)) [
  | inl passes ↦ rw passes (omega (arith, dropped-glue (merge (gap_of e) g) xs (omega arith)))
  | inr fails ↦ rw fails (omega (arith, dropped-drop_first p xs (rw fails at h) (omega arith)))
]

pub events-append_gap :
    (xs : List QueueEntry) (g : PendingGap) → events (append_gap xs g) ≡ events xs
events-append_gap [] g = refl
events-append_gap (gap h ∷ []) g = refl
events-append_gap (event e ∷ xs) g = ap suc (events-append_gap xs g)
events-append_gap (gap h ∷ y ∷ xs) g = events-append_gap (y ∷ xs) g

pub dropped-append_gap :
    (xs : List QueueEntry) (g : PendingGap)
    → dropped xs + g.count < 2 ^ 64
    → dropped (append_gap xs g) ≡ dropped xs + g.count
dropped-append_gap [] g h = omega arith
dropped-append_gap (gap k ∷ []) g h = omega arith
dropped-append_gap (event e ∷ xs) g h = dropped-append_gap xs g h
dropped-append_gap (gap k ∷ y ∷ xs) g h = omega (arith, dropped-append_gap (y ∷ xs) g (omega arith))

-- No two gaps stand next to each other.
abbrev pub Spaced : List QueueEntry → Type 0
Spaced [] = Unit {0}
Spaced (event e ∷ xs) = Spaced xs
Spaced (gap g ∷ []) = Unit {0}
Spaced (gap g ∷ gap k ∷ xs) = ⊥
Spaced (gap g ∷ event e ∷ xs) = Spaced xs

-- The first and the last sequence number that an entry stands for.
abbrev pub low : QueueEntry → ℕ
low (event e) = e.sequence
low (gap g) = g.first

abbrev pub high : QueueEntry → ℕ
high (event e) = e.sequence
high (gap g) = g.last

-- The entries stand for rising intervals from `a` on and below `b`.
abbrev pub Span : ℕ → ℕ → List QueueEntry → Type 0
Span a b [] = a ≤ b
Span a b (x ∷ xs) = (a ≤ low x) × (low x ≤ high x) × Span (suc (high x)) b xs

abbrev pub Covers : List QueueEntry → ℕ → Type 0
Covers [] n = ⊥
Covers (x ∷ xs) n = ((low x ≤ n) × (n ≤ high x)) ⊎ Covers xs n

Spaced-glue : (g : PendingGap) (xs : List QueueEntry) → Spaced xs → Spaced (glue g xs)
Spaced-glue g [] v = tt
Spaced-glue g (event e ∷ xs) v = v
Spaced-glue g (gap h ∷ []) v = tt
Spaced-glue g (gap h ∷ event e ∷ xs) v = v
Spaced-glue g (gap h ∷ gap k ∷ xs) v = elim v [ ]

pub Spaced-drop_first :
    (p : Event → Bool) (xs : List QueueEntry) → Spaced xs → Spaced (drop_first p xs)
Spaced-drop_first p [] v = tt
Spaced-drop_first p (event e ∷ xs) v =
    ground (arith, Spaced-glue (gap_of e) xs v, Spaced-drop_first p xs v)
Spaced-drop_first p (gap g ∷ []) v = tt
Spaced-drop_first p (gap g ∷ gap k ∷ xs) v = elim v [ ]
Spaced-drop_first p (gap g ∷ event e ∷ xs) v =
    ground (arith, Spaced-glue (merge (gap_of e) g) xs v, Spaced-drop_first p xs v)

pub Spaced-append_gap :
    (xs : List QueueEntry) (g : PendingGap) → Spaced xs → Spaced (append_gap xs g)
Spaced-append_gap [] g v = tt
Spaced-append_gap (gap h ∷ []) g v = tt
Spaced-append_gap (event e ∷ xs) g v = Spaced-append_gap xs g v
Spaced-append_gap (gap h ∷ gap k ∷ xs) g v = elim v [ ]
Spaced-append_gap (gap h ∷ event e ∷ xs) g v = Spaced-append_gap xs g v

pub Spaced-push : (xs : List QueueEntry) (e : Event) → Spaced xs → Spaced (xs ++ event e ∷ [])
Spaced-push [] e v = tt
Spaced-push (event f ∷ xs) e v = Spaced-push xs e v
Spaced-push (gap g ∷ []) e v = tt
Spaced-push (gap g ∷ gap k ∷ xs) e v = elim v [ ]
Spaced-push (gap g ∷ event f ∷ xs) e v = Spaced-push xs e v
