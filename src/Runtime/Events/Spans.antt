-- ===== src/Runtime/Events/Spans.antt =====
-- event.rs: the sequence numbers that the queue still accounts for, in rising order.
use easycon_sdk.Common.{
  ℕ, suc, ◌≤◌, ◌≡◌, ◌⊎◌, inl, inr, Bool, List, [], ◌∷◌, ◌++◌, arith, Bool-cases,
}
use easycon_sdk.Runtime.Events.{Event, QueueEntry, event, gap, PendingGap, gap_of, merge}
use easycon_sdk.Runtime.Events.Shape.{glue, append_gap, drop_first}
use easycon_sdk.Runtime.Events.Gaps.{high, Span, Covers}

Span-widen : {a a' : ℕ} (b : ℕ) (xs : List QueueEntry) → a' ≤ a → Span a b xs → Span a' b xs
Span-widen b [] h v = omega arith
Span-widen b (x ∷ xs) h v = (omega arith, v.1, v.2)

-- A gap over [first, last] in front of entries that start later.
Span-glue :
    (a b : ℕ) (g : PendingGap) (xs : List QueueEntry)
    → a ≤ g.first
    → g.first ≤ g.last
    → Span (suc g.last) b xs
    → Span a b (glue g xs)
Span-glue a b g [] h k v = (h, k, v)
Span-glue a b g (event e ∷ xs) h k v = (h, k, v)
Span-glue a b g (gap l ∷ xs) h k v = (omega arith, omega arith, Span-widen b xs (omega arith) v.2)

pub Span-drop_first :
    (p : Event → Bool) (a b : ℕ) (xs : List QueueEntry) → Span a b xs → Span a b (drop_first p xs)
Span-drop_first p a b [] v = v
Span-drop_first p a b (event e ∷ xs) v = elim (Bool-cases (p e)) [
  | inl passes ↦ rw passes (Span-glue a b (gap_of e) xs v.0 v.1 v.2)
  | inr fails ↦ rw fails (v.0, v.1, Span-drop_first p _ b xs v.2)
]
Span-drop_first p a b (gap g ∷ []) v = v
Span-drop_first p a b (gap g ∷ gap k ∷ xs) v = (v.0, v.1, Span-drop_first p _ b (gap k ∷ xs) v.2)
Span-drop_first p a b (gap g ∷ event e ∷ xs) v = elim (Bool-cases (p e)) [
  | inl passes ↦ rw passes (
      Span-glue a b (merge (gap_of e) g) xs (omega arith) (omega arith)
        (Span-widen b xs (omega arith) v.2.2))
  | inr fails ↦ rw fails (v.0, v.1, (v.2.0, v.2.1, Span-drop_first p _ b xs v.2.2))
]

-- An event that comes later than all entries.
pub Span-push :
    (a b : ℕ) (xs : List QueueEntry) (e : Event)
    → b ≤ e.sequence
    → Span a b xs
    → Span a (suc e.sequence) (xs ++ event e ∷ [])
Span-push a b [] e h v = (omega arith, omega arith, omega arith)
Span-push a b (x ∷ xs) e h v = (v.0, v.1, Span-push (suc (high x)) b xs e h v.2)

pub Span-append_gap :
    (a b : ℕ) (xs : List QueueEntry) (e : Event)
    → b ≤ e.sequence
    → Span a b xs
    → Span a (suc e.sequence) (append_gap xs (gap_of e))
Span-append_gap a b [] e h v = (omega arith, omega arith, omega arith)
Span-append_gap a b (gap k ∷ []) e h v = (omega arith, omega arith, omega arith)
Span-append_gap a b (event f ∷ xs) e h v = (v.0, v.1, Span-append_gap _ b xs e h v.2)
Span-append_gap a b (gap k ∷ y ∷ xs) e h v = (v.0, v.1, Span-append_gap _ b (y ∷ xs) e h v.2)

Covers-glue_left :
    (g : PendingGap) (xs : List QueueEntry) (n : ℕ)
    → g.first ≤ n
    → n ≤ g.last
    → Covers (glue g xs) n
Covers-glue_left g [] n h k = inl (h, k)
Covers-glue_left g (event e ∷ xs) n h k = inl (h, k)
Covers-glue_left g (gap l ∷ xs) n h k = inl (omega arith, omega arith)

Covers-glue_right :
    (g : PendingGap) (xs : List QueueEntry) (n : ℕ) → Covers xs n → Covers (glue g xs) n
Covers-glue_right g [] n c = inr c
Covers-glue_right g (event e ∷ xs) n c = inr c
Covers-glue_right g (gap l ∷ xs) n (inl c) = inl (omega arith, omega arith)
Covers-glue_right g (gap l ∷ xs) n (inr c) = inr c

-- Dropping an event loses no number: its gap accounts for it.
pub Covers-drop_first :
    (p : Event → Bool) (xs : List QueueEntry) (n : ℕ) → Covers xs n → Covers (drop_first p xs) n
Covers-drop_first p [] n c = c
Covers-drop_first p (event e ∷ xs) n c = elim (Bool-cases (p e)) [
  | inl passes ↦ rw passes (elim c [
    | inl here ↦ Covers-glue_left (gap_of e) xs n here.0 here.1
    | inr there ↦ Covers-glue_right (gap_of e) xs n there
  ])
  | inr fails ↦
      rw fails (elim c [ inl here ↦ inl here | inr there ↦ inr (Covers-drop_first p xs n there) ])
]
Covers-drop_first p (gap g ∷ []) n c = c
Covers-drop_first p (gap g ∷ gap k ∷ xs) n (inl c) = inl c
Covers-drop_first p (gap g ∷ gap k ∷ xs) n (inr c) = inr (Covers-drop_first p (gap k ∷ xs) n c)
Covers-drop_first p (gap g ∷ event e ∷ xs) n c = elim (Bool-cases (p e)) [
  | inl passes ↦
      let m = merge (gap_of e) g in
      rw passes (elim c [
        | inl here ↦ Covers-glue_left m xs n (omega arith) (omega arith)
        | inr (inl next) ↦ Covers-glue_left m xs n (omega arith) (omega arith)
        | inr (inr there) ↦ Covers-glue_right m xs n there
      ])
  | inr fails ↦ rw fails (elim c [
    | inl here ↦ inl here
    | inr (inl next) ↦ inr (inl next)
    | inr (inr there) ↦ inr (inr (Covers-drop_first p xs n there))
  ])
]

pub Covers-push :
    (xs : List QueueEntry) (e : Event) (n : ℕ)
    → Covers xs n ⊎ (n ≡ e.sequence)
    → Covers (xs ++ event e ∷ []) n
Covers-push [] e n (inl c) = elim c [ ]
Covers-push [] e n (inr h) = inl (omega arith, omega arith)
Covers-push (x ∷ xs) e n (inl (inl c)) = inl c
Covers-push (x ∷ xs) e n (inl (inr c)) = inr (Covers-push xs e n (inl c))
Covers-push (x ∷ xs) e n (inr h) = inr (Covers-push xs e n (inr h))

pub Covers-append_gap :
    (xs : List QueueEntry) (e : Event) (n : ℕ)
    → Covers xs n ⊎ (n ≡ e.sequence)
    → Covers (append_gap xs (gap_of e)) n
Covers-append_gap [] e n (inl c) = elim c [ ]
Covers-append_gap [] e n (inr h) = inl (omega arith, omega arith)
Covers-append_gap (gap k ∷ []) e n (inl (inl c)) = inl (omega arith, omega arith)
Covers-append_gap (gap k ∷ []) e n (inl (inr c)) = elim c [ ]
Covers-append_gap (gap k ∷ []) e n (inr h) = inl (omega arith, omega arith)
Covers-append_gap (event f ∷ xs) e n (inl (inl c)) = inl c
Covers-append_gap (event f ∷ xs) e n (inl (inr c)) = inr (Covers-append_gap xs e n (inl c))
Covers-append_gap (event f ∷ xs) e n (inr h) = inr (Covers-append_gap xs e n (inr h))
Covers-append_gap (gap k ∷ y ∷ xs) e n (inl (inl c)) = inl c
Covers-append_gap (gap k ∷ y ∷ xs) e n (inl (inr c)) = inr (Covers-append_gap (y ∷ xs) e n (inl c))
Covers-append_gap (gap k ∷ y ∷ xs) e n (inr h) = inr (Covers-append_gap (y ∷ xs) e n (inr h))
