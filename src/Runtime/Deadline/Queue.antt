-- ===== src/Runtime/Deadline/Queue.antt =====
-- deadline.rs: the sorted queue, and its pairs that stand for entries.
use easycon_sdk.Common.{
  ℕ, ◌≡◌, ◌∙◌, sym, inl, inr, refl, ◌==◌, ◌||◌, ◌&&◌, Bool, true, false, Bool-cases, Option-cases,
  some, List, [], ◌∷◌, arith,
}
use easycon_sdk.Runtime.Table.{get, remove, get-remove}
use easycon_sdk.Runtime.Deadline.{ScheduledDeadline, key_leb, push, is_live, prune}

-- No pair of the queue comes before (t, i).
abbrev pub AtLeast : ℕ → ℕ → List (ℕ × ℕ) → Type 0
AtLeast t i [] = Unit {0}
AtLeast t i ((u, j) ∷ q) = (key_leb t i u j ≡ true) × AtLeast t i q

abbrev pub Sorted : List (ℕ × ℕ) → Type 0
Sorted [] = Unit {0}
Sorted ((t, i) ∷ q) = AtLeast t i q × Sorted q

abbrev pub member : ℕ → ℕ → List (ℕ × ℕ) → Bool
member t i [] = false
member t i ((u, j) ∷ q) = (t == u && i == j) || member t i q

abbrev pub Covers : List (ℕ × ScheduledDeadline) → List (ℕ × ℕ) → Type 0
Covers entries q =
    (k : ℕ) (e : ScheduledDeadline) → get k entries ≡ some e → member e.target_ns k q ≡ true

pub key_leb_trans :
    (t i u j v k : ℕ) → key_leb t i u j ≡ true → key_leb u j v k ≡ true → key_leb t i v k ≡ true
key_leb_trans t i u j v k p q = ground arith

pub AtLeast-lower :
    (t i u j : ℕ) (q : List (ℕ × ℕ)) → key_leb t i u j ≡ true → AtLeast u j q → AtLeast t i q
AtLeast-lower t i u j [] p h = tt
AtLeast-lower t i u j ((v, k) ∷ q) p h =
    (key_leb_trans t i u j v k p h.0, AtLeast-lower t i u j q p h.1)

AtLeast-push :
    (t i u j : ℕ) (q : List (ℕ × ℕ))
    → key_leb t i u j ≡ true
    → AtLeast t i q
    → AtLeast t i (push u j q)
AtLeast-push t i u j [] p h = (p, tt)
AtLeast-push t i u j ((v, k) ∷ q) p h = ground (arith, AtLeast-push t i u j q p)

pub Sorted-push : (t i : ℕ) (q : List (ℕ × ℕ)) → Sorted q → Sorted (push t i q)
Sorted-push t i [] h = (tt, tt)
Sorted-push t i ((u, j) ∷ q) h = elim (Bool-cases (key_leb t i u j)) [
  | inl first ↦ rw first ((first, AtLeast-lower t i u j q first h.0), h)
  | inr later ↦ rw later (AtLeast-push u j t i q (ground arith) h.0, Sorted-push t i q h.1)
]

pub member-push :
    (t i u j : ℕ) (q : List (ℕ × ℕ))
    → member t i (push u j q) ≡ ((t == u && i == j) || member t i q)
member-push t i u j [] = refl
member-push t i u j ((v, k) ∷ q) = ground (arith, member-push t i u j q)

pub AtLeast-member :
    (t i u j : ℕ) (q : List (ℕ × ℕ)) → AtLeast t i q → member u j q ≡ true → key_leb t i u j ≡ true
AtLeast-member t i u j [] h m = ground arith
AtLeast-member t i u j ((v, k) ∷ q) h m = ground (arith, AtLeast-member t i u j q)

pub AtLeast-prune :
    (es : List (ℕ × ScheduledDeadline)) (t i : ℕ) (q : List (ℕ × ℕ))
    → AtLeast t i q
    → AtLeast t i (prune es q)
AtLeast-prune es t i [] h = tt
AtLeast-prune es t i ((u, j) ∷ q) h = elim (Bool-cases (is_live es u j)) [
  | inl live ↦ rw live h
  | inr stale ↦ rw stale (AtLeast-prune es t i q h.1)
]

pub Sorted-prune :
    (es : List (ℕ × ScheduledDeadline)) (q : List (ℕ × ℕ)) → Sorted q → Sorted (prune es q)
Sorted-prune es [] h = tt
Sorted-prune es ((u, j) ∷ q) h = elim (Bool-cases (is_live es u j)) [
  | inl live ↦ rw live h
  | inr stale ↦ rw stale (Sorted-prune es q h.1)
]

pub true-ne-false : true ≡ false → ⊥
true-ne-false h = cc

same_key : (t i u j : ℕ) → (t == u && i == j) ≡ true → (t ≡ u) × (i ≡ j)
same_key t i u j h = ground arith

-- A live pair and a stale one are two.
live_apart :
    (es : List (ℕ × ScheduledDeadline)) (t i u j : ℕ)
    → is_live es t i ≡ true
    → is_live es u j ≡ false
    → (t == u && i == j) ≡ false
live_apart es t i u j live stale = elim (Bool-cases (t == u && i == j)) [
  | inl same ↦
      let e = same_key t i u j same in
      let alive : is_live es u j ≡ true = rw (← e.0) (rw (← e.1) live) in
      absurd (true-ne-false (sym alive ∙ stale))
  | inr apart ↦ apart
]

member-prune :
    (es : List (ℕ × ScheduledDeadline)) (t i : ℕ) (q : List (ℕ × ℕ))
    → is_live es t i ≡ true
    → member t i (prune es q) ≡ member t i q
member-prune es t i [] h = refl
member-prune es t i ((u, j) ∷ q) h = elim (Bool-cases (is_live es u j)) [
  | inl live ↦ rw live refl
  | inr stale ↦ rw (stale, live_apart es t i u j h stale) (member-prune es t i q h)
]

pub Covers-prune :
    (es : List (ℕ × ScheduledDeadline)) (q : List (ℕ × ℕ)) → Covers es q → Covers es (prune es q)
Covers-prune es q c k e found =
    member-prune es e.target_ns k q (rw found (ground arith)) ∙ c k e found

pub Covers-remove :
    (es : List (ℕ × ScheduledDeadline)) (t i : ℕ) (q : List (ℕ × ℕ))
    → Covers es ((t, i) ∷ q)
    → Covers (remove i es) q
Covers-remove es t i q c k e found = ground (arith, get-remove k i es, c k e)

-- The first pair, if there is one, stands for an entry.
abbrev pub HeadLive : List (ℕ × ScheduledDeadline) → List (ℕ × ℕ) → Type 0
HeadLive es [] = Unit {0}
HeadLive es ((t, i) ∷ q) = is_live es t i ≡ true

pub HeadLive-prune :
    (es : List (ℕ × ScheduledDeadline)) (q : List (ℕ × ℕ)) → HeadLive es (prune es q)
HeadLive-prune es [] = tt
HeadLive-prune es ((t, i) ∷ q) = elim (Bool-cases (is_live es t i)) [
  | inl live ↦ rw live live
  | inr stale ↦ rw stale (HeadLive-prune es q)
]

pub live_entry :
    (es : List (ℕ × ScheduledDeadline)) (t i : ℕ)
    → is_live es t i ≡ true
    → (e : ScheduledDeadline) × (get i es ≡ some e) × (e.target_ns ≡ t)
live_entry es t i live = elim (Option-cases (get i es)) [
  | inl e ↦ absurd (true-ne-false (sym live ∙ (rw e)))
  | inr (d, e) ↦ (d, e, ground arith)
]
