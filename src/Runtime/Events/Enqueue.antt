-- ===== src/Runtime/Events/Enqueue.antt =====
-- event.rs: what `enqueue_accepted_state` does on each of its branches.
use easycon_sdk.Common.{
  ℕ, ◌+◌, ◌-◌, ◌<◌, ◌≡◌, refl, ◌∙◌, inl, inr, Bool, true, false, none, some, List, [], ◌∷◌, ◌++◌,
  arith, if◌then◌else◌, Bool-cases, leb,
}
use easycon_sdk.Runtime.Events.{
  Event, EventClass, ordinary, critical, QueueEntry, event, gap, gap_of, QueueState,
  SubscriptionOptions, is_ordinary, any_event, push_event, position, enqueue_full, enqueue_accepted,
  drop_and_push,
}
use easycon_sdk.Runtime.Events.Shape.{
  append_gap, drop_first, has, drop_event_at-position, position-has, record_gap_end,
}
use easycon_sdk.Runtime.Events.Gaps.{events}

-- The branches: room for the event; an ordinary event makes room; a critical event displaces the
-- oldest event; an ordinary event is itself dropped.
pub data Branch : Type 0 where
  room displaces_ordinary displaces_oldest refused : Branch

abbrev pub branch_full : Bool → Bool → Branch
branch_full true e_ordinary = displaces_ordinary
branch_full false false = displaces_oldest
branch_full false true = refused

abbrev pub branch : SubscriptionOptions → QueueState → Event → Branch
branch options s e =
    if leb options.capacity s.event_count
    then branch_full (has is_ordinary s.entries) (is_ordinary e)
    else room

abbrev pub stored : Branch → List QueueEntry → Event → List QueueEntry
stored room xs e = xs ++ event e ∷ []
stored displaces_ordinary xs e = drop_first is_ordinary xs ++ event e ∷ []
stored displaces_oldest xs e = drop_first any_event xs ++ event e ∷ []
stored refused xs e = append_gap xs (gap_of e)

abbrev pub stored_count : Branch → ℕ → ℕ
stored_count room n = n + 1
stored_count displaces_ordinary n = n - 1 + 1
stored_count displaces_oldest n = n - 1 + 1
stored_count refused n = n

abbrev pub after_branch : Branch → QueueState → Event → QueueState
after_branch b s e = record s {
  entries = stored b s.entries e;
  event_count = stored_count b s.event_count;
}

pub has-any_event : (xs : List QueueEntry) → 0 < events xs → has any_event xs ≡ true
has-any_event [] h = elim h [ ]
has-any_event (event e ∷ xs) h = refl
has-any_event (gap g ∷ xs) h = has-any_event xs h

drop_and_push-position :
    (p : Event → Bool) (s : QueueState) (e : Event) (i : ℕ)
    → position p s.entries ≡ some i
    → drop_and_push s (some i) e
      ≡ some (record s {
        entries = drop_first p s.entries ++ event e ∷ [];
        event_count = s.event_count - 1 + 1;
      })
unfolding push_event
drop_and_push-position p s e i h = rw (drop_event_at-position p s i h)

full_oldest :
    (s : QueueState) (e : Event)
    → has any_event s.entries ≡ true
    → drop_and_push s (position any_event s.entries) e ≡ some (after_branch displaces_oldest s e)
full_oldest s e h = elim (position-has any_event s.entries) [
  | inl (_, (i, there)) ↦ rw there (drop_and_push-position any_event s e i there)
  | inr (absent, _) ↦ cc
]

full_class :
    (c : EventClass) (s : QueueState) (e : Event)
    → e.class ≡ c
    → has any_event s.entries ≡ true
    → has is_ordinary s.entries ≡ false
    → enqueue_full s none c e
      ≡ some (after_branch (branch_full (has is_ordinary s.entries) (is_ordinary e)) s e)
full_class ordinary s e h some_event none_ordinary =
    let o : is_ordinary e ≡ true = ground arith in
    rw (none_ordinary, o) (rw (record_gap_end s.entries (gap_of e)))
full_class critical s e h some_event none_ordinary =
    let o : is_ordinary e ≡ false = ground arith in
    rw (none_ordinary, o) (full_oldest s e some_event)

full_branch :
    (s : QueueState) (e : Event)
    → has any_event s.entries ≡ true
    → enqueue_full s (position is_ordinary s.entries) e.class e
      ≡ some (after_branch (branch_full (has is_ordinary s.entries) (is_ordinary e)) s e)
full_branch s e h = elim (position-has is_ordinary s.entries) [
  | inl (present, (i, there)) ↦ rw (there, present) (drop_and_push-position is_ordinary s e i there)
  | inr (absent, nowhere) ↦ rw nowhere (full_class e.class s e refl h absent)
]

when_open {ℓ} : {A : Type ℓ} (b : Bool) (x y : A) → b ≡ false → (if b then x else y) ≡ y
when_open true x y h = cc
when_open false x y h = refl

-- On an open queue of a positive capacity that counts its events right no `expect` fails, and the
-- queue becomes what its branch says.
pub enqueue_accepted-branch :
    (options : SubscriptionOptions) (s : QueueState) (e : Event)
    → 0 < options.capacity
    → s.event_count ≡ events s.entries
    → s.closed ≡ false
    → enqueue_accepted options s e ≡ some (after_branch (branch options s e) s e)
unfolding enqueue_accepted
enqueue_accepted-branch options s e positive counted is_open =
    when_open s.closed _ _ is_open ∙ elim (Bool-cases (leb options.capacity s.event_count)) [
      | inl full ↦ rw full (full_branch s e (has-any_event s.entries (ground arith)))
      | inr free ↦ rw free (unfold push_event in refl)
    ]
