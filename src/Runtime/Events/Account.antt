-- ===== src/Runtime/Events/Account.antt =====
-- event.rs: what holds of a queue between two calls, and what an accepted event does to it.
use easycon_sdk.Common.{
  ℕ, suc, ◌+◌, ◌-◌, ◌^◌, ◌≤◌, ◌<◌, ◌≡◌, ap, ◌∙◌, ◌⊎◌, inl, inr, Bool, true, false, some, List, [],
  ◌∷◌, ◌++◌, arith, if◌then◌else◌,
}
use easycon_sdk.Runtime.Events.{
  Event, QueueEntry, event, gap, gap_of, QueueState, SubscriptionOptions, is_ordinary, any_event,
  empty_queue, enqueue_accepted,
}
use easycon_sdk.Runtime.Events.Shape.{drop_first, has}
use easycon_sdk.Runtime.Events.Gaps.{
  events, dropped, Spaced, Span, Covers, events-drop_first, dropped-drop_first, events-append_gap,
  dropped-append_gap, Spaced-drop_first, Spaced-append_gap, Spaced-push,
}
use easycon_sdk.Runtime.Events.Spans.{
  Span-drop_first, Span-push, Span-append_gap, Covers-drop_first, Covers-push, Covers-append_gap,
}
use easycon_sdk.Runtime.Events.Criticals.{
  criticals, without_first, criticals-drop_ordinary, criticals-drop_any, criticals-append_gap,
  criticals-push,
}
use easycon_sdk.Runtime.Events.Enqueue.{
  Branch, room, displaces_ordinary, displaces_oldest, refused, branch, stored, after_branch,
  has-any_event, enqueue_accepted-branch,
}

-- A queue that has been given events of sequence numbers below `n`.
pub record IsQueue (options : SubscriptionOptions) (n : ℕ) (s : QueueState) : Type 0 where
  pub counted : s.event_count ≡ events s.entries
  pub bounded : s.event_count ≤ options.capacity
  pub spaced : Spaced s.entries
  pub rising : Span 0 n s.entries

pub empty_queue-IsQueue : (options : SubscriptionOptions) → IsQueue options 0 empty_queue
empty_queue-IsQueue options = omega arith

events-push : (xs : List QueueEntry) (e : Event) → events (xs ++ event e ∷ []) ≡ events xs + 1
events-push [] e = omega arith
events-push (event f ∷ xs) e = omega (arith, events-push xs e)
events-push (gap g ∷ xs) e = events-push xs e

dropped-push : (xs : List QueueEntry) (e : Event) → dropped (xs ++ event e ∷ []) ≡ dropped xs
dropped-push [] e = omega arith
dropped-push (event f ∷ xs) e = dropped-push xs e
dropped-push (gap g ∷ xs) e = omega (arith, dropped-push xs e)

-- What makes a branch be taken.
abbrev pub Taken : Branch → SubscriptionOptions → QueueState → Event → Type 0
Taken room options s e = s.event_count < options.capacity
Taken displaces_ordinary options s e =
    (options.capacity ≤ s.event_count) × (has is_ordinary s.entries ≡ true)
Taken displaces_oldest options s e =
    (options.capacity ≤ s.event_count)
    × (has is_ordinary s.entries ≡ false)
    × (is_ordinary e ≡ false)
Taken refused options s e =
    (options.capacity ≤ s.event_count)
    × (has is_ordinary s.entries ≡ false)
    × (is_ordinary e ≡ true)

pub branch-Taken :
    (options : SubscriptionOptions) (s : QueueState) (e : Event)
    → Taken (branch options s e) options s e
branch-Taken options s e = ground arith

module _ (options : SubscriptionOptions) (n : ℕ) (s : QueueState) (e : Event)
    (positive : 0 < options.capacity) (v : IsQueue options n s) (later : n ≤ e.sequence) where
  drop_push-IsQueue :
      (p : Event → Bool)
      → has p s.entries ≡ true
      → IsQueue options (suc e.sequence) (record s {
        entries = drop_first p s.entries ++ event e ∷ [];
        event_count = s.event_count - 1 + 1;
      })
  drop_push-IsQueue p h =
      let xs = drop_first p s.entries in
      record {
        counted = omega (arith, events-push xs e, events-drop_first p s.entries h, v.counted);
        bounded = omega (arith, events-drop_first p s.entries h, v.counted);
        spaced = Spaced-push xs e (Spaced-drop_first p s.entries v.spaced);
        rising = Span-push 0 n xs e later (Span-drop_first p 0 n s.entries v.rising);
      }

  some_event : options.capacity ≤ s.event_count → has any_event s.entries ≡ true
  some_event full = has-any_event s.entries (omega (arith, v.counted))

  pub after_branch-IsQueue :
      (b : Branch) → Taken b options s e → IsQueue options (suc e.sequence) (after_branch b s e)
  after_branch-IsQueue room t = record {
    counted = omega (arith, events-push s.entries e, v.counted);
    bounded = omega arith;
    spaced = Spaced-push s.entries e v.spaced;
    rising = Span-push 0 n s.entries e later v.rising;
  }
  after_branch-IsQueue displaces_ordinary t = drop_push-IsQueue is_ordinary t.1
  after_branch-IsQueue displaces_oldest t = drop_push-IsQueue any_event (some_event t.0)
  after_branch-IsQueue refused t = record {
    counted = omega (arith, events-append_gap s.entries (gap_of e), v.counted);
    bounded = v.bounded;
    spaced = Spaced-append_gap s.entries (gap_of e) v.spaced;
    rising = Span-append_gap 0 n s.entries e later v.rising;
  }

  accounted-drop_push :
      (p : Event → Bool)
      → has p s.entries ≡ true
      → dropped s.entries + 1 < 2 ^ 64
      → let xs = drop_first p s.entries ++ event e ∷ [] in
        events xs + dropped xs ≡ events s.entries + dropped s.entries + 1
  accounted-drop_push p h small =
      let xs = drop_first p s.entries in
      omega (
        arith,
        events-push xs e,
        dropped-push xs e,
        events-drop_first p s.entries h,
        dropped-drop_first p s.entries h small,
      )

  after_branch_accounted :
      (b : Branch)
      → Taken b options s e
      → dropped s.entries + 1 < 2 ^ 64
      → let xs = stored b s.entries e in
        events xs + dropped xs ≡ events s.entries + dropped s.entries + 1
  after_branch_accounted room t small =
      omega (arith, events-push s.entries e, dropped-push s.entries e)
  after_branch_accounted displaces_ordinary t small = accounted-drop_push is_ordinary t.1 small
  after_branch_accounted displaces_oldest t small =
      accounted-drop_push any_event (some_event t.0) small
  after_branch_accounted refused t small =
      omega (
        arith,
        events-append_gap s.entries (gap_of e),
        dropped-append_gap s.entries (gap_of e) small,
      )

stored-Covers :
    (b : Branch) (xs : List QueueEntry) (e : Event) (m : ℕ)
    → Covers xs m ⊎ (m ≡ e.sequence)
    → Covers (stored b xs e) m
stored-Covers room xs e m c = Covers-push xs e m c
stored-Covers displaces_ordinary xs e m (inl c) =
    Covers-push _ e m (inl (Covers-drop_first is_ordinary xs m c))
stored-Covers displaces_ordinary xs e m (inr h) = Covers-push _ e m (inr h)
stored-Covers displaces_oldest xs e m (inl c) =
    Covers-push _ e m (inl (Covers-drop_first any_event xs m c))
stored-Covers displaces_oldest xs e m (inr h) = Covers-push _ e m (inr h)
stored-Covers refused xs e m c = Covers-append_gap xs e m c

-- The critical events that are queued after an accepted event.
abbrev pub criticals_after : Branch → List Event → Event → List Event
criticals_after displaces_oldest cs e = without_first cs ++ e ∷ []
criticals_after refused cs e = cs
criticals_after _ cs e = cs ++ (if is_ordinary e then [] else e ∷ [])

criticals-stored :
    (b : Branch) (options : SubscriptionOptions) (s : QueueState) (e : Event)
    → Taken b options s e
    → criticals (stored b s.entries e) ≡ criticals_after b (criticals s.entries) e
criticals-stored room options s e t = criticals-push s.entries e
criticals-stored displaces_ordinary options s e t =
    criticals-push (drop_first is_ordinary s.entries) e
    ∙ ap (λ (cs : List Event). cs ++ (if is_ordinary e then [] else e ∷ []))
        (criticals-drop_ordinary s.entries)
criticals-stored displaces_oldest options s e t =
    let pushed = criticals-push (drop_first any_event s.entries) e in
    let rest = criticals-drop_any s.entries t.1 in ground (arith, pushed, rest, t.2)
criticals-stored refused options s e t = criticals-append_gap s.entries (gap_of e)

-- What an open queue of positive capacity becomes when it accepts an event later than all before.
pub record IsStored (options : SubscriptionOptions) (s : QueueState) (e : Event) (t : QueueState)
    : Type 0 where
  -- It is a queue within its capacity again, counted, its gaps apart and its numbers rising.
  pub kept : IsQueue options (suc e.sequence) t
  -- Each accepted event is either queued or counted by a gap.
  pub accounted : events t.entries + dropped t.entries ≡ events s.entries + dropped s.entries + 1
  -- No sequence number is lost: an entry stands for it.
  pub covered : (m : ℕ) → Covers s.entries m ⊎ (m ≡ e.sequence) → Covers t.entries m
  -- A critical event leaves only if a full queue has no ordinary one, for another critical event, and
  -- then it is the oldest.
  pub critical_last :
      criticals t.entries ≡ criticals_after (branch options s e) (criticals s.entries) e

-- An open queue of a positive capacity accepts without a panic an event later than all before, and
-- stores it, while its gaps count fewer than 2^64 - 1 events.
pub enqueue_accepted-IsStored :
    (options : SubscriptionOptions) (n : ℕ) (s : QueueState) (e : Event)
    → 0 < options.capacity
    → s.closed ≡ false
    → IsQueue options n s
    → n ≤ e.sequence
    → dropped s.entries + 1 < 2 ^ 64
    → (t : QueueState) × (enqueue_accepted options s e ≡ some t) × IsStored options s e t
enqueue_accepted-IsStored options n s e positive is_open v later small =
    let b = branch options s e in
    let taken = branch-Taken options s e in
    (
      after_branch b s e,
      enqueue_accepted-branch options s e positive v.counted is_open,
      record {
        kept = after_branch-IsQueue options n s e positive v later b taken;
        accounted = after_branch_accounted options n s e positive v later b taken small;
        covered = stored-Covers b s.entries e;
        critical_last = criticals-stored b options s e taken;
      },
    )
