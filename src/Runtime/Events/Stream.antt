-- ===== src/Runtime/Events/Stream.antt =====
-- event.rs: a subscription that is published to, read from and closed in any order.
use easycon_sdk.Common.{
  ℕ, suc, ◌≤◌, ◌<◌, ◌≡◌, refl, ◌∙◌, inl, inr, Bool, true, false, Option, none, some, List, [], ◌∷◌,
  arith, if◌then◌else◌, Bool-cases,
}
use mathlib.Core.Path.{subst}
use easycon_sdk.Runtime.Events.{
  Event, QueueEntry, event, gap, into_event, QueueState, SubscriptionOptions, is_ordinary,
  any_event, enqueue_accepted, enqueue, SubscriptionRead, read_entries, read_event, read, close,
}
use easycon_sdk.Runtime.Events.Gaps.{Spaced, Span}
use easycon_sdk.Runtime.Events.Spans.{Span-drop_first, Span-push, Span-append_gap}
use easycon_sdk.Runtime.Events.Enqueue.{
  Branch, room, displaces_ordinary, displaces_oldest, refused, branch, stored, after_branch,
  enqueue_accepted-branch,
}
use easycon_sdk.Runtime.Events.Account.{IsQueue, branch-Taken, after_branch-IsQueue}

-- What is done to one subscription.
pub data Feed : Type 0 where
  publish : Event → Feed
  pull shut : Feed

abbrev pub heard :
    SubscriptionRead → Option (QueueState × List Event) → Option (QueueState × List Event)
heard r none = none
heard (read_event e) (some (s, es)) = some (s, e ∷ es)
heard _ (some (s, es)) = some (s, es)

-- The events that the pulls return, beside the last state; `none` is a panic.
unfoldable pub feed :
    SubscriptionOptions → List Feed → QueueState → Option (QueueState × List Event)
unfolding close
feed options [] s = some (s, [])
feed options (publish e ∷ cs) s = elim (enqueue options s e) [
  | none ↦ none
  | some t ↦ feed options cs t
]
feed options (pull ∷ cs) s = let (t, r) = read s in heard r (feed options cs t)
feed options (shut ∷ cs) s = feed options cs (close s)

-- The events published have rising sequence numbers from `n` on.
abbrev pub Published : ℕ → List Feed → Type 0
Published n [] = Unit {0}
Published n (publish e ∷ cs) = (n ≤ e.sequence) × Published (suc e.sequence) cs
Published n (pull ∷ cs) = Published n cs
Published n (shut ∷ cs) = Published n cs

abbrev pub RisingFrom : ℕ → List Event → Type 0
RisingFrom a [] = Unit {0}
RisingFrom a (e ∷ es) = (a ≤ e.sequence) × RisingFrom (suc e.sequence) es

Span-raise : (a b c : ℕ) (xs : List QueueEntry) → b ≤ c → Span a b xs → Span a c xs
Span-raise a b c [] h v = omega arith
Span-raise a b c (x ∷ xs) h v = (v.0, v.1, Span-raise _ b c xs h v.2)

Span-lower : (a b c : ℕ) (xs : List QueueEntry) → a ≤ b → Span b c xs → Span a c xs
Span-lower a b c [] h v = omega arith
Span-lower a b c (x ∷ xs) h v = (omega arith, v.1, v.2)

Spaced-tail : (x : QueueEntry) (xs : List QueueEntry) → Spaced (x ∷ xs) → Spaced xs
Spaced-tail (event e) xs v = v
Spaced-tail (gap g) [] v = tt
Spaced-tail (gap g) (event e ∷ xs) v = v
Spaced-tail (gap g) (gap k ∷ xs) v = elim v [ ]

stored-Span :
    (b : Branch) (a n : ℕ) (xs : List QueueEntry) (e : Event)
    → n ≤ e.sequence
    → Span a n xs
    → Span a (suc e.sequence) (stored b xs e)
stored-Span room a n xs e h v = Span-push a n xs e h v
stored-Span displaces_ordinary a n xs e h v =
    Span-push a n _ e h (Span-drop_first is_ordinary a n xs v)
stored-Span displaces_oldest a n xs e h v = Span-push a n _ e h (Span-drop_first any_event a n xs v)
stored-Span refused a n xs e h v = Span-append_gap a n xs e h v

-- A queue whose entries stand for numbers from `a` on and below `n`.
pub record IsFed (options : SubscriptionOptions) (a n : ℕ) (s : QueueState) : Type 0 where
  pub queue : IsQueue options n s
  pub unread : Span a n s.entries

pub IsFed-later :
    (options : SubscriptionOptions) (a n m : ℕ) (s : QueueState)
    → n ≤ m
    → IsFed options a n s
    → IsFed options a m s
IsFed-later options a n m s h v = record {
  queue = record {
    counted = v.queue.counted;
    bounded = v.queue.bounded;
    spaced = v.queue.spaced;
    rising = Span-raise 0 n m s.entries h v.queue.rising;
  };
  unread = Span-raise a n m s.entries h v.unread;
}

pub accepted-IsFed :
    (options : SubscriptionOptions) (a n : ℕ) (s : QueueState) (e : Event)
    → 0 < options.capacity
    → n ≤ e.sequence
    → IsFed options a n s
    → (t : QueueState) × (enqueue_accepted options s e ≡ some t)
      × IsFed options a (suc e.sequence) t
accepted-IsFed options a n s e positive later v = elim (Bool-cases s.closed) [
  | inl is_shut ↦ (
    s,
    unfold enqueue_accepted in rw is_shut,
    IsFed-later options a n (suc e.sequence) s (omega arith) v,
  )
  | inr is_open ↦
      let b = branch options s e in
      (
        after_branch b s e,
        enqueue_accepted-branch options s e positive v.queue.counted is_open,
        record {
          queue =
              after_branch-IsQueue options n s e positive v.queue later b
                (branch-Taken options s e);
          unread = stored-Span b a n s.entries e later v.unread;
        },
      )
]

either {ℓ} : {A : Type ℓ} (P : A → Type 0) (b : Bool) (x y : A) → P x → P y → P (if b then x else y)
either P true x y p q = p
either P false x y p q = q

pub enqueue-IsFed :
    (options : SubscriptionOptions) (a n : ℕ) (s : QueueState) (e : Event)
    → 0 < options.capacity
    → n ≤ e.sequence
    → IsFed options a n s
    → (t : QueueState) × (enqueue options s e ≡ some t) × IsFed options a (suc e.sequence) t
unfolding enqueue
enqueue-IsFed options a n s e positive later v =
    either (λ r. (t : QueueState) × (r ≡ some t) × IsFed options a (suc e.sequence) t) _ (some s)
      (enqueue_accepted options s e)
      (s, refl, IsFed-later options a n (suc e.sequence) s (omega arith) v)
      (accepted-IsFed options a n s e positive later v)

-- What a read says of the number from which on the rest is unread.
abbrev pub next_unread : ℕ → SubscriptionRead → ℕ
next_unread a (read_event e) = suc e.sequence
next_unread a _ = a

abbrev pub InOrder : ℕ → SubscriptionRead → Type 0
InOrder a (read_event e) = a ≤ e.sequence
InOrder a _ = Unit {0}

pub read_entries-IsFed :
    (options : SubscriptionOptions) (a n : ℕ) (xs : List QueueEntry) (s : QueueState)
    → s.entries ≡ xs
    → IsFed options a n s
    → let (t, r) = read_entries xs s in IsFed options (next_unread a r) n t × InOrder a r
unfolding into_event
read_entries-IsFed options a n [] s h v = (ground arith, ground arith)
read_entries-IsFed options a n (event e ∷ rest) s h v =
    let q : Span 0 n (event e ∷ rest) = subst (λ xs. Span 0 n xs) h v.queue.rising in
    let u : Span a n (event e ∷ rest) = subst (λ xs. Span a n xs) h v.unread in
    let spaced : Spaced (event e ∷ rest) = subst Spaced h v.queue.spaced in
    (
      record {
        queue = record {
          counted = ground (arith, v.queue.counted);
          bounded = ground (arith, v.queue.bounded);
          spaced = Spaced-tail (event e) rest spaced;
          rising = Span-lower 0 _ n rest (omega arith) q.2;
        };
        unread = u.2;
      },
      u.0,
    )
read_entries-IsFed options a n (gap g ∷ rest) s h v =
    let q : Span 0 n (gap g ∷ rest) = subst (λ xs. Span 0 n xs) h v.queue.rising in
    let u : Span a n (gap g ∷ rest) = subst (λ xs. Span a n xs) h v.unread in
    let spaced : Spaced (gap g ∷ rest) = subst Spaced h v.queue.spaced in
    (
      record {
        queue = record {
          counted = ground (arith, v.queue.counted);
          bounded = ground (arith, v.queue.bounded);
          spaced = Spaced-tail (gap g) rest spaced;
          rising = Span-lower 0 _ n rest (omega arith) q.2;
        };
        unread = u.2;
      },
      omega arith,
    )

abbrev listed : SubscriptionRead → List Event → List Event
listed (read_event e) es = e ∷ es
listed _ es = es

heard_some :
    (r : SubscriptionRead) (s : QueueState) (es : List Event)
    → heard r (some (s, es)) ≡ some (s, listed r es)
heard_some (read_event e) s es = refl
heard_some _ s es = refl

RisingFrom-listed :
    (r : SubscriptionRead) (a : ℕ) (es : List Event)
    → InOrder a r
    → RisingFrom (next_unread a r) es
    → RisingFrom a (listed r es)
RisingFrom-listed (read_event e) a es o v = (o, v)
RisingFrom-listed _ a es o v = v

feed_publish :
    (options : SubscriptionOptions) (cs : List Feed) (s t : QueueState) (e : Event)
    → enqueue options s e ≡ some t
    → feed options (publish e ∷ cs) s ≡ feed options cs t
unfolding feed
feed_publish options cs s t e h = rw (feed, h) refl

-- On a queue of a positive capacity whose entries are later than what was read, whatever the order of
-- reads, closes and publications of rising sequence numbers: nothing panics, the queue stays within its
-- capacity, and the events and gap reports that the reads return have strictly rising sequence numbers.
pub feed_rising :
    (options : SubscriptionOptions) (cs : List Feed) (a n : ℕ) (s : QueueState)
    → 0 < options.capacity
    → IsQueue options n s
    → Span a n s.entries
    → Published n cs
    → (t : QueueState) × (es : List Event) × (feed options cs s ≡ some (t, es))
      × (t.event_count ≤ options.capacity)
      × RisingFrom a es
unfolding feed read
feed_rising options [] a n s positive q sp p = (s, [], refl, q.bounded, tt)
feed_rising options (publish e ∷ cs) a n s positive q sp p =
    let (t, stored_as, fed) =
      enqueue-IsFed options a n s e positive p.0 (record { queue = q; unread = sp }) in
    let (u, es, same, bounded, rising) =
      feed_rising options cs a (suc e.sequence) t positive fed.queue fed.unread p.1 in
    (u, es, feed_publish options cs s t e stored_as ∙ same, bounded, rising)
feed_rising options (pull ∷ cs) a n s positive q sp p =
    let (t, r) = read s in
    let (fed, ordered) =
      read_entries-IsFed options a n s.entries s refl (record { queue = q; unread = sp }) in
    let (u, es, same, bounded, rising) =
      feed_rising options cs (next_unread a r) n t positive fed.queue fed.unread p in
    (u, listed r es, rw same (heard_some r u es), bounded, RisingFrom-listed r a es ordered rising)
feed_rising options (shut ∷ cs) a n s positive q sp p =
    feed_rising options cs a n (close s) positive
      (record { counted = q.counted; bounded = q.bounded; spaced = q.spaced; rising = q.rising }) sp
      p
