-- ===== src/Runtime/Publish/Fed.antt =====
-- runtime.rs: publications, reads, subscriptions and the end of production in any order.
use easycon_sdk.Common.{
  ℕ, zero, suc, ◌+◌, ◌^◌, ◌≤◌, ◌<◌, ◌≡◌, ◌∙◌, ap, refl, ◌==◌, Bool, true, Bool-cases, Option, none,
  some, List, [], ◌∷◌, ◌++◌, arith, length, All, if◌then◌else◌, inl, inr,
}
use easycon_sdk.Runtime.Events.{
  Event, SubscriptionOptions, QueueState, enqueue_accepted, close_with_final, close,
  SubscriptionRead, read_event, timeout, read_closed, read, read_entries,
}
use easycon_sdk.Runtime.Deadline.{fetch_add}
use easycon_sdk.Runtime.Events.Stream.{
  IsFed, accepted-IsFed, enqueue-IsFed, read_entries-IsFed, next_unread, InOrder,
}
use easycon_sdk.Runtime.Publish.{
  EventDraft, Subscriber, Publisher, new_publisher, event_of, enqueue_all, close_all,
  try_publish_event, close_events, shut_all, force_close_event_producers, subscribe, after_read,
  pull_at, drop_at, publish_as, close_as, published, ended,
}

pub data Call : Type 0 where
  publish_one close_one : EventDraft → (timestamp_ns : ℕ) → Call
  force_one : Call
  subscribe_one : (is_active : Bool) → SubscriptionOptions → Call
  pull_one drop_one : ℕ → Call

unfoldable pub step : Call → Publisher → Option Publisher
unfolding try_publish_event close_events force_close_event_producers subscribe read
step (publish_one d t) p = try_publish_event p d t
step (close_one d t) p = close_events p d t
step force_one p = some (force_close_event_producers p)
step (subscribe_one is_active options) p = some (subscribe is_active p options)
step (pull_one i) p = some (record p { subscriptions = pull_at i p.subscriptions })
step (drop_one i) p = some (record p { subscriptions = drop_at i p.subscriptions })

unfoldable pub run : List Call → Publisher → Option Publisher
run [] p = some p
run (c ∷ calls) p = elim (step c p) [ none ↦ none | some q ↦ run calls q ]

-- A subscription below a sequence number: its queue is whole and within its capacity, its gaps are apart, its
-- numbers rise from those that were read, and the reads have returned rising numbers.
pub record IsServed (n : ℕ) (s : Subscriber) : Type 0 where
  pub positive : 0 < s.options.capacity
  pub fed : IsFed s.options s.unread n s.queue
  pub kept_order : s.in_order ≡ true

abbrev pub AllServed : ℕ → List Subscriber → Type 0
AllServed n ss = All (λ s. IsServed n s) ss

enqueue_all-AllServed :
    (n : ℕ) (ss : List Subscriber) (e : Event)
    → n ≤ e.sequence
    → AllServed n ss
    → (ts : List Subscriber) × (enqueue_all ss e ≡ some ts) × AllServed (suc e.sequence) ts
unfolding enqueue_all
enqueue_all-AllServed n [] e later h = ([], refl, tt)
enqueue_all-AllServed n (s ∷ ss) e later h =
    let (ts, rest, served) = enqueue_all-AllServed n ss e later h.1 in
    let (q, same, fed) = enqueue-IsFed s.options s.unread n s.queue e h.0.positive later h.0.fed in
    (
      record s { queue = q } ∷ ts,
      rw (same, rest) refl,
      (record { positive = h.0.positive; fed = fed; kept_order = h.0.kept_order }, served),
    )

-- The flag of a queue is none of what it holds.
flagged-IsFed :
    (options : SubscriptionOptions) (a n : ℕ) (s : QueueState)
    → IsFed options a n s
    → IsFed options a n (record s { closed = true })
flagged-IsFed options a n s v = record {
  queue = record {
    counted = v.queue.counted;
    bounded = v.queue.bounded;
    spaced = v.queue.spaced;
    rising = v.queue.rising;
  };
  unread = v.unread;
}

stored_closed :
    (options : SubscriptionOptions) (s q : QueueState) (e : Event)
    → enqueue_accepted options s e ≡ some q
    → close_with_final options s e ≡ some (record q { closed = true })
unfolding close_with_final
stored_closed options s q e same = rw (close_with_final, same) refl

close_all-AllServed :
    (n : ℕ) (ss : List Subscriber) (e : Event)
    → n ≤ e.sequence
    → AllServed n ss
    → (ts : List Subscriber) × (close_all ss e ≡ some ts) × AllServed (suc e.sequence) ts
unfolding close_all
close_all-AllServed n [] e later h = ([], refl, tt)
close_all-AllServed n (s ∷ ss) e later h =
    let (ts, rest, served) = close_all-AllServed n ss e later h.1 in
    let (q, same, fed) = accepted-IsFed s.options s.unread n s.queue e h.0.positive later h.0.fed in
    let final = stored_closed s.options s.queue q e same in
    (
      record s { queue = record q { closed = true } } ∷ ts,
      rw (final, rest) refl,
      (
        record {
          positive = h.0.positive;
          fed = flagged-IsFed s.options s.unread (suc e.sequence) q fed;
          kept_order = h.0.kept_order;
        },
        served,
      ),
    )

shut_all-AllServed : (n : ℕ) (ss : List Subscriber) → AllServed n ss → AllServed n (shut_all ss)
shut_all-AllServed n [] h = tt
shut_all-AllServed n (s ∷ ss) h = (
  record {
    positive = h.0.positive;
    fed = unfold close in flagged-IsFed s.options s.unread n s.queue h.0.fed;
    kept_order = h.0.kept_order;
  },
  shut_all-AllServed n ss h.1,
)

AllServed-append :
    (n : ℕ) (ss : List Subscriber) (s : Subscriber)
    → AllServed n ss
    → IsServed n s
    → AllServed n (ss ++ s ∷ [])
AllServed-append n [] s h v = (v, tt)
AllServed-append n (x ∷ ss) s h v = (h.0, AllServed-append n ss s h.1 v)

after_one :
    (n : ℕ) (s : Subscriber) (q : QueueState) (r : SubscriptionRead)
    → IsServed n s
    → IsFed s.options (next_unread s.unread r) n q
    → InOrder s.unread r
    → IsServed n (after_read s (q, r))
after_one n s q (read_event e) h fed o = record {
  positive = h.positive;
  fed = fed;
  kept_order = ground (arith, h.kept_order);
}
after_one n s q timeout h fed o = record {
  positive = h.positive;
  fed = fed;
  kept_order = h.kept_order;
}
after_one n s q read_closed h fed o = record {
  positive = h.positive;
  fed = fed;
  kept_order = h.kept_order;
}

after_read-IsServed :
    (n : ℕ) (s : Subscriber) → IsServed n s → IsServed n (after_read s (read s.queue))
unfolding read
after_read-IsServed n s h =
    let (fed, ordered) =
      read_entries-IsFed s.options s.unread n s.queue.entries s.queue refl h.fed in
    let (q, r) = read_entries s.queue.entries s.queue in after_one n s q r h fed ordered

pull_at-AllServed : (n i : ℕ) (ss : List Subscriber) → AllServed n ss → AllServed n (pull_at i ss)
pull_at-AllServed n i [] h = tt
pull_at-AllServed n zero (s ∷ ss) h = (after_read-IsServed n s h.0, h.1)
pull_at-AllServed n (suc i) (s ∷ ss) h = (h.0, pull_at-AllServed n i ss h.1)

drop_at-AllServed : (n i : ℕ) (ss : List Subscriber) → AllServed n ss → AllServed n (drop_at i ss)
drop_at-AllServed n i [] h = tt
drop_at-AllServed n zero (s ∷ ss) h = h.1
drop_at-AllServed n (suc i) (s ∷ ss) h = (h.0, drop_at-AllServed n i ss h.1)

-- With that many calls to come the sequence numbers last.
pub record IsPublisher (left : ℕ) (p : Publisher) : Type 0 where
  pub served : AllServed p.next_sequence p.subscriptions
  pub positive : 0 < p.next_sequence
  pub enough : p.next_sequence + left < 2 ^ 64

fetched : (n : ℕ) → 0 < n → n + 1 < 2 ^ 64 → fetch_add n ≡ (suc n, some n)
unfolding fetch_add
fetched n positive fits = ground arith

lower-IsPublisher : (left : ℕ) (p : Publisher) → IsPublisher (suc left) p → IsPublisher left p
lower-IsPublisher left p h = record {
  served = h.served;
  positive = h.positive;
  enough = omega (arith, h.enough);
}

-- A publisher whose queues have taken the event of its next sequence number.
after_event :
    (left t : ℕ) (b : Bool) (p : Publisher) (ts : List Subscriber)
    → IsPublisher (suc left) p
    → AllServed (suc p.next_sequence) ts
    → IsPublisher left (record p {
      next_sequence = suc p.next_sequence;
      last_event_timestamp_ns = t;
      events_closed = b;
      subscriptions = ts;
    })
after_event left t b p ts h served = record {
  served = served;
  positive = omega arith;
  enough = omega (arith, h.enough);
}

publish_one-IsPublisher :
    (d : EventDraft) (t left : ℕ) (p : Publisher)
    → IsPublisher (suc left) p
    → (q : Publisher) × (try_publish_event p d t ≡ some q) × IsPublisher left q
unfolding try_publish_event
publish_one-IsPublisher d t left p h = elim (Bool-cases p.events_closed) [
  | inl ended ↦ (p, rw ended refl, lower-IsPublisher left p h)
  | inr goes_on ↦
      let (ts, stored, served) =
        enqueue_all-AllServed p.next_sequence p.subscriptions (event_of d p.next_sequence t)
          (omega arith) h.served in
      let given = fetched p.next_sequence h.positive (omega (arith, h.enough)) in
      (
        record p {
          next_sequence = suc p.next_sequence;
          last_event_timestamp_ns = t;
          subscriptions = ts;
        },
        ap (λ b. if b then some p else publish_as p d t (fetch_add p.next_sequence)) goes_on
            ∙ ap (publish_as p d t) given
            ∙ ap (published (record p { next_sequence = suc p.next_sequence }) t) stored,
        after_event left t p.events_closed p ts h served,
      )
]

close_one-IsPublisher :
    (d : EventDraft) (t left : ℕ) (p : Publisher)
    → IsPublisher (suc left) p
    → (q : Publisher) × (close_events p d t ≡ some q) × IsPublisher left q
unfolding close_events
close_one-IsPublisher d t left p h = elim (Bool-cases p.events_closed) [
  | inl over ↦ (p, rw over refl, lower-IsPublisher left p h)
  | inr goes_on ↦
      let (ts, stored, served) =
        close_all-AllServed p.next_sequence p.subscriptions (event_of d p.next_sequence t)
          (omega arith) h.served in
      let given = fetched p.next_sequence h.positive (omega (arith, h.enough)) in
      (
        record p {
          next_sequence = suc p.next_sequence;
          last_event_timestamp_ns = t;
          events_closed = true;
          subscriptions = ts;
        },
        ap (λ b. if b then some p else close_as p d t (fetch_add p.next_sequence)) goes_on
            ∙ ap (close_as p d t) given
            ∙ ap (λ o. ended (published (record p { next_sequence = suc p.next_sequence }) t o))
                stored,
        after_event left t true p ts h served,
      )
]

-- The sections that give no sequence number.
changed-IsPublisher :
    (left : ℕ) (b : Bool) (p : Publisher) (ss : List Subscriber)
    → IsPublisher (suc left) p
    → AllServed p.next_sequence ss
    → IsPublisher left (record p { events_closed = b; subscriptions = ss })
changed-IsPublisher left b p ss h served = record {
  served = served;
  positive = h.positive;
  enough = omega (arith, h.enough);
}

subscribe-IsPublisher :
    (is_active : Bool) (options : SubscriptionOptions) (left : ℕ) (p : Publisher)
    → IsPublisher (suc left) p
    → IsPublisher left (subscribe is_active p options)
unfolding subscribe
subscribe-IsPublisher is_active options left p h = elim (Bool-cases (options.capacity == 0)) [
  | inl nothing ↦ rw nothing (lower-IsPublisher left p h)
  | inr room ↦ elim (Bool-cases is_active) [
    | inr late ↦ rw (room, late) (lower-IsPublisher left p h)
    | inl on ↦
        rw (room, on)
          (changed-IsPublisher left p.events_closed p _ h (
            AllServed-append p.next_sequence p.subscriptions _ h.served (record {
              positive = ground arith;
              fed = record { queue = omega arith; unread = omega arith };
              kept_order = refl;
            })))
  ]
]

step-IsPublisher :
    (c : Call) (left : ℕ) (p : Publisher)
    → IsPublisher (suc left) p
    → (q : Publisher) × (step c p ≡ some q) × IsPublisher left q
unfolding step
step-IsPublisher (publish_one d t) left p h = unfold step in publish_one-IsPublisher d t left p h
step-IsPublisher (close_one d t) left p h = unfold step in close_one-IsPublisher d t left p h
step-IsPublisher force_one left p h = (
  force_close_event_producers p,
  refl,
  unfold force_close_event_producers in
      changed-IsPublisher left true p (shut_all p.subscriptions) h
        (shut_all-AllServed p.next_sequence p.subscriptions h.served),
)
step-IsPublisher (subscribe_one is_active options) left p h =
    (subscribe is_active p options, refl, subscribe-IsPublisher is_active options left p h)
step-IsPublisher (pull_one i) left p h = (
  record p { subscriptions = pull_at i p.subscriptions },
  refl,
  changed-IsPublisher left p.events_closed p (pull_at i p.subscriptions) h
      (pull_at-AllServed p.next_sequence i p.subscriptions h.served),
)
step-IsPublisher (drop_one i) left p h = (
  record p { subscriptions = drop_at i p.subscriptions },
  refl,
  changed-IsPublisher left p.events_closed p (drop_at i p.subscriptions) h
      (drop_at-AllServed p.next_sequence i p.subscriptions h.served),
)

run-step :
    (c : Call) (calls : List Call) (p q : Publisher)
    → step c p ≡ some q
    → run (c ∷ calls) p ≡ run calls q
unfolding run
run-step c calls p q stepped = rw (run, stepped) refl

run_from :
    (calls : List Call) (left : ℕ) (p : Publisher)
    → IsPublisher (length calls + left) p
    → (q : Publisher) × (run calls p ≡ some q) × IsPublisher left q
run_from [] left p h = let e : 0 + left ≡ left = omega arith in (p, unfold run in refl, rw e at h)
run_from (c ∷ calls) left p h =
    let e : suc (length calls) + left ≡ suc (length calls + left) = omega arith in
    let h' : IsPublisher (suc (length calls + left)) p = rw e at h in
    let (q, stepped, next) = step-IsPublisher c (length calls + left) p h' in
    let (r, ran, last) = run_from calls left q next in (r, run-step c calls p q stepped ∙ ran, last)

-- Whatever is published, subscribed, read, dropped and closed on a new Runtime, in any order and fewer than
-- 2^64 times: nothing panics, every queue stays within its capacity, and each subscription reads events and gaps
-- of strictly rising sequence numbers.
pub run-IsPublisher :
    (calls : List Call)
    → length calls + 1 < 2 ^ 64
    → (p : Publisher) × (run calls new_publisher ≡ some p) × IsPublisher 0 p
run-IsPublisher calls few =
    run_from calls 0 new_publisher
      (record { served = tt; positive = omega arith; enough = omega arith })
