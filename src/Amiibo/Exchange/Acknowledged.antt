-- ===== src/Amiibo/Exchange/Acknowledged.antt =====
-- session.rs, `exchange_ack`: whose acknowledgement an exchange takes, and that it ends.
use easycon_sdk.Common.{
  saturating_add, ℕ, zero, suc, ◌+◌, ◌<◌, ◌≡◌, ◌≢◌, refl, ◌∙◌, sym, ap, ◌⊎◌, ◌==◌, Option, none,
  some, List, arith, inl, inr, Bool-cases,
}
use easycon_sdk.Transport.{TransportError}
use easycon_sdk.Amiibo.Exchange.{
  AckReply, ack_frame, ack_error, AckRequest, Lane, World, Exchanged, acknowledged, waits,
  cancel_or_deadline, received, await_written, exchange_written, earliest, max_u64, await_ack,
  exchange_ack,
}

-- A wait answered with a frame of generation `g` and the byte `b`.
abbrev pub Answers : {S : Type 0} → Lane S → ℕ → ℕ → Type 0
Answers {S} lane g b =
    (s : S) × (s' : S) × (request : AckRequest) × (request.generation ≡ g)
    × (lane.wait_for_ack s request ≡ (s', ack_frame g b))

-- The reply that ends the wait in an acknowledgement, unless it is of an earlier exchange.
received-acknowledged :
    {S : Type 0} (lane : Lane S) (d : Option ℕ) (request : AckRequest) (w : World S)
    (late : World S × Exchanged) (reply : AckReply)
    → (received lane d request w late reply).1 ≡ acknowledged
    → (late.1 ≡ acknowledged) ⊎ (reply ≡ ack_frame request.generation request.expected_reply)
unfolding cancel_or_deadline
received-acknowledged lane d request w late (ack_frame g b) h = ground arith
received-acknowledged lane d request w late (ack_error e) h = ground arith

received-generation :
    {S : Type 0} (lane : Lane S) (d : Option ℕ) (request : AckRequest) (w : World S)
    (late : World S × Exchanged) (reply : AckReply)
    → late.0.next_ack_generation ≡ w.next_ack_generation
    → (received lane d request w late reply).0.next_ack_generation ≡ w.next_ack_generation
unfolding cancel_or_deadline
received-generation lane d request w late (ack_frame g b) h = ground arith
received-generation lane d request w late (ack_error e) h = ground arith

await_ack-generation :
    {S : Type 0} (fuel : ℕ) (lane : Lane S) (d : Option ℕ) (request : AckRequest) (w : World S)
    → (await_ack fuel lane d request w).0.next_ack_generation ≡ w.next_ack_generation
unfolding await_ack
await_ack-generation zero lane d request w = refl
await_ack-generation (suc fuel) lane d request w =
    let (s, reply) = lane.wait_for_ack w.state request in
    let again = record w { state = lane.publish_late_ignored s } in
    received-generation lane d request (record w { state = s })
      (await_ack fuel lane d request again) reply (await_ack-generation fuel lane d request again)

await_ack-acknowledged :
    {S : Type 0} (fuel : ℕ) (lane : Lane S) (d : Option ℕ) (request : AckRequest) (w : World S)
    → (await_ack fuel lane d request w).1 ≡ acknowledged
    → Answers lane request.generation request.expected_reply
unfolding await_ack
await_ack-acknowledged zero lane d request w h = ground arith
await_ack-acknowledged (suc fuel) lane d request w h =
    let (s, reply) = lane.wait_for_ack w.state request in
    let again = record w { state = lane.publish_late_ignored s } in
    elim (received-acknowledged lane d request (record w { state = s })
      (await_ack fuel lane d request again) reply h) [
        | inl late ↦ await_ack-acknowledged fuel lane d request again late
        | inr e ↦ (w.state, s, request, refl, ap (λ r. (s, r)) e)
      ]

-- The wait ends if the transport has fewer late frames than the fuel, each of which it gives once.
abbrev pub Drains : {S : Type 0} → Lane S → (S → ℕ) → Type 0
Drains {S} lane late =
    (s s' : S) (request : AckRequest) (g b : ℕ)
    → lane.wait_for_ack s request ≡ (s', ack_frame g b)
    → g < request.generation
    → late (lane.publish_late_ignored s') < late s

received-waits :
    {S : Type 0} (lane : Lane S) (d : Option ℕ) (request : AckRequest) (w : World S)
    (late : World S × Exchanged) (reply : AckReply)
    → (received lane d request w late reply).1 ≡ waits
    → (late.1 ≡ waits) × ((g : ℕ) × (b : ℕ) × (reply ≡ ack_frame g b) × (g < request.generation))
unfolding cancel_or_deadline
received-waits lane d request w late (ack_frame g b) h = (ground arith, (g, b, refl, ground arith))
received-waits lane d request w late (ack_error e) h = ground arith

await_ack-waits :
    {S : Type 0} (fuel : ℕ) (lane : Lane S) (d : Option ℕ) (request : AckRequest) (w : World S)
    (late : S → ℕ)
    → Drains lane late
    → late w.state < fuel
    → (await_ack fuel lane d request w).1 ≢ waits
unfolding await_ack
await_ack-waits zero lane d request w late drains h = ground arith
await_ack-waits (suc fuel) lane d request w late drains h =
    let (s, reply) = lane.wait_for_ack w.state request in
    let again = record w { state = lane.publish_late_ignored s } in
    λ stuck.
      let (still, (g, b, e, earlier)) =
        received-waits lane d request (record w { state = s }) (await_ack fuel lane d request again)
          reply stuck in
      let fewer = drains w.state s request g b (ap (λ r. (s, r)) e) earlier in
      await_ack-waits fuel lane d request again late drains (omega arith) still

-- What an exchange does once its command is written.
await_written-acknowledged :
    {S : Type 0} (fuel : ℕ) (lane : Lane S) (d : Option ℕ) (expected t generation : ℕ) (w : World S)
    → (await_written fuel lane d expected t generation w).1 ≡ acknowledged
    → Answers lane generation expected
await_written-acknowledged fuel lane d expected t generation w h =
    let (s, stop) = cancel_or_deadline lane w.state d in
    let (now, s') = lane.now_ns s in
    let request : AckRequest = record {
      generation = generation;
      expected_reply = expected;
      deadline_ns = earliest d (saturating_add now t);
    } in
    await_ack-acknowledged fuel lane d request (record w { state = s' }) (ground arith)

await_written-generation :
    {S : Type 0} (fuel : ℕ) (lane : Lane S) (d : Option ℕ) (expected t generation : ℕ) (w : World S)
    → (await_written fuel lane d expected t generation w).0.next_ack_generation
      ≡ w.next_ack_generation
await_written-generation fuel lane d expected t generation w =
    let (s, stop) = cancel_or_deadline lane w.state d in
    let (now, s') = lane.now_ns s in
    let request : AckRequest = record {
      generation = generation;
      expected_reply = expected;
      deadline_ns = earliest d (saturating_add now t);
    } in
    let kept = await_ack-generation fuel lane d request (record w { state = s' }) in ground arith

exchange_written-acknowledged :
    {S : Type 0} (fuel : ℕ) (lane : Lane S) (d : Option ℕ) (expected t : ℕ) (w : World S)
    (written : S × Option TransportError)
    → (exchange_written fuel lane d expected t w written).1 ≡ acknowledged
    → Answers lane w.next_ack_generation expected
      × ((exchange_written fuel lane d expected t w written).0.next_ack_generation
          ≡ w.next_ack_generation + 1)
exchange_written-acknowledged fuel lane d expected t w (s, some e) h = ground arith
exchange_written-acknowledged {S} fuel lane d expected t w (s, none) h =
    let next : World S = record { state = s; next_ack_generation = w.next_ack_generation + 1 } in
    (
      await_written-acknowledged fuel lane d expected t w.next_ack_generation next h,
      await_written-generation fuel lane d expected t w.next_ack_generation next,
    )

-- An exchange is acknowledged only by a frame of its own generation with the expected byte, and it uses
-- its generation up.
pub exchange_ack-acknowledged :
    {S : Type 0} (fuel : ℕ) (lane : Lane S) (w : World S) (command : List ℕ) (expected t : ℕ)
    (d : Option ℕ)
    → (exchange_ack fuel lane w command expected t d).1 ≡ acknowledged
    → Answers lane w.next_ack_generation expected
      × ((exchange_ack fuel lane w command expected t d).0.next_ack_generation
          ≡ w.next_ack_generation + 1)
unfolding exchange_ack
exchange_ack-acknowledged fuel lane w command expected t d h =
    let (s, stop) = cancel_or_deadline lane w.state d in
    let (now, s') = lane.now_ns s in
    elim (Bool-cases stop) [
      | inl e ↦ ground arith
      | inr e ↦ elim (Bool-cases (w.next_ack_generation == max_u64)) [
        | inl f ↦ ground arith
        | inr f ↦
            let sent = lane.write_payload s' now command in
            let same : exchange_ack fuel lane w command expected t d
                ≡ exchange_written fuel lane d expected t w sent =
              rw (e, f) refl in
            rw same (
              exchange_written-acknowledged fuel lane d expected t w sent
                (ap (λ r. r.1) (sym same) ∙ h))
      ]
    ]

await_written-waits :
    {S : Type 0} (fuel : ℕ) (lane : Lane S) (d : Option ℕ) (expected t generation : ℕ) (w : World S)
    (late : S → ℕ)
    → Drains lane late
    → ((s : S) → late s < fuel)
    → (await_written fuel lane d expected t generation w).1 ≢ waits
await_written-waits fuel lane d expected t generation w late drains room =
    let (s, stop) = cancel_or_deadline lane w.state d in
    let (now, s') = lane.now_ns s in
    let request : AckRequest = record {
      generation = generation;
      expected_reply = expected;
      deadline_ns = earliest d (saturating_add now t);
    } in
    let ends =
      await_ack-waits fuel lane d request (record w { state = s' }) late drains (room s') in
    λ h. ground arith

exchange_written-waits :
    {S : Type 0} (fuel : ℕ) (lane : Lane S) (d : Option ℕ) (expected t : ℕ) (w : World S)
    (written : S × Option TransportError) (late : S → ℕ)
    → Drains lane late
    → ((s : S) → late s < fuel)
    → (exchange_written fuel lane d expected t w written).1 ≢ waits
exchange_written-waits fuel lane d expected t w (s, some e) late drains room h = ground arith
exchange_written-waits {S} fuel lane d expected t w (s, none) late drains room h =
    let next : World S = record { state = s; next_ack_generation = w.next_ack_generation + 1 } in
    await_written-waits fuel lane d expected t w.next_ack_generation next late drains room h

-- With a transport that gives each of its late frames once and never has as many as the fuel, an exchange
-- comes to an end.
pub exchange_ack-waits :
    {S : Type 0} (fuel : ℕ) (lane : Lane S) (w : World S) (command : List ℕ) (expected t : ℕ)
    (d : Option ℕ) (late : S → ℕ)
    → Drains lane late
    → ((s : S) → late s < fuel)
    → (exchange_ack fuel lane w command expected t d).1 ≢ waits
unfolding exchange_ack
exchange_ack-waits fuel lane w command expected t d late drains room h =
    let (s, stop) = cancel_or_deadline lane w.state d in
    let (now, s') = lane.now_ns s in
    let sent = lane.write_payload s' now command in
    let ends = exchange_written-waits fuel lane d expected t w sent late drains room in ground arith
