-- ===== src/Amiibo/Exchange.antt =====
-- session.rs: one exchange of a command for its acknowledgement on the controller's lane. The lane's
-- clock, its transport and the operation are the fields of `Lane`; each takes and gives back the state `S` they share.
pub mod Acknowledged
mod Tests
use easycon_sdk.Common.{
  ℕ, zero, suc, ◌+◌, min, saturating_add, ltb, leb, ◌==◌, ◌&&◌, Bool, true, false, String, Option,
  none, some, List, if◌then◌else◌,
}
use easycon_sdk.Runtime.Operation.{CancellationReason, deadline, parent_close}
use easycon_sdk.Transport.{TransportError, new_transport_error, protocol, cancelled_transport_error}

pub data AckReply : Type 0 where
  ack_frame : (generation byte : ℕ) → AckReply
  ack_error : TransportError → AckReply

pub record AckRequest : Type 0 where
  pub generation : ℕ
  pub expected_reply : ℕ
  pub deadline_ns : ℕ

pub record Lane (S : Type 0) : Type 0 where
  pub now_ns : S → ℕ × S
  pub is_cancelling : S → Bool
  pub token_is_cancelled : S → Bool
  pub request_cancel : CancellationReason → S → S
  pub write_payload : S → (now_ns : ℕ) → List ℕ → S × Option TransportError
  pub wait_for_ack : S → AckRequest → S × AckReply
  pub publish_late_ignored : S → S

-- The lane's state with its counter of exchanges.
pub record World (S : Type 0) : Type 0 where
  pub state : S
  pub next_ack_generation : ℕ

-- `panics` is the exhausted counter, `waits` an exchange that is not over within its fuel.
pub data Exchanged : Type 0 where
  acknowledged panics waits : Exchanged
  rejected : TransportError → Exchanged

abbrev pub max_u64 : ℕ
max_u64 = 18446744073709551615

abbrev is_due : {S : Type 0} → Lane S → S → Option ℕ → S × Bool
is_due lane s none = (s, false)
is_due lane s (some due) = let (now, s') = lane.now_ns s in (s', leb due now)

unfoldable pub cancel_or_deadline : {S : Type 0} → Lane S → S → Option ℕ → S × Bool
cancel_or_deadline lane s deadline_ns =
    if lane.is_cancelling s
    then (s, true)
    else let (s', due) = is_due lane s deadline_ns in
      if due
      then (lane.request_cancel deadline s', true)
      else if lane.token_is_cancelled s'
      then (lane.request_cancel parent_close s', true)
      else (s', false)

-- The outcome, unless the operation is cancelled or past its deadline by now.
abbrev pub unless_cancelled :
    {S : Type 0} → Lane S → Option ℕ → World S → Exchanged → World S × Exchanged
unless_cancelled lane deadline_ns w outcome =
    let (s, stop) = cancel_or_deadline lane w.state deadline_ns in
    (record w { state = s }, if stop then rejected cancelled_transport_error else outcome)

abbrev mismatch : Exchanged
mismatch = rejected (new_transport_error protocol "ACK generation or reply byte did not match")

-- What a reply leads to; `late` is what comes of the exchange if the reply is of an earlier one.
abbrev pub received :
    {S : Type 0}
    → Lane S
    → Option ℕ
    → AckRequest
    → World S
    → World S × Exchanged
    → AckReply
    → World S × Exchanged
received lane operation_deadline_ns request w late (ack_frame generation byte) =
    if ltb generation request.generation
    then late
    else if generation == request.generation && byte == request.expected_reply
    then unless_cancelled lane operation_deadline_ns w acknowledged
    else (w, mismatch)
received lane operation_deadline_ns request w late (ack_error e) =
    unless_cancelled lane operation_deadline_ns w (rejected e)

-- The loop over the replies.
unfoldable pub await_ack :
    {S : Type 0} → ℕ → Lane S → Option ℕ → AckRequest → World S → World S × Exchanged
unfolding cancel_or_deadline
await_ack zero lane operation_deadline_ns request w = (w, waits)
await_ack (suc fuel) lane operation_deadline_ns request w =
    let (s, reply) = lane.wait_for_ack w.state request in
    let ignored = lane.publish_late_ignored s in
    let late = await_ack fuel lane operation_deadline_ns request (record w { state = ignored }) in
    received lane operation_deadline_ns request (record w { state = s }) late reply

abbrev pub earliest : Option ℕ → ℕ → ℕ
earliest none protocol_deadline_ns = protocol_deadline_ns
earliest (some due) protocol_deadline_ns = min due protocol_deadline_ns

-- After the write of the command.
abbrev pub await_written :
    {S : Type 0} → ℕ → Lane S → Option ℕ → ℕ → ℕ → ℕ → World S → World S × Exchanged
await_written fuel lane operation_deadline_ns expected_reply timeout_ns generation w =
    let (s, stop) = cancel_or_deadline lane w.state operation_deadline_ns in
    let (now, s') = lane.now_ns s in
    let deadline_ns = earliest operation_deadline_ns (saturating_add now timeout_ns) in
    let request : AckRequest = record {
      generation = generation;
      expected_reply = expected_reply;
      deadline_ns = deadline_ns;
    } in
    if stop
    then (record w { state = s }, rejected cancelled_transport_error)
    else await_ack fuel lane operation_deadline_ns request (record w { state = s' })

abbrev pub exchange_written :
    {S : Type 0}
    → ℕ
    → Lane S
    → Option ℕ
    → ℕ
    → ℕ
    → World S
    → S × Option TransportError
    → World S × Exchanged
exchange_written fuel lane operation_deadline_ns expected_reply timeout_ns w (s, some e) =
    (record { state = s; next_ack_generation = w.next_ack_generation + 1 }, rejected e)
exchange_written fuel lane operation_deadline_ns expected_reply timeout_ns w (s, none) =
    await_written fuel lane operation_deadline_ns expected_reply timeout_ns w.next_ack_generation
      (record { state = s; next_ack_generation = w.next_ack_generation + 1 })

unfoldable pub exchange_ack :
    {S : Type 0}
    → ℕ
    → Lane S
    → World S
    → List ℕ
    → (expected_reply : ℕ) → (timeout_ns : ℕ) → Option ℕ
    → World S × Exchanged
unfolding await_ack cancel_or_deadline
exchange_ack fuel lane w command expected_reply timeout_ns operation_deadline_ns =
    let (s, stop) = cancel_or_deadline lane w.state operation_deadline_ns in
    let (now, s') = lane.now_ns s in
    if stop
    then (record w { state = s }, rejected cancelled_transport_error)
    else if w.next_ack_generation == max_u64
    then (record w { state = s }, panics)
    else exchange_written fuel lane operation_deadline_ns expected_reply timeout_ns w
        (lane.write_payload s' now command)
