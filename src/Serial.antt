-- ===== src/Serial.antt =====
-- crates/easycon-serial/src/transport.rs: the serial transport. The byte stream is a parameter: each call
-- takes what it answers. The texts of errors within messages are parameters too.
pub mod Device
pub mod Framed
mod Tests
use Prim.Native.String as Text
use easycon_sdk.Common.{
  ℕ, zero, suc, ◌+◌, ◌-◌, ltb, ◌==◌, ◌&&◌, ◌||◌, not, Bool, true, false, String, Option, none, some,
  List, [], ◌∷◌, length, if◌then◌else◌,
}
use easycon_sdk.Transport.{
  TransportErrorKind, timeout, write_timeout, wait_cancelled, disconnected, io_failure, protocol,
  TransportError, new_transport_error, reusable_stream,
}

-- `stream_cancelled`, `stream_disconnected`, `stream_protocol` and `stream_io` are the source's
-- `Cancelled`, `Disconnected`, `Protocol` and `Io`.
pub data SerialErrorKind : Type 0 where
  access_denied port_busy not_found stream_disconnected stream_cancelled deadline_exceeded
        zero_progress invalid_port stream_io stream_protocol unsupported_platform :
      SerialErrorKind

pub record SerialError : Type 0 where
  pub kind : SerialErrorKind
  pub message : String
  pub os_code : Option ℕ
  pub backend_proved_zero_effect : Bool

pub data IoPhase : Type 0 where
  protocol_phase write_phase : IoPhase

pub data WriteKind : Type 0 where
  report_write neutralize_write command_write : WriteKind

abbrev kind_rank : WriteKind → ℕ
kind_rank report_write = 0
kind_rank neutralize_write = 1
kind_rank command_write = 2

-- `DirectWriteTiming`, the stages of a direct report.
pub record DirectWriteTiming : Type 0 where
  pub command_admitted_ns : ℕ
  pub lane_wake_ns : ℕ

-- `WriteContext`.
pub record WriteContext : Type 0 where
  pub resource_id : ℕ
  pub operation_id : Option ℕ
  pub sequence : ℕ
  pub timestamp_ns : ℕ
  pub direct_timing : Option DirectWriteTiming
  pub total_len : ℕ
  pub kind : WriteKind

abbrev same_id : Option ℕ → Option ℕ → Bool
same_id none none = true
same_id (some a) (some b) = a == b
same_id _ _ = false

abbrev same_timing : Option DirectWriteTiming → Option DirectWriteTiming → Bool
same_timing none none = true
same_timing (some a) (some b) =
    a.command_admitted_ns == b.command_admitted_ns && a.lane_wake_ns == b.lane_wake_ns
same_timing _ _ = false

-- `PartialEq` of `WriteContext`.
abbrev pub same_context : WriteContext → WriteContext → Bool
same_context a b =
    a.resource_id == b.resource_id
    && same_id a.operation_id b.operation_id
    && a.sequence == b.sequence
    && a.timestamp_ns == b.timestamp_ns
    && same_timing a.direct_timing b.direct_timing
    && a.total_len == b.total_len
    && kind_rank a.kind == kind_rank b.kind

-- A settlement is the number of its handle.
pub record ActiveWrite : Type 0 where
  pub context : WriteContext
  pub accepted : ℕ
  pub settlement : ℕ

-- `SerialControllerTransport`.
pub record Serial : Type 0 where
  pub is_open : Bool
  pub prepared_command_sequence : Option ℕ
  pub active_write : Option ActiveWrite

abbrev pub new_serial : Serial
new_serial = record { is_open = false; prepared_command_sequence = none; active_write = none }

abbrev pub close_stream : Serial → Serial
close_stream s = record { is_open = false; prepared_command_sequence = none; active_write = none }

-- The `Display` outputs.
pub record Texts : Type 0 where
  pub serial_text : SerialError → String
  pub transport_text : TransportError → String

abbrev mapped_kind : SerialErrorKind → IoPhase → TransportErrorKind
mapped_kind stream_cancelled phase = wait_cancelled
mapped_kind deadline_exceeded protocol_phase = timeout
mapped_kind deadline_exceeded write_phase = write_timeout
mapped_kind stream_disconnected phase = disconnected
mapped_kind not_found phase = disconnected
mapped_kind stream_protocol phase = protocol
mapped_kind access_denied phase = io_failure
mapped_kind port_busy phase = io_failure
mapped_kind zero_progress phase = io_failure
mapped_kind invalid_port phase = io_failure
mapped_kind stream_io phase = io_failure
mapped_kind unsupported_platform phase = io_failure

abbrev pub map_error : Texts → SerialError → IoPhase → TransportError
map_error texts e phase = new_transport_error (mapped_kind e.kind phase) (texts.serial_text e)

abbrev pub zero_effect_write_error : Texts → SerialError → (accepted_prefix : ℕ) → TransportError
zero_effect_write_error texts e accepted_prefix =
    let mapped = map_error texts e write_phase in
    if accepted_prefix == 0 && e.backend_proved_zero_effect
    then reusable_stream mapped.kind mapped.message
    else mapped

abbrev pub zero_progress_write_error : Texts → (accepted_prefix : ℕ) → TransportError
zero_progress_write_error texts accepted_prefix =
    zero_effect_write_error texts
      (record {
        kind = zero_progress;
        message = "serial byte I/O returned zero progress";
        os_code = none;
        backend_proved_zero_effect = true;
      })
      accepted_prefix

abbrev pub not_open_error : TransportError
not_open_error = new_transport_error disconnected "serial port is not open"

-- What a write answers.
pub data Written : Type 0 where
  wrote : ℕ → Written
  write_fails : TransportError → Written

abbrev failure_text : Bool → WriteKind → String
failure_text true neutralize_write = "serial stream closed after neutralization failure: "
failure_text true _ = "serial stream closed after unproven zero-byte failure: "
failure_text false _ = "serial stream closed after partial-write failure: "

unfoldable pub close_after_write_failure :
    Texts → Serial → WriteKind → (accepted_prefix : ℕ) → TransportError → Serial × Written
close_after_write_failure texts s kind accepted_prefix e =
    if accepted_prefix == 0 && e.stream_reusable then (s, write_fails e) else (
      close_stream s,
      write_fails (
          new_transport_error disconnected
            (Text.◌++◌ (failure_text (accepted_prefix == 0) kind) (texts.transport_text e))),
    )

pub record WriteRequest : Type 0 where
  pub context : WriteContext
  pub bytes : List ℕ
  pub settlement : ℕ

-- What the stream and the settlement answer, each if it is asked: an interruption, the failure of a
-- discard, the write, and whether the last byte was settled.
pub data StreamWrite : Type 0 where
  accepts : ℕ → StreamWrite
  rejects : SerialError → StreamWrite

pub record Answers : Type 0 where
  pub interruption : Option SerialError
  pub discard_input : Option SerialError
  pub stream_write : StreamWrite
  pub is_full_accepted : Bool

abbrev record_progress :
    Serial → WriteRequest → Answers → (accepted : ℕ) → (written : ℕ) → Serial × Written
record_progress s r answers accepted written =
    if accepted == r.context.total_len
    then if answers.is_full_accepted then (record s { active_write = none }, wrote written) else (
      close_stream s,
      write_fails (
          new_transport_error io_failure
            "serial backend returned a full payload without final-byte settlement"),
    )
    else (
      record s {
        active_write =
            some (record { context = r.context; accepted = accepted; settlement = r.settlement });
      },
      wrote written,
    )

abbrev pub overrun_error : TransportError
overrun_error = new_transport_error protocol "serial byte I/O exceeded the supplied buffer"

abbrev after_stream_write :
    Texts → Serial → WriteRequest → Answers → (offset : ℕ) → StreamWrite → Serial × Written
after_stream_write texts s r answers offset (rejects e) =
    close_after_write_failure texts s r.context.kind offset (zero_effect_write_error texts e offset)
after_stream_write texts s r answers offset (accepts written) =
    if written == 0
    then close_after_write_failure texts s r.context.kind offset
        (zero_progress_write_error texts offset)
    else if ltb (length r.bytes) written
    then close_after_write_failure texts s r.context.kind offset overrun_error
    else record_progress s r answers (offset + written) written

abbrev is_prepared : Option ℕ → ℕ → Bool
is_prepared none sequence = false
is_prepared (some prepared) sequence = prepared == sequence

abbrev is_command : WriteKind → Bool
is_command command_write = true
is_command _ = false

abbrev discarded :
    Texts → Serial → WriteRequest → Answers → ℕ → Option SerialError → Serial × Written
discarded texts s r answers offset (some e) =
    close_after_write_failure texts s r.context.kind offset (zero_effect_write_error texts e offset)
discarded texts s r answers offset none =
    after_stream_write texts (record s { prepared_command_sequence = some r.context.sequence }) r
      answers offset answers.stream_write

abbrev write_open : Texts → Serial → WriteRequest → Answers → ℕ → Serial × Written
write_open texts s r answers offset =
    if not s.is_open
    then close_after_write_failure texts s r.context.kind offset not_open_error
    else if is_command r.context.kind
        && not (is_prepared s.prepared_command_sequence r.context.sequence)
    then discarded texts s r answers offset answers.discard_input
    else after_stream_write texts s r answers offset answers.stream_write

abbrev uninterrupted :
    Texts → Serial → WriteRequest → Answers → ℕ → Option SerialError → Serial × Written
uninterrupted texts s r answers offset (some e) =
    close_after_write_failure texts s r.context.kind offset (zero_effect_write_error texts e offset)
uninterrupted texts s r answers offset none = write_open texts s r answers offset

abbrev continuous : Option ActiveWrite → WriteRequest → ℕ → Bool
continuous none r offset = offset == 0
continuous (some active) r offset =
    same_context active.context r.context
    && active.accepted == offset
    && active.settlement == r.settlement

abbrev discontinuity : Option ActiveWrite → String
discontinuity none = "serial write resumed without an owned partial payload; stream closed"
discontinuity (some active) = "serial partial-write continuity was lost; stream closed"

unfoldable pub write : Texts → Serial → WriteRequest → Answers → Serial × Written
unfolding close_after_write_failure
write texts s r answers =
    let offset = r.context.total_len - length r.bytes in
    if r.context.total_len == 0 || length r.bytes == 0
    then (s, write_fails (new_transport_error protocol "serial logical write must be non-empty"))
    else if ltb r.context.total_len (length r.bytes)
    then (
      s,
      write_fails
          (new_transport_error protocol "serial write remainder exceeds its logical payload"),
    )
    else if not (continuous s.active_write r offset)
    then (
      close_stream s,
      write_fails (new_transport_error disconnected (discontinuity s.active_write)),
    )
    else uninterrupted texts s r answers offset answers.interruption

-- `handshake`: the stream is open afterwards exactly if the exchange over it succeeded.
unfoldable pub handshake : Serial → (succeeded : Bool) → Serial
handshake s succeeded = record (close_stream s) { is_open = succeeded }
