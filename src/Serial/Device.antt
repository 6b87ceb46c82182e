-- ===== src/Serial/Device.antt =====
-- transport.rs of easycon-serial: a device that hears the bytes which the stream takes.
use easycon_sdk.Common.{
  ℕ, ◌+◌, ◌-◌, ◌≡◌, ltb, ◌==◌, ◌&&◌, not, ◌||◌, Bool, true, false, Option, none, some, zero, suc,
  is_some, List, [], ◌∷◌, length, if◌then◌else◌,
}
use easycon_sdk.Serial.{
  is_prepared, is_command, StreamWrite, accepts, rejects, same_context, ActiveWrite, Serial,
  new_serial, close_stream, Texts, Written, WriteRequest, Answers, write, handshake,
}

-- A device that follows the payloads: bytes start a payload at its first byte if none is under way, and
-- else continue the one that is, of the same context and settlement, where it stopped; none runs over.
abbrev pub follows : Option ActiveWrite → WriteRequest → (offset : ℕ) → Bool
follows none r offset = offset == 0
follows (some a) r offset =
    same_context a.context r.context && a.accepted == offset && a.settlement == r.settlement

abbrev pub grown : WriteRequest → (accepted : ℕ) → Option (Option ActiveWrite)
grown r accepted =
    if accepted == r.context.total_len
    then some none
    else if ltb r.context.total_len accepted
    then none
    else some
        (some (record { context = r.context; accepted = accepted; settlement = r.settlement }))

-- `none` is a broken frame.
abbrev pub hear :
    Option (Option ActiveWrite) → WriteRequest → (count : ℕ) → Option (Option ActiveWrite)
hear none r count = none
hear (some under_way) r zero = some under_way
hear (some under_way) r (suc n) =
    let offset = r.context.total_len - length r.bytes in
    if follows under_way r offset then grown r (offset + suc n) else none

-- Whether a write comes as far as to hand its bytes to the stream.
abbrev pub reaches : Serial → WriteRequest → Answers → Bool
reaches s r answers =
    not (r.context.total_len == 0 || length r.bytes == 0)
    && not (ltb r.context.total_len (length r.bytes))
    && follows s.active_write r (r.context.total_len - length r.bytes)
    && not (is_some answers.interruption)
    && s.is_open
    && not (
        is_command r.context.kind
        && not (is_prepared s.prepared_command_sequence r.context.sequence)
        && is_some answers.discard_input)

-- How many bytes the stream takes: those that it accepts, and of a write that fails any number, `leaked`, unless the
-- stream has proved that there were none.
abbrev pub stream_took : StreamWrite → (leaked : ℕ) → ℕ
stream_took (accepts n) leaked = n
stream_took (rejects e) leaked = if e.backend_proved_zero_effect then 0 else leaked

abbrev pub took : Serial → WriteRequest → Answers → (leaked : ℕ) → ℕ
took s r answers leaked = if reaches s r answers then stream_took answers.stream_write leaked else 0

pub record World : Type 0 where
  pub serial : Serial
  pub device : Option (Option ActiveWrite)

pub data Call : Type 0 where
  writes : WriteRequest → Answers → (leaked : ℕ) → Call
  handshakes : Bool → Call
  closes : Call

-- The device hears what the stream took, whatever the write answers; it starts afresh on a stream that was closed.
abbrev pub heard : World → WriteRequest → (count : ℕ) → Serial × Written → World
heard w r count (s, answer) = record {
  serial = s;
  device = if s.is_open then hear w.device r count else some none;
}

unfoldable pub step : Texts → Call → World → World
unfolding write handshake
step texts (writes r answers leaked) w =
    heard w r (took w.serial r answers leaked) (write texts w.serial r answers)
step texts (handshakes b) w = record { serial = handshake w.serial b; device = some none }
step texts closes w = record { serial = close_stream w.serial; device = some none }

unfoldable pub run : Texts → List Call → World → World
run texts [] w = w
run texts (c ∷ cs) w = run texts cs (step texts c w)

abbrev pub unopened : World
unopened = record { serial = new_serial; device = some none }

abbrev pub Idle : Bool → Option ActiveWrite → Type 0
Idle true a = Unit {0}
Idle false a = a ≡ none

pub record IsFramed (w : World) : Type 0 where
  pub agreed : w.device ≡ some w.serial.active_write
  pub idle : Idle w.serial.is_open w.serial.active_write
