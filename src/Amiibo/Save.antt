-- ===== src/Amiibo/Save.antt =====
-- session.rs, `handle_amiibo_save` and `handle_amiibo_select`: the chunks of a save, each sent as a header and a payload
-- and retried after a reset. `S` is the state of the lane, `exchange` its `exchange_ack` under the
-- operation's deadline.
pub mod Chunks
pub mod Delivered
pub mod Complete
pub mod Bounds
mod Tests
use easycon_sdk.Common.{
  ℕ, zero, suc, ◌+◌, ◌-◌, ◌*◌, ◌==◌, Bool, true, false, Option, none, some, List, [], ◌∷◌, length,
  if◌then◌else◌,
}
use easycon_sdk.Transport.{
  TransportError, wait_cancelled, disconnected, is_retryable_amiibo_error,
  cancelled_transport_error,
}
use easycon_sdk.Amiibo.{amiibo_chunk_size, save_header, select_command, reset_command}
use easycon_sdk.Amiibo.Exchange.{
  Lane, World, exchange_ack, Exchanged, acknowledged, panics, waits, rejected,
}

abbrev pub amiibo_ack : ℕ
amiibo_ack = 0xff

abbrev pub amiibo_reset_reply : ℕ
amiibo_reset_reply = 0x80

abbrev pub amiibo_default_reset_timeout_ns : ℕ
amiibo_default_reset_timeout_ns = 50_000_000

-- The deadline of an operation is part of `exchange`.
pub record AmiiboSaveOptions : Type 0 where
  pub ack_timeout_ns : ℕ
  pub reset_timeout_ns : ℕ
  pub maximum_chunk_retries : ℕ

-- `AmiiboSaveOptions::default`, and the timeout of `AmiiboSelectOptions::default`.
abbrev pub default_save_options : AmiiboSaveOptions
default_save_options = record {
  ack_timeout_ns = 1_000_000_000;
  reset_timeout_ns = amiibo_default_reset_timeout_ns;
  maximum_chunk_retries = 1;
}

abbrev pub default_select_ack_timeout_ns : ℕ
default_select_ack_timeout_ns = 200_000_000

-- The command, the expected reply and the timeout.
abbrev pub Exchange : Type 0 → Type 0
Exchange S = S → List ℕ → ℕ → ℕ → S × Exchanged

-- The events of a save.
pub data AmiiboEvent : Type 0 where
  retry : (offset retries : ℕ) → TransportError → AmiiboEvent
  chunk_accepted : (offset length : ℕ) → AmiiboEvent

pub record Port (S : Type 0) : Type 0 where
  pub exchange : Exchange S
  pub publish : S → AmiiboEvent → S

-- The port of a lane under an operation's deadline.
abbrev pub lane_port : {S : Type 0} → ℕ → Lane S → Option ℕ → (S → AmiiboEvent → S) → Port (World S)
lane_port fuel lane operation_deadline_ns publish = record {
  exchange = λ w command expected_reply timeout_ns.
      exchange_ack fuel lane w command expected_reply timeout_ns operation_deadline_ns;
  publish = λ w event. record w { state = publish w.state event };
}

-- `data.chunks(AMIIBO_CHUNK_SIZE)`: `room` is what the chunk that is being cut can still take.
abbrev pub cut : ℕ → List ℕ → List ℕ × List (List ℕ)
cut room [] = ([], [])
cut zero (x ∷ xs) = let (chunk, chunks) = cut 19 xs in ([], (x ∷ chunk) ∷ chunks)
cut (suc room) (x ∷ xs) = let (chunk, chunks) = cut room xs in (x ∷ chunk, chunks)

unfoldable pub chunks_of : List ℕ → List (List ℕ)
chunks_of data_bytes = (cut 0 data_bytes).1

abbrev pub if_acknowledged : {S : Type 0} → S × Exchanged → (S → S × Exchanged) → S × Exchanged
if_acknowledged (s, acknowledged) next = next s
if_acknowledged (s, outcome) next = (s, outcome)

-- The header and then the payload.
abbrev pub try_chunk :
    {S : Type 0}
    → Port S
    → AmiiboSaveOptions
    → S
    → (header : List ℕ) → (chunk : List ℕ) → S × Exchanged
try_chunk port options s header chunk =
    if_acknowledged (port.exchange s header amiibo_ack options.ack_timeout_ns)
      (λ s'. port.exchange s' chunk amiibo_ack options.ack_timeout_ns)

abbrev pub if_retryable :
    {S : Type 0} → S × Exchanged → (S → TransportError → S × Exchanged) → S × Exchanged
if_retryable (s, rejected e) again =
    if is_retryable_amiibo_error e then again s e else (s, rejected e)
if_retryable (s, outcome) again = (s, outcome)

-- The reset before a retry.
abbrev pub reset_chunk :
    {S : Type 0}
    → Port S
    → AmiiboSaveOptions
    → (offset : ℕ) → (retries : ℕ) → S
    → TransportError
    → S × Exchanged
reset_chunk port options offset retries s e =
    port.exchange (port.publish s (retry offset retries e)) reset_command amiibo_reset_reply
      options.reset_timeout_ns

-- The loop over one chunk. `left` is `maximum_chunk_retries - retries`.
unfoldable pub save_chunk :
    {S : Type 0}
    → Port S
    → AmiiboSaveOptions
    → (offset : ℕ) → (header : List ℕ) → (chunk : List ℕ) → (left : ℕ) → (retries : ℕ) → S
    → S × Exchanged
save_chunk port options offset header chunk zero retries s = try_chunk port options s header chunk
save_chunk port options offset header chunk (suc left) retries s =
    if_retryable (try_chunk port options s header chunk) (λ s' e.
      if_acknowledged (reset_chunk port options offset (retries + 1) s' e)
        (save_chunk port options offset header chunk left (retries + 1)))

-- How a save ends: by success, by a failure after so many complete chunks, or not at all.
pub data Saved : Type 0 where
  succeeded save_panics save_waits : Saved
  failed : (completed_chunks : ℕ) → TransportError → Saved

abbrev pub after_chunk : {S : Type 0} → ℕ → S × Exchanged → (S → S × Saved) → S × Saved
after_chunk index (s, acknowledged) next = next s
after_chunk index (s, rejected e) next = (s, failed index e)
after_chunk index (s, panics) next = (s, save_panics)
after_chunk index (s, waits) next = (s, save_waits)

-- The loop over the chunks; `index` is also the number of completed chunks.
unfoldable pub save_chunks :
    {S : Type 0}
    → Port S
    → AmiiboSaveOptions
    → (slot : ℕ) → (index : ℕ) → List (List ℕ)
    → S
    → S × Saved
unfolding save_chunk
save_chunks port options slot index [] s = (s, succeeded)
save_chunks port options slot index (chunk ∷ chunks) s =
    let offset = index * amiibo_chunk_size in
    let header = save_header slot offset (length chunk) in
    after_chunk index
      (save_chunk port options offset header chunk options.maximum_chunk_retries 0 s)
      (λ s'.
        save_chunks port options slot (index + 1) chunks
          (port.publish s' (chunk_accepted offset (length chunk))))

unfoldable pub save_data :
    {S : Type 0} → Port S → AmiiboSaveOptions → (slot : ℕ) → List ℕ → S → S × Saved
unfolding save_chunks chunks_of
save_data port options slot data_bytes s = save_chunks port options slot 0 (chunks_of data_bytes) s

unfoldable pub select_slot :
    {S : Type 0} → Port S → (ack_timeout_ns : ℕ) → (slot : ℕ) → S → S × Exchanged
select_slot port ack_timeout_ns slot s =
    port.exchange s (select_command slot) amiibo_ack ack_timeout_ns

-- What follows a save, in this order.
pub data SaveEffect : Type 0 where
  succeeds_operation cancels_operation : SaveEffect
  publishes_failure : (cancelled : Bool) → (completed_chunks : ℕ) → TransportError → SaveEffect
  resets_stream : (reset_timeout_ns : ℕ) → SaveEffect
  disconnects fails_operation : TransportError → SaveEffect

-- `finish_amiibo_save_failure`. A failed operation's message tells of the completed chunks.
unfoldable pub finish_amiibo_save_failure : AmiiboSaveOptions → ℕ → TransportError → List SaveEffect
finish_amiibo_save_failure options completed e = elim e.kind [
  | wait_cancelled ↦
      publishes_failure true completed e
      ∷ resets_stream options.reset_timeout_ns
      ∷ cancels_operation
      ∷ []
  | disconnected ↦ publishes_failure false completed e ∷ disconnects e ∷ fails_operation e ∷ []
  | _ ↦
      publishes_failure false completed e
      ∷ resets_stream options.reset_timeout_ns
      ∷ fails_operation e
      ∷ []
]
