-- ===== src/Serial/Framed.antt =====
-- transport.rs of easycon-serial: what a device sees on an open stream is whole payloads, one after
-- the other.
use easycon_sdk.Common.{
  ℕ, ◌+◌, ◌-◌, ◌≤◌, ◌≡◌, refl, ltb, ◌==◌, ◌&&◌, not, ◌||◌, Bool, true, false, Option, none, some,
  zero, suc, is_some, List, [], ◌∷◌, length, inl, inr, Bool-cases, if◌then◌else◌, arith,
}
use easycon_sdk.Transport.{TransportError}
use easycon_sdk.Serial.Device.{
  follows, stream_took, took, World, Call, writes, handshakes, closes, heard, step, run, unopened,
  Idle, IsFramed,
}
use easycon_sdk.Serial.{
  is_prepared, is_command, overrun_error, not_open_error, zero_progress_write_error,
  zero_effect_write_error, WriteKind, record_progress, after_stream_write, StreamWrite, accepts,
  rejects, discarded, write_open, uninterrupted, SerialError, Serial, Texts, Written, WriteRequest,
  Answers, write, handshake, close_after_write_failure,
}

-- The transport `s` in the middle of a write, on a device that `w` knows.
abbrev Agrees : World → Serial → Type 0
Agrees w s = (w.device ≡ some s.active_write) × Idle s.is_open s.active_write

-- A failure that keeps the stream open has no effect on it.
abbrev Harmless : (offset : ℕ) → TransportError → (count : ℕ) → Type 0
Harmless offset e count = (offset == 0 && e.stream_reusable && not (count == 0)) ≡ false

failure-IsFramed :
    (texts : Texts) (w : World) (r : WriteRequest) (s : Serial) (kind : WriteKind) (offset : ℕ)
    (e : TransportError) (count : ℕ)
    → Agrees w s
    → Harmless offset e count
    → IsFramed (heard w r count (close_after_write_failure texts s kind offset e))
unfolding close_after_write_failure
failure-IsFramed texts w r s kind offset e count v h = ground arith

reject-Harmless :
    (texts : Texts) (e : SerialError) (offset leaked : ℕ)
    → Harmless offset (zero_effect_write_error texts e offset) (stream_took (rejects e) leaked)
reject-Harmless texts e offset leaked = ground arith

none-Harmless : (e : TransportError) (offset : ℕ) → Harmless offset e 0
none-Harmless e offset = ground arith

overrun-Harmless : (offset count : ℕ) → Harmless offset overrun_error count
overrun-Harmless offset count = ground arith

progress-IsFramed :
    (w : World) (r : WriteRequest) (s : Serial) (answers : Answers) (written : ℕ)
    → Agrees w s
    → s.is_open ≡ true
    → follows s.active_write r (r.context.total_len - length r.bytes) ≡ true
    → length r.bytes ≤ r.context.total_len
    → written ≤ length r.bytes
    → (written == 0) ≡ false
    → IsFramed (
        heard w r written
          (record_progress s r answers (r.context.total_len - length r.bytes + written) written))
progress-IsFramed w r s answers zero v o f fits few some_byte = ground arith
progress-IsFramed w r s answers (suc n) v o f fits few some_byte = ground arith

-- A request that continues what is under way, within its payload.
abbrev Continues : World → WriteRequest → Serial → Type 0
Continues w r s =
    Agrees w s
    × (follows s.active_write r (r.context.total_len - length r.bytes) ≡ true)
    × (length r.bytes ≤ r.context.total_len)

stream_write-IsFramed :
    (texts : Texts) (w : World) (r : WriteRequest) (s : Serial) (answers : Answers)
    (x : StreamWrite) (leaked : ℕ)
    → Continues w r s
    → s.is_open ≡ true
    → IsFramed (
        heard w r
          (stream_took x leaked)
          (after_stream_write texts s r answers (r.context.total_len - length r.bytes) x))
stream_write-IsFramed texts w r s answers (rejects e) leaked v o =
    let offset = r.context.total_len - length r.bytes in
    failure-IsFramed texts w r s r.context.kind offset (zero_effect_write_error texts e offset) _
      v.0 (reject-Harmless texts e offset leaked)
stream_write-IsFramed texts w r s answers (accepts written) leaked v o =
    let offset = r.context.total_len - length r.bytes in
    let failure = failure-IsFramed texts w r s r.context.kind offset in
    elim (Bool-cases (written == 0)) [
      | inl e ↦ rw e (failure (zero_progress_write_error texts offset) written v.0 (ground arith))
      | inr e ↦ elim (Bool-cases (ltb (length r.bytes) written)) [
        | inl f ↦ rw (e, f) (failure overrun_error written v.0 (overrun-Harmless offset written))
        | inr f ↦ rw (e, f) (progress-IsFramed w r s answers written v.0 o v.1 v.2 (ground arith) e)
      ]
    ]

abbrev needs_discard : Serial → WriteRequest → Bool
needs_discard s r =
    is_command r.context.kind && not (is_prepared s.prepared_command_sequence r.context.sequence)

discarded-IsFramed :
    (texts : Texts) (w : World) (r : WriteRequest) (s : Serial) (answers : Answers)
    (x : Option SerialError) (leaked : ℕ)
    → Continues w r s
    → s.is_open ≡ true
    → IsFramed (
        heard w r
          (if is_some x then 0 else stream_took answers.stream_write leaked)
          (discarded texts s r answers (r.context.total_len - length r.bytes) x))
discarded-IsFramed texts w r s answers (some e) leaked v o =
    let offset = r.context.total_len - length r.bytes in
    let f = zero_effect_write_error texts e offset in
    failure-IsFramed texts w r s r.context.kind offset f 0 v.0 (none-Harmless f offset)
discarded-IsFramed texts w r s answers none leaked v o =
    let prepared = record s { prepared_command_sequence = some r.context.sequence } in
    stream_write-IsFramed texts w r prepared answers answers.stream_write leaked v o

-- What the stream takes of a write that nothing has interrupted.
abbrev open_took : Serial → WriteRequest → Answers → (leaked : ℕ) → ℕ
open_took s r answers leaked =
    if s.is_open && not (needs_discard s r && is_some answers.discard_input)
    then stream_took answers.stream_write leaked
    else 0

open-IsFramed :
    (texts : Texts) (w : World) (r : WriteRequest) (s : Serial) (answers : Answers) (leaked : ℕ)
    → Continues w r s
    → IsFramed (
        heard w r
          (open_took s r answers leaked)
          (write_open texts s r answers (r.context.total_len - length r.bytes)))
open-IsFramed texts w r s answers leaked v =
    let offset = r.context.total_len - length r.bytes in
    let heard_as = λ (n : ℕ) (out : Serial × Written). IsFramed (heard w r n out) in
    elim (Bool-cases s.is_open) [
      | inr o ↦
          let same : write_open texts s r answers offset
              ≡ close_after_write_failure texts s r.context.kind offset not_open_error =
            rw o refl in
          let quiet : open_took s r answers leaked ≡ 0 = rw o refl in
          rw (same, quiet)
            (failure-IsFramed texts w r s r.context.kind offset not_open_error 0 v.0
              (none-Harmless not_open_error offset))
      | inl o ↦ elim (Bool-cases (needs_discard s r)) [
        | inr c ↦
            let same : write_open texts s r answers offset
                ≡ after_stream_write texts s r answers offset answers.stream_write =
              rw (o, c) refl in
            let all : open_took s r answers leaked ≡ stream_took answers.stream_write leaked =
              rw (o, c) refl in
            rw (same, all)
              (stream_write-IsFramed texts w r s answers answers.stream_write leaked v o)
        | inl c ↦
            let same : write_open texts s r answers offset
                ≡ discarded texts s r answers offset answers.discard_input =
              rw (o, c) refl in
            let all : open_took s r answers leaked ≡ (
                if is_some answers.discard_input
                then 0
                else stream_took answers.stream_write leaked) =
              rw (o, c) (ground arith) in
            rw (same, all) (discarded-IsFramed texts w r s answers answers.discard_input leaked v o)
      ]
    ]

uninterrupted-IsFramed :
    (texts : Texts) (w : World) (r : WriteRequest) (s : Serial) (answers : Answers)
    (x : Option SerialError) (leaked : ℕ)
    → Continues w r s
    → IsFramed (
        heard w r
          (if is_some x then 0 else open_took s r answers leaked)
          (uninterrupted texts s r answers (r.context.total_len - length r.bytes) x))
uninterrupted-IsFramed texts w r s answers (some e) leaked v =
    let offset = r.context.total_len - length r.bytes in
    let f = zero_effect_write_error texts e offset in
    failure-IsFramed texts w r s r.context.kind offset f 0 v.0 (none-Harmless f offset)
uninterrupted-IsFramed texts w r s answers none leaked v =
    open-IsFramed texts w r s answers leaked v

write-IsFramed :
    (texts : Texts) (w : World) (r : WriteRequest) (answers : Answers) (leaked : ℕ)
    → IsFramed w
    → IsFramed (heard w r (took w.serial r answers leaked) (write texts w.serial r answers))
unfolding write
write-IsFramed texts w r answers leaked v =
    let offset = r.context.total_len - length r.bytes in
    elim (Bool-cases (r.context.total_len == 0 || length r.bytes == 0)) [
      | inl e ↦ rw e (ground arith)
      | inr e ↦ elim (Bool-cases (ltb r.context.total_len (length r.bytes))) [
        | inl f ↦ rw (e, f) (ground arith)
        | inr f ↦ elim (Bool-cases (follows w.serial.active_write r offset)) [
          | inl c ↦
              let count : took w.serial r answers leaked ≡ (
                  if is_some answers.interruption then 0 else open_took w.serial r answers leaked) =
                rw (e, f, c) (ground arith) in
              rw count (
                rw (e, f, c)
                  (uninterrupted-IsFramed texts w r w.serial answers answers.interruption leaked
                    ((v.agreed, v.idle), c, ground arith)))
          | inr c ↦ rw (e, f, c) (ground arith)
        ]
      ]
    ]

step-IsFramed : (texts : Texts) (c : Call) (w : World) → IsFramed w → IsFramed (step texts c w)
unfolding step handshake
step-IsFramed texts (writes r answers leaked) w v = write-IsFramed texts w r answers leaked v
step-IsFramed texts (handshakes b) w v = ground arith
step-IsFramed texts closes w v = ground arith

run_from-IsFramed :
    (texts : Texts) (cs : List Call) (w : World) → IsFramed w → IsFramed (run texts cs w)
unfolding run
run_from-IsFramed texts [] w v = v
run_from-IsFramed texts (c ∷ cs) w v =
    run_from-IsFramed texts cs (step texts c w) (step-IsFramed texts c w v)

-- Over any handshakes, writes and closes, whatever the stream answers and whatever a write that fails leaves of its bytes
-- on it, unless the stream has proved that there are none: a device that follows the bytes that an open stream has taken
-- sees whole payloads one after the other, each continued by its own writes alone and none overrun, and the transport
-- knows the payload that is under way; a closed transport knows none.
pub run-IsFramed : (texts : Texts) (cs : List Call) → IsFramed (run texts cs unopened)
run-IsFramed texts cs = run_from-IsFramed texts cs unopened (record { agreed = refl; idle = refl })
