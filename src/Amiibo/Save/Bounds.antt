-- ===== src/Amiibo/Save/Bounds.antt =====
-- session.rs, `handle_amiibo_save`: how many exchanges a save makes, and that it succeeds.
use easycon_sdk.Common.{
  ℕ, zero, suc, ◌+◌, ◌*◌, ◌≤◌, ◌≡◌, List, [], ◌∷◌, length, arith, inl, inr, Bool-cases,
}
use easycon_sdk.Transport.{TransportError, is_retryable_amiibo_error}
use easycon_sdk.Amiibo.{save_header}
use easycon_sdk.Amiibo.Exchange.{Exchanged, acknowledged, panics, waits, rejected}
use easycon_sdk.Amiibo.Save.{
  AmiiboSaveOptions, chunk_accepted, Port, amiibo_ack, if_acknowledged, if_retryable, try_chunk,
  reset_chunk, save_chunk, Saved, after_chunk, save_chunks, save_data, chunks_of,
}

-- The lane's port, with a count of its exchanges beside its state.
abbrev pub counted : {S : Type 0} → Port S → Port (S × ℕ)
counted port = record {
  exchange = λ w command expected_reply timeout_ns.
      let (s, outcome) = port.exchange w.0 command expected_reply timeout_ns in
      ((s, w.1 + 1), outcome);
  publish = λ w event. (port.publish w.0 event, w.1);
}

abbrev AtMost : {S E : Type 0} → ℕ → (S × ℕ) × E → Type 0
AtMost bound ((s, n), outcome) = n ≤ bound

weaken :
    {S E : Type 0} {bound total : ℕ} (done : (S × ℕ) × E)
    → bound ≤ total
    → AtMost bound done
    → AtMost total done
weaken ((s, n), outcome) h v = omega (arith, h, v)

if_acknowledged-AtMost :
    {S : Type 0} (bound total : ℕ) (first : (S × ℕ) × Exchanged)
    (next : S × ℕ → (S × ℕ) × Exchanged)
    → bound ≤ total
    → AtMost bound first
    → ((s : S) (n : ℕ) → n ≤ bound → AtMost total (next (s, n)))
    → AtMost total (if_acknowledged first next)
if_acknowledged-AtMost bound total ((s, n), acknowledged) next h v more = more s n v
if_acknowledged-AtMost bound total ((s, n), panics) next h v more = omega (arith, h, v)
if_acknowledged-AtMost bound total ((s, n), waits) next h v more = omega (arith, h, v)
if_acknowledged-AtMost bound total ((s, n), rejected e) next h v more = omega (arith, h, v)

if_retryable-AtMost :
    {S : Type 0} (bound total : ℕ) (first : (S × ℕ) × Exchanged)
    (again : S × ℕ → TransportError → (S × ℕ) × Exchanged)
    → bound ≤ total
    → AtMost bound first
    → ((s : S) (n : ℕ) (e : TransportError) → n ≤ bound → AtMost total (again (s, n) e))
    → AtMost total (if_retryable first again)
if_retryable-AtMost bound total ((s, n), acknowledged) again h v more = omega (arith, h, v)
if_retryable-AtMost bound total ((s, n), panics) again h v more = omega (arith, h, v)
if_retryable-AtMost bound total ((s, n), waits) again h v more = omega (arith, h, v)
if_retryable-AtMost bound total ((s, n), rejected e) again h v more =
    elim (Bool-cases (is_retryable_amiibo_error e)) [
      | inl r ↦ rw r (more s n e v)
      | inr r ↦ rw r (omega (arith, h, v))
    ]

try_chunk-AtMost :
    {S : Type 0} (port : Port S) (options : AmiiboSaveOptions) (header chunk : List ℕ) (s : S)
    (n : ℕ)
    → AtMost (n + 2) (try_chunk (counted port) options (s, n) header chunk)
try_chunk-AtMost port options header chunk s n =
    if_acknowledged-AtMost (n + 1) (n + 2)
      ((counted port).exchange (s, n) header amiibo_ack options.ack_timeout_ns)
      (λ w. (counted port).exchange w chunk amiibo_ack options.ack_timeout_ns) (omega arith)
      (omega arith) (λ s' m h. omega (arith, h))

-- The exchanges of a chunk that has `left` retries left.
save_chunk-AtMost :
    {S : Type 0} (port : Port S) (options : AmiiboSaveOptions) (offset : ℕ) (header chunk : List ℕ)
    (left retries : ℕ) (s : S) (n : ℕ)
    → AtMost
        (n + (2 + 3 * left))
        (save_chunk (counted port) options offset header chunk left retries (s, n))
unfolding save_chunk
save_chunk-AtMost port options offset header chunk zero retries s n =
    try_chunk-AtMost port options header chunk s n
save_chunk-AtMost port options offset header chunk (suc left) retries s n =
    let total = n + (2 + 3 * suc left) in
    let rest = save_chunk (counted port) options offset header chunk left (retries + 1) in
    if_retryable-AtMost (n + 2) total (try_chunk (counted port) options (s, n) header chunk)
      (λ w e. if_acknowledged (reset_chunk (counted port) options offset (retries + 1) w e) rest)
      (omega arith) (try_chunk-AtMost port options header chunk s n)
      (λ s' m e h.
        if_acknowledged-AtMost (m + 1) total
          (reset_chunk (counted port) options offset (retries + 1) (s', m) e) rest
          (omega (arith, h)) (omega arith)
          (λ s'' k h'.
            weaken (rest (s'', k)) (omega (arith, h, h'))
              (save_chunk-AtMost port options offset header chunk left (retries + 1) s'' k)))

after_chunk-AtMost :
    {S : Type 0} (index bound total : ℕ) (done : (S × ℕ) × Exchanged)
    (next : S × ℕ → (S × ℕ) × Saved)
    → bound ≤ total
    → AtMost bound done
    → ((s : S) (n : ℕ) → n ≤ bound → AtMost total (next (s, n)))
    → AtMost total (after_chunk index done next)
after_chunk-AtMost index bound total ((s, n), acknowledged) next h v more = more s n v
after_chunk-AtMost index bound total ((s, n), panics) next h v more = omega (arith, h, v)
after_chunk-AtMost index bound total ((s, n), waits) next h v more = omega (arith, h, v)
after_chunk-AtMost index bound total ((s, n), rejected e) next h v more = omega (arith, h, v)

next-each : (count each : ℕ) → suc count * each ≡ each + count * each
next-each count each = omega arith

save_chunks-AtMost :
    {S : Type 0} (port : Port S) (options : AmiiboSaveOptions) (slot index : ℕ)
    (chunks : List (List ℕ)) (s : S) (n : ℕ)
    → AtMost
        (n + length chunks * (2 + 3 * options.maximum_chunk_retries))
        (save_chunks (counted port) options slot index chunks (s, n))
unfolding save_chunks
save_chunks-AtMost port options slot index [] s n = omega arith
save_chunks-AtMost {S} port options slot index (chunk ∷ chunks) s n =
    let offset = index * 20 in
    let each = 2 + 3 * options.maximum_chunk_retries in
    let more = next-each (length chunks) each in
    let header = save_header slot offset (length chunk) in
    let next : S × ℕ → (S × ℕ) × Saved = λ w.
      save_chunks (counted port) options slot (index + 1) chunks
        ((counted port).publish w (chunk_accepted offset (length chunk))) in
    after_chunk-AtMost index (n + each) (n + length (chunk ∷ chunks) * each)
      (save_chunk (counted port) options offset header chunk options.maximum_chunk_retries 0 (s, n))
      next (omega (arith, more))
      (save_chunk-AtMost port options offset header chunk options.maximum_chunk_retries 0 s n)
      (λ s' m h. weaken (next (s', m)) (omega (arith, more, h)) (
        save_chunks-AtMost port options slot (index + 1) chunks
          (port.publish s' (chunk_accepted offset (length chunk))) m))

-- Whatever the transport answers, a save makes at most 2 + 3 * `maximum_chunk_retries` exchanges for each
-- of its chunks.
pub save_data-AtMost :
    {S : Type 0} (port : Port S) (options : AmiiboSaveOptions) (slot : ℕ) (data_bytes : List ℕ)
    (s : S)
    → (save_data (counted port) options slot data_bytes (s, 0)).0.1
      ≤ length (chunks_of data_bytes) * (2 + 3 * options.maximum_chunk_retries)
unfolding save_data
save_data-AtMost port options slot data_bytes s =
    weaken (save_chunks (counted port) options slot 0 (chunks_of data_bytes) (s, 0)) (omega arith)
      (save_chunks-AtMost port options slot 0 (chunks_of data_bytes) s 0)
