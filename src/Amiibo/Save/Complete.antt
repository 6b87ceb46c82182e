-- ===== src/Amiibo/Save/Complete.antt =====
-- session.rs, `handle_amiibo_save`: what a receiver holds after a save, and after a failed one.
use mathlib.Core.List.{append-nil, append_assoc}
use easycon_sdk.Common.{
  ℕ, suc, ◌+◌, ◌-◌, ◌*◌, ◌≤◌, ◌≡◌, refl, ◌∙◌, sym, ap, List, [], ◌∷◌, ◌++◌, length, length-append,
  take, some, none, arith,
}
use easycon_sdk.Model.Error.{ok}
use easycon_sdk.Amiibo.{AmiiboLimits, validate_slot, validate_data, save_header}
use easycon_sdk.Amiibo.Commands.{IsLimits, read_header, read_header-save_header}
use easycon_sdk.Amiibo.Exchange.{Exchanged, acknowledged, panics, waits, rejected}
use easycon_sdk.Amiibo.Save.{
  AmiiboSaveOptions, chunk_accepted, Port, save_chunk, Saved, succeeded, failed, save_panics,
  save_waits, after_chunk, save_chunks, save_data, chunks_of,
}
use easycon_sdk.Amiibo.Save.Chunks.{concat, IsChunked, chunks_of-concat, chunks_of-IsChunked}
use easycon_sdk.Amiibo.Save.Delivered.{Receiver, empty, heard, Grows, save_chunk-Grows}

-- The receiver's bytes at the end of a save of `chunks` from chunk `index` on, which found `image`.
abbrev pub Holds : {S : Type 0} → List ℕ → List (List ℕ) → ℕ → (S × Receiver) × Saved → Type 0
Holds image chunks index ((s, r), succeeded) = r.image ≡ image ++ concat chunks
Holds image chunks index ((s, r), failed k e) =
    (index ≤ k) × (r.image ≡ image ++ concat (take (k - index) chunks))
Holds image chunks index _ = Unit {0}

-- The next chunk is due at its offset.
abbrev Aligned : List ℕ → List (List ℕ) → ℕ → Type 0
Aligned image [] index = Unit {0}
Aligned image (c ∷ cs) index = length image ≡ index * 20

later-Holds :
    {S : Type 0} (image chunk : List ℕ) (chunks : List (List ℕ)) (index : ℕ)
    (end : (S × Receiver) × Saved)
    → Holds (image ++ chunk) chunks (index + 1) end
    → Holds image (chunk ∷ chunks) index end
later-Holds image chunk chunks index ((s, r), succeeded) v =
    v ∙ append_assoc image chunk (concat chunks)
later-Holds image chunk chunks index ((s, r), failed k e) (le, v) =
    let further : k - index ≡ suc (k - (index + 1)) = omega (arith, le) in
    (
      omega (arith, le),
      rw further (v ∙ append_assoc image chunk (concat (take (k - (index + 1)) chunks))),
    )
later-Holds image chunk chunks index ((s, r), save_panics) v = tt
later-Holds image chunk chunks index ((s, r), save_waits) v = tt

after_chunk-Holds :
    {S : Type 0} (image chunk : List ℕ) (chunks : List (List ℕ)) (index : ℕ)
    (done : (S × Receiver) × Exchanged) (next : S × Receiver → (S × Receiver) × Saved)
    → Grows image chunk done
    → ((s : S) (q : Receiver)
        → q.expects ≡ none
        → q.image ≡ image ++ chunk
        → Holds (image ++ chunk) chunks (index + 1) (next (s, q)))
    → Holds image (chunk ∷ chunks) index (after_chunk index done next)
after_chunk-Holds image chunk chunks index ((s, r), acknowledged) next v holds =
    later-Holds image chunk chunks index (next (s, r)) (holds s r v.0 v.1)
after_chunk-Holds image chunk chunks index ((s, r), panics) next v holds = tt
after_chunk-Holds image chunk chunks index ((s, r), waits) next v holds = tt
after_chunk-Holds image chunk chunks index ((s, r), rejected e) next v holds =
    let here : index - index ≡ 0 = omega arith in
    (omega arith, rw here (v.1 ∙ sym (append-nil image)))

next_offset :
    (image chunk : List ℕ) (chunks : List (List ℕ)) (index : ℕ)
    → IsChunked (chunk ∷ chunks)
    → length image ≡ index * 20
    → Aligned (image ++ chunk) chunks (index + 1)
next_offset image chunk [] index v h = tt
next_offset image chunk (c ∷ cs) index v h = omega (arith, length-append image chunk)

-- A chunk of a chunked list has 1 to 20 bytes.
chunk-length :
    (chunk : List ℕ) (chunks : List (List ℕ))
    → IsChunked (chunk ∷ chunks)
    → (1 ≤ length chunk) × IsChunked chunks
chunk-length chunk [] v = (v.0, tt)
chunk-length chunk (c ∷ cs) v = (omega (arith, v.0), v.1)

-- A slot and a length of data that the limits admit.
abbrev pub Admits : AmiiboLimits → ℕ → ℕ → Type 0
Admits l slot data_len =
    IsLimits l × (validate_slot l slot ≡ ok tt) × (validate_data l data_len ≡ ok tt)

save_chunks-Holds :
    {S : Type 0} (port : Port S) (options : AmiiboSaveOptions) (l : AmiiboLimits)
    (slot data_len index : ℕ) (image : List ℕ) (chunks : List (List ℕ)) (s : S) (r : Receiver)
    → Admits l slot data_len
    → length image + length (concat chunks) ≤ data_len
    → IsChunked chunks
    → Aligned image chunks index
    → r.expects ≡ none
    → r.image ≡ image
    → Holds image chunks index (save_chunks (heard port) options slot index chunks (s, r))
unfolding save_chunks
save_chunks-Holds port options l slot data_len index image [] s r admits fits v a e f =
    f ∙ sym (append-nil image)
save_chunks-Holds port options l slot data_len index image (chunk ∷ chunks) s r admits fits v a e
      f =
    let (some_bytes, rest) = chunk-length chunk chunks v in
    let offset = index * 20 in
    let header = save_header slot offset (length chunk) in
    let both = length-append chunk (concat chunks) in
    let grown = length-append image chunk in
    let decoded : read_header header ≡ some (slot, length image, length chunk) =
      rw a
        (read_header-save_header l slot offset (length chunk) data_len admits.0 admits.1 admits.2
          (omega arith) some_bytes).0 in
    after_chunk-Holds image chunk chunks index
      (save_chunk (heard port) options offset header chunk options.maximum_chunk_retries 0 (s, r))
      (λ w.
        save_chunks (heard port) options slot (index + 1) chunks
          ((heard port).publish w (chunk_accepted offset (length chunk))))
      (save_chunk-Grows port options slot offset header chunk image options.maximum_chunk_retries 0
        s r decoded e f)
      (λ s' q e' f'.
        save_chunks-Holds port options l slot data_len (index + 1) (image ++ chunk) chunks
          (port.publish s' (chunk_accepted offset (length chunk))) q admits (omega arith) rest
          (next_offset image chunk chunks index v a) e' f')

first_offset : (chunks : List (List ℕ)) → Aligned [] chunks 0
first_offset [] = tt
first_offset (c ∷ cs) = refl

-- A slot and data that the limits admit, whatever the transport answers: a receiver that is told only
-- the acknowledged commands, and takes a payload only at its announced place, holds all the data in
-- order after a save that succeeds, and the first `k` chunks of it after one that fails with `k` complete
-- chunks.
pub save_data-Holds :
    {S : Type 0} (port : Port S) (options : AmiiboSaveOptions) (l : AmiiboLimits) (slot : ℕ)
    (data_bytes : List ℕ) (s : S)
    → Admits l slot (length data_bytes)
    → Holds [] (chunks_of data_bytes) 0 (save_data (heard port) options slot data_bytes (s, empty))
unfolding save_data
save_data-Holds port options l slot data_bytes s admits =
    let all = ap length (chunks_of-concat data_bytes) in
    save_chunks-Holds port options l slot (length data_bytes) 0 [] (chunks_of data_bytes) s empty
      admits (omega (arith, all)) (chunks_of-IsChunked data_bytes)
      (first_offset (chunks_of data_bytes)) refl refl
