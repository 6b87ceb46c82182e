-- ===== src/Amiibo/Save/Delivered.antt =====
-- session.rs, `handle_amiibo_save`: what a receiver holds that is told only the acknowledged commands.
use mathlib.Core.Path.{subst}
use easycon_sdk.Common.{
  inl, inr, Bool-cases, ℕ, zero, suc, ◌+◌, ◌≡◌, ◌==◌, ◌&&◌, Option, none, some, List, [], ◌++◌,
  length, if◌then◌else◌, arith,
}
use easycon_sdk.Transport.{TransportError, is_retryable_amiibo_error}
use easycon_sdk.Amiibo.{reset_command}
use easycon_sdk.Amiibo.Commands.{read_header}
use easycon_sdk.Amiibo.Exchange.{Exchanged, acknowledged, panics, waits, rejected}
use easycon_sdk.Amiibo.Save.{
  AmiiboSaveOptions, Port, amiibo_ack, if_acknowledged, try_chunk, if_retryable, reset_chunk,
  save_chunk,
}

-- A receiver: the bytes it holds, and the header whose payload it expects. It takes a payload only at
-- its end, and only of the announced length.
pub record Receiver : Type 0 where
  pub image : List ℕ
  pub expects : Option (ℕ × ℕ × ℕ)

abbrev pub empty : Receiver
empty = record { image = []; expects = none }

abbrev payload : Receiver → List ℕ → Option (ℕ × ℕ × ℕ) → Receiver
payload r command none = record r { expects = read_header command }
payload r command (some (slot, offset, len)) = record {
  image = if offset == length r.image && len == length command then r.image ++ command else r.image;
  expects = none;
}

abbrev hear : Receiver → List ℕ → Exchanged → Receiver
hear r command acknowledged = payload r command r.expects
hear r command outcome = record r { expects = none }

-- The lane's port, with the receiver beside its state.
abbrev told : {S : Type 0} → Receiver → List ℕ → S × Exchanged → (S × Receiver) × Exchanged
told r command (s, outcome) = ((s, hear r command outcome), outcome)

abbrev pub heard : {S : Type 0} → Port S → Port (S × Receiver)
heard port = record {
  exchange = λ w command expected_reply timeout_ns.
      told w.1 command (port.exchange w.0 command expected_reply timeout_ns);
  publish = λ w event. (port.publish w.0 event, w.1);
}

-- The receiver's bytes after the outcome, from `image` on.
abbrev pub grown : List ℕ → List ℕ → Exchanged → List ℕ
grown image chunk acknowledged = image ++ chunk
grown image chunk _ = image

abbrev pub Grows : {S : Type 0} → List ℕ → List ℕ → (S × Receiver) × Exchanged → Type 0
Grows image chunk ((s, r), outcome) = (r.expects ≡ none) × (r.image ≡ grown image chunk outcome)

told-Grows :
    {S : Type 0} (slot : ℕ) (r : Receiver) (chunk : List ℕ) (second : S × Exchanged)
    → r.expects ≡ some (slot, length r.image, length chunk)
    → Grows r.image chunk (told r chunk second)
told-Grows slot r chunk (s, acknowledged) e = ground arith
told-Grows slot r chunk (s, panics) e = ground arith
told-Grows slot r chunk (s, waits) e = ground arith
told-Grows slot r chunk (s, rejected x) e = ground arith

tried-Grows :
    {S : Type 0} (slot : ℕ) (r : Receiver) (header chunk : List ℕ) (first : S × Exchanged)
    (second : S → S × Exchanged)
    → r.expects ≡ none
    → read_header header ≡ some (slot, length r.image, length chunk)
    → Grows r.image chunk (if_acknowledged (told r header first) (λ w. told w.1 chunk (second w.0)))
tried-Grows slot r header chunk (s, acknowledged) second e h =
    rw e (told-Grows slot (record r { expects = read_header header }) chunk (second s) h)
tried-Grows slot r header chunk (s, panics) second e h = ground arith
tried-Grows slot r header chunk (s, waits) second e h = ground arith
tried-Grows slot r header chunk (s, rejected x) second e h = ground arith

reset-Grows :
    {S : Type 0} (r : Receiver) (image chunk : List ℕ) (third : S × Exchanged)
    (next : S × Receiver → (S × Receiver) × Exchanged)
    → r.expects ≡ none
    → r.image ≡ image
    → ((s : S) (q : Receiver)
        → q.expects ≡ none
        → q.image ≡ image
        → Grows image chunk (next (s, q)))
    → Grows image chunk (if_acknowledged (told r reset_command third) next)
reset-Grows r image chunk (s, acknowledged) next e f grows =
    grows s (payload r reset_command r.expects) (ground arith) (ground arith)
reset-Grows r image chunk (s, panics) next e f grows = ground arith
reset-Grows r image chunk (s, waits) next e f grows = ground arith
reset-Grows r image chunk (s, rejected x) next e f grows = ground arith

retried-Grows :
    {S : Type 0} (image chunk : List ℕ) (first : (S × Receiver) × Exchanged)
    (again : S × Receiver → TransportError → (S × Receiver) × Exchanged)
    → Grows image chunk first
    → ((s : S) (q : Receiver) (x : TransportError)
        → q.expects ≡ none
        → q.image ≡ image
        → Grows image chunk (again (s, q) x))
    → Grows image chunk (if_retryable first again)
retried-Grows image chunk ((s, r), acknowledged) again v grows = v
retried-Grows image chunk ((s, r), panics) again v grows = v
retried-Grows image chunk ((s, r), waits) again v grows = v
retried-Grows image chunk ((s, r), rejected x) again v grows =
    elim (Bool-cases (is_retryable_amiibo_error x)) [
      | inl e ↦ rw e (grows s r x v.0 v.1)
      | inr e ↦ rw e v
    ]

try_chunk-Grows :
    {S : Type 0} (port : Port S) (options : AmiiboSaveOptions) (slot : ℕ)
    (header chunk image : List ℕ) (s : S) (r : Receiver)
    → read_header header ≡ some (slot, length image, length chunk)
    → r.expects ≡ none
    → r.image ≡ image
    → Grows image chunk (try_chunk (heard port) options (s, r) header chunk)
try_chunk-Grows {S} port options slot header chunk image s r h e f =
    let exchange : S → List ℕ → S × Exchanged =
      λ s' command. port.exchange s' command amiibo_ack options.ack_timeout_ns in
    subst (λ i. Grows i chunk (try_chunk (heard port) options (s, r) header chunk)) f
      (tried-Grows slot r header chunk (exchange s header) (λ s'. exchange s' chunk) e (rw f h))

pub save_chunk-Grows :
    {S : Type 0} (port : Port S) (options : AmiiboSaveOptions) (slot offset : ℕ)
    (header chunk image : List ℕ) (left retries : ℕ) (s : S) (r : Receiver)
    → read_header header ≡ some (slot, length image, length chunk)
    → r.expects ≡ none
    → r.image ≡ image
    → Grows image chunk (save_chunk (heard port) options offset header chunk left retries (s, r))
unfolding save_chunk
save_chunk-Grows port options slot offset header chunk image zero retries s r h e f =
    try_chunk-Grows port options slot header chunk image s r h e f
save_chunk-Grows port options slot offset header chunk image (suc left) retries s r h e f =
    retried-Grows image chunk (try_chunk (heard port) options (s, r) header chunk)
      (λ w x.
        if_acknowledged (reset_chunk (heard port) options offset (retries + 1) w x)
          (save_chunk (heard port) options offset header chunk left (retries + 1)))
      (try_chunk-Grows port options slot header chunk image s r h e f)
      (λ s' q x e' f'.
        reset-Grows q image chunk (reset_chunk port options offset (retries + 1) s' x)
          (save_chunk (heard port) options offset header chunk left (retries + 1)) e' f'
          (λ s'' q' e'' f''.
            save_chunk-Grows port options slot offset header chunk image left (retries + 1) s'' q' h
              e'' f''))
