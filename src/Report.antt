-- ===== src/Report.antt =====
-- crates/easycon-controller/src/protocol.rs: the report of the desired inputs and its encoding, and
-- `ControllerAction::apply` of session.rs. A u8, u16 or u64 is a number with its wrap-around written
-- out; the packet of eight bytes is a list of eight, written by index.
pub mod Buttons
pub mod Encode
pub mod RoundTrip
pub mod Actions
mod Tests
use Prim.Native.Nat.{bit_and, bit_or}
use easycon_sdk.Common.{
  ℕ, zero, suc, ◌+◌, ◌-◌, ◌*◌, ◌/◌, ◌%◌, ◌^◌, Bool, true, false, ◌&&◌, List, [], ◌∷◌, ◌==◌, leb,
  set, get_or, replicate,
}
use easycon_sdk.Model.Controller.{Button, mask, Hat, center, hat_value, StickPosition, stick_center}

pub record SwitchReport : Type 0 where
  pub buttons : ℕ  -- u16
  pub hat : Hat
  pub left_stick : StickPosition
  pub right_stick : StickPosition

abbrev pub neutral : SwitchReport
neutral = record {
  buttons = 0;
  hat = center;
  left_stick = stick_center;
  right_stick = stick_center;
}

unfoldable pub press : SwitchReport → Button → SwitchReport
press s k = record s { buttons = bit_or s.buttons (mask k) }

-- `!mask` of a u16 is 65535 - mask.
unfoldable pub release : SwitchReport → Button → SwitchReport
release s k = record s { buttons = bit_and s.buttons (65535 - mask k) }

unfoldable pub set_hat : SwitchReport → Hat → SwitchReport
set_hat s h = record s { hat = h }

unfoldable pub set_left_stick : SwitchReport → StickPosition → SwitchReport
set_left_stick s p = record s { left_stick = p }

unfoldable pub set_right_stick : SwitchReport → StickPosition → SwitchReport
set_right_stick s p = record s { right_stick = p }

unfoldable pub reset : SwitchReport → SwitchReport
reset s = neutral

unfoldable pub is_neutral : SwitchReport → Bool
unfolding hat_value
is_neutral s =
    s.buttons == 0
    && hat_value s.hat == hat_value center
    && s.left_stick.x_axis == 128
    && s.left_stick.y_axis == 128
    && s.right_stick.x_axis == 128
    && s.right_stick.y_axis == 128

-- The seven source bytes: `(buttons >> 8) as u8`, `buttons as u8`, and so on.
unfoldable pub serialized : SwitchReport → List ℕ
serialized s =
    (s.buttons / 2 ^ 8 % 2 ^ 8)
    ∷ (s.buttons % 2 ^ 8)
    ∷ hat_value s.hat
    ∷ s.left_stick.x_axis
    ∷ s.left_stick.y_axis
    ∷ s.right_stick.x_axis
    ∷ s.right_stick.y_axis
    ∷ []

-- The variables of the loops of `encode`.
pub record EncodeState : Type 0 where
  pub packet : List ℕ
  pub packet_index : ℕ
  pub accumulator : ℕ  -- u64
  pub bit_count : ℕ

-- The body of the inner loop.
unfoldable pub drain_one : EncodeState → EncodeState
drain_one s =
    let count = s.bit_count - 7 in
    record {
      packet = set s.packet s.packet_index (s.accumulator / 2 ^ count % 2 ^ 8);
      packet_index = s.packet_index + 1;
      accumulator = bit_and s.accumulator (2 ^ count - 1);
      bit_count = count;
    }

-- `while bit_count >= 7`. The count falls in each round, so the count itself is enough fuel.
unfoldable pub drain : ℕ → EncodeState → EncodeState
unfolding drain_one
drain zero s = s
drain (suc fuel) s = elim (leb 7 s.bit_count) [ true ↦ drain fuel (drain_one s) | false ↦ s ]

-- The body of the outer loop.
unfoldable pub feed : EncodeState → ℕ → EncodeState
unfolding drain
feed s byte =
    let count = s.bit_count + 8 in
    drain count
      (record s { accumulator = bit_or (s.accumulator * 2 ^ 8 % 2 ^ 64) byte; bit_count = count })

unfoldable pub feed_all : EncodeState → List ℕ → EncodeState
feed_all s [] = s
feed_all s (byte ∷ rest) = feed_all (feed s byte) rest

abbrev pub encode_start : EncodeState
encode_start = record { packet = replicate 8 0; packet_index = 0; accumulator = 0; bit_count = 0 }

-- The marker of the last byte.
abbrev pub mark_last : List ℕ → List ℕ
mark_last packet = set packet 7 (bit_or (get_or packet 7 0) 0x80)

unfoldable pub encode : SwitchReport → List ℕ
encode s = mark_last (feed_all encode_start (serialized s)).packet
