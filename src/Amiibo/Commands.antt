-- ===== src/Amiibo/Commands.antt =====
-- amiibo.rs: what the limits admit, and what a receiver reads from a save header.
use easycon_sdk.Common.{
  ℕ, ◌+◌, ◌*◌, ◌≤◌, ◌<◌, ◌≡◌, ◌↔◌, List, [], ◌∷◌, Option, none, some, arith, All, ◌==◌,
  if◌then◌else◌, ◌&&◌,
}
use easycon_sdk.Common.Bits.{bit_and-eq-mod}
use easycon_sdk.Model.Error.{ok}
use easycon_sdk.Amiibo.{
  AmiiboLimits, amiibo_ready, amiibo_save, amiibo_protocol_max_bytes, new_limits, validate_slot,
  validate_data, save_header,
}

-- The limits that the protocol can address.
pub record IsLimits (l : AmiiboLimits) : Type 0 where
  pub some_slot : 1 ≤ l.slot_count
  pub few_slots : l.slot_count ≤ 256
  pub some_data : 1 ≤ l.maximum_data_len
  pub little_data : l.maximum_data_len ≤ amiibo_protocol_max_bytes

-- `AmiiboLimits::new` accepts exactly the limits in range, and keeps them.
pub new_limits_iff :
    (slots len : ℕ) (l : AmiiboLimits)
    → (new_limits slots len ≡ ok l)
      ↔ ((l.slot_count ≡ slots) × (l.maximum_data_len ≡ len) × IsLimits l)
unfolding new_limits
new_limits_iff slots len l = (ground arith, ground arith)

-- A receiver of the save header: the slot, the offset and the length.
abbrev pub read_header : List ℕ → Option (ℕ × ℕ × ℕ)
read_header (ready ∷ o0 ∷ o1 ∷ l0 ∷ l1 ∷ slot ∷ command ∷ []) =
    if ready == amiibo_ready && command == amiibo_save
    then some (slot, o0 + 128 * o1, l0 + 128 * l1)
    else none
read_header _ = none

-- A slot and a chunk that the limits admit: every byte of the header is a byte, the offset fits two
-- groups of seven bits, and the receiver reads the slot, the offset and the length back.
pub read_header-save_header :
    (l : AmiiboLimits) (slot offset len data_len : ℕ)
    → IsLimits l
    → validate_slot l slot ≡ ok tt
    → validate_data l data_len ≡ ok tt
    → offset + len ≤ data_len
    → 1 ≤ len
    → (read_header (save_header slot offset len) ≡ some (slot, offset, len))
      × All (λ b. b < 256) (save_header slot offset len)
unfolding validate_slot validate_data save_header
read_header-save_header l slot offset len data_len v hs hd fits some_data =
    ground (arith, bit_and-eq-mod 7 offset, bit_and-eq-mod 7 len)
