-- ===== src/Amiibo.antt =====
-- crates/easycon-controller/src/amiibo.rs: the limits of a device and the commands of the Amiibo
-- protocol. Slots are u8, counts u16 and lengths usize.
pub mod Commands
pub mod Exchange
pub mod Save
mod Tests
use Prim.Native.Nat.{bit_and}
use easycon_sdk.Common.{ℕ, ◌/◌, ◌%◌, ◌^◌, ◌||◌, List, [], ◌∷◌, ltb, leb, ◌==◌, if◌then◌else◌}
use easycon_sdk.Model.Error.{Result, ok, err, validation_error}

abbrev pub amiibo_chunk_size : ℕ
amiibo_chunk_size = 20

abbrev pub amiibo_protocol_max_bytes : ℕ
amiibo_protocol_max_bytes = 16_384

abbrev pub amiibo_ready : ℕ
amiibo_ready = 0xa5

abbrev pub amiibo_save : ℕ
amiibo_save = 0x90

abbrev pub amiibo_select : ℕ
amiibo_select = 0x91

pub record AmiiboLimits : Type 0 where
  pub slot_count : ℕ
  pub maximum_data_len : ℕ

-- `AmiiboLimits::new`.
unfoldable pub new_limits : ℕ → ℕ → Result AmiiboLimits
new_limits slot_count maximum_data_len =
    if slot_count == 0 || ltb 256 slot_count
    then err (validation_error "Amiibo slot count must be in 1..=256")
    else if maximum_data_len == 0 || ltb amiibo_protocol_max_bytes maximum_data_len
    then err (validation_error "Amiibo maximum data length must be in 1..=16384")
    else ok (record { slot_count = slot_count; maximum_data_len = maximum_data_len })

unfoldable pub validate_slot : AmiiboLimits → ℕ → Result (Unit {0})
validate_slot limits slot =
    if leb limits.slot_count slot
    then err (validation_error "Amiibo slot exceeds the explicit limit")
    else ok tt

unfoldable pub validate_data : AmiiboLimits → ℕ → Result (Unit {0})
validate_data limits data_len =
    if data_len == 0
    then err (validation_error "Amiibo save data must be non-empty")
    else if ltb limits.maximum_data_len data_len
    then err (validation_error "Amiibo save data exceeds the explicit device limit")
    else ok tt

-- The casts to u8 are written out.
unfoldable pub save_header : ℕ → ℕ → ℕ → List ℕ
save_header slot offset length =
    amiibo_ready
    ∷ (bit_and offset 0x7f % 2 ^ 8)
    ∷ (offset / 2 ^ 7 % 2 ^ 8)
    ∷ (bit_and length 0x7f % 2 ^ 8)
    ∷ (length / 2 ^ 7 % 2 ^ 8)
    ∷ slot
    ∷ amiibo_save
    ∷ []

unfoldable pub select_command : ℕ → List ℕ
select_command slot = amiibo_ready ∷ slot ∷ amiibo_select ∷ []

abbrev pub reset_command : List ℕ
reset_command = amiibo_ready ∷ 0x81 ∷ amiibo_ready ∷ 0x81 ∷ amiibo_ready ∷ 0x81 ∷ []
