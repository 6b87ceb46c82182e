-- ===== src/Amiibo/Tests.antt =====
-- amiibo.rs: the laws of limits and of save headers at concrete inputs.
use easycon_sdk.Common.{arith}
use easycon_sdk.Amiibo.{AmiiboLimits}
use easycon_sdk.Amiibo.Commands.{IsLimits}

abbrev ten_slots : AmiiboLimits
ten_slots = record { slot_count = 10; maximum_data_len = 540 }

ten_slots-IsLimits : IsLimits ten_slots
ten_slots-IsLimits = omega arith
