-- ===== src/Amiibo/Save/Tests.antt =====
-- session.rs: saves on a lane that plays a list of replies.
use easycon_sdk.Common.{ℕ, ◌+◌, ◌*◌, ◌≤◌, refl, List, [], ◌∷◌, length, replicate, arith}
use easycon_sdk.Transport.{timeout, new_transport_error}
use easycon_sdk.Amiibo.{AmiiboLimits, validate_slot, validate_data}
use easycon_sdk.Amiibo.Exchange.{Exchanged, acknowledged, rejected}
use easycon_sdk.Amiibo.Save.{default_save_options, Port, chunks_of, save_data}
use easycon_sdk.Amiibo.Save.Delivered.{empty, heard}
use easycon_sdk.Amiibo.Save.Complete.{Holds, Admits, save_data-Holds}
use easycon_sdk.Amiibo.Save.Bounds.{counted, save_data-AtMost}

abbrev next_outcome : List Exchanged → List Exchanged × Exchanged
next_outcome [] = ([], acknowledged)
next_outcome (r ∷ rs) = (rs, r)

abbrev played : Port (List Exchanged)
played = record {
  exchange = λ s command expected_reply timeout_ns. next_outcome s;
  publish = λ s event. s;
}

-- The first payload times out and is sent again after a reset.
abbrev one_timeout : List Exchanged
one_timeout = acknowledged ∷ rejected (new_transport_error timeout "no reply") ∷ []

abbrev ten_slots : AmiiboLimits
ten_slots = record { slot_count = 10; maximum_data_len = 540 }

abbrev figure : List ℕ
figure = replicate 21 7

figure-Admits : Admits ten_slots 3 (length figure)
figure-Admits = unfold validate_slot validate_data in (omega arith, refl, refl)

save_data-Holds_example :
    Holds []
      (chunks_of figure)
      0
      (save_data (heard played) default_save_options 3 figure (one_timeout, empty))
save_data-Holds_example =
    save_data-Holds played default_save_options ten_slots 3 figure one_timeout figure-Admits

save_data-AtMost_example :
    (save_data (counted played) default_save_options 3 figure (one_timeout, 0)).0.1
    ≤ length (chunks_of figure) * (2 + 3 * 1)
save_data-AtMost_example = save_data-AtMost played default_save_options 3 figure one_timeout
