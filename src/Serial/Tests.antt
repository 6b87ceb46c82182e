-- ===== src/Serial/Tests.antt =====
-- transport.rs of easycon-serial: a write that fails midway, and a payload in two writes.
use easycon_sdk.Common.{ℕ, ◌≡◌, refl, true, false, none, some, List, [], ◌∷◌}
use easycon_sdk.Serial.{
  WriteContext, report_write, Answers, accepts, rejects, stream_io, Texts, write, handshake,
}
use easycon_sdk.Serial.Device.{Call, writes, handshakes, step, run, unopened, IsFramed}
use easycon_sdk.Serial.Framed.{run-IsFramed}

abbrev quiet : Texts
quiet = record { serial_text = λ e. "serial error"; transport_text = λ e. "transport error" }

abbrev report : WriteContext
report = record {
  resource_id = 1;
  operation_id = some 9;
  sequence = 4;
  timestamp_ns = 70;
  direct_timing = none;
  total_len = 3;
  kind = report_write;
}

abbrev took : ℕ → Answers
took n = record {
  interruption = none;
  discard_input = none;
  stream_write = accepts n;
  is_full_accepted = true;
}

-- A write that fails with a byte on the stream, and no proof of the contrary.
abbrev fails_midway : Answers
fails_midway = record {
  interruption = none;
  discard_input = none;
  stream_write = rejects (record {
    kind = stream_io;
    message = "write failed";
    os_code = none;
    backend_proved_zero_effect = false;
  });
  is_full_accepted = false;
}

abbrev two_parts : List Call
two_parts =
    handshakes true
    ∷ writes (record { context = report; bytes = 7 ∷ 8 ∷ 9 ∷ []; settlement = 1 }) fails_midway 1
    ∷ handshakes true
    ∷ writes (record { context = report; bytes = 7 ∷ 8 ∷ 9 ∷ []; settlement = 2 }) (took 2) 0
    ∷ writes (record { context = report; bytes = 9 ∷ []; settlement = 2 }) (took 1) 0
    ∷ []

run-IsFramed_example : IsFramed (run quiet two_parts unopened)
run-IsFramed_example = run-IsFramed quiet two_parts

-- The stream is still open after the payload.
still_open : (run quiet two_parts unopened).serial.is_open ≡ true
unfolding run step write handshake
still_open = refl
