-- ===== src/Report/Tests.antt =====
-- protocol.rs: the laws of reports at concrete inputs.
use easycon_sdk.Common.{◌≡◌, arith, some}
use easycon_sdk.Model.Controller.{Hat}
use easycon_sdk.Report.{SwitchReport, encode}
use easycon_sdk.Report.RoundTrip.{IsReport, decode, decode-encode}

abbrev tilted : SwitchReport
tilted = record {
  buttons = 0x2005;
  hat = Hat.bottom_left;
  left_stick = record { x_axis = 0; y_axis = 255 };
  right_stick = record { x_axis = 17; y_axis = 128 };
}

tilted-IsReport : IsReport tilted
tilted-IsReport = omega arith

decode-encode_example : decode (encode tilted) ≡ some tilted
decode-encode_example = decode-encode tilted tilted-IsReport
