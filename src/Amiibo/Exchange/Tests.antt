-- ===== src/Amiibo/Exchange/Tests.antt =====
-- session.rs: an exchange on a lane that plays a list of replies.
use easycon_sdk.Common.{ℕ, ◌+◌, ◌<◌, ◌≡◌, ◌≢◌, refl, Bool, true, false, none, List, [], ◌∷◌, arith}
use easycon_sdk.Transport.{timeout, new_transport_error}
use easycon_sdk.Amiibo.{reset_command}
use easycon_sdk.Amiibo.Exchange.{AckReply, ack_frame, ack_error, Lane, World, waits, exchange_ack}
use easycon_sdk.Amiibo.Exchange.Acknowledged.{
  Answers, Drains, exchange_ack-acknowledged, exchange_ack-waits,
}

abbrev next_reply : List AckReply → List AckReply × AckReply
next_reply [] = ([], ack_error (new_transport_error timeout "no reply"))
next_reply (r ∷ rs) = (rs, r)

abbrev played : Lane (List AckReply)
played = record {
  now_ns = λ s. (0, s);
  is_cancelling = λ s. false;
  token_is_cancelled = λ s. false;
  request_cancel = λ reason s. s;
  write_payload = λ s now command. (s, none);
  wait_for_ack = λ s request. next_reply s;
  publish_late_ignored = λ s. s;
}

-- A late frame of exchange 6, and the reply of exchange 7.
abbrev late_then_own : World (List AckReply)
late_then_own = record { state = ack_frame 6 0xff ∷ ack_frame 7 0x80 ∷ []; next_ack_generation = 7 }

exchange_ack-acknowledged_example :
    Answers played 7 0x80
    × ((exchange_ack 5 played late_then_own reset_command 0x80 50 none).0.next_ack_generation
        ≡ 7 + 1)
exchange_ack-acknowledged_example =
    exchange_ack-acknowledged 5 played late_then_own reset_command 0x80 50 none
      (unfold exchange_ack in refl)

-- A lane with one late frame, or none.
abbrev reply_once : Bool → Bool × AckReply
reply_once true = (false, ack_frame 6 0xff)
reply_once false = (false, ack_error (new_transport_error timeout "no reply"))

abbrev once_late : Lane Bool
once_late = record {
  now_ns = λ s. (0, s);
  is_cancelling = λ s. false;
  token_is_cancelled = λ s. false;
  request_cancel = λ reason s. s;
  write_payload = λ s now command. (s, none);
  wait_for_ack = λ s request. reply_once s;
  publish_late_ignored = λ s. s;
}

abbrev late_frames : Bool → ℕ
late_frames true = 1
late_frames false = 0

once_late-Drains : Drains once_late late_frames
once_late-Drains true s' request g b e h = ground arith
once_late-Drains false s' request g b e h = ground arith

late_frames-lt : (s : Bool) → late_frames s < 5
late_frames-lt true = omega arith
late_frames-lt false = omega arith

exchange_ack-waits_example :
    (exchange_ack 5 once_late
      (record { state = true; next_ack_generation = 7 })
      reset_command
      0x80
      50
      none).1
    ≢ waits
exchange_ack-waits_example =
    exchange_ack-waits 5 once_late (record { state = true; next_ack_generation = 7 }) reset_command
      0x80 50 none late_frames once_late-Drains late_frames-lt
