-- ===== src/Report/RoundTrip.antt =====
-- protocol.rs: a receiver reads back every report that `encode` sends, also from a stream of packets.
use Prim.Native.Nat.{bit_or}
use easycon_sdk.Common.{
  ℕ, zero, suc, ◌+◌, ◌-◌, ◌*◌, ◌/◌, ◌%◌, ◌^◌, ◌≤◌, ◌<◌, ◌≡◌, refl, ap, ◌∙◌, sym, List, [], ◌∷◌,
  ◌++◌, arith, All, Option, none, some, ltb, Bool, true, map, if◌then◌else◌, ◌==◌, ◌&&◌,
}
use mathlib.Core.List.{flatten}
use mathlib.Core.Path.{ap₂}
use easycon_sdk.Model.Controller.{Hat, hat_value, hat_try_from}
use easycon_sdk.Model.Error.{Result, ok, err}
use easycon_sdk.Report.{SwitchReport, serialized, encode, mark_last}
use easycon_sdk.Report.Encode.{spelled, seven_bytes}

-- Two functions that agree on every value below a bound, by evaluation.
below_agrees : (ℕ → ℕ) → (ℕ → ℕ) → ℕ → Bool
below_agrees f g zero = true
below_agrees f g (suc n) = f n == g n && below_agrees f g n

below_agrees_sound : (f g : ℕ → ℕ) (n : ℕ) → below_agrees f g n ≡ true → (i : ℕ) → i < n → f i ≡ g i
unfolding below_agrees
below_agrees_sound f g zero e i h = absurd (omega arith)
below_agrees_sound f g (suc n) e i h = ground (arith, below_agrees_sound f g n (ground arith) i)

-- The ranges of the source's types: a u16 and four u8.
pub record IsReport (s : SwitchReport) : Type 0 where
  pub buttons_fit : s.buttons < 2 ^ 16
  pub left_x_fits : s.left_stick.x_axis < 256
  pub left_y_fits : s.left_stick.y_axis < 256
  pub right_x_fits : s.right_stick.x_axis < 256
  pub right_y_fits : s.right_stick.y_axis < 256

hat_value-lt : (h : Hat) → hat_value h < 9
unfolding hat_value
hat_value-lt Hat.top = omega arith
hat_value-lt _ = omega arith

-- A HAT value names its position.
pub hat_try_from-hat_value : (h : Hat) → hat_try_from (hat_value h) ≡ ok h
unfolding hat_try_from hat_value
hat_try_from-hat_value Hat.top = refl
hat_try_from-hat_value _ = refl

-- The number that the seven bytes of a report spell.
abbrev pub report_number : SwitchReport → ℕ
report_number s =
    s.buttons * 256 ^ 5
    + hat_value s.hat * 256 ^ 4
    + s.left_stick.x_axis * 256 ^ 3
    + s.left_stick.y_axis * 256 ^ 2
    + s.right_stick.x_axis * 256
    + s.right_stick.y_axis

-- The eight digits of seven bits of a number, with the marker on the last.
abbrev pub marked_digits : ℕ → List ℕ
marked_digits n =
    (n / 128 ^ 7 % 128)
    ∷ (n / 128 ^ 6 % 128)
    ∷ (n / 128 ^ 5 % 128)
    ∷ (n / 128 ^ 4 % 128)
    ∷ (n / 128 ^ 3 % 128)
    ∷ (n / 128 ^ 2 % 128)
    ∷ (n / 128 % 128)
    ∷ (n % 128 + 128)
    ∷ []

mark : (d : ℕ) → d < 128 → bit_or d 0x80 ≡ d + 128
unfolding below_agrees
mark = below_agrees_sound (λ d. bit_or d 0x80) (λ d. d + 128) 128 refl

-- For a report in the ranges of its types the bit shuffling of `encode` writes the report's number in
-- base 128, highest digit first, and adds 128 to the last digit.
pub encode-eq-marked_digits :
    (s : SwitchReport) → IsReport s → encode s ≡ marked_digits (report_number s)
unfolding encode serialized
encode-eq-marked_digits s v =
    let b = s.buttons in
    let n = report_number s in
    let small : hat_value s.hat < 256 = omega (arith, hat_value-lt s.hat) in
    let spells : spelled 256 0 (serialized s) ≡ n = omega arith in
    let bytes =
      seven_bytes (b / 2 ^ 8 % 2 ^ 8) (b % 2 ^ 8) (hat_value s.hat) s.left_stick.x_axis
        s.left_stick.y_axis s.right_stick.x_axis s.right_stick.y_axis (omega arith) in
    ground (arith, ap mark_last bytes, spells, mark (n % 128) (omega arith))

-- A receiver, written from the packet's layout and not from `encode`.
abbrev with_hat : ℕ → Result Hat → Option SwitchReport
with_hat n (ok h) = some (record {
  buttons = n / 256 ^ 5;
  hat = h;
  left_stick = record { x_axis = n / 256 ^ 3 % 256; y_axis = n / 256 ^ 2 % 256 };
  right_stick = record { x_axis = n / 256 % 256; y_axis = n % 256 };
})
with_hat n (err e) = none

abbrev pub decode : List ℕ → Option SwitchReport
decode (a ∷ b ∷ c ∷ d ∷ e ∷ f ∷ g ∷ h ∷ []) =
    let n = spelled 128 0 (a ∷ b ∷ c ∷ d ∷ e ∷ f ∷ g ∷ (h - 128) ∷ []) in
    with_hat n (hat_try_from (n / 256 ^ 4 % 256))
decode _ = none

-- The receiver reads every report, in the ranges of its types, back from its packet.
pub decode-encode : (s : SwitchReport) → IsReport s → decode (encode s) ≡ some s
decode-encode s v =
    let n = report_number s in
    let small : hat_value s.hat < 256 = omega (arith, hat_value-lt s.hat) in
    let whole : spelled 128 0 (
          (n / 128 ^ 7 % 128)
          ∷ (n / 128 ^ 6 % 128)
          ∷ (n / 128 ^ 5 % 128)
          ∷ (n / 128 ^ 4 % 128)
          ∷ (n / 128 ^ 3 % 128)
          ∷ (n / 128 ^ 2 % 128)
          ∷ (n / 128 % 128)
          ∷ (n % 128 + 128 - 128)
          ∷ [])
        ≡ n =
      omega arith in
    rw (encode-eq-marked_digits s v, whole)
      (ground (
        arith,
        ap hat_try_from {x = n / 256 ^ 4 % 256} {y = hat_value s.hat} (omega arith),
        hat_try_from-hat_value s.hat,
      ))

-- A stream cut behind each byte with the marker.
abbrev cut_first : ℕ → List (List ℕ) → List (List ℕ)
cut_first b [] = (b ∷ []) ∷ []
cut_first b (p ∷ ps) = (b ∷ p) ∷ ps

pub frames : List ℕ → List (List ℕ)
frames [] = []
frames (b ∷ bs) = let rest = frames bs in if ltb b 128 then cut_first b rest else (b ∷ []) ∷ rest

frames_low : (b : ℕ) (bs : List ℕ) → b < 128 → frames (b ∷ bs) ≡ cut_first b (frames bs)
unfolding frames
frames_low b bs h = ground arith

frames_high : (b : ℕ) (bs : List ℕ) → 128 ≤ b → frames (b ∷ bs) ≡ (b ∷ []) ∷ frames bs
unfolding frames
frames_high b bs h = ground arith

frames_one :
    (n : ℕ) (rest : List ℕ) → frames (marked_digits n ++ rest) ≡ marked_digits n ∷ frames rest
frames_one n rest = rw (
  frames_low (n / 128 ^ 7 % 128) _ (omega arith),
  frames_low (n / 128 ^ 6 % 128) _ (omega arith),
  frames_low (n / 128 ^ 5 % 128) _ (omega arith),
  frames_low (n / 128 ^ 4 % 128) _ (omega arith),
  frames_low (n / 128 ^ 3 % 128) _ (omega arith),
  frames_low (n / 128 ^ 2 % 128) _ (omega arith),
  frames_low (n / 128 % 128) _ (omega arith),
  frames_high (n % 128 + 128) _ (omega arith),
)

-- Packets of reports in range, sent one after the other, are told apart by the marker alone: cut
-- behind each byte of 128 or more, the stream gives back the packets that were sent.
pub frames-encode :
    (ss : List SwitchReport) → All IsReport ss → frames (flatten (map encode ss)) ≡ map encode ss
unfolding flatten
frames-encode [] v = unfold frames in refl
frames-encode (s ∷ ss) v =
    let packet = encode-eq-marked_digits s v.0 in
    ap (λ (p : List ℕ). frames (p ++ flatten (map encode ss))) packet
    ∙ frames_one (report_number s) (flatten (map encode ss))
    ∙ ap₂ (λ (p : List ℕ) (ps : List (List ℕ)). p ∷ ps) (sym packet) (frames-encode ss v.1)
