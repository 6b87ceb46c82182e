-- ===== src/Vision/Label/Base64.antt =====
-- label.rs: the Base64 of an image target, as its bytes. The decoder and the encoder are of a third party, and
-- parameters.
pub mod Blocks
pub mod Accepted
pub mod Pads
pub mod Decoded
mod Tests
use easycon_sdk.Common.{
  ℕ, ◌+◌, ◌-◌, ◌*◌, ◌/◌, ◌%◌, ◌^◌, ltb, leb, ◌==◌, ◌&&◌, ◌||◌, not, Bool, true, false, String,
  Option, none, some, List, [], ◌∷◌, length, take, if◌then◌else◌, is_some,
}
use easycon_sdk.Vision.Image.{VisionLimits}
use easycon_sdk.Vision.Label.Diagnostics.{
  LabelDiagnosticCode, invalid_base64, target_limit, LabelDiagnostic, push_diagnostic,
}
use easycon_sdk.Vision.Label.Region.{field_error}

-- `=`.
abbrev pub pad : ℕ
pad = 61

unfoldable pub base64_value : ℕ → Option ℕ
base64_value byte =
    if leb 65 byte && leb byte 90
    then some (byte - 65)
    else if leb 97 byte && leb byte 122
    then some (byte - 97 + 26)
    else if leb 48 byte && leb byte 57
    then some (byte - 48 + 52)
    else if byte == 43
    then some 62
    else if byte == 47
    then some 63
    else none

abbrev pub last : List ℕ → Option ℕ
last [] = none
last (b ∷ []) = some b
last (a ∷ b ∷ bytes) = last (b ∷ bytes)

abbrev pub padding_of : List ℕ → ℕ
padding_of [] = 0
padding_of (b ∷ []) = if b == pad then 1 else 0
padding_of (a ∷ b ∷ []) = if b == pad then if a == pad then 2 else 1 else 0
padding_of (a ∷ b ∷ c ∷ bytes) = padding_of (b ∷ c ∷ bytes)

abbrev pub contains_pad : List ℕ → Bool
contains_pad [] = false
contains_pad (b ∷ bytes) = b == pad || contains_pad bytes

abbrev pub any_unknown : List ℕ → Bool
unfolding base64_value
any_unknown [] = false
any_unknown (b ∷ bytes) = not (is_some (base64_value b)) || any_unknown bytes

abbrev pub bits_left : ℕ → Option ℕ → Bool
bits_left m none = true
bits_left m (some value) = not (value % m == 0)

abbrev pub last_bits_left : ℕ → Option ℕ → Bool
unfolding base64_value
last_bits_left m none = true
last_bits_left m (some byte) = bits_left m (base64_value byte)

-- Whether the last symbol has bits that no byte takes up.
abbrev pub refuses_last : ℕ → List ℕ → Bool
refuses_last padding content =
    if padding == 2
    then last_bits_left 16 (last content)
    else if padding == 1
    then last_bits_left 4 (last content)
    else false

abbrev pub measured : ℕ → ℕ → Option ℕ
measured len padding =
    let blocks = len / 4 * 3 in
    if ltb blocks (2 ^ 64) && leb padding blocks then some (blocks - padding) else none

abbrev pub decoded_length : (len padding : ℕ) → (content : List ℕ) → Option ℕ
decoded_length len padding content =
    if len == 0 || not (len % 4 == 0)
    then none
    else if (contains_pad content || any_unknown content) || refuses_last padding content
    then none
    else measured len padding

unfoldable pub strict_base64_decoded_length : List ℕ → Option ℕ
strict_base64_decoded_length bytes =
    let padding = padding_of bytes in
    decoded_length (length bytes) padding (take (length bytes - padding) bytes)

abbrev pub same_bytes : List ℕ → List ℕ → Bool
same_bytes [] [] = true
same_bytes (a ∷ xs) (b ∷ ys) = a == b && same_bytes xs ys
same_bytes _ _ = false

abbrev pub TargetResult : Type 0
TargetResult = List LabelDiagnostic × Option (List ℕ)

abbrev pub refused : LabelDiagnosticCode → String → List LabelDiagnostic → String → TargetResult
unfolding push_diagnostic
refused code message diagnostics source =
    (push_diagnostic diagnostics (field_error code source "ImgBase64" message), none)

abbrev pub decoded_as :
    (encode : List ℕ → List ℕ)
    → List ℕ
    → String
    → List LabelDiagnostic
    → (len : ℕ) → Option (List ℕ)
    → TargetResult
decoded_as encode encoded source diagnostics len none =
    refused invalid_base64 "image label target must use canonical padded Base64" diagnostics source
decoded_as encode encoded source diagnostics len (some decoded) =
    if not (length decoded == len) || not (same_bytes (encode decoded) encoded)
    then refused invalid_base64 "image label target Base64 is not canonical" diagnostics source
    else (diagnostics, some decoded)

abbrev pub measured_as :
    (decode : List ℕ → Option (List ℕ))
    → (encode : List ℕ → List ℕ) → List ℕ
    → (limit : ℕ) → String
    → List LabelDiagnostic
    → Option ℕ
    → TargetResult
measured_as decode encode encoded limit source diagnostics none =
    refused invalid_base64 "image label target must use canonical padded Base64" diagnostics source
measured_as decode encode encoded limit source diagnostics (some len) =
    if ltb limit len
    then refused target_limit "decoded label target exceeds encoded image limits" diagnostics source
    else decoded_as encode encoded source diagnostics len (decode encoded)

unfoldable pub decode_target_base64 :
    (decode : List ℕ → Option (List ℕ))
    → (encode : List ℕ → List ℕ) → List ℕ
    → VisionLimits
    → String
    → List LabelDiagnostic
    → TargetResult
unfolding strict_base64_decoded_length
decode_target_base64 decode encode encoded limits source diagnostics =
    measured_as decode encode encoded limits.max_encoded_bytes source diagnostics
      (strict_base64_decoded_length encoded)
