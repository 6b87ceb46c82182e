-- ===== src/Vision/Label/Base64/Tests.antt =====
-- label.rs: Base64 at concrete inputs.
use easycon_sdk.Common.{ℕ, ◌≡◌, ◌<◌, ◌≤◌, ◌↔◌, refl, none, some, List, [], ◌∷◌, length, All, arith}
use easycon_sdk.Vision.Label.Base64.{any_unknown, strict_base64_decoded_length}
use easycon_sdk.Vision.Label.Base64.Blocks.{encoding}
use easycon_sdk.Vision.Label.Base64.Decoded.{accepted_iff}

-- `iVBORw==`.
abbrev png_start : List ℕ
png_start = 105 ∷ 86 ∷ 66 ∷ 79 ∷ 82 ∷ 119 ∷ 61 ∷ 61 ∷ []

-- `iVBORx==`, which has a bit left.
not_canonical : strict_base64_decoded_length (105 ∷ 86 ∷ 66 ∷ 79 ∷ 82 ∷ 120 ∷ 61 ∷ 61 ∷ []) ≡ none
unfolding strict_base64_decoded_length any_unknown
not_canonical = refl

accepted_iff_example :
    (strict_base64_decoded_length png_start ≡ some 4)
    ↔ (bytes : List ℕ) × All (λ b. b < 256) bytes
      × (length bytes ≡ 4)
      × (1 ≤ 4)
      × (encoding bytes ≡ png_start)
accepted_iff_example = accepted_iff png_start 4 (omega arith)
