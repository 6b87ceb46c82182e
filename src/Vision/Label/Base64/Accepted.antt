-- ===== src/Vision/Label/Base64/Accepted.antt =====
-- label.rs: the encodings of bytes are accepted, with their number.
use easycon_sdk.Common.{
  ℕ, ◌+◌, ◌*◌, ◌/◌, ◌%◌, ◌^◌, ◌<◌, ◌≤◌, ◌≡◌, ◌∙◌, ap, refl, some, List, [], ◌∷◌, length, arith, All,
}
use easycon_sdk.Vision.Label.Base64.{pad, any_unknown, last_bits_left, strict_base64_decoded_length}
use easycon_sdk.Vision.Label.Base64.Blocks.{
  known-symbol, symbol, encoding, base64_value-symbol, symbol_unpadded, decoded_block,
}

final_one :
    (v w : ℕ)
    → v < 64
    → w < 64
    → w % 16 ≡ 0
    → strict_base64_decoded_length (symbol v ∷ symbol w ∷ pad ∷ pad ∷ []) ≡ some 1
unfolding strict_base64_decoded_length any_unknown last_bits_left
final_one v w hv hw even =
    rw
      (
        symbol_unpadded v,
        symbol_unpadded w,
        base64_value-symbol v hv,
        base64_value-symbol w hw,
        even,
      )
      refl

final_two :
    (u v w : ℕ)
    → u < 64
    → v < 64
    → w < 64
    → w % 4 ≡ 0
    → strict_base64_decoded_length (symbol u ∷ symbol v ∷ symbol w ∷ pad ∷ []) ≡ some 2
unfolding strict_base64_decoded_length any_unknown last_bits_left
final_two u v w hu hv hw even =
    rw
      (
        symbol_unpadded w,
        symbol_unpadded u,
        symbol_unpadded v,
        base64_value-symbol u hu,
        base64_value-symbol v hv,
        base64_value-symbol w hw,
        even,
        symbol_unpadded w,
      )
      refl

final_three :
    (t u v w : ℕ)
    → t < 64
    → u < 64
    → v < 64
    → w < 64
    → strict_base64_decoded_length (symbol t ∷ symbol u ∷ symbol v ∷ symbol w ∷ []) ≡ some 3
unfolding strict_base64_decoded_length any_unknown last_bits_left
final_three t u v w ht hu hv hw =
    rw
      (
        symbol_unpadded w,
        symbol_unpadded t,
        symbol_unpadded u,
        symbol_unpadded v,
        base64_value-symbol t ht,
        base64_value-symbol u hu,
        base64_value-symbol v hv,
        base64_value-symbol w hw,
        symbol_unpadded w,
      )
      refl

pub length-encoding : (bytes : List ℕ) → length (encoding bytes) ≡ (length bytes + 2) / 3 * 4
length-encoding [] = refl
length-encoding (a ∷ []) = refl
length-encoding (a ∷ b ∷ []) = refl
length-encoding (a ∷ b ∷ c ∷ bytes) = omega (arith, length-encoding bytes)

-- The encoding of bytes is accepted, with their number.
pub decoded_length-encoding :
    (bytes : List ℕ)
    → All (λ b. b < 256) bytes
    → 1 ≤ length bytes
    → length (encoding bytes) < 2 ^ 63
    → strict_base64_decoded_length (encoding bytes) ≡ some (length bytes)
decoded_length-encoding [] fit h short = absurd (omega arith)
decoded_length-encoding (a ∷ []) (ha, fit) h short =
    final_one (a / 4) (a % 4 * 16) (omega arith) (omega arith) (omega arith)
decoded_length-encoding (a ∷ b ∷ []) (ha, (hb, fit)) h short =
    final_two (a / 4) (a % 4 * 16 + b / 16) (b % 16 * 4) (omega arith) (omega arith) (omega arith)
      (omega arith)
decoded_length-encoding (a ∷ b ∷ c ∷ []) (ha, (hb, (hc, fit))) h short =
    final_three (a / 4) (a % 4 * 16 + b / 16) (b % 16 * 4 + c / 64) (c % 64) (omega arith)
      (omega arith) (omega arith) (omega arith)
decoded_length-encoding (a ∷ b ∷ c ∷ d ∷ bytes) (ha, (hb, (hc, fit))) h short =
    let rest = encoding (d ∷ bytes) in
    let len = length-encoding (d ∷ bytes) in
    decoded_block (symbol (a / 4)) (symbol (a % 4 * 16 + b / 16)) (symbol (b % 16 * 4 + c / 64))
      (symbol (c % 64)) rest (omega (arith, len)) (omega arith)
    ∙ rw
        (
          known-symbol (a / 4) (omega arith),
          known-symbol (a % 4 * 16 + b / 16) (omega arith),
          known-symbol (b % 16 * 4 + c / 64) (omega arith),
          known-symbol (c % 64) (omega arith),
          decoded_length-encoding (d ∷ bytes) fit (omega arith) (omega arith),
        )
        (ap some (omega arith))
