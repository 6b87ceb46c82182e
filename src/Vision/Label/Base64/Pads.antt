-- ===== src/Vision/Label/Base64/Pads.antt =====
-- label.rs: what is known of the last block of an accepted Base64 text, by its padding.
use easycon_sdk.Common.{
  ℕ, ◌%◌, ◌≡◌, ◌∙◌, sym, ◌==◌, ◌||◌, Bool, true, false, none, some, List, [], ◌∷◌, if◌then◌else◌,
  arith,
}
use easycon_sdk.Vision.Label.Base64.{
  pad, contains_pad, any_unknown, last_bits_left, strict_base64_decoded_length,
}
use easycon_sdk.Vision.Label.Base64.Blocks.{value, bits_left_value, known, readable}

accepted :
    (x y : Bool) (m n : ℕ)
    → (if x || y then none else some m) ≡ some n
    → (x ≡ false) × (y ≡ false) × (n ≡ m)
accepted x y m n h = grind arith

pub pads_two :
    (a b c d n : ℕ)
    → (d == pad) ≡ true
    → (c == pad) ≡ true
    → strict_base64_decoded_length (a ∷ b ∷ c ∷ d ∷ []) ≡ some n
    → (known a ≡ true) × (known b ≡ true) × (value b % 16 ≡ 0) × (n ≡ 1)
unfolding strict_base64_decoded_length
pads_two a b c d n fourth third h =
    let bytes : List ℕ = a ∷ b ∷ [] in
    let (read, bits, count) =
      accepted (contains_pad bytes || any_unknown bytes) (last_bits_left 16 (some b)) 1 n
        (rw (fourth, third) at h) in
    let all = sym (readable bytes) ∙ read in grind (arith, bits_left_value 16 b bits)

pub pads_one :
    (a b c d n : ℕ)
    → (d == pad) ≡ true
    → (c == pad) ≡ false
    → strict_base64_decoded_length (a ∷ b ∷ c ∷ d ∷ []) ≡ some n
    → (known a ≡ true) × (known b ≡ true) × (known c ≡ true) × (value c % 4 ≡ 0) × (n ≡ 2)
unfolding strict_base64_decoded_length
pads_one a b c d n fourth third h =
    let bytes : List ℕ = a ∷ b ∷ c ∷ [] in
    let (read, bits, count) =
      accepted (contains_pad bytes || any_unknown bytes) (last_bits_left 4 (some c)) 2 n
        (rw (fourth, third) at h) in
    let all = sym (readable bytes) ∙ read in grind (arith, bits_left_value 4 c bits)

pub pads_none :
    (a b c d n : ℕ)
    → (d == pad) ≡ false
    → strict_base64_decoded_length (a ∷ b ∷ c ∷ d ∷ []) ≡ some n
    → (known a ≡ true) × (known b ≡ true) × (known c ≡ true) × (known d ≡ true) × (n ≡ 3)
unfolding strict_base64_decoded_length
pads_none a b c d n fourth h =
    let bytes : List ℕ = a ∷ b ∷ c ∷ d ∷ [] in
    let (read, bits, count) =
      accepted (contains_pad bytes || any_unknown bytes) false 3 n (rw fourth at h) in
    let all = sym (readable bytes) ∙ read in grind arith
