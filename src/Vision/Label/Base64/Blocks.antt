-- ===== src/Vision/Label/Base64/Blocks.antt =====
-- label.rs: a block of four symbols in front of a Base64 text adds three bytes.
use easycon_sdk.Common.{
  zero, suc, ℕ, ◌+◌, ◌-◌, ◌*◌, ◌/◌, ◌%◌, ◌^◌, ◌<◌, ◌≤◌, ◌≡◌, ◌∙◌, ap, refl, ltb, ◌==◌, ◌&&◌, ◌||◌,
  not, Bool, true, false, Option, none, some, List, [], ◌∷◌, length, take, if◌then◌else◌, is_some,
  arith,
}
use easycon_sdk.Vision.Label.Base64.{
  pad, base64_value, last, padding_of, contains_pad, any_unknown, refuses_last, last_bits_left,
  measured, strict_base64_decoded_length, decoded_length,
}

-- The alphabet, and the encoding of RFC 4648, by blocks of three bytes.
abbrev pub symbol : ℕ → ℕ
symbol v =
    if ltb v 26
    then v + 65
    else if ltb v 52
    then v - 26 + 97
    else if ltb v 62
    then v - 52 + 48
    else if v == 62
    then 43
    else 47

abbrev pub encoding : List ℕ → List ℕ
encoding [] = []
encoding (a ∷ []) = symbol (a / 4) ∷ symbol (a % 4 * 16) ∷ pad ∷ pad ∷ []
encoding (a ∷ b ∷ []) =
    symbol (a / 4) ∷ symbol (a % 4 * 16 + b / 16) ∷ symbol (b % 16 * 4) ∷ pad ∷ []
encoding (a ∷ b ∷ c ∷ bytes) =
    symbol (a / 4)
    ∷ symbol (a % 4 * 16 + b / 16)
    ∷ symbol (b % 16 * 4 + c / 64)
    ∷ symbol (c % 64)
    ∷ encoding bytes

pub base64_value-symbol : (v : ℕ) → v < 64 → base64_value (symbol v) ≡ some v
unfolding base64_value
base64_value-symbol v h = grind arith

pub symbol_unpadded : (v : ℕ) → (symbol v == pad) ≡ false
symbol_unpadded v = grind arith

padding_of_bound : (bytes : List ℕ) → padding_of bytes ≤ length bytes
padding_of_bound [] = omega arith
padding_of_bound (b ∷ []) = grind arith
padding_of_bound (a ∷ b ∷ []) = grind arith
padding_of_bound (a ∷ b ∷ c ∷ bytes) = omega (arith, padding_of_bound (b ∷ c ∷ bytes))

padding_of_small : (bytes : List ℕ) → padding_of bytes ≤ 2
padding_of_small [] = omega arith
padding_of_small (b ∷ []) = grind arith
padding_of_small (a ∷ b ∷ []) = grind arith
padding_of_small (a ∷ b ∷ c ∷ bytes) = padding_of_small (b ∷ c ∷ bytes)

pub symbol_inverse : (byte v : ℕ) → base64_value byte ≡ some v → symbol v ≡ byte
unfolding base64_value
symbol_inverse byte v h = grind arith

value_bound : (byte v : ℕ) → base64_value byte ≡ some v → v < 64
unfolding base64_value
value_bound byte v h = grind arith

padding_block :
    (a b c d : ℕ) (rest : List ℕ)
    → 2 ≤ length rest
    → padding_of (a ∷ b ∷ c ∷ d ∷ rest) ≡ padding_of rest
padding_block a b c d [] h = omega arith
padding_block a b c d (x ∷ []) h = omega arith
padding_block a b c d (x ∷ y ∷ rest) h = refl

abbrev content_of : List ℕ → List ℕ
content_of bytes = take (length bytes - padding_of bytes) bytes

content_block :
    (a b c d : ℕ) (rest : List ℕ)
    → 2 ≤ length rest
    → content_of (a ∷ b ∷ c ∷ d ∷ rest) ≡ a ∷ b ∷ c ∷ d ∷ content_of rest
content_block a b c d rest h =
    let same : suc (suc (suc (suc (length rest)))) - padding_of (a ∷ b ∷ c ∷ d ∷ rest)
        ≡ suc (suc (suc (suc (length rest - padding_of rest)))) =
      omega (arith, padding_block a b c d rest h, padding_of_bound rest) in
    ap (λ n. take n (a ∷ b ∷ c ∷ d ∷ rest)) same

last_block :
    (a b c d : ℕ) (rest : List ℕ) → 1 ≤ length rest → last (a ∷ b ∷ c ∷ d ∷ rest) ≡ last rest
last_block a b c d [] h = grind arith
last_block a b c d (x ∷ rest) h = refl

length-take : (n : ℕ) (bytes : List ℕ) → n ≤ length bytes → length (take n bytes) ≡ n
length-take zero bytes h = refl
length-take (suc n) [] h = omega arith
length-take (suc n) (b ∷ bytes) h = omega (arith, length-take n bytes (omega arith))

content_full : (bytes : List ℕ) → 3 ≤ length bytes → 1 ≤ length (content_of bytes)
content_full bytes h =
    let n = length bytes - padding_of bytes in
    omega (arith, length-take n bytes (omega arith), padding_of_small bytes)

-- A block in front of others counts three bytes, if its symbols are of the alphabet.
abbrev pub three_more : Bool → Option ℕ → Option ℕ
three_more true (some n) = some (n + 3)
three_more _ _ = none

abbrev pub known : ℕ → Bool
unfolding base64_value
known byte = is_some (base64_value byte)

known_unpadded : (byte : ℕ) → known byte ≡ true → (byte == pad) ≡ false
unfolding base64_value
known_unpadded byte h = grind arith

refuses_block :
    (a b c d padding : ℕ) (content : List ℕ)
    → 1 ≤ length content
    → refuses_last padding (a ∷ b ∷ c ∷ d ∷ content) ≡ refuses_last padding content
refuses_block a b c d padding content h =
    ap
      (λ x.
        if padding == 2
        then last_bits_left 16 x
        else if padding == 1
        then last_bits_left 4 x
        else false)
      (last_block a b c d content h)

measured_block :
    (len padding : ℕ)
    → len % 4 ≡ 0
    → 3 ≤ len
    → padding ≤ 2
    → len < 2 ^ 63
    → measured (suc (suc (suc (suc len)))) padding ≡ three_more true (measured len padding)
measured_block len padding whole h small short = ground arith

abbrev pub all_known : List ℕ → Bool
all_known [] = true
all_known (b ∷ bytes) = known b && all_known bytes

pub readable :
    (content : List ℕ) → (contains_pad content || any_unknown content) ≡ not (all_known content)
unfolding base64_value
readable [] = refl
readable (b ∷ content) = grind (arith, readable content, known_unpadded b)

decoded_length_block :
    (a b c d len padding : ℕ) (content : List ℕ)
    → 1 ≤ length content
    → 3 ≤ len
    → padding ≤ 2
    → len < 2 ^ 63
    → decoded_length (suc (suc (suc (suc len)))) padding (a ∷ b ∷ c ∷ d ∷ content)
      ≡ three_more (known a && known b && known c && known d) (decoded_length len padding content)
decoded_length_block a b c d len padding content some_left h small short =
    rw
      (
        readable (a ∷ b ∷ c ∷ d ∷ content),
        readable content,
        refuses_block a b c d padding content some_left,
      )
      (ground (arith, measured_block len padding))

pub decoded_block :
    (a b c d : ℕ) (rest : List ℕ)
    → 3 ≤ length rest
    → length rest < 2 ^ 63
    → strict_base64_decoded_length (a ∷ b ∷ c ∷ d ∷ rest)
      ≡ three_more (known a && known b && known c && known d) (strict_base64_decoded_length rest)
unfolding strict_base64_decoded_length
decoded_block a b c d rest h short =
    let bytes = a ∷ b ∷ c ∷ d ∷ rest in
    ap (λ p. decoded_length (length bytes) p (content_of bytes))
      (padding_block a b c d rest (omega arith))
    ∙ ap (decoded_length (length bytes) (padding_of rest))
        (content_block a b c d rest (omega arith))
    ∙ decoded_length_block a b c d (length rest) (padding_of rest) (content_of rest)
        (content_full rest h) h (padding_of_small rest) short

pub known-symbol : (v : ℕ) → v < 64 → known (symbol v) ≡ true
unfolding known
known-symbol v h = rw (base64_value-symbol v h) refl

abbrev pub value : ℕ → ℕ
unfolding base64_value
value byte = elim (base64_value byte) [ none ↦ 0 | some v ↦ v ]

pub symbol-value : (byte : ℕ) → known byte ≡ true → symbol (value byte) ≡ byte
unfolding known value
symbol-value byte h = grind (arith, symbol_inverse byte)

pub value_bounded : (byte : ℕ) → value byte < 64
unfolding base64_value
value_bounded byte = grind arith

pub bits_left_value : (m byte : ℕ) → last_bits_left m (some byte) ≡ false → value byte % m ≡ 0
unfolding last_bits_left value
bits_left_value m byte h = grind arith
