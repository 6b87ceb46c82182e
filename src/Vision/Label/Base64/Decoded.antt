-- ===== src/Vision/Label/Base64/Decoded.antt =====
-- label.rs: exactly the encodings of bytes are accepted.
use easycon_sdk.Common.{
  ◌↔◌, ℕ, ◌+◌, ◌*◌, ◌/◌, ◌%◌, ◌^◌, ◌<◌, ◌≤◌, ◌≡◌, ◌∙◌, sym, ap, refl, ◌==◌, ◌&&◌, Bool, true, false,
  Option, none, some, List, [], ◌∷◌, length, arith, All,
}
use easycon_sdk.Vision.Label.Base64.{pad, strict_base64_decoded_length}
use easycon_sdk.Vision.Label.Base64.Blocks.{
  value, symbol-value, value_bounded, encoding, known, three_more, decoded_block,
}
use easycon_sdk.Vision.Label.Base64.Pads.{pads_two, pads_one, pads_none}
use easycon_sdk.Vision.Label.Base64.Accepted.{length-encoding, decoded_length-encoding}

abbrev pub last_bytes : (a b c d : ℕ) (one two : Bool) → List ℕ
last_bytes a b c d true true = (value a * 4 + value b / 16) ∷ []
last_bytes a b c d true false =
    (value a * 4 + value b / 16) ∷ (value b % 16 * 16 + value c / 4) ∷ []
last_bytes a b c d false two =
    (value a * 4 + value b / 16)
    ∷ (value b % 16 * 16 + value c / 4)
    ∷ (value c % 4 * 64 + value d)
    ∷ []

-- The bytes of a text whose symbols are of the alphabet.
abbrev pub decoding : List ℕ → List ℕ
decoding (a ∷ b ∷ c ∷ d ∷ []) = last_bytes a b c d (d == pad) (c == pad)
decoding (a ∷ b ∷ c ∷ d ∷ e ∷ rest) =
    (value a * 4 + value b / 16)
    ∷ (value b % 16 * 16 + value c / 4)
    ∷ (value c % 4 * 64 + value d)
    ∷ decoding (e ∷ rest)
decoding _ = []

abbrev IsCanonical : List ℕ → ℕ → Type 0
IsCanonical encoded n =
    (encoding (decoding encoded) ≡ encoded)
    × (length (decoding encoded) ≡ n)
    × All (λ b. b < 256) (decoding encoded)

-- The sextets of three bytes that are made of four sextets.
sextets :
    (u v w x : ℕ)
    → u < 64
    → v < 64
    → w < 64
    → x < 64
    → ((u * 4 + v / 16) / 4 ≡ u)
      × ((u * 4 + v / 16) % 4 * 16 + (v % 16 * 16 + w / 4) / 16 ≡ v)
      × ((v % 16 * 16 + w / 4) % 16 * 4 + (w % 4 * 64 + x) / 64 ≡ w)
      × ((w % 4 * 64 + x) % 64 ≡ x)
sextets u v w x hu hv hw hx = omega arith

is_pad : (byte : ℕ) → (byte == pad) ≡ true → pad ≡ byte
is_pad byte same = ground arith

canonical_pads :
    (a b c d n : ℕ) (two one : Bool)
    → (d == pad) ≡ two
    → (c == pad) ≡ one
    → strict_base64_decoded_length (a ∷ b ∷ c ∷ d ∷ []) ≡ some n
    → (encoding (last_bytes a b c d two one) ≡ a ∷ b ∷ c ∷ d ∷ [])
      × (length (last_bytes a b c d two one) ≡ n)
      × All (λ b'. b' < 256) (last_bytes a b c d two one)
canonical_pads a b c d n true true fourth third h =
    let (ka, kb, even, count) = pads_two a b c d n fourth third h in
    let u : (value a * 4 + value b / 16) / 4 ≡ value a = omega (arith, value_bounded b) in
    let v : (value a * 4 + value b / 16) % 4 * 16 ≡ value b = omega (arith, value_bounded b) in
    (
      rw (u, v, symbol-value a ka, symbol-value b kb)
          (ap (λ x. a ∷ b ∷ x ∷ pad ∷ []) (is_pad c third)
            ∙ ap (λ x. a ∷ b ∷ c ∷ x ∷ []) (is_pad d fourth)),
      sym count,
      omega (arith, value_bounded a, value_bounded b),
    )
canonical_pads a b c d n true false fourth third h =
    let (ka, kb, kc, even, count) = pads_one a b c d n fourth third h in
    let (s, t, u, v) =
      sextets (value a) (value b) (value c) 0 (value_bounded a) (value_bounded b) (value_bounded c)
        (omega arith) in
    let w : (value b % 16 * 16 + value c / 4) % 16 * 4 ≡ value c = omega (arith, value_bounded c) in
    (
      rw (s, t, w, symbol-value a ka, symbol-value b kb, symbol-value c kc)
          (ap (λ x. a ∷ b ∷ c ∷ x ∷ []) (is_pad d fourth)),
      sym count,
      omega (arith, value_bounded a, value_bounded b, value_bounded c),
    )
canonical_pads a b c d n false one fourth third h =
    let (ka, kb, kc, kd, count) = pads_none a b c d n fourth h in
    let (s, t, u, v) =
      sextets (value a) (value b) (value c) (value d) (value_bounded a) (value_bounded b)
        (value_bounded c) (value_bounded d) in
    (
      rw (s, t, u, v, symbol-value a ka, symbol-value b kb, symbol-value c kc, symbol-value d kd)
          refl,
      sym count,
      omega (arith, value_bounded a, value_bounded b, value_bounded c, value_bounded d),
    )

whole_blocks :
    (encoded : List ℕ) (n : ℕ)
    → strict_base64_decoded_length encoded ≡ some n
    → (length encoded % 4 ≡ 0) × (1 ≤ length encoded)
unfolding strict_base64_decoded_length
whole_blocks encoded n h = grind arith

three_more-some :
    (k : Bool) (o : Option ℕ) (n : ℕ)
    → three_more k o ≡ some n
    → (k ≡ true) × (m : ℕ) × (o ≡ some m) × (n ≡ m + 3)
three_more-some true (some m) n h = (refl, m, refl, grind arith)
three_more-some true none n h = absurd (ground arith)
three_more-some false o n h = absurd (ground arith)

all_four :
    (a b c d : ℕ)
    → (known a && known b && known c && known d) ≡ true
    → (known a ≡ true) × (known b ≡ true) × (known c ≡ true) × (known d ≡ true)
all_four a b c d h = grind arith

-- A text that is accepted is the encoding of as many bytes.
encoding-decoding :
    (encoded : List ℕ) (n : ℕ)
    → length encoded < 2 ^ 63
    → strict_base64_decoded_length encoded ≡ some n
    → IsCanonical encoded n
encoding-decoding [] n short h = absurd (omega (arith, whole_blocks [] n h))
encoding-decoding (a ∷ []) n short h = absurd (omega (arith, whole_blocks (a ∷ []) n h))
encoding-decoding (a ∷ b ∷ []) n short h = absurd (omega (arith, whole_blocks (a ∷ b ∷ []) n h))
encoding-decoding (a ∷ b ∷ c ∷ []) n short h =
    absurd (omega (arith, whole_blocks (a ∷ b ∷ c ∷ []) n h))
encoding-decoding (a ∷ b ∷ c ∷ d ∷ []) n short h =
    canonical_pads a b c d n (d == pad) (c == pad) refl refl h
encoding-decoding (a ∷ b ∷ c ∷ d ∷ e ∷ rest) n short h =
    let blocks = whole_blocks (a ∷ b ∷ c ∷ d ∷ e ∷ rest) n h in
    let (symbols, m, later, count) =
      three_more-some (known a && known b && known c && known d)
        (strict_base64_decoded_length (e ∷ rest)) n
        (sym (decoded_block a b c d (e ∷ rest) (omega (arith, blocks)) (omega arith)) ∙ h) in
    let (same, len, fit) = encoding-decoding (e ∷ rest) m (omega arith) later in
    let (ka, kb, kc, kd) = all_four a b c d symbols in
    let (s, t, u, v) =
      sextets (value a) (value b) (value c) (value d) (value_bounded a) (value_bounded b)
        (value_bounded c) (value_bounded d) in
    (
      rw
          (
            s,
            t,
            u,
            v,
            symbol-value a ka,
            symbol-value b kb,
            symbol-value c kc,
            symbol-value d kd,
            same,
          )
          refl,
      omega (arith, len, count),
      (
        omega (arith, value_bounded a, value_bounded b),
        (
          omega (arith, value_bounded b, value_bounded c),
          (omega (arith, value_bounded c, value_bounded d), fit),
        ),
      ),
    )

-- A text of fewer than 2^63 bytes, as any that fits the memory, is accepted with a number exactly if it is the encoding
-- of that many bytes, and of one at least.
pub accepted_iff :
    (encoded : List ℕ) (n : ℕ)
    → length encoded < 2 ^ 63
    → (strict_base64_decoded_length encoded ≡ some n)
      ↔ (bytes : List ℕ) × All (λ b. b < 256) bytes
        × (length bytes ≡ n)
        × (1 ≤ n)
        × (encoding bytes ≡ encoded)
accepted_iff encoded n short = (
  λ h.
      let (same, len, fit) = encoding-decoding encoded n short h in
      let bytes = decoding encoded in
      (
        bytes,
        fit,
        len,
        omega (arith, whole_blocks encoded n h, ap length same, length-encoding bytes, len),
        same,
      ),
  λ (bytes, fit, len, some_byte, same).
      ap strict_base64_decoded_length (sym same)
      ∙ decoded_length-encoding bytes fit (omega (arith, len)) (omega (arith, ap length same))
      ∙ ap some len,
)
