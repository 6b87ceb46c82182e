-- ===== src/Report/Encode.antt =====
-- protocol.rs: what the loops of `encode` compute, digit by digit.
use easycon_sdk.Common.{
  ℕ, zero, suc, ◌+◌, ◌*◌, ◌/◌, ◌%◌, ◌^◌, ◌<◌, ◌≡◌, List, [], ◌∷◌, arith, set, All,
}
use easycon_sdk.Common.Bits.{bit_or-eq-add, bit_and-eq-mod}
use easycon_sdk.Report.{EncodeState, feed, feed_all, encode_start}

abbrev at : List ℕ → ℕ → ℕ → ℕ → EncodeState
at p i a c = record { packet = p; packet_index = i; accumulator = a; bit_count = c }

-- `n` is the number that the bytes so far spell in base 256; its last `c` bits wait.
feed_one :
    (c : ℕ) (p : List ℕ) (i n b : ℕ)
    → c < 6
    → b < 256
    → feed (at p i (n % 2 ^ c) c) b
      ≡ at (set p i ((n * 256 + b) / 2 ^ suc c % 128)) (i + 1) ((n * 256 + b) % 2 ^ suc c) (suc c)
unfolding feed
feed_one zero p i n b h k =
    ground (arith, bit_or-eq-add 8 (n % 1) b k, bit_and-eq-mod 1 (n % 1 * 256 + b))
feed_one (suc zero) p i n b h k =
    ground (arith, bit_or-eq-add 8 (n % 2) b k, bit_and-eq-mod 2 (n % 2 * 256 + b))
feed_one (suc (suc zero)) p i n b h k =
    ground (arith, bit_or-eq-add 8 (n % 4) b k, bit_and-eq-mod 3 (n % 4 * 256 + b))
feed_one (suc (suc (suc zero))) p i n b h k =
    ground (arith, bit_or-eq-add 8 (n % 8) b k, bit_and-eq-mod 4 (n % 8 * 256 + b))
feed_one (suc (suc (suc (suc zero)))) p i n b h k =
    ground (arith, bit_or-eq-add 8 (n % 16) b k, bit_and-eq-mod 5 (n % 16 * 256 + b))
feed_one (suc (suc (suc (suc (suc zero))))) p i n b h k =
    ground (arith, bit_or-eq-add 8 (n % 32) b k, bit_and-eq-mod 6 (n % 32 * 256 + b))
feed_one (suc (suc (suc (suc (suc (suc c)))))) p i n b h k = absurd (omega arith)

feed_last :
    (p : List ℕ) (i n b : ℕ)
    → b < 256
    → feed (at p i (n % 64) 6) b
      ≡ at (set (set p i ((n * 256 + b) / 128 % 128)) (i + 1) ((n * 256 + b) % 128)) (i + 1 + 1) 0 0
unfolding feed
feed_last p i n b k = ground (
  arith,
  bit_or-eq-add 8 (n % 64) b k,
  bit_and-eq-mod 7 (n % 64 * 256 + b),
  bit_and-eq-mod 0 ((n % 64 * 256 + b) % 128),
)

-- The number that a list of digits spells, the first digit highest.
abbrev pub spelled : ℕ → ℕ → List ℕ → ℕ
spelled base n [] = n
spelled base n (d ∷ ds) = spelled base (n * base + d) ds

-- Seven bytes give eight digits of seven bits.
pub seven_bytes :
    (a b c d e f g : ℕ)
    → All (λ x. x < 256) (a ∷ b ∷ c ∷ d ∷ e ∷ f ∷ g ∷ [])
    → let n = spelled 256 0 (a ∷ b ∷ c ∷ d ∷ e ∷ f ∷ g ∷ []) in
      (feed_all encode_start (a ∷ b ∷ c ∷ d ∷ e ∷ f ∷ g ∷ [])).packet
      ≡ (n / 128 ^ 7 % 128)
        ∷ (n / 128 ^ 6 % 128)
        ∷ (n / 128 ^ 5 % 128)
        ∷ (n / 128 ^ 4 % 128)
        ∷ (n / 128 ^ 3 % 128)
        ∷ (n / 128 ^ 2 % 128)
        ∷ (n / 128 % 128)
        ∷ (n % 128)
        ∷ []
unfolding feed_all
seven_bytes a b c d e f g h =
    let n2 = (0 * 256 + a) * 256 + b in
    let n4 = (n2 * 256 + c) * 256 + d in
    rw
      (
        feed_one 0 _ 0 0 a (omega arith) (omega arith),
        feed_one 1 _ 1 (0 * 256 + a) b (omega arith) (omega arith),
        feed_one 2 _ 2 n2 c (omega arith) (omega arith),
        feed_one 3 _ 3 (n2 * 256 + c) d (omega arith) (omega arith),
        feed_one 4 _ 4 n4 e (omega arith) (omega arith),
        feed_one 5 _ 5 (n4 * 256 + e) f (omega arith) (omega arith),
        feed_last _ 6 ((n4 * 256 + e) * 256 + f) g (omega arith),
      )
      (ground arith)
