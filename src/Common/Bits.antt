-- ===== src/Common/Bits.antt =====
-- Bit operations of the native numbers, digit by digit, and masks and shifts as arithmetic.
use Prim.Native.Nat.{
  ℕ, zero, suc, ◌+◌, ◌-◌, ◌*◌, ◌/◌, ◌%◌, ◌^◌, ◌≤◌, ◌<◌, min, max, bit_and, bit_or, digits,
  bit_and-bitwise, bit_or-bitwise,
}
use easycon_sdk.Common.Tests.{◌==◌, if◌then◌else◌}
use mathlib.Core.Path.{◌≡◌, refl, sym, ap, ◌∙◌}
use native.Mathlib.Nat.{pow-suc, one-le-pow, mod-lt, div-add-mod}
use native.Mathlib.Omega.{arith}

-- Both operations go by one recursion on the binary digits, and a number is fuel enough for itself.
module _ (last : ℕ → ℕ) (bit : ℕ → ℕ → ℕ) where
  own_fuel :
      (bound fuel x y : ℕ)
      → fuel ≤ bound
      → x ≤ fuel
      → digits last bit fuel x y ≡ digits last bit x x y
  own_fuel bound zero zero y small enough = refl
  own_fuel bound (suc fuel) zero y small enough = refl
  own_fuel bound zero (suc x) y small enough = absurd (omega arith)
  own_fuel zero (suc fuel) (suc x) y small enough = absurd (omega arith)
  own_fuel (suc bound) (suc fuel) (suc x) y small enough =
      let given = own_fuel bound fuel (suc x / 2) (y / 2) (omega arith) (omega arith) in
      let own = own_fuel bound x (suc x / 2) (y / 2) (omega arith) (omega arith) in
      omega (arith, given, own)

zero-bit_and : (y : ℕ) → bit_and 0 y ≡ 0
zero-bit_and y = bit_and-bitwise 0 y

zero-bit_or : (y : ℕ) → bit_or 0 y ≡ y
zero-bit_or y = bit_or-bitwise 0 y

pub bit_or_step : (x y : ℕ) → bit_or x y ≡ 2 * bit_or (x / 2) (y / 2) + max (x % 2) (y % 2)
bit_or_step zero y = omega (arith, zero-bit_or (y / 2), zero-bit_or y)
bit_or_step (suc x) y =
    let halves = own_fuel (λ w. w) max x x (suc x / 2) (y / 2) (omega arith) (omega arith) in
    omega (arith, halves, bit_or-bitwise (suc x / 2) (y / 2), bit_or-bitwise (suc x) y)

pub bit_and_step : (x y : ℕ) → bit_and x y ≡ 2 * bit_and (x / 2) (y / 2) + min (x % 2) (y % 2)
bit_and_step zero y = omega (arith, zero-bit_and (y / 2), zero-bit_and y)
bit_and_step (suc x) y =
    let halves = own_fuel (λ w. zero) min x x (suc x / 2) (y / 2) (omega arith) (omega arith) in
    omega (arith, halves, bit_and-bitwise (suc x / 2) (y / 2), bit_and-bitwise (suc x) y)

-- Digit k of x, counted from the lowest.
abbrev pub bit_at : ℕ → ℕ → ℕ
bit_at zero x = x % 2
bit_at (suc k) x = bit_at k (x / 2)

pub bit_at-bit_or : (k a b : ℕ) → bit_at k (bit_or a b) ≡ max (bit_at k a) (bit_at k b)
bit_at-bit_or zero a b = omega (arith, bit_or_step a b)
bit_at-bit_or (suc k) a b =
    let half : bit_or a b / 2 ≡ bit_or (a / 2) (b / 2) = omega (arith, bit_or_step a b) in
    rw half (bit_at-bit_or k (a / 2) (b / 2))

pub bit_at-bit_and : (k a b : ℕ) → bit_at k (bit_and a b) ≡ min (bit_at k a) (bit_at k b)
bit_at-bit_and zero a b = omega (arith, bit_and_step a b)
bit_at-bit_and (suc k) a b =
    let half : bit_and a b / 2 ≡ bit_and (a / 2) (b / 2) = omega (arith, bit_and_step a b) in
    rw half (bit_at-bit_and k (a / 2) (b / 2))

pub bit_at_bound : (k x : ℕ) → bit_at k x ≤ 1
bit_at_bound zero x = omega arith
bit_at_bound (suc k) x = bit_at_bound k (x / 2)

-- Numbers of n digits are told apart by their digits.
pub bit_at_ext : (n a b : ℕ) → a < 2 ^ n → b < 2 ^ n → ((k : ℕ) → bit_at k a ≡ bit_at k b) → a ≡ b
bit_at_ext zero a b p q h = omega arith
bit_at_ext (suc n) a b p q h = omega (
  arith,
  pow-suc 2 n,
  h 0,
  bit_at_ext n (a / 2) (b / 2) (omega (arith, pow-suc 2 n)) (omega (arith, pow-suc 2 n))
      (λ k. h (suc k)),
)

pub bit_or-lt : (n a b : ℕ) → a < 2 ^ n → b < 2 ^ n → bit_or a b < 2 ^ n
bit_or-lt zero a b p q = omega (arith, ap (bit_or a) {x = b} {y = 0} (omega arith), zero_or a p)
  where
    zero_or : (x : ℕ) → x < 1 → bit_or x 0 ≡ 0
    zero_or zero h = zero-bit_or 0
    zero_or (suc x) h = absurd (omega arith)
bit_or-lt (suc n) a b p q = omega (
  arith,
  pow-suc 2 n,
  bit_or_step a b,
  bit_or-lt n (a / 2) (b / 2) (omega (arith, pow-suc 2 n)) (omega (arith, pow-suc 2 n)),
)

pub bit_and-le : (n a b : ℕ) → a ≤ n → bit_and a b ≤ a
bit_and-le zero zero b h = omega (arith, zero-bit_and b)
bit_and-le zero (suc a) b h = absurd (omega arith)
bit_and-le (suc n) zero b h = omega (arith, zero-bit_and b)
bit_and-le (suc n) (suc a) b h =
    omega (arith, bit_and_step (suc a) b, bit_and-le n (suc a / 2) (b / 2) (omega arith))

bit_or-zero : (bound x : ℕ) → x ≤ bound → bit_or x 0 ≡ x
bit_or-zero bound zero small = zero-bit_or 0
bit_or-zero zero (suc x) small = absurd (omega arith)
bit_or-zero (suc bound) (suc x) small =
    let upper = bit_or-zero bound (suc x / 2) (omega arith) in
    omega (arith, upper, bit_or_step (suc x) 0)

double_up : (q k : ℕ) → q * 2 ^ suc k ≡ 2 * (q * 2 ^ k)
double_up q k = omega (arith, ap (λ (t : ℕ). q * t) (pow-suc 2 k))

-- Fields that do not overlap are joined by a sum.
pub bit_or-eq-add : (k q r : ℕ) → r < 2 ^ k → bit_or (q * 2 ^ k) r ≡ q * 2 ^ k + r
bit_or-eq-add zero q r h =
    omega (arith, ap (bit_or (q * 1)) {x = r} {y = 0} (omega arith), bit_or-zero (q * 1) (q * 1))
bit_or-eq-add (suc k) q r h =
    let low : r / 2 < 2 ^ k = omega (arith, pow-suc 2 k) in
    let half : q * 2 ^ suc k / 2 ≡ q * 2 ^ k = omega (arith, double_up q k) in
    omega (
      arith,
      bit_or_step (q * 2 ^ suc k) r,
      double_up q k,
      ap (λ (t : ℕ). bit_or t (r / 2)) half,
      bit_or-eq-add k q (r / 2) low,
    )

bit_and-zero : (bound x : ℕ) → x ≤ bound → bit_and x 0 ≡ 0
bit_and-zero bound zero small = zero-bit_and 0
bit_and-zero zero (suc x) small = absurd (omega arith)
bit_and-zero (suc bound) (suc x) small =
    let upper = bit_and-zero bound (suc x / 2) (omega arith) in
    omega (arith, upper, bit_and_step (suc x) 0)

bit_and-low : (k q r : ℕ) → r < 2 ^ k → bit_and (q * 2 ^ k + r) (2 ^ k - 1) ≡ r
bit_and-low zero q r h = omega (arith, bit_and-zero (q * 1 + r) (q * 1 + r))
bit_and-low (suc k) q r h =
    let x = q * 2 ^ suc k + r in
    let mask : (2 ^ suc k - 1) / 2 ≡ 2 ^ k - 1 = omega (arith, pow-suc 2 k, one-le-pow k 2) in
    let half : x / 2 ≡ q * 2 ^ k + r / 2 = omega (arith, double_up q k) in
    omega (
      arith,
      bit_and_step x (2 ^ suc k - 1),
      ap (bit_and (x / 2)) mask,
      ap (λ (t : ℕ). bit_and t (2 ^ k - 1)) half,
      bit_and-low k q (r / 2) (omega (arith, pow-suc 2 k)),
      double_up q k,
      pow-suc 2 k,
      one-le-pow k 2,
    )

-- A mask of k low ones is the remainder by 2 ^ k.
pub bit_and-eq-mod : (k a : ℕ) → bit_and a (2 ^ k - 1) ≡ a % 2 ^ k
bit_and-eq-mod k a =
    let m : ℕ = 2 ^ k in
    let small : a % m < m = mod-lt a (omega (arith, one-le-pow k 2)) in
    let whole : a / m * m + a % m ≡ a = omega (arith, div-add-mod a m) in
    ap (λ (t : ℕ). bit_and t (m - 1)) (sym whole) ∙ bit_and-low k (a / m) (a % m) small

bit_at-zero : (k : ℕ) → bit_at k 0 ≡ 0
bit_at-zero zero = refl
bit_at-zero (suc k) = bit_at-zero k

pub bit_at-two_pow : (i j : ℕ) → bit_at i (2 ^ j) ≡ (if j == i then 1 else 0)
bit_at-two_pow zero zero = refl
bit_at-two_pow zero (suc j) = ground (arith, pow-suc 2 j)
bit_at-two_pow (suc i) zero = ground (arith, bit_at-zero i)
bit_at-two_pow (suc i) (suc j) =
    let half : 2 ^ suc j / 2 ≡ 2 ^ j = omega (arith, pow-suc 2 j) in
    rw half (ground (arith, bit_at-two_pow i j))

-- The complement of a word of n digits.
pub bit_at-complement : (n i a : ℕ) → a < 2 ^ n → i < n → bit_at i (2 ^ n - 1 - a) ≡ 1 - bit_at i a
bit_at-complement zero i a p q = absurd (omega arith)
bit_at-complement (suc n) zero a p q = omega (arith, pow-suc 2 n)
bit_at-complement (suc n) (suc i) a p q =
    let half : (2 ^ suc n - 1 - a) / 2 ≡ 2 ^ n - 1 - a / 2 = omega (arith, pow-suc 2 n) in
    rw half (bit_at-complement n i (a / 2) (omega (arith, pow-suc 2 n)) (omega arith))
