-- ===== src/Common/Bits.antt =====
-- Bitwise operations as arithmetic: one binary digit at a time for every width, by a table for a
-- byte.
use Prim.Native.Nat.{
  ℕ, zero, suc, ◌+◌, ◌*◌, ◌/◌, ◌%◌, ◌^◌, ◌≤◌, ◌<◌, max, min, bit_and, bit_or, digits, bitwise,
  bit_and-bitwise, bit_or-bitwise,
}
use mathlib.Core.Path.{◌≡◌, refl, ap}
use mathlib.Core.Bool.{Bool, true, ◌&&◌}
use native.Mathlib.Omega.{arith}
use native.Mathlib.Nat.{pow-suc}
use beprotocol.Common.Tests.{◌==◌, ==_iff}

-- A test on all numbers below a bound.
holds_below : (ℕ → Bool) → ℕ → Bool
holds_below test zero = true
holds_below test (suc bound) = holds_below test bound && test bound

holds_below_at :
    (test : ℕ → Bool) (bound v : ℕ) → v < bound → holds_below test bound ≡ true → test v ≡ true
unfolding holds_below
holds_below_at test zero v small passed = absurd (omega arith)
holds_below_at test (suc bound) v small passed = ground (arith, holds_below_at test bound v)

-- A byte under the masks that the variable-length integers use.
module _ (mask : ℕ) (meant : ℕ → ℕ) where
  by_table :
      holds_below (λ x. bit_and x mask == meant x) 256 ≡ true
      → (x : ℕ) → x < 256
      → bit_and x mask ≡ meant x
  by_table table x h = (==_iff _ _).0 (holds_below_at _ 256 x h table)

pub top_bit : (b : ℕ) → b < 256 → bit_and b 0x80 ≡ b / 128 * 128
unfolding holds_below
top_bit = by_table 0x80 (λ b. b / 128 * 128) refl

pub mask_70 : (b : ℕ) → b < 256 → bit_and b 0x70 ≡ b / 16 % 8 * 16
unfolding holds_below
mask_70 = by_table 0x70 (λ b. b / 16 % 8 * 16) refl

pub mask_7e : (b : ℕ) → b < 256 → bit_and b 0x7e ≡ b / 2 % 64 * 2
unfolding holds_below
mask_7e = by_table 0x7e (λ b. b / 2 % 64 * 2) refl

pub set_top_bit : (b : ℕ) → b < 128 → bit_or b 0x80 ≡ b + 128
unfolding holds_below
set_top_bit b h = (==_iff _ _).0 (holds_below_at (λ x. bit_or x 0x80 == x + 128) 128 b h refl)

-- The law of the lowest digit for any operation on digits, from the definition that the native
-- operations stand for; `edge` is what is left when the first number has no digits any more.
module _ (edge : ℕ → ℕ) (join : ℕ → ℕ → ℕ) where
  spare_digits : (a b m n : ℕ) → a ≤ m → a ≤ n → digits edge join m a b ≡ digits edge join n a b
  spare_digits zero b zero zero p q = refl
  spare_digits zero b zero (suc n) p q = refl
  spare_digits zero b (suc m) zero p q = refl
  spare_digits zero b (suc m) (suc n) p q = refl
  spare_digits (suc a) b zero n p q = absurd (omega arith)
  spare_digits (suc a) b (suc m) zero p q = absurd (omega arith)
  spare_digits (suc a) b (suc m) (suc n) p q =
      omega (arith, spare_digits (suc a / 2) (b / 2) m n (omega arith) (omega arith))

  bitwise_step :
      ((b : ℕ) → edge b ≡ edge (b / 2) * 2 + join 0 (b % 2))
      → (a b : ℕ)
      → bitwise edge join a b ≡ bitwise edge join (a / 2) (b / 2) * 2 + join (a % 2) (b % 2)
  bitwise_step at_edge zero b = at_edge b
  bitwise_step at_edge (suc a) b =
      omega (arith, spare_digits (suc a / 2) (b / 2) a (suc a / 2) (omega arith) (omega arith))

zero-bit_or : (b : ℕ) → bit_or 0 b ≡ b
zero-bit_or = bit_or-bitwise 0

bit_or_step : (x y : ℕ) → bit_or x y ≡ bit_or (x / 2) (y / 2) * 2 + max (x % 2) (y % 2)
bit_or_step x y = omega (
  arith,
  bit_or-bitwise x y,
  bit_or-bitwise (x / 2) (y / 2),
  bitwise_step (λ b. b) max (λ b. omega arith) x y,
)

bit_or-zero_fuel : (n a : ℕ) → a ≤ n → bit_or a 0 ≡ a
bit_or-zero_fuel n zero h = refl
bit_or-zero_fuel zero (suc a) h = absurd (omega arith)
bit_or-zero_fuel (suc n) (suc a) h =
    omega (arith, bit_or_step (suc a) 0, bit_or-zero_fuel n (suc a / 2) (omega arith))

-- Bits above and below a position do not meet: the `or` is the sum.
pub bit_or_disjoint :
    (k low high : ℕ) → low < 2 ^ k → bit_or low (high * 2 ^ k) ≡ low + high * 2 ^ k
bit_or_disjoint zero zero high h = omega (arith, zero-bit_or (high * 2 ^ 0))
bit_or_disjoint zero (suc low) high h = absurd (omega arith)
bit_or_disjoint (suc k) low high h = omega (
  arith,
  bit_or_step low (high * 2 ^ suc k),
  bit_or_disjoint k (low / 2) high (omega (arith, pow-suc 2 k)),
  halved,
  pow-suc 2 k,
  ap (λ (t : ℕ). high * t) (pow-suc 2 k),
)
  where
    even : high * 2 ^ suc k ≡ 2 * (high * 2 ^ k)
    even = omega (arith, ap (λ (t : ℕ). high * t) (pow-suc 2 k))

    halved : bit_or (low / 2) (high * 2 ^ suc k / 2) ≡ bit_or (low / 2) (high * 2 ^ k)
    halved = ap (bit_or (low / 2)) (omega (arith, even))

bit_and_step : (x y : ℕ) → bit_and x y ≡ bit_and (x / 2) (y / 2) * 2 + min (x % 2) (y % 2)
bit_and_step x y = omega (
  arith,
  bit_and-bitwise x y,
  bit_and-bitwise (x / 2) (y / 2),
  bitwise_step (λ _. 0) min (λ b. omega arith) x y,
)

bit_and-zero_below : (bound x : ℕ) → x < bound → bit_and x 0 ≡ 0
bit_and-zero_below zero x small = absurd (omega arith)
bit_and-zero_below (suc bound) zero small = refl
bit_and-zero_below (suc bound) (suc x) small =
    omega (arith, bit_and-zero_below bound (suc x / 2) (omega arith), bit_and_step (suc x) 0)

-- A mask of ones, a bit at a time.
bit_and_ones : (m a : ℕ) → bit_and a (2 * m + 1) ≡ bit_and (a / 2) m * 2 + a % 2
bit_and_ones m a = omega (arith, bit_and_step a (2 * m + 1), ap (bit_and (a / 2)) half)
  where
    half : (2 * m + 1) / 2 ≡ m
    half = omega arith

pub bit_and_one : (a : ℕ) → bit_and a 1 ≡ a % 2
bit_and_one a =
    omega (arith, bit_and_ones 0 a, bit_and-zero_below (a / 2 + 1) (a / 2) (omega arith))

pub bit_and_three : (a : ℕ) → bit_and a 3 ≡ a % 4
bit_and_three a = omega (arith, bit_and_ones 1 a, bit_and_one (a / 2))

bit_and_15 : (a : ℕ) → bit_and a 15 ≡ a % 16
bit_and_15 a = omega (arith, bit_and_ones 7 a, bit_and_ones 3 (a / 2), bit_and_three (a / 2 / 2))

bit_and_63 : (a : ℕ) → bit_and a 63 ≡ a % 64
bit_and_63 a = omega (arith, bit_and_ones 31 a, bit_and_ones 15 (a / 2), bit_and_15 (a / 2 / 2))

pub bit_and_127 : (a : ℕ) → bit_and a 0x7f ≡ a % 128
bit_and_127 a = omega (arith, bit_and_ones 63 a, bit_and_63 (a / 2))

bit_and_255 : (a : ℕ) → bit_and a 0xff ≡ a % 256
bit_and_255 a = omega (arith, bit_and_ones 127 a, bit_and_127 (a / 2))

pub bit_and_1023 : (a : ℕ) → bit_and a 0x3ff ≡ a % 1024
bit_and_1023 a =
    omega (arith, bit_and_ones 511 a, bit_and_ones 255 (a / 2), bit_and_255 (a / 2 / 2))

-- Setting the lowest bit of an even number.
pub even-bit_or_one : (a : ℕ) → bit_or (a * 2) 1 ≡ a * 2 + 1
even-bit_or_one a = omega (
  arith,
  bit_or_step (a * 2) 1,
  ap (λ (t : ℕ). bit_or t 0) half,
  bit_or-zero_fuel a a (omega arith),
)
  where
    half : a * 2 / 2 ≡ a
    half = omega arith
