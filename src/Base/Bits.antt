-- ===== src/Base/Bits.antt =====
-- The bits of native numbers, under the library's `bit_and` and `bit_or`.
use Prim.Native.Nat.{
  ℕ, zero, suc, ◌+◌, ◌*◌, ◌/◌, ◌%◌, ◌≤◌, ◌<◌, min, max, bit_and, bit_or, digits, bit_and-bitwise,
  bit_or-bitwise,
}
use mathlib.Core.Path.{◌≡◌, refl, ap, ◌∙◌}
use native.Mathlib.Omega.{arith}
use kvisor.Base.Tests.{◌==◌, if◌then◌else◌}

module _ (z : ℕ → ℕ) (f : ℕ → ℕ → ℕ) where
  -- Fuel above the first number makes no difference.
  digits_enough : (n m a b : ℕ) → a ≤ n → a ≤ m → digits z f n a b ≡ digits z f m a b
  digits_enough zero zero a b p q = refl
  digits_enough zero (suc m) zero b p q = refl
  digits_enough zero (suc m) (suc a) b p q = absurd (omega arith)
  digits_enough (suc n) zero zero b p q = refl
  digits_enough (suc n) zero (suc a) b p q = absurd (omega arith)
  digits_enough (suc n) (suc m) zero b p q = refl
  digits_enough (suc n) (suc m) (suc a) b p q =
      omega (arith, digits_enough n m (suc a / 2) (b / 2) (omega arith) (omega arith))

and_step : (a b : ℕ) → bit_and a b ≡ bit_and (a / 2) (b / 2) * 2 + min (a % 2) (b % 2)
and_step zero b = omega (arith, bit_and-bitwise 0 b, bit_and-bitwise 0 (b / 2))
and_step (suc a) b = omega (
  arith,
  bit_and-bitwise (suc a) b,
  bit_and-bitwise (suc a / 2) (b / 2),
  digits_enough (λ b. zero) min a (suc a / 2) (suc a / 2) (b / 2) (omega arith) (omega arith),
)

or_step : (a b : ℕ) → bit_or a b ≡ bit_or (a / 2) (b / 2) * 2 + max (a % 2) (b % 2)
or_step zero b = omega (arith, bit_or-bitwise 0 b, bit_or-bitwise 0 (b / 2))
or_step (suc a) b = omega (
  arith,
  bit_or-bitwise (suc a) b,
  bit_or-bitwise (suc a / 2) (b / 2),
  digits_enough (λ b. b) max a (suc a / 2) (suc a / 2) (b / 2) (omega arith) (omega arith),
)

-- `1 << i`.
unfoldable pub shl_one : ℕ → ℕ
shl_one zero = 1
shl_one (suc i) = shl_one i * 2

-- The bit with an index.
abbrev pub bit : ℕ → ℕ → ℕ
bit zero a = a % 2
bit (suc i) a = bit i (a / 2)

pub bit-zero : (i : ℕ) → bit i 0 ≡ 0
bit-zero zero = refl
bit-zero (suc i) = bit-zero i

half_or : (a b : ℕ) → bit_or a b / 2 ≡ bit_or (a / 2) (b / 2)
half_or a b = omega (arith, or_step a b)

pub bit-or : (i a b : ℕ) → bit i (bit_or a b) ≡ max (bit i a) (bit i b)
bit-or zero a b = omega (arith, or_step a b)
bit-or (suc i) a b = ap (bit i) (half_or a b) ∙ bit-or i (a / 2) (b / 2)

halved : (n : ℕ) → n * 2 / 2 ≡ n
halved n = omega arith

doubled : (k m : ℕ) → k * (m * 2) ≡ k * m * 2
doubled k m = grind arith

last_even : (a m : ℕ) → min (a % 2) (m * 2 % 2) ≡ 0
last_even a m = omega arith

pub bit-shl : (i j : ℕ) → bit i (shl_one j) ≡ (if i == j then 1 else 0)
unfolding shl_one
bit-shl zero zero = refl
bit-shl zero (suc j) = ground arith
bit-shl (suc i) zero = ground (arith, bit-zero i)
bit-shl (suc i) (suc j) = ap (bit i) (halved (shl_one j)) ∙ ground (arith, bit-shl i j)

pub shl_one-positive : (j : ℕ) → 0 < shl_one j
unfolding shl_one
shl_one-positive zero = omega arith
shl_one-positive (suc j) = omega (arith, shl_one-positive j)

and_none : (n a : ℕ) → a ≤ n → bit_and a 0 ≡ 0
and_none n zero h = refl
and_none zero (suc a) h = absurd (omega arith)
and_none (suc n) (suc a) h = omega (arith, and_step (suc a) 0, and_none n (suc a / 2) (omega arith))

-- A mask of one bit picks that bit.
pub and-shl : (j a : ℕ) → bit_and a (shl_one j) ≡ bit j a * shl_one j
unfolding shl_one
and-shl zero a = omega (arith, and_step a 1, and_none (a / 2) (a / 2) (omega arith))
and-shl (suc j) a = omega (
  arith,
  and_step a (shl_one j * 2),
  ap (λ m. bit_and (a / 2) m) (halved (shl_one j)),
  last_even a (shl_one j),
  and-shl j (a / 2),
  doubled (bit j (a / 2)) (shl_one j),
)

pub or_below : (n a b : ℕ) → a < shl_one n → b < shl_one n → bit_or a b < shl_one n
unfolding shl_one
or_below zero zero b p q = omega (arith, or_step 0 b, bit_or-bitwise 0 b)
or_below zero (suc a) b p q = absurd (omega arith)
or_below (suc n) a b p q =
    omega (arith, or_step a b, or_below n (a / 2) (b / 2) (omega arith) (omega arith))

pub shl_one-below : (i n : ℕ) → i < n → shl_one i < shl_one n
unfolding shl_one
shl_one-below i zero h = absurd (omega arith)
shl_one-below zero (suc n) h = omega (arith, shl_one-positive n)
shl_one-below (suc i) (suc n) h = omega (arith, shl_one-below i n (omega arith))
