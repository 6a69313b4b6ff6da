-- ===== src/Prelude/Digits.antt =====
-- `bit_and` and `bit_xor` at variables, by the lowest digit.
use Prim.Native.Nat.{
  ℕ, zero, suc, ◌+◌, ◌*◌, ◌/◌, ◌%◌, ◌≤◌, min, bit_and, bit_xor, bitwise, differ, digits,
  bit_and-bitwise, bit_xor-bitwise,
}
use mathlib.Core.Path.{◌≡◌, refl, ap}
use native.Mathlib.Omega.{arith}

-- Any operation on two digits; `z` is the result on what is left of the second number.
module _ (z : ℕ → ℕ) (f : ℕ → ℕ → ℕ) where
  -- Any count of digits that is no smaller than the first number will do.
  enough_digits : (n m a b : ℕ) → a ≤ n → a ≤ m → digits z f n a b ≡ digits z f m a b
  enough_digits zero zero a b p q = refl
  enough_digits (suc n) (suc m) (suc a) b p q =
      omega (arith, enough_digits n m (suc a / 2) (b / 2) (omega arith) (omega arith))
  enough_digits zero (suc m) zero b p q = refl
  enough_digits (suc n) zero zero b p q = refl
  enough_digits (suc n) (suc m) zero b p q = refl
  enough_digits zero (suc m) (suc a) b p q = absurd (omega arith)
  enough_digits (suc n) zero (suc a) b p q = absurd (omega arith)

  module _ (tail : (b : ℕ) → z b ≡ z (b / 2) * 2 + f 0 (b % 2)) where
    lowest : (a b : ℕ) → bitwise z f a b ≡ bitwise z f (a / 2) (b / 2) * 2 + f (a % 2) (b % 2)
    lowest zero b = tail b
    lowest (suc a) b =
        omega (arith, enough_digits a (suc a / 2) (suc a / 2) (b / 2) (omega arith) (omega arith))

and_lowest : (m k : ℕ) → bit_and m k ≡ min (m % 2) (k % 2) + bit_and (m / 2) (k / 2) * 2
and_lowest a b = omega (
  arith,
  bit_and-bitwise a b,
  bit_and-bitwise (a / 2) (b / 2),
  lowest (λ b. 0) min (λ b. omega arith) a b,
)

pub xor_lowest : (a b : ℕ) → bit_xor a b ≡ bit_xor (a / 2) (b / 2) * 2 + differ (a % 2) (b % 2)
xor_lowest a b = omega (
  arith,
  bit_xor-bitwise a b,
  bit_xor-bitwise (a / 2) (b / 2),
  lowest (λ b. b) differ (λ b. omega arith) a b,
)

and_zero : (n a : ℕ) → a ≤ n → bit_and a 0 ≡ 0
and_zero n zero h = refl
and_zero zero (suc a) h = absurd (omega arith)
and_zero (suc n) (suc a) h =
    omega (arith, and_lowest (suc a) 0, and_zero n (suc a / 2) (omega arith))

half : (m : ℕ) → (m * 2 + 1) / 2 ≡ m
half m = omega arith

-- The lowest digit stays, when the mask has it.
and_odd : (a m : ℕ) → bit_and a (m * 2 + 1) ≡ bit_and (a / 2) m * 2 + a % 2
and_odd a m = omega (arith, and_lowest a (m * 2 + 1), ap (bit_and (a / 2)) (half m))

-- One digit after the other.
mask_2 : (a : ℕ) → bit_and a 3 ≡ a % 4
mask_2 a =
    omega (arith, and_odd a 1, and_odd (a / 2) 0, and_zero (a / 2 / 2) (a / 2 / 2) (omega arith))

mask_4 : (a : ℕ) → bit_and a 15 ≡ a % 16
mask_4 a = omega (arith, and_odd a 7, and_odd (a / 2) 3, mask_2 (a / 2 / 2))

pub mask_6 : (a : ℕ) → bit_and a 63 ≡ a % 64
mask_6 a = omega (arith, and_odd a 31, and_odd (a / 2) 15, mask_4 (a / 2 / 2))

mask_7 : (a : ℕ) → bit_and a 127 ≡ a % 128
mask_7 a =
    omega (arith, and_odd a 63, and_odd (a / 2) 31, and_odd (a / 2 / 2) 15, mask_4 (a / 2 / 2 / 2))

pub mask_10 : (a : ℕ) → bit_and a 1023 ≡ a % 1024
mask_10 a =
    omega
      (arith, and_odd a 511, and_odd (a / 2) 255, and_odd (a / 2 / 2) 127, mask_7 (a / 2 / 2 / 2))

pub mask_14 : (a : ℕ) → bit_and a 0x3fff ≡ a % 16384
mask_14 a = omega (
  arith,
  and_odd a 8191,
  and_odd (a / 2) 4095,
  and_odd (a / 2 / 2) 2047,
  and_odd (a / 2 / 2 / 2) 1023,
  mask_10 (a / 2 / 2 / 2 / 2),
)
