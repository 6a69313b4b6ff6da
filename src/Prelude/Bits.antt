-- ===== src/Prelude/Bits.antt =====
-- Masks and shifts on one or two bytes as arithmetic: tables, checked by evaluation.
use Prim.Native.Nat.{ℕ, zero, suc, ◌+◌, ◌*◌, ◌/◌, ◌%◌, ◌<◌, bit_and, bit_or}
use mathlib.Core.Path.{◌≡◌, refl}
use mathlib.Core.Bool.{Bool, true, ◌&&◌}
use native.Mathlib.Omega.{arith}
use rdb_elasticache_migrator.Prelude.Tests.{◌==◌}

-- Whether two functions have the same table, as far as it goes.
unfoldable pub same_table : (ℕ → ℕ) → (ℕ → ℕ) → ℕ → Bool
same_table f g zero = true
same_table f g (suc size) = f size == g size && same_table f g size

pub agree : (size : ℕ) (f g : ℕ → ℕ) → same_table f g size ≡ true → (x : ℕ) → x < size → f x ≡ g x
unfolding same_table
agree zero f g table x h = elim h [ ]
agree (suc size) f g table x h = ground (arith, agree size f g (ground arith) x)

pub and_c0 : (b : ℕ) → b < 256 → bit_and b 0xc0 ≡ b / 64 * 64
unfolding same_table
and_c0 = agree 256 _ _ refl

pub and_3f : (b : ℕ) → b < 256 → bit_and b 0x3f ≡ b % 64
unfolding same_table
and_3f = agree 256 _ _ refl

-- The two arguments of a mask of two bytes, from one number.
or_table : (x : ℕ) → x < 64 * 256 → bit_or (x / 256 * 256) (x % 256) ≡ x / 256 * 256 + x % 256
unfolding same_table
or_table = agree (64 * 256) _ _ refl

pub or_shifted : (h l : ℕ) → h < 64 → l < 256 → bit_or (h * 256) l ≡ h * 256 + l
or_shifted h l p q = rw (high, low) at (or_table (h * 256 + l) (omega arith))
  where
    high : (h * 256 + l) / 256 ≡ h
    high = omega arith

    low : (h * 256 + l) % 256 ≡ l
    low = omega arith

pub and_1f : (b : ℕ) → b < 256 → bit_and b 0x1f ≡ b % 32
unfolding same_table
and_1f = agree 256 _ _ refl

pub and_80 : (b : ℕ) → b < 256 → bit_and b 0x80 ≡ b / 128 * 128
unfolding same_table
and_80 = agree 256 _ _ refl

pub and_e0 : (b : ℕ) → b < 256 → bit_and b 0xe0 ≡ b / 32 * 32
unfolding same_table
and_e0 = agree 256 _ _ refl

pub and_f0 : (b : ℕ) → b < 256 → bit_and b 0xf0 ≡ b / 16 * 16
unfolding same_table
and_f0 = agree 256 _ _ refl

pub and_7f : (b : ℕ) → b < 256 → bit_and b 0x7f ≡ b % 128
unfolding same_table
and_7f = agree 256 _ _ refl

pub and_0f : (b : ℕ) → b < 256 → bit_and b 0x0f ≡ b % 16
unfolding same_table
and_0f = agree 256 _ _ refl

pub and_ff : (b : ℕ) → b < 256 → bit_and b 0xff ≡ b
unfolding same_table
and_ff = agree 256 _ _ refl
