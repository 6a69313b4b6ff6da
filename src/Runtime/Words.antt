-- ===== src/Runtime/Words.antt =====
-- `binary.LittleEndian` and `binary.BigEndian` of encoding/binary, on slices of any length.
use rdb_elasticache_migrator.Prelude.{
  ℕ, zero, suc, ◌+◌, ◌*◌, ◌/◌, ◌%◌, ◌^◌, ◌<◌, ◌≡◌, refl, [], ◌∷◌, ◌++◌, arith, length,
  length-append,
}
use rdb_elasticache_migrator.Runtime.Input.{Bytes}

unfoldable pub little_endian : Bytes → ℕ
little_endian [] = 0
little_endian (b ∷ bs) = b + 256 * little_endian bs

big_onto : ℕ → Bytes → ℕ
big_onto acc [] = acc
big_onto acc (b ∷ bs) = big_onto (acc * 256 + b) bs

unfoldable pub big_endian : Bytes → ℕ
unfolding big_onto
big_endian = big_onto 0

-- The w bytes of a number, the lowest first, and the highest first.
unfoldable pub to_little : ℕ → ℕ → Bytes
to_little zero n = []
to_little (suc w) n = n % 256 ∷ to_little w (n / 256)

unfoldable pub to_big : ℕ → ℕ → Bytes
to_big zero n = []
to_big (suc w) n = to_big w (n / 256) ++ n % 256 ∷ []

pub length-to_little : (w n : ℕ) → length (to_little w n) ≡ w
unfolding to_little
length-to_little zero n = refl
length-to_little (suc w) n = omega (arith, length-to_little w (n / 256))

pub length-to_big : (w n : ℕ) → length (to_big w n) ≡ w
unfolding to_big
length-to_big zero n = refl
length-to_big (suc w) n =
    omega (arith, length-to_big w (n / 256), length-append {0} (to_big w (n / 256)) (n % 256 ∷ []))

pow_step : (w : ℕ) → 256 ^ suc w ≡ 256 * 256 ^ w
pow_step w = grind arith

pub little_endian-to_little : (w n : ℕ) → n < 256 ^ w → little_endian (to_little w n) ≡ n
unfolding little_endian to_little
little_endian-to_little zero n h = omega arith
little_endian-to_little (suc w) n h =
    omega (arith, pow_step w, little_endian-to_little w (n / 256) (omega (arith, pow_step w)))

big_onto-append : (xs : Bytes) (acc b : ℕ) → big_onto acc (xs ++ b ∷ []) ≡ big_onto acc xs * 256 + b
unfolding big_onto
big_onto-append [] acc b = refl
big_onto-append (x ∷ xs) acc b = big_onto-append xs (acc * 256 + x) b

pub big_endian-to_big : (w n : ℕ) → n < 256 ^ w → big_endian (to_big w n) ≡ n
unfolding big_endian to_big
big_endian-to_big zero n h = omega arith
big_endian-to_big (suc w) n h = omega (
  arith,
  big_onto-append (to_big w (n / 256)) 0 (n % 256),
  big_endian-to_big w (n / 256) (omega (arith, pow_step w)),
)
