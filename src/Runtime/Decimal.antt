-- ===== src/Runtime/Decimal.antt =====
-- The texts of numbers, byte by byte.
use rdb_elasticache_migrator.Prelude.{
  ℕ, zero, suc, ◌+◌, ◌%◌, ◌/◌, ◌≤◌, ◌<◌, List, [], ◌∷◌, ◌++◌, length, length-append, arith, ltb,
  ltb→lt, inl, inr, Bool-cases,
}
use rdb_elasticache_migrator.Prelude.Int.{ℤ, pos, negsuc}
use rdb_elasticache_migrator.Runtime.Input.{Bytes}
use rdb_elasticache_migrator.Runtime.Strings.{Without, nothing, also}
use rdb_elasticache_migrator.Runtime.Emit.{Each}
use rdb_elasticache_migrator.Runtime.Strconv.{digits, format_uint, format_int}

pub Without-append : {b : ℕ} {xs ys : Bytes} → Without b xs → Without b ys → Without b (xs ++ ys)
Without-append nothing q = q
Without-append (also p ps) q = also p (Without-append ps q)

pub Each-append {ℓ} :
    {A : Type ℓ} (P : A → Type 0) (xs ys : List A) → Each P xs → Each P ys → Each P (xs ++ ys)
Each-append P [] ys p q = q
Each-append P (x ∷ xs) ys (p, ps) q = (p, Each-append P xs ys ps q)

digits-Without : (b fuel n : ℕ) → b < 48 → Without b (digits fuel n)
unfolding digits
digits-Without b zero n h = nothing
digits-Without b (suc fuel) n h = elim (Bool-cases (ltb n 10)) [
  | inl e ↦ rw (e) (also {c = n + 48} (omega arith) nothing)
  | inr e ↦ rw (e) (
      Without-append (digits-Without b fuel (n / 10) h)
        (also {c = n % 10 + 48} (omega arith) nothing))
]

length-digits : (fuel n : ℕ) → length (digits fuel n) ≤ fuel
unfolding digits
length-digits zero n = omega arith
length-digits (suc fuel) n = ground (
  arith,
  length-digits fuel (n / 10),
  length-append {0} (digits fuel (n / 10)) ((n % 10 + 48) ∷ []),
)

-- Neither a newline nor any other byte below the digits, the sign aside.
pub format_uint-Without : (b n : ℕ) → b < 48 → Without b (format_uint n)
unfolding format_uint
format_uint-Without b n h = digits-Without b 20 n h

pub format_int-Without : (b : ℕ) (z : ℤ) → b < 45 → Without b (format_int z)
unfolding format_int
format_int-Without b (pos n) h = format_uint-Without b n (omega arith)
format_int-Without b (negsuc n) h = also (omega arith) (format_uint-Without b (suc n) (omega arith))

pub length-format_uint : (n : ℕ) → length (format_uint n) ≤ 20
unfolding format_uint
length-format_uint n = length-digits 20 n

pub length-format_int : (z : ℤ) → length (format_int z) ≤ 21
unfolding format_int
length-format_int (pos n) = omega (arith, length-format_uint n)
length-format_int (negsuc n) = omega (arith, length-format_uint (suc n))

-- What holds of the ten digits holds of the text of a number.
digits-Each :
    (P : ℕ → Type 0) (fuel n : ℕ) → ((d : ℕ) → d < 10 → P (d + 48)) → Each P (digits fuel n)
unfolding digits
digits-Each P zero n h = tt
digits-Each P (suc fuel) n h = elim (Bool-cases (ltb n 10)) [
  | inl e ↦ rw (e) (h n (ltb→lt n 10 e), tt)
  | inr e ↦ rw (e) (
      Each-append P (digits fuel (n / 10)) ((n % 10 + 48) ∷ []) (digits-Each P fuel (n / 10) h)
        (h (n % 10) (omega arith), tt))
]

pub format_uint-Each :
    (P : ℕ → Type 0) (n : ℕ) → ((d : ℕ) → d < 10 → P (d + 48)) → Each P (format_uint n)
unfolding format_uint
format_uint-Each P n h = digits-Each P 20 n h

pub format_int-Each :
    (P : ℕ → Type 0) (z : ℤ) → P b'-' → ((d : ℕ) → d < 10 → P (d + 48)) → Each P (format_int z)
unfolding format_int
format_int-Each P (pos n) m h = format_uint-Each P n h
format_int-Each P (negsuc n) m h = (m, format_uint-Each P (suc n) h)

positive-digits : (fuel n : ℕ) → 0 < length (digits (suc fuel) n)
unfolding digits
positive-digits fuel n =
    ground (arith, length-append {0} (digits fuel (n / 10)) ((n % 10 + 48) ∷ []))

pub positive-format_int : (z : ℤ) → 0 < length (format_int z)
unfolding format_int format_uint
positive-format_int (pos n) = positive-digits 19 n
positive-format_int (negsuc n) = omega arith
