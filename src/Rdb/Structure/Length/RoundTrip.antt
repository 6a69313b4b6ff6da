-- ===== src/Rdb/Structure/Length/RoundTrip.antt =====
-- Reading back the lengths that Redis writes (`rdbSaveLen`), whatever follows them.
use rdb_elasticache_migrator.Prelude.{
  ℕ, ◌+◌, ◌*◌, ◌/◌, ◌%◌, ◌^◌, ◌<◌, ◌≡◌, ap, false, true, [], ◌∷◌, ◌++◌, arith, ltb, leb,
  if◌then◌else◌,
}
use rdb_elasticache_migrator.Prelude.Bits.{and_c0, and_3f, or_shifted}
use rdb_elasticache_migrator.Runtime.{Bytes, ok}
use rdb_elasticache_migrator.Runtime.Words.{to_big, big_endian-to_big}
use rdb_elasticache_migrator.Rdb.Structure.Length.{Encoded, read_encoded_length, read_length}

abbrev plain : ℕ → Encoded
plain n = record { length = n; special = false }

six_bits : (b : ℕ) (rest : Bytes) → b < 64 → read_encoded_length (b ∷ rest) ≡ ok (plain b, rest)
unfolding read_encoded_length
six_bits b rest h = ground (arith, and_c0 b, and_3f b)

fourteen_bits :
    (h l : ℕ) (rest : Bytes)
    → h < 64
    → l < 256
    → read_encoded_length ((64 + h) ∷ l ∷ rest) ≡ ok (plain (h * 256 + l), rest)
unfolding read_encoded_length
fourteen_bits h l rest p q = ground (arith, and_c0 (64 + h), and_3f (64 + h), or_shifted h l)

four_bytes :
    (n : ℕ) (rest : Bytes)
    → n < 2 ^ 32
    → read_encoded_length (0x80 ∷ (to_big 4 n ++ rest)) ≡ ok (plain n, rest)
unfolding read_encoded_length to_big
four_bytes n rest p = ap (λ m. ok (plain m, rest)) (big_endian-to_big 4 n p)

eight_bytes :
    (n : ℕ) (rest : Bytes)
    → n < 2 ^ 64
    → read_encoded_length (0x81 ∷ (to_big 8 n ++ rest)) ≡ ok (plain n, rest)
unfolding read_encoded_length to_big
eight_bytes n rest p = ap (λ m. ok (plain m, rest)) (big_endian-to_big 8 n p)

-- The two bits above a special encoding are set; the number below them says which one it is.
pub special_encoding :
    (kind : ℕ) (rest : Bytes)
    → kind < 64
    → read_encoded_length ((0xc0 + kind) ∷ rest)
      ≡ ok (record { length = kind; special = true }, rest)
unfolding read_encoded_length
special_encoding kind rest h = ground (arith, and_c0 (0xc0 + kind), and_3f (0xc0 + kind))

-- `rdbSaveLen`: the shortest form that holds the number.
unfoldable pub encode_length : ℕ → Bytes
encode_length n =
    if ltb n 64
    then n ∷ []
    else if ltb n 16384
    then (64 + n / 256) ∷ n % 256 ∷ []
    else if leb n 0xffff_ffff
    then 0x80 ∷ to_big 4 n
    else 0x81 ∷ to_big 8 n

-- Every length below 2 ^ 64 that `rdbSaveLen` writes is read back, with the rest left unread.
pub read_encoded_length-encode_length :
    (n : ℕ) (rest : Bytes)
    → n < 2 ^ 64
    → read_encoded_length (encode_length n ++ rest)
      ≡ ok (record { length = n; special = false }, rest)
unfolding encode_length
read_encoded_length-encode_length n rest h = ground (
  arith,
  six_bits n rest,
  fourteen_bits (n / 256) (n % 256) rest,
  four_bytes n rest,
  eight_bytes n rest,
)

pub read_length-encode_length :
    (n : ℕ) (rest : Bytes) → n < 2 ^ 64 → read_length (encode_length n ++ rest) ≡ ok (n, rest)
unfolding read_length
read_length-encode_length n rest h = rw (read_encoded_length-encode_length n rest h)
