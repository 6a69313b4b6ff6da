-- ===== src/Rdb/Structure/Ziplist/ReadEntry.antt =====
-- Reading back one value of a ziplist, encoding by encoding.
use rdb_elasticache_migrator.Prelude.{
  ℕ, ◌+◌, ◌*◌, ◌-◌, ◌/◌, ◌%◌, ◌^◌, ◌<◌, ◌≤◌, ◌≡◌, ap, false, ◌∷◌, ◌++◌, arith, append_assoc, length,
  bit_and, bit_or, ◌==◌, sym, ltb, Bool-cases, inl, inr, tests,
}
use rdb_elasticache_migrator.Prelude.Bits.{and_c0, and_3f, and_0f, or_shifted}
use rdb_elasticache_migrator.Prelude.Int.{ℤ, pos, negsuc, signed, unsigned}
use rdb_elasticache_migrator.Runtime.{Bytes, Result, ok, read_full-append, ◌>>=◌}
use rdb_elasticache_migrator.Runtime.Words.{
  to_little, to_big, little_endian-to_little, big_endian-to_big,
}
use rdb_elasticache_migrator.Runtime.Strconv.{format_int}
use rdb_elasticache_migrator.Rdb.Structure.Int.{read_bytes, read_byte, read_uint32}
use rdb_elasticache_migrator.Rdb.Structure.Strings.RoundTrip.{InRange}
use rdb_elasticache_migrator.Rdb.Structure.Ziplist.{ziplist_value, read_ziplist_entry}
use rdb_elasticache_migrator.Rdb.Structure.Ziplist.Entry.{
  Value, str06, str14, str32, int04, int08, int16, int24, int32, int64, IsValue, render, payload,
  prevlen, encode_entry,
}

value_int04 :
    (n : ℕ) (rest : Bytes) → n ≤ 12 → ziplist_value (0xf1 + n) rest ≡ ok (format_int (pos n), rest)
unfolding ziplist_value
value_int04 n rest h = ground (arith, and_c0 (0xf1 + n), and_0f (0xf1 + n))

value_int08 :
    (z : ℤ) (rest : Bytes)
    → InRange 8 z
    → ziplist_value 0xfe (to_little 1 (unsigned 8 z) ++ rest) ≡ ok (format_int z, rest)
unfolding ziplist_value to_little
value_int08 (pos n) rest h = ground arith
value_int08 (negsuc n) rest h = ground arith

value_int16 :
    (z : ℤ) (rest : Bytes)
    → InRange 16 z
    → ziplist_value 0xc0 (to_little 2 (unsigned 16 z) ++ rest) ≡ ok (format_int z, rest)
unfolding ziplist_value to_little
value_int16 (pos n) rest h = ground arith
value_int16 (negsuc n) rest h = ground arith

value_int24 :
    (z : ℤ) (rest : Bytes)
    → InRange 24 z
    → ziplist_value 0xf0 (to_little 3 (unsigned 24 z) ++ rest) ≡ ok (format_int z, rest)
unfolding ziplist_value to_little
value_int24 (pos n) rest h = ground arith
value_int24 (negsuc n) rest h = ground arith

value_int32 :
    (z : ℤ) (rest : Bytes)
    → InRange 32 z
    → ziplist_value 0xd0 (to_little 4 (unsigned 32 z) ++ rest) ≡ ok (format_int z, rest)
unfolding ziplist_value to_little
value_int32 (pos n) rest h = ground arith
value_int32 (negsuc n) rest h = ground arith

signed-unsigned : (z : ℤ) → InRange 64 z → signed 64 (unsigned 64 z) ≡ z
signed-unsigned (pos n) h = ground arith
signed-unsigned (negsuc n) h = ground arith

text_of :
    (z : ℤ) (x : ℕ) (rest : Bytes)
    → InRange 64 z
    → x ≡ unsigned 64 z
    → ◌≡◌ {A = Result (Bytes × Bytes)}
        (ok (format_int (signed 64 x), rest))
        (ok (format_int z, rest))
text_of z x rest h e = rw e (ap (λ v. ok (format_int v, rest)) (signed-unsigned z h))

value_int64 :
    (z : ℤ) (rest : Bytes)
    → InRange 64 z
    → ziplist_value 0xe0 (to_little 8 (unsigned 64 z) ++ rest) ≡ ok (format_int z, rest)
unfolding ziplist_value to_little
value_int64 (pos n) rest h = text_of (pos n) _ rest h (little_endian-to_little 8 n (omega arith))
value_int64 (negsuc n) rest h =
    text_of (negsuc n) _ rest h (little_endian-to_little 8 (2 ^ 64 - 1 - n) (omega arith))

read_known : (s rest : Bytes) (n : ℕ) → n ≡ length s → read_bytes (pos n) (s ++ rest) ≡ ok (s, rest)
unfolding read_bytes
read_known s rest n h = read_full-append s rest n (sym h)

value_str06 : (s rest : Bytes) → length s < 64 → ziplist_value (length s) (s ++ rest) ≡ ok (s, rest)
unfolding ziplist_value
value_str06 s rest h =
    ground
      (arith, and_c0 (length s), and_3f (length s), read_known s rest (bit_and (length s) 0x3f))

value_str14 :
    (s rest : Bytes)
    → length s < 16384
    → ziplist_value (64 + length s / 256) (length s % 256 ∷ (s ++ rest)) ≡ ok (s, rest)
unfolding ziplist_value
value_str14 s rest h = ground (
  arith,
  and_c0 (64 + length s / 256),
  and_3f (64 + length s / 256),
  or_shifted (length s / 256) (length s % 256),
  read_known s rest (bit_or (bit_and (64 + length s / 256) 0x3f * 256) (length s % 256)),
)

value_str32 :
    (s rest : Bytes)
    → length s < 2 ^ 32
    → ziplist_value 0x80 (to_big 4 (length s) ++ (s ++ rest)) ≡ ok (s, rest)
unfolding ziplist_value to_big read_bytes
value_str32 s rest h = read_known s rest _ (big_endian-to_big 4 (length s) h)

value-payload :
    (v : Value) (rest : Bytes)
    → IsValue v
    → (do b ← read_byte; ziplist_value b) (payload v ++ rest) ≡ ok (render v, rest)
unfolding read_byte payload render
value-payload (str06 s) rest h = value_str06 s rest h
value-payload (str14 s) rest h = value_str14 s rest h
value-payload (str32 s) rest h = rw append_assoc (value_str32 s rest h)
value-payload (int04 n) rest h = value_int04 n rest h
value-payload (int08 z) rest h = value_int08 z rest h
value-payload (int16 z) rest h = value_int16 z rest h
value-payload (int24 z) rest h = value_int24 z rest h
value-payload (int32 z) rest h = value_int32 z rest h
value-payload (int64 z) rest h = value_int64 z rest h

pub not_marked : (before : ℕ) → before < 254 → (before == 0xfe) ≡ false
not_marked before h = ground arith

pub entry_short :
    (before : ℕ) (v : Value) (rest : Bytes)
    → before < 254
    → IsValue v
    → read_ziplist_entry before (payload v ++ rest) ≡ ok (render v, rest)
unfolding read_ziplist_entry
entry_short before v rest small h = rw (not_marked before small) (value-payload v rest h)

-- Every entry is read back, whatever the length before it and whatever follows it.
pub read_ziplist_entry-encode_entry :
    (before : ℕ) (v : Value) (rest : Bytes)
    → before < 2 ^ 32
    → IsValue v
    → (do b ← read_byte; read_ziplist_entry b) (encode_entry before v ++ rest) ≡ ok (render v, rest)
unfolding read_ziplist_entry encode_entry prevlen read_byte read_uint32
read_ziplist_entry-encode_entry before v rest small h = elim (Bool-cases (ltb before 254)) [
  | inl short ↦ rw (short, not_marked before (omega (tests, short))) (value-payload v rest h)
  | inr long ↦ rw long (value-payload v rest h)
]
