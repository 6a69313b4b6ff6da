-- ===== src/Rdb/Structure/Listpack/ReadEntry.antt =====
-- Reading back one entry of a listpack, encoding by encoding.
use rdb_elasticache_migrator.Prelude.{
  ℕ, suc, ◌+◌, ◌*◌, ◌-◌, ◌/◌, ◌%◌, ◌^◌, ◌<◌, ◌≤◌, ◌≡◌, ap, false, true, ◌++◌, arith, append_assoc,
  length, bit_and, ◌==◌, refl, sym,
}
use rdb_elasticache_migrator.Prelude.Bits.{
  and_c0, and_3f, and_80, and_7f, and_e0, and_1f, and_f0, and_0f, and_ff,
}
use rdb_elasticache_migrator.Prelude.Int.{ℤ, pos, negsuc}
use rdb_elasticache_migrator.Runtime.{Bytes, Result, ok, read_full-append}
use rdb_elasticache_migrator.Runtime.Words.{little_endian-to_little}
use rdb_elasticache_migrator.Runtime.Strconv.{format_int}
use rdb_elasticache_migrator.Rdb.Structure.Int.{read_bytes}
use rdb_elasticache_migrator.Rdb.Structure.Strings.RoundTrip.{InRange}
use rdb_elasticache_migrator.Rdb.Structure.Listpack.{
  lp_encode_backlen, to_signed, text, read_listpack_entry,
}
use rdb_elasticache_migrator.Rdb.Structure.Listpack.Entry.{
  Entry, uint7, int13, int16, int24, int32, int64, str6, str12, str32, IsEntry, render, payload,
  backlen, encode_entry,
}

-- The program skips as many bytes as Redis writes.
length-backlen : (l : ℕ) → length (backlen l) ≡ lp_encode_backlen l
unfolding backlen lp_encode_backlen
length-backlen l = ground arith

read_known :
    (xs rest : Bytes) (n : ℕ) → length xs ≡ n → read_bytes (pos n) (xs ++ rest) ≡ ok (xs, rest)
unfolding read_bytes
read_known xs rest n h = read_full-append xs rest n h

skip :
    (l n : ℕ) (rest : Bytes)
    → l ≡ n
    → read_bytes (pos (lp_encode_backlen n)) (backlen l ++ rest) ≡ ok (backlen l, rest)
skip l n rest h = rw h (read_known (backlen n) rest (lp_encode_backlen n) (length-backlen n))

-- Two's complement by way of `negstart` and `negmax`.
abbrev word : ℕ → ℤ → ℕ
word half (pos n) = n
word half (negsuc n) = 2 * half - 1 - n

abbrev Within : ℕ → ℤ → Type 0
Within half (pos n) = n < half
Within half (negsuc n) = n < half

to_signed-word :
    (half : ℕ) (z : ℤ)
    → half ≤ 2 ^ 63
    → Within half z
    → to_signed (word half z) half (2 * half - 1) ≡ z
unfolding to_signed
to_signed-word half (pos n) le h = ground arith
to_signed-word half (negsuc n) le h = ground arith

-- What the code below the branches makes of the word of an integer.
word_text :
    (half : ℕ) (z : ℤ) (x : ℕ) (rest : Bytes)
    → x ≡ word half z
    → half ≤ 2 ^ 63
    → Within half z
    → ◌≡◌ {A = Result (Bytes × Bytes)}
        (ok (format_int (to_signed x half (2 * half - 1)), rest))
        (ok (format_int z, rest))
word_text half z x rest e le h =
    rw e (ap (λ v. ok (format_int v, rest)) (to_signed-word half z le h))

read-int16 :
    (z : ℤ) (rest : Bytes)
    → InRange 16 z
    → read_listpack_entry (encode_entry (int16 z) ++ rest) ≡ ok (format_int z, rest)
unfolding read_listpack_entry encode_entry payload backlen lp_encode_backlen
read-int16 (pos n) rest h =
    word_text (2 ^ 15) (pos n) _ rest (little_endian-to_little 2 n (omega arith)) (omega arith) h
read-int16 (negsuc n) rest h =
    word_text (2 ^ 15) (negsuc n) _ rest (little_endian-to_little 2 (2 ^ 16 - 1 - n) (omega arith))
      (omega arith) h

read-int24 :
    (z : ℤ) (rest : Bytes)
    → InRange 24 z
    → read_listpack_entry (encode_entry (int24 z) ++ rest) ≡ ok (format_int z, rest)
unfolding read_listpack_entry encode_entry payload backlen lp_encode_backlen
read-int24 (pos n) rest h =
    word_text (2 ^ 23) (pos n) _ rest (little_endian-to_little 3 n (omega arith)) (omega arith) h
read-int24 (negsuc n) rest h =
    word_text (2 ^ 23) (negsuc n) _ rest (little_endian-to_little 3 (2 ^ 24 - 1 - n) (omega arith))
      (omega arith) h

read-int32 :
    (z : ℤ) (rest : Bytes)
    → InRange 32 z
    → read_listpack_entry (encode_entry (int32 z) ++ rest) ≡ ok (format_int z, rest)
unfolding read_listpack_entry encode_entry payload backlen lp_encode_backlen
read-int32 (pos n) rest h =
    word_text (2 ^ 31) (pos n) _ rest (little_endian-to_little 4 n (omega arith)) (omega arith) h
read-int32 (negsuc n) rest h =
    word_text (2 ^ 31) (negsuc n) _ rest (little_endian-to_little 4 (2 ^ 32 - 1 - n) (omega arith))
      (omega arith) h

read-int64 :
    (z : ℤ) (rest : Bytes)
    → InRange 64 z
    → read_listpack_entry (encode_entry (int64 z) ++ rest) ≡ ok (format_int z, rest)
unfolding read_listpack_entry encode_entry payload backlen lp_encode_backlen
read-int64 (pos n) rest h =
    word_text (2 ^ 63) (pos n) _ rest (little_endian-to_little 8 n (omega arith)) (omega arith) h
read-int64 (negsuc n) rest h =
    word_text (2 ^ 63) (negsuc n) _ rest (little_endian-to_little 8 (2 ^ 64 - 1 - n) (omega arith))
      (omega arith) h

read-uint7 :
    (n : ℕ) (rest : Bytes)
    → n < 128
    → read_listpack_entry (encode_entry (uint7 n) ++ rest) ≡ ok (format_int (pos n), rest)
unfolding read_listpack_entry encode_entry payload backlen lp_encode_backlen to_signed
read-uint7 n rest h = ground (arith, and_80 n, and_7f n)

-- The tests on the first byte of a 13-bit integer, and of the two short kinds of string.
module _ (h : ℕ) (small : h < 32) where
  int13_not_uint7 : (bit_and (0xc0 + h) 0x80 == 0x00) ≡ false
  int13_not_uint7 = ground (arith, and_80 (0xc0 + h))

  int13_not_str6 : (bit_and (0xc0 + h) 0xc0 == 0x80) ≡ false
  int13_not_str6 = ground (arith, and_c0 (0xc0 + h))

  int13_mask : (bit_and (0xc0 + h) 0xe0 == 0xc0) ≡ true
  int13_mask = ground (arith, and_e0 (0xc0 + h))

  int13_high : bit_and (0xc0 + h) 0x1f ≡ h
  int13_high = omega (arith, and_1f (0xc0 + h))

read-int13 :
    (z : ℤ) (rest : Bytes)
    → InRange 13 z
    → read_listpack_entry (encode_entry (int13 z) ++ rest) ≡ ok (format_int z, rest)
unfolding read_listpack_entry encode_entry payload backlen lp_encode_backlen
read-int13 (pos n) rest h =
    rw
      (
        int13_not_uint7 (n / 256) (omega arith),
        int13_not_str6 (n / 256) (omega arith),
        int13_mask (n / 256) (omega arith),
        int13_high (n / 256) (omega arith),
      )
      (word_text 4096 (pos n) _ rest (omega arith) (omega arith) h)
read-int13 (negsuc n) rest h =
    rw
      (
        int13_not_uint7 ((8191 - n) / 256) (omega arith),
        int13_not_str6 ((8191 - n) / 256) (omega arith),
        int13_mask ((8191 - n) / 256) (omega arith),
        int13_high ((8191 - n) / 256) (omega arith),
      )
      (word_text 4096 (negsuc n) _ rest (omega arith) (omega arith) h)

module _ (n : ℕ) (small : n < 64) where
  str6_not_uint7 : (bit_and (0x80 + n) 0x80 == 0x00) ≡ false
  str6_not_uint7 = ground (arith, and_80 (0x80 + n))

  str6_mask : (bit_and (0x80 + n) 0xc0 == 0x80) ≡ true
  str6_mask = ground (arith, and_c0 (0x80 + n))

  str6_length : bit_and (0x80 + n) 0x3f ≡ n
  str6_length = omega (arith, and_3f (0x80 + n))

module _ (h : ℕ) (small : h < 16) where
  str12_not_short : (bit_and (0xe0 + h) 0x80 == 0x00) ≡ false
  str12_not_short = ground (arith, and_80 (0xe0 + h))

  str12_not_str6 : (bit_and (0xe0 + h) 0xc0 == 0x80) ≡ false
  str12_not_str6 = ground (arith, and_c0 (0xe0 + h))

  str12_not_int13 : (bit_and (0xe0 + h) 0xe0 == 0xc0) ≡ false
  str12_not_int13 = ground (arith, and_e0 (0xe0 + h))

  str12_not_wide : (k : ℕ) → 0xf0 ≤ k → (bit_and (0xe0 + h) 0xff == k) ≡ false
  str12_not_wide k wide = ground (arith, and_ff (0xe0 + h))

  str12_mask : (bit_and (0xe0 + h) 0xf0 == 0xe0) ≡ true
  str12_mask = ground (arith, and_f0 (0xe0 + h))

  str12_high : bit_and (0xe0 + h) 0x0f ≡ h
  str12_high = omega (arith, and_0f (0xe0 + h))

-- A string behind its header.
read-text :
    (s rest : Bytes) (header l : ℕ)
    → header + length s ≡ l
    → (text header (length s)) (s ++ (backlen l ++ rest)) ≡ ok (s, rest)
read-text s rest header l e =
    rw (read_known s (backlen l ++ rest) (length s) refl, skip l (header + length s) rest (sym e))

read-str6 :
    (s rest : Bytes)
    → length s < 64
    → read_listpack_entry (encode_entry (str6 s) ++ rest) ≡ ok (s, rest)
unfolding read_listpack_entry encode_entry payload
read-str6 s rest h = rw (
  str6_not_uint7 (length s) h,
  str6_mask (length s) h,
  str6_length (length s) h,
  append_assoc,
  read-text s rest 1 (suc (length s)) (omega arith),
)

read-str12 :
    (s rest : Bytes)
    → length s < 4096
    → read_listpack_entry (encode_entry (str12 s) ++ rest) ≡ ok (s, rest)
unfolding read_listpack_entry encode_entry payload
read-str12 s rest h =
    let h16 : length s / 256 < 16 = omega arith in
    rw (
      str12_not_short (length s / 256) h16,
      str12_not_str6 (length s / 256) h16,
      str12_not_int13 (length s / 256) h16,
      str12_not_wide (length s / 256) h16 0xf1 (omega arith),
      str12_not_wide (length s / 256) h16 0xf2 (omega arith),
      str12_not_wide (length s / 256) h16 0xf3 (omega arith),
      str12_not_wide (length s / 256) h16 0xf4 (omega arith),
      str12_mask (length s / 256) h16,
      str12_high (length s / 256) h16,
      split (length s),
      append_assoc,
      read-text s rest 2 (suc (suc (length s))) (omega arith),
    )
  where
    split : (n : ℕ) → n / 256 * 256 + n % 256 ≡ n
    split n = omega arith

read-str32 :
    (s rest : Bytes)
    → length s < 2 ^ 32
    → read_listpack_entry (encode_entry (str32 s) ++ rest) ≡ ok (s, rest)
unfolding read_listpack_entry encode_entry payload
read-str32 s rest h =
    rw (little_endian-to_little 4 (length s) h, append_assoc)
      (read-text s rest 5 (suc (suc (suc (suc (suc (length s)))))) (omega arith))

-- Every entry is read back, whatever follows it.
pub read_listpack_entry-encode_entry :
    (e : Entry) (rest : Bytes)
    → IsEntry e
    → read_listpack_entry (encode_entry e ++ rest) ≡ ok (render e, rest)
unfolding render
read_listpack_entry-encode_entry (uint7 n) rest h = read-uint7 n rest h
read_listpack_entry-encode_entry (int13 z) rest h = read-int13 z rest h
read_listpack_entry-encode_entry (int16 z) rest h = read-int16 z rest h
read_listpack_entry-encode_entry (int24 z) rest h = read-int24 z rest h
read_listpack_entry-encode_entry (int32 z) rest h = read-int32 z rest h
read_listpack_entry-encode_entry (int64 z) rest h = read-int64 z rest h
read_listpack_entry-encode_entry (str6 s) rest h = read-str6 s rest h
read_listpack_entry-encode_entry (str12 s) rest h = read-str12 s rest h
read_listpack_entry-encode_entry (str32 s) rest h = read-str32 s rest h
