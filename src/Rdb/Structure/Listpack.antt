-- ===== src/Rdb/Structure/Listpack.antt =====
-- internal/rdb/structure/listpack.go.
pub mod Entry
pub mod ReadEntry
pub mod RoundTrip
pub mod Overfull
use rdb_elasticache_migrator.Prelude.{
  ℕ, zero, suc, ◌+◌, ◌-◌, ◌*◌, ◌%◌, ◌^◌, bit_and, List, [], ◌∷◌, ltb, leb, ◌==◌, if◌then◌else◌,
}
use rdb_elasticache_migrator.Prelude.Int.{ℤ, pos, negsuc, signed}
use rdb_elasticache_migrator.Runtime.{
  Bytes, Read, Result, ok, panic, unknown_encoding, bad_end, ◌>>=◌, ◌>>◌, pure, fail, inner,
}
use rdb_elasticache_migrator.Runtime.Strconv.{format_int}
use rdb_elasticache_migrator.Rdb.Structure.Int.{
  read_bytes, read_byte, read_uint16, read_uint24, read_uint32, read_uint64,
}
use rdb_elasticache_migrator.Rdb.Structure.Strings.{read_string}

-- `lpEncodeBacklen`
unfoldable pub lp_encode_backlen : ℕ → ℕ
lp_encode_backlen len =
    if leb len 127
    then 1
    else if ltb len 16383
    then 2
    else if ltb len 2097151
    then 3
    else if ltb len 268435455
    then 4
    else 5

-- `-val - 1`
abbrev minus_one : ℤ → ℤ
minus_one (pos n) = negsuc n
minus_one (negsuc n) = pos n

-- The code below the branches: `uval`, `negstart` and `negmax` are uint64.
unfoldable pub to_signed : ℕ → ℕ → ℕ → ℤ
to_signed uval negstart negmax =
    if leb negstart uval
    then minus_one (signed 64 ((negmax + 2 ^ 64 - uval) % 2 ^ 64))
    else signed 64 uval

-- `_ = ReadBytes(rd, lpEncodeBacklen(n))`
abbrev pub skip_backlen : ℕ → Read Bytes
skip_backlen n = read_bytes (pos (lp_encode_backlen n))

-- An integer of `n` bytes with its encoding byte.
abbrev integer : ℕ → ℕ → ℕ → ℕ → Read Bytes
integer n uval negstart negmax = do
  skip_backlen n
  pure (format_int (to_signed uval negstart negmax))

-- A string behind a header of `n` bytes.
abbrev pub text : ℕ → ℕ → Read Bytes
text n len = do ele ← read_bytes (pos len); skip_backlen (n + len); pure ele

-- The branches of `readListpackEntry` on the first byte, in the order of the source.
unfoldable pub read_listpack_entry : Read Bytes
unfolding read_byte read_uint16 read_uint24 read_uint32 read_uint64
read_listpack_entry = do
  fire_byte ← read_byte
  if bit_and fire_byte 0x80 == 0x00
      then integer 1 (bit_and fire_byte 0x7f) (2 ^ 64 - 1) 0
      else if bit_and fire_byte 0xc0 == 0x80
      then text 1 (bit_and fire_byte 0x3f)
      else if bit_and fire_byte 0xe0 == 0xc0
      then (do
        second_byte ← read_byte
        integer 2 (bit_and fire_byte 0x1f * 256 + second_byte) (2 ^ 12) 8191)
      else if bit_and fire_byte 0xff == 0xf1
      then (do uval ← read_uint16; integer 3 uval (2 ^ 15) 65535)
      else if bit_and fire_byte 0xff == 0xf2
      then (do uval ← read_uint24; integer 4 uval (2 ^ 23) (2 ^ 24 - 1))
      else if bit_and fire_byte 0xff == 0xf3
      then (do uval ← read_uint32; integer 5 uval (2 ^ 31) (2 ^ 32 - 1))
      else if bit_and fire_byte 0xff == 0xf4
      then (do uval ← read_uint64; integer 9 uval (2 ^ 63) (2 ^ 64 - 1))
      else if bit_and fire_byte 0xf0 == 0xe0
      then (do second_byte ← read_byte; text 2 (bit_and fire_byte 0x0f * 256 + second_byte))
      else if bit_and fire_byte 0xff == 0xf0
      then (do len ← read_uint32; text 5 len)
      else fail unknown_encoding

-- `for i := 0; i < size; i++`
unfoldable pub read_listpack_entries : ℕ → Read (List Bytes)
read_listpack_entries zero = pure []
read_listpack_entries (suc n) = do
  ele ← read_listpack_entry
  elements ← read_listpack_entries n
  pure (ele ∷ elements)

unfoldable pub listpack_body : Read (List Bytes)
listpack_body = do
  read_uint32
  size ← read_uint16
  elements ← read_listpack_entries size
  last_byte ← read_byte
  if last_byte == 0xff then pure elements else fail bad_end

-- A reader of its own over the string.
unfoldable pub read_listpack : Read (List Bytes)
read_listpack = do s ← read_string; inner listpack_body s
