-- ===== src/Rdb/Structure/Ziplist.antt =====
-- internal/rdb/structure/ziplist.go.
pub mod Entry
pub mod ReadEntry
pub mod RoundTrip
pub mod UnknownSize
use rdb_elasticache_migrator.Prelude.{
  ℕ, zero, suc, ◌*◌, ◌/◌, bit_and, bit_or, ◌||◌, List, [], ◌∷◌, ◌==◌, if◌then◌else◌, length,
}
use rdb_elasticache_migrator.Prelude.Int.{ℤ, pos, ◌-ℤ◌, ltb_ℤ}
use rdb_elasticache_migrator.Runtime.{
  Bytes, Read, unknown_encoding, bad_end, out_of_fuel, ◌>>=◌, ◌>>◌, pure, fail, inner,
}
use rdb_elasticache_migrator.Runtime.Strconv.{format_int}
use rdb_elasticache_migrator.Runtime.Words.{big_endian}
use rdb_elasticache_migrator.Rdb.Structure.Int.{
  read_bytes, read_byte, read_uint16, read_uint32, read_int8, read_int16, read_int24, read_int32,
  read_int64,
}
use rdb_elasticache_migrator.Rdb.Structure.Strings.{read_string}

-- `FormatInt(int64(v), 10)`
abbrev formatted : Read ℤ → Read Bytes
formatted m = do v ← m; pure (format_int v)

-- `zipInt04B`: the value in the low four bits, from 1 on.
abbrev small_integer : ℤ → Read Bytes
small_integer v =
    if ltb_ℤ v (pos 0) || ltb_ℤ (pos 12) v then fail unknown_encoding else pure (format_int v)

-- The second `switch`, and what stands behind it.
unfoldable pub ziplist_integer : ℕ → Read Bytes
unfolding read_int8 read_int16 read_int24 read_int32 read_int64
ziplist_integer first_byte =
    if first_byte == 0xfe
    then formatted read_int8
    else if first_byte == 0xc0
    then formatted read_int16
    else if first_byte == 0xf0
    then formatted read_int24
    else if first_byte == 0xd0
    then formatted read_int32
    else if first_byte == 0xe0
    then formatted read_int64
    else if first_byte / 16 == 0x0f
    then small_integer (pos (bit_and first_byte 0x0f) -ℤ pos 1)
    else fail unknown_encoding

-- The first `switch`, on the two top bits.
unfoldable pub ziplist_value : ℕ → Read Bytes
unfolding ziplist_integer big_endian read_byte
ziplist_value first_byte =
    let first2bits = bit_and first_byte 0xc0 / 64 in
    if first2bits == 0
    then read_bytes (pos (bit_and first_byte 0x3f))
    else if first2bits == 1
    then (do
      second_byte ← read_byte
      read_bytes (pos (bit_or (bit_and first_byte 0x3f * 256) second_byte)))
    else if first2bits == 2
    then (do len_bytes ← read_bytes (pos 4); read_bytes (pos (big_endian len_bytes)))
    else ziplist_integer first_byte

-- A previous length of four bytes stands behind 0xFE.
abbrev rest_of_prevlen : ℕ → Read ℕ
rest_of_prevlen first_byte = if first_byte == 0xfe then read_uint32 else pure 0

unfoldable pub read_ziplist_entry : ℕ → Read Bytes
read_ziplist_entry prevlen = do
  rest_of_prevlen prevlen
  first_byte ← read_byte
  ziplist_value first_byte

-- `for firstByte := ReadByte(rd); firstByte != 0xFE; firstByte = ReadByte(rd)`, on fuel.
unfoldable pub read_ziplist_until : ℕ → Read (List Bytes)
read_ziplist_until zero = fail out_of_fuel
read_ziplist_until (suc fuel) = do
  first_byte ← read_byte
  if first_byte == 0xfe then pure [] else (do
    ele ← read_ziplist_entry first_byte
    elements ← read_ziplist_until fuel
    pure (ele ∷ elements))

-- `for i := 0; i < size; i++`
unfoldable pub read_ziplist_entries : ℕ → Read (List Bytes)
read_ziplist_entries zero = pure []
read_ziplist_entries (suc n) = do
  first_byte ← read_byte
  ele ← read_ziplist_entry first_byte
  elements ← read_ziplist_entries n
  pure (ele ∷ elements)

-- A round takes a byte at least, so the bytes that are left, and one, are rounds enough.
abbrev unknown_size : Read (List Bytes)
unknown_size bs = read_ziplist_until (suc (length bs)) bs

abbrev known_size : ℕ → Read (List Bytes)
known_size size = do
  elements ← read_ziplist_entries size
  last_byte ← read_byte
  if last_byte == 0xff then pure elements else fail bad_end

unfoldable pub ziplist_body : Read (List Bytes)
ziplist_body = do
  read_uint32
  read_uint32
  size ← read_uint16
  if size == 65535 then unknown_size else known_size size

unfoldable pub read_ziplist : Read (List Bytes)
read_ziplist = do s ← read_string; inner ziplist_body s
