-- ===== src/Rdb/Structure/Ziplist/Entry.antt =====
-- The entries of a ziplist as Redis writes them, one constructor for each encoding.
use rdb_elasticache_migrator.Prelude.{
  ℕ, ◌+◌, ◌/◌, ◌%◌, ◌^◌, ◌<◌, ◌≤◌, List, [], ◌∷◌, ◌++◌, ltb, if◌then◌else◌, length,
}
use rdb_elasticache_migrator.Prelude.Int.{ℤ, pos, unsigned}
use rdb_elasticache_migrator.Runtime.{Bytes}
use rdb_elasticache_migrator.Runtime.Strconv.{format_int}
use rdb_elasticache_migrator.Runtime.Words.{to_little, to_big}
use rdb_elasticache_migrator.Rdb.Structure.Strings.RoundTrip.{InRange}

pub data Value : Type 0 where
  str06 str14 str32 : Bytes → Value
  int04 : ℕ → Value
  int08 int16 int24 int32 int64 : ℤ → Value

abbrev pub IsValue : Value → Type 0
IsValue (str06 s) = length s < 64
IsValue (str14 s) = length s < 16384
IsValue (str32 s) = length s < 2 ^ 32
IsValue (int04 n) = n ≤ 12
IsValue (int08 z) = InRange 8 z
IsValue (int16 z) = InRange 16 z
IsValue (int24 z) = InRange 24 z
IsValue (int32 z) = InRange 32 z
IsValue (int64 z) = InRange 64 z

-- The text that the program makes of a value.
unfoldable pub render : Value → Bytes
render (str06 s) = s
render (str14 s) = s
render (str32 s) = s
render (int04 n) = format_int (pos n)
render (int08 z) = format_int z
render (int16 z) = format_int z
render (int24 z) = format_int z
render (int32 z) = format_int z
render (int64 z) = format_int z

-- Encoding byte, length and payload.
unfoldable pub payload : Value → Bytes
unfolding to_little to_big
payload (str06 s) = length s ∷ s
payload (str14 s) = (64 + length s / 256) ∷ length s % 256 ∷ s
payload (str32 s) = 0x80 ∷ (to_big 4 (length s) ++ s)
payload (int04 n) = (0xf1 + n) ∷ []
payload (int08 z) = 0xfe ∷ to_little 1 (unsigned 8 z)
payload (int16 z) = 0xc0 ∷ to_little 2 (unsigned 16 z)
payload (int24 z) = 0xf0 ∷ to_little 3 (unsigned 24 z)
payload (int32 z) = 0xd0 ∷ to_little 4 (unsigned 32 z)
payload (int64 z) = 0xe0 ∷ to_little 8 (unsigned 64 z)

-- The length of the entry before, in one byte or in five.
unfoldable pub prevlen : ℕ → Bytes
unfolding to_little
prevlen n = if ltb n 254 then n ∷ [] else 0xfe ∷ to_little 4 n

unfoldable pub encode_entry : ℕ → Value → Bytes
encode_entry before v = prevlen before ++ payload v

unfoldable pub encode_entries : ℕ → List Value → Bytes
encode_entries before [] = []
encode_entries before (v ∷ vs) =
    encode_entry before v ++ encode_entries (length (encode_entry before v)) vs
