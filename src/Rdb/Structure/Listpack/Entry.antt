-- ===== src/Rdb/Structure/Listpack/Entry.antt =====
-- The entries of a listpack as Redis writes them (`lpEncode`), one constructor for each encoding.
use rdb_elasticache_migrator.Prelude.{
  ℕ, zero, suc, ◌+◌, ◌/◌, ◌%◌, ◌^◌, ◌<◌, List, [], ◌∷◌, ◌++◌, ltb, leb, if◌then◌else◌, length,
}
use rdb_elasticache_migrator.Prelude.Int.{ℤ, pos, unsigned}
use rdb_elasticache_migrator.Runtime.{Bytes}
use rdb_elasticache_migrator.Runtime.Strconv.{format_int}
use rdb_elasticache_migrator.Runtime.Words.{to_little}
use rdb_elasticache_migrator.Rdb.Structure.Strings.RoundTrip.{InRange}

pub data Entry : Type 0 where
  uint7 : ℕ → Entry
  int13 int16 int24 int32 int64 : ℤ → Entry
  str6 str12 str32 : Bytes → Entry

abbrev pub IsEntry : Entry → Type 0
IsEntry (uint7 n) = n < 128
IsEntry (int13 z) = InRange 13 z
IsEntry (int16 z) = InRange 16 z
IsEntry (int24 z) = InRange 24 z
IsEntry (int32 z) = InRange 32 z
IsEntry (int64 z) = InRange 64 z
IsEntry (str6 s) = length s < 64
IsEntry (str12 s) = length s < 4096
IsEntry (str32 s) = length s < 2 ^ 32

-- The text that the program makes of an entry.
unfoldable pub render : Entry → Bytes
render (uint7 n) = format_int (pos n)
render (int13 z) = format_int z
render (int16 z) = format_int z
render (int24 z) = format_int z
render (int32 z) = format_int z
render (int64 z) = format_int z
render (str6 s) = s
render (str12 s) = s
render (str32 s) = s

-- Encoding byte, length and payload.
unfoldable pub payload : Entry → Bytes
unfolding to_little
payload (uint7 n) = n ∷ []
payload (int13 z) = (0xc0 + unsigned 13 z / 256) ∷ unsigned 13 z % 256 ∷ []
payload (int16 z) = 0xf1 ∷ to_little 2 (unsigned 16 z)
payload (int24 z) = 0xf2 ∷ to_little 3 (unsigned 24 z)
payload (int32 z) = 0xf3 ∷ to_little 4 (unsigned 32 z)
payload (int64 z) = 0xf4 ∷ to_little 8 (unsigned 64 z)
payload (str6 s) = (0x80 + length s) ∷ s
payload (str12 s) = (0xe0 + length s / 256) ∷ length s % 256 ∷ s
payload (str32 s) = 0xf0 ∷ (to_little 4 (length s) ++ s)

-- `lpEncodeBacklen`: groups of seven bits, the highest first, all but the first marked.
groups : ℕ → ℕ → Bytes
groups zero l = l ∷ []
groups (suc n) l = groups n (l / 128) ++ (l % 128 + 128) ∷ []

unfoldable pub backlen : ℕ → Bytes
unfolding groups
backlen l =
    if leb l 127
    then groups 0 l
    else if ltb l 16383
    then groups 1 l
    else if ltb l 2097151
    then groups 2 l
    else if ltb l 268435455
    then groups 3 l
    else groups 4 l

unfoldable pub encode_entry : Entry → Bytes
encode_entry e = payload e ++ backlen (length (payload e))

unfoldable pub encode_entries : List Entry → Bytes
encode_entries [] = []
encode_entries (e ∷ es) = encode_entry e ++ encode_entries es
