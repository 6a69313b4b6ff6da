-- ===== src/Rdb/Structure/Intset.antt =====
-- `ReadIntset` of internal/rdb/structure/intset.go.
pub mod RoundTrip
use rdb_elasticache_migrator.Prelude.{ℕ, zero, suc, List, [], ◌∷◌, ◌==◌, if◌then◌else◌}
use rdb_elasticache_migrator.Prelude.Int.{ℤ, pos, signed}
use rdb_elasticache_migrator.Runtime.{Bytes, Read, ◌>>=◌, pure, inner}
use rdb_elasticache_migrator.Runtime.Strconv.{format_int}
use rdb_elasticache_migrator.Runtime.Words.{little_endian}
use rdb_elasticache_migrator.Rdb.Structure.Int.{read_bytes, read_uint32}
use rdb_elasticache_migrator.Rdb.Structure.Strings.{read_string}

-- The text of the bytes of one element; it stays empty for another encoding.
unfoldable pub int_string : ℕ → Bytes → Bytes
unfolding little_endian format_int
int_string encoding_type int_bytes =
    if encoding_type == 2
    then format_int (signed 16 (little_endian int_bytes))
    else if encoding_type == 4
    then format_int (signed 32 (little_endian int_bytes))
    else if encoding_type == 8
    then format_int (signed 64 (little_endian int_bytes))
    else []

-- `for i := 0; i < size; i++`
unfoldable pub read_intset_elements : ℕ → ℕ → Read (List Bytes)
unfolding int_string read_bytes
read_intset_elements encoding_type zero = pure []
read_intset_elements encoding_type (suc size) = do
  int_bytes ← read_bytes (pos encoding_type)
  elements ← read_intset_elements encoding_type size
  pure (int_string encoding_type int_bytes ∷ elements)

unfoldable pub intset_body : Read (List Bytes)
unfolding read_intset_elements read_uint32
intset_body = do
  encoding_type ← read_uint32
  size ← read_uint32
  read_intset_elements encoding_type size

unfoldable pub read_intset : Read (List Bytes)
unfolding intset_body read_string
read_intset = do s ← read_string; inner intset_body s
