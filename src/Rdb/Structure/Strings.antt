-- ===== src/Rdb/Structure/Strings.antt =====
-- `ReadString` of internal/rdb/structure/string.go.
pub mod RoundTrip
use rdb_elasticache_migrator.Prelude.{ℕ, ◌==◌, if◌then◌else◌}
use rdb_elasticache_migrator.Prelude.Int.{signed}
use rdb_elasticache_migrator.Runtime.{Bytes, Read, unknown_encoding, ◌>>=◌, pure, fail, lift}
use rdb_elasticache_migrator.Runtime.Strconv.{format_int}
use rdb_elasticache_migrator.Rdb.Structure.Int.{read_bytes, read_int8, read_int16, read_int32}
use rdb_elasticache_migrator.Rdb.Structure.Length.{read_encoded_length, read_length}
use rdb_elasticache_migrator.Rdb.Structure.Lzf.{lzf_decompress}

-- RDB_ENC_INT8, RDB_ENC_INT16, RDB_ENC_INT32 and RDB_ENC_LZF are 0 to 3.
unfoldable pub read_special : ℕ → Read Bytes
read_special kind =
    if kind == 0
    then (do b ← read_int8; pure (format_int b))
    else if kind == 1
    then (do b ← read_int16; pure (format_int b))
    else if kind == 2
    then (do b ← read_int32; pure (format_int b))
    else if kind == 3
    then (do
      in_len ← read_length
      out_len ← read_length
      src ← read_bytes (signed 64 in_len)
      lift (lzf_decompress src (signed 64 out_len)))
    else fail unknown_encoding

unfoldable pub read_string : Read Bytes
unfolding read_special
read_string = do
  e ← read_encoded_length
  if e.special then read_special e.length else read_bytes (signed 64 e.length)
