-- ===== src/Rdb/Structure/Int.antt =====
-- byte.go and int.go of internal/rdb/structure: fixed-width integers, little endian.
use rdb_elasticache_migrator.Prelude.{ℕ, ◌/◌, [], ◌∷◌, ◌++◌}
use rdb_elasticache_migrator.Prelude.Int.{ℤ, pos, negsuc, signed}
use rdb_elasticache_migrator.Runtime.{Bytes, Read, out_of_range, ◌>>=◌, pure, fail, make, read_full}
use rdb_elasticache_migrator.Runtime.Words.{little_endian}

unfoldable pub read_bytes : ℤ → Read Bytes
unfolding make read_full
read_bytes n = do size ← make n; read_full size

-- `buf[0]`
abbrev first : Bytes → Read ℕ
first [] = fail out_of_range
first (b ∷ _) = pure b

unfoldable pub read_byte : Read ℕ
unfolding read_bytes
read_byte = do buf ← read_bytes (pos 1); first buf

unfoldable pub read_uint8 : Read ℕ
unfolding read_byte
read_uint8 = read_byte

unfoldable pub read_uint16 : Read ℕ
unfolding read_bytes little_endian
read_uint16 = do buf ← read_bytes (pos 2); pure (little_endian buf)

unfoldable pub read_uint24 : Read ℕ
unfolding read_bytes little_endian
read_uint24 = do buf ← read_bytes (pos 3); pure (little_endian (buf ++ 0 ∷ []))

unfoldable pub read_uint32 : Read ℕ
unfolding read_bytes little_endian
read_uint32 = do buf ← read_bytes (pos 4); pure (little_endian buf)

unfoldable pub read_uint64 : Read ℕ
unfolding read_bytes little_endian
read_uint64 = do buf ← read_bytes (pos 8); pure (little_endian buf)

unfoldable pub read_int8 : Read ℤ
unfolding read_byte
read_int8 = do b ← read_byte; pure (signed 8 b)

unfoldable pub read_int16 : Read ℤ
unfolding read_bytes little_endian
read_int16 = do buf ← read_bytes (pos 2); pure (signed 16 (little_endian buf))

-- `>>` on a signed number rounds down.
abbrev shift_right_8 : ℤ → ℤ
shift_right_8 (pos n) = pos (n / 256)
shift_right_8 (negsuc n) = negsuc (n / 256)

unfoldable pub read_int24 : Read ℤ
unfolding read_bytes little_endian
read_int24 = do buf ← read_bytes (pos 3); pure (shift_right_8 (signed 32 (little_endian (0 ∷ buf))))

unfoldable pub read_int32 : Read ℤ
unfolding read_bytes little_endian
read_int32 = do buf ← read_bytes (pos 4); pure (signed 32 (little_endian buf))

unfoldable pub read_int64 : Read ℤ
unfolding read_bytes little_endian
read_int64 = do buf ← read_bytes (pos 8); pure (signed 64 (little_endian buf))
