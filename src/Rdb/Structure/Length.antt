-- ===== src/Rdb/Structure/Length.antt =====
-- length.go of internal/rdb/structure: the variable-length lengths.
pub mod RoundTrip
use rdb_elasticache_migrator.Prelude.{
  ℕ, ◌*◌, ◌/◌, bit_and, bit_or, Bool, true, false, ◌==◌, if◌then◌else◌,
}
use rdb_elasticache_migrator.Runtime.{Read, illegal_length, ◌>>=◌, pure, fail, read_full}
use rdb_elasticache_migrator.Runtime.Words.{big_endian}
use rdb_elasticache_migrator.Rdb.Structure.Int.{read_byte}

-- `length` and `special`. The error value of the source is a `panic` here: both callers end the run
-- on it before they do anything else.
pub record Encoded : Type 0 where
  pub length : ℕ
  pub special : Bool

abbrev plain : ℕ → Read Encoded
plain n = pure (record { length = n; special = false })

unfoldable pub read_encoded_length : Read Encoded
unfolding read_byte read_full big_endian
read_encoded_length = do
  first_byte ← read_byte
  let first2bits = bit_and first_byte 0xc0 / 64
  if first2bits == 0
      then plain (bit_and first_byte 0x3f)
      else if first2bits == 1
      then (do next_byte ← read_byte; plain (bit_or (bit_and first_byte 0x3f * 256) next_byte))
      else if first2bits == 2
      then (if first_byte == 0x80
          then (do buf ← read_full 4; plain (big_endian buf))
          else if first_byte == 0x81
          then (do buf ← read_full 8; plain (big_endian buf))
          else fail illegal_length)
      else pure (record { length = bit_and first_byte 0x3f; special = true })

unfoldable pub read_length : Read ℕ
read_length = do e ← read_encoded_length; if e.special then fail illegal_length else pure e.length
