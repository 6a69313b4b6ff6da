-- ===== src/Rdb/Types/Object.antt =====
-- `ParseObject` of internal/rdb/types/interface.go, with `Rewrite` of what it returns.
pub mod Value
use rdb_elasticache_migrator.Prelude.{ℕ, Bool, ◌||◌, ◌==◌, if◌then◌else◌}
use rdb_elasticache_migrator.Runtime.{Bytes, unknown_type}
use rdb_elasticache_migrator.Runtime.Emit.{Emit, stop}
use rdb_elasticache_migrator.Rdb.Structure.Float.{Floats}
use rdb_elasticache_migrator.Prelude.Int.{ℤ}
use rdb_elasticache_migrator.Rdb.Types.Stream.Groups.{rewrite_stream}
use rdb_elasticache_migrator.Rdb.Types.Module.{rewrite_module}
use rdb_elasticache_migrator.Rdb.Types.List.{rewrite_list}
use rdb_elasticache_migrator.Rdb.Types.Set.{rewrite_string, rewrite_set}
use rdb_elasticache_migrator.Rdb.Types.Zset.{rewrite_zset}
use rdb_elasticache_migrator.Rdb.Types.Hash.{rewrite_hash}

abbrev is_list : ℕ → Bool
is_list t = t == 1 || t == 10 || t == 14 || t == 18

abbrev is_set : ℕ → Bool
is_set t = t == 2 || t == 11 || t == 20

abbrev is_zset : ℕ → Bool
is_zset t = t == 3 || t == 5 || t == 12 || t == 17

abbrev is_hash : ℕ → Bool
is_hash t = t == 4 || t == 9 || t == 13 || t == 16 || t == 22 || t == 23 || t == 24 || t == 25

abbrev is_stream : ℕ → Bool
is_stream t = t == 15 || t == 19 || t == 21

abbrev is_module : ℕ → Bool
is_module t = t == 6 || t == 7

module _ (F : Floats) (format_f format_15f : F.Float64 → Bytes) (bits_of : ℕ → F.Float64 → ℕ)
    (to_bits : F.Float64 → ℕ) (ver : ℤ) where
  unfoldable pub rewrite_object : ℕ → Bytes → Emit
  rewrite_object type_byte key =
      if type_byte == 0
      then rewrite_string key
      else if is_list type_byte
      then rewrite_list key type_byte
      else if is_set type_byte
      then rewrite_set key type_byte
      else if is_zset type_byte
      then rewrite_zset F key type_byte
      else if is_hash type_byte
      then rewrite_hash key type_byte
      else if is_stream type_byte
      then rewrite_stream key type_byte
      else if is_module type_byte
      then rewrite_module F format_f format_15f bits_of to_bits ver type_byte key
      else stop unknown_type
