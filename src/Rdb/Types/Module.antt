-- ===== src/Rdb/Types/Module.antt =====
-- `ModuleTypeNameByID` of internal/rdb/types/interface.go and module2.go: the type of a module, and the value
-- that is read for it.
pub mod Name
pub mod Dispatch
use rdb_elasticache_migrator.Prelude.{
  ℕ, zero, suc, ◌/◌, [], ◌∷◌, ◌==◌, if◌then◌else◌, bit_and, codes, get_or,
}
use rdb_elasticache_migrator.Prelude.Int.{ℤ}
use rdb_elasticache_migrator.Runtime.{Bytes, unknown_type, unsupported}
use rdb_elasticache_migrator.Runtime.Strings.{equal}
use rdb_elasticache_migrator.Runtime.Emit.{Emit, stop, reading}
use rdb_elasticache_migrator.Rdb.Structure.Float.{Floats}
use rdb_elasticache_migrator.Rdb.Structure.Length.{read_length}
use rdb_elasticache_migrator.Rdb.Types.Tair.{
  rewrite_tair_string, rewrite_tair_hash, rewrite_tair_zset,
}
use rdb_elasticache_migrator.Rdb.Types.Bloom.Header.{rewrite_bloom}

-- `moduleTypeNameCharSet`
abbrev pub char_of : ℕ → ℕ
char_of n = get_or (codes "ABCDEFGHIJKLMNOPQRSTUVWXYZabcdefghijklmnopqrstuvwxyz0123456789-_") n 0

-- `for i := 8; i >= 0; i--`: the last character first.
unfoldable pub name_chars : ℕ → ℕ → Bytes → Bytes
name_chars zero module_id name = name
name_chars (suc n) module_id name =
    name_chars n (module_id / 64) (char_of (bit_and module_id 63) ∷ name)

unfoldable pub module_type_name_by_id : ℕ → Bytes
unfolding name_chars
module_type_name_by_id module_id = name_chars 9 (module_id / 1024) []

-- `config.Opt.Module.TargetMBbloomVersion` is `ver`.
module _ (F : Floats) (format_f format_15f : F.Float64 → Bytes) (bits_of : ℕ → F.Float64 → ℕ)
    (to_bits : F.Float64 → ℕ) (ver : ℤ) where
  unfoldable pub rewrite_named : Bytes → ℕ → Bytes → Emit
  unfolding equal rewrite_tair_string rewrite_tair_hash rewrite_tair_zset rewrite_bloom
  rewrite_named key module_id module_name =
      if equal module_name (codes "exstrtype")
      then rewrite_tair_string key
      else if equal module_name (codes "tairhash-")
      then rewrite_tair_hash
      else if equal module_name (codes "tairzset_")
      then rewrite_tair_zset F format_f format_15f key
      else if equal module_name (codes "MBbloom--")
      then rewrite_bloom F format_f format_15f bits_of to_bits ver key (bit_and module_id 1023)
      else stop unknown_type

  -- `PareseModuleType`, with `Rewrite` of what it returns.
  unfoldable pub rewrite_module : ℕ → Bytes → Emit
  unfolding read_length
  rewrite_module type_byte key =
      if type_byte == 6
      then stop unsupported
      else reading read_length
          λ module_id. rewrite_named key module_id (module_type_name_by_id module_id)
