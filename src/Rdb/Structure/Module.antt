-- ===== src/Rdb/Structure/Module.antt =====
-- module2_struct.go of internal/rdb/structure: the values of a module, each behind its opcode. The verbs
-- `%f` and `%.15f` are arguments.
use rdb_elasticache_migrator.Prelude.{ℕ, ◌==◌, if◌then◌else◌}
use rdb_elasticache_migrator.Runtime.{Bytes, Read, ◌>>=◌, pure, fail, unknown_encoding, bad_end}
use rdb_elasticache_migrator.Runtime.Strconv.{format_uint}
use rdb_elasticache_migrator.Rdb.Structure.Int.{read_byte}
use rdb_elasticache_migrator.Rdb.Structure.Length.{read_length}
use rdb_elasticache_migrator.Rdb.Structure.Strings.{read_string}
use rdb_elasticache_migrator.Rdb.Structure.Float.{Floats, read_double}

-- The opcode, and what it wants behind it.
abbrev pub behind_opcode : {A : Type 0} → ℕ → Read A → Read A
behind_opcode wanted m = do
  opcode ← read_byte
  if opcode == wanted then m else fail unknown_encoding

abbrev uint_text : Read Bytes
uint_text = do value ← read_length; pure (format_uint value)

unfoldable pub read_module_unsigned : Read Bytes
unfolding read_byte read_length
read_module_unsigned = behind_opcode 2 uint_text

unfoldable pub read_module_signed : Read Bytes
unfolding read_byte read_length
read_module_signed = behind_opcode 1 uint_text

unfoldable pub read_module_string : Read Bytes
unfolding read_byte read_string
read_module_string = behind_opcode 5 read_string

unfoldable pub read_module_eof : Read (Unit {0})
unfolding read_length
read_module_eof = do eof ← read_length; if eof == 0 then pure tt else fail bad_end

module _ (F : Floats) (format_f format_15f : F.Float64 → Bytes) where
  unfoldable pub read_module_float : Read Bytes
  unfolding read_byte read_double
  read_module_float = behind_opcode 4 (do value ← read_double F; pure (format_f value))

  unfoldable pub read_module_double : Read Bytes
  unfolding read_byte read_double
  read_module_double = behind_opcode 4 (do value ← read_double F; pure (format_15f value))
