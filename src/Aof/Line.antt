-- ===== src/Aof/Line.antt =====
-- `ReadCompleteLine` of internal/aof/aof.go.
pub mod Short
use rdb_elasticache_migrator.Prelude.{
  ℕ, zero, suc, Option, none, some, List, [], ◌∷◌, ◌++◌, length, take,
}
use rdb_elasticache_migrator.Runtime.{Bytes, Result}
use rdb_elasticache_migrator.Runtime.Bufio.{Line, whole, part, end, read_line}

-- What a slice of the memory of the `bufio.Reader` gives: a chunk behind the next read, which no longer leaves it
-- valid (`kept`, from the chunk and what is still to be read), and a slice beyond the end of a line (`reslice`): the
-- bytes behind it in the buffer, or a panic.
pub record Buffer : Type 0 where
  pub kept : Bytes → Bytes → Bytes
  pub reslice : Bytes → Bytes → ℕ → Result Bytes

-- `for isPrefix`, behind the first chunk; on fuel, since each round takes a byte at least.
abbrev pub longer : (Bytes → Bytes → Option (Bytes × Bytes)) → Bytes → Line → Option (Bytes × Bytes)
longer again line end = none
longer again line (whole additional rest) = some (line ++ additional, rest)
longer again line (part additional rest) = again (line ++ additional) rest

unfoldable pub read_additional : ℕ → ℕ → Bytes → Bytes → Option (Bytes × Bytes)
unfolding read_line
read_additional size zero line bs = none
read_additional size (suc fuel) line bs =
    longer (read_additional size fuel) line (read_line size bs)

abbrev pub complete : Buffer → ℕ → Line → Option (Bytes × Bytes)
complete buffer size end = none
complete buffer size (whole line rest) = some (line, rest)
complete buffer size (part line rest) =
    read_additional size (suc (length rest)) (buffer.kept line rest) rest

-- `none` is `io.EOF`.
unfoldable pub read_complete_line : Buffer → ℕ → Bytes → Option (Bytes × Bytes)
unfolding read_additional read_line
read_complete_line buffer size bs = complete buffer size (read_line size bs)
