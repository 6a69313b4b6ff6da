-- ===== src/Aof/Line/Short.antt =====
-- Lines that fit into the buffer.
use rdb_elasticache_migrator.Prelude.{
  ℕ, suc, ◌<◌, ◌≡◌, refl, sym, some, [], ◌∷◌, ◌++◌, append_assoc, length, length-append, arith,
}
use rdb_elasticache_migrator.Runtime.{Bytes}
use rdb_elasticache_migrator.Runtime.Strings.{Without, nothing, also}
use rdb_elasticache_migrator.Runtime.Decimal.{Without-append}
use rdb_elasticache_migrator.Runtime.Bufio.{whole, read_line, split_newline-append, strip_cr-append}
use rdb_elasticache_migrator.Aof.Line.{Buffer, read_complete_line}

pub read_line-whole :
    (size : ℕ) {l : Bytes} (rest : Bytes)
    → Without b'\n' l
    → suc (length l) < size
    → read_line size (l ++ b'\r' ∷ b'\n' ∷ rest) ≡ whole l rest
unfolding read_line
read_line-whole size {l} rest w h =
    rw
      (
        sym (append_assoc l (b'\r' ∷ []) (b'\n' ∷ rest)),
        split_newline-append size rest (Without-append w (also {c = b'\r'} (omega arith) nothing))
            (omega (arith, length-append {0} l (b'\r' ∷ []))),
        strip_cr-append l,
      )
      refl

-- A line that stands in the buffer with its end is read as it is.
pub read_complete_line-whole :
    (buffer : Buffer) (size : ℕ) {l : Bytes} (rest : Bytes)
    → Without b'\n' l
    → suc (length l) < size
    → read_complete_line buffer size (l ++ b'\r' ∷ b'\n' ∷ rest) ≡ some (l, rest)
unfolding read_complete_line
read_complete_line-whole buffer size rest w h = rw (read_line-whole size rest w h) refl
