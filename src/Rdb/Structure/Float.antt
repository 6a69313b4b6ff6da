-- ===== src/Rdb/Structure/Float.antt =====
-- float.go of internal/rdb/structure. The floats of Go, `strconv.ParseFloat`, `math.Float64frombits` and
-- the verb `%.17g` are an interface.
use rdb_elasticache_migrator.Prelude.{ℕ, Option, none, some, [], ◌==◌, ltb, length, if◌then◌else◌}
use rdb_elasticache_migrator.Runtime.{Bytes, Read, ok, bad_number, ◌>>=◌, pure, fail, read_full}
use rdb_elasticache_migrator.Runtime.Words.{little_endian}
use rdb_elasticache_migrator.Rdb.Structure.Int.{read_uint8}

pub record Floats : Type 1 where
  pub Float64 : Type 0
  pub nan : Float64
  pub positive_inf : Float64
  pub negative_inf : Float64
  pub zero_float : Float64
  pub parse_float : Bytes → Option Float64
  pub from_bits : ℕ → Float64
  pub format_17g : Float64 → Bytes

module _ (F : Floats) where
  abbrev pub parsed : Option F.Float64 → Read F.Float64
  parsed none = fail bad_number
  parsed (some v) = pure v

  -- `io.ReadFull` on an input that is too short takes what there is, and the error becomes a 0.
  unfoldable pub read_text : ℕ → Read F.Float64
  unfolding read_full
  read_text u bs =
      let enough = (do buf ← read_full u; parsed (F.parse_float buf)) in
      if ltb (length bs) u then ok (F.zero_float, []) else enough bs

  unfoldable pub read_float : Read F.Float64
  unfolding read_text read_uint8
  read_float = do
    u ← read_uint8
    if u == 253
        then pure F.nan
        else if u == 254
        then pure F.positive_inf
        else if u == 255
        then pure F.negative_inf
        else read_text u

  unfoldable pub read_double : Read F.Float64
  unfolding read_full little_endian
  read_double = do buf ← read_full 8; pure (F.from_bits (little_endian buf))
