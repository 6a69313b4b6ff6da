-- ===== src/Rdb/Types/Tair.antt =====
-- internal/rdb/types/tairstring.go, tairhash.go and tairzset.go.
pub mod RoundTrip
use rdb_elasticache_migrator.Prelude.{ℕ, List, [], ◌∷◌, ◌++◌, if◌then◌else◌, codes}
use rdb_elasticache_migrator.Prelude.Int.{ℤ, pos, eq_ℤ}
use rdb_elasticache_migrator.Runtime.{collect, Bytes}
use rdb_elasticache_migrator.Runtime.Strconv.{parse_int_value}
use rdb_elasticache_migrator.Runtime.Emit.{
  Command, Emit, done, send, reading, in_turn, times, rounds,
}
use rdb_elasticache_migrator.Rdb.Structure.Float.{Floats}
use rdb_elasticache_migrator.Rdb.Structure.Module.{
  read_module_unsigned, read_module_string, read_module_double, read_module_eof,
}

abbrev pub exset : Bytes → Bytes → Bytes → Bytes → Command
exset key value version flags =
    codes "EXSET" ∷ key ∷ value ∷ codes "ABS" ∷ version ∷ codes "FLAGS" ∷ flags ∷ []

unfoldable pub rewrite_tair_string : Bytes → Emit
unfolding read_module_unsigned read_module_string read_module_eof
rewrite_tair_string key = reading read_module_unsigned λ version.
    reading read_module_unsigned λ flags.
      reading read_module_string
        λ tair_value. reading read_module_eof λ eof. send (exset key tair_value version flags) done

abbrev pub exhset : Bytes → Bytes → Bytes → List Bytes → Command
exhset key skey value options = codes "EXHSET" ∷ key ∷ skey ∷ value ∷ options

-- The body of the loop over the fields; `Atoi` drops its error.
unfoldable pub tair_field : Bytes → Emit
unfolding read_module_unsigned read_module_string parse_int_value
tair_field key = reading read_module_string λ skey. reading read_module_unsigned λ version.
    reading read_module_unsigned λ expire_text. reading read_module_string λ value.
      send
        (exhset key skey value (
          if eq_ℤ (parse_int_value expire_text) (pos 0)
          then []
          else codes "ABS" ∷ version ∷ codes "PXAT" ∷ expire_text ∷ []))
        done

-- The key is that of the value.
unfoldable pub rewrite_tair_hash : Emit
unfolding read_module_unsigned read_module_string read_module_eof tair_field parse_int_value times
rewrite_tair_hash = reading read_module_unsigned λ dict_size. reading read_module_string λ key.
    send (codes "del" ∷ key ∷ []) (
      in_turn (times (rounds (parse_int_value dict_size)) (tair_field key))
        (reading read_module_eof λ eof. done))

-- `strings.Join(values, "#")`
unfoldable pub joined : List Bytes → Bytes
joined [] = []
joined (v ∷ []) = v
joined (v ∷ w ∷ vs) = v ++ (b'#' ∷ joined (w ∷ vs))

module _ (F : Floats) (format_f format_15f : F.Float64 → Bytes) where
  unfoldable pub tair_member : Bytes → ℤ → Emit
  unfolding read_module_string read_module_double collect joined
  tair_member key score_num = reading read_module_string λ member.
      reading (collect (rounds score_num) (read_module_double F format_f format_15f))
        λ values. send (codes "EXZADD" ∷ key ∷ joined values ∷ member ∷ []) done

  unfoldable pub rewrite_tair_zset : Bytes → Emit
  unfolding read_module_unsigned read_module_eof tair_member parse_int_value times
  rewrite_tair_zset key = send (codes "del" ∷ key ∷ []) (
      reading read_module_unsigned λ length_text. reading read_module_unsigned λ score_text.
        in_turn
          (times (rounds (parse_int_value length_text))
            (tair_member key (parse_int_value score_text)))
          (reading read_module_eof λ eof. done))
