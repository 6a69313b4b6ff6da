-- ===== src/Rdb/Types/Zset.antt =====
-- internal/rdb/types/zset.go.
pub mod RoundTrip
use rdb_elasticache_migrator.Prelude.{ℕ, ◌%◌, List, [], ◌∷◌, ◌==◌, if◌then◌else◌, codes, length}
use rdb_elasticache_migrator.Prelude.Int.{signed}
use rdb_elasticache_migrator.Runtime.{Bytes, unknown_type, bad_size, out_of_range}
use rdb_elasticache_migrator.Runtime.Emit.{Command, Emit, done, stop, send, reading, times, rounds}
use rdb_elasticache_migrator.Rdb.Structure.Length.{read_length}
use rdb_elasticache_migrator.Rdb.Structure.Float.{Floats, read_float, read_double}
use rdb_elasticache_migrator.Rdb.Structure.Strings.{read_string}
use rdb_elasticache_migrator.Rdb.Structure.Listpack.{read_listpack}
use rdb_elasticache_migrator.Rdb.Structure.Ziplist.{read_ziplist}

abbrev pub zadd : Bytes → Bytes → Bytes → Command
zadd key score member = codes "zadd" ∷ key ∷ score ∷ member ∷ []

-- `for i := 0; i < size; i += 2`
unfoldable pub send_scores : Bytes → List Bytes → Emit
send_scores key [] = done
send_scores key (member ∷ []) = stop out_of_range
send_scores key (member ∷ score ∷ list) = send (zadd key score member) (send_scores key list)

-- `if size%2 != 0` and the loop
unfoldable pub even_scores : Bytes → List Bytes → Emit
unfolding send_scores
even_scores key list = if length list % 2 == 0 then send_scores key list else stop bad_size

unfoldable pub read_zset_ziplist : Bytes → Emit
unfolding read_ziplist even_scores
read_zset_ziplist key = reading read_ziplist λ list. even_scores key list

unfoldable pub read_zset_listpack : Bytes → Emit
unfolding read_listpack even_scores
read_zset_listpack key = reading read_listpack λ list. even_scores key list

module _ (F : Floats) where
  -- The bodies of the loops of `readZset` and `readZset2`.
  unfoldable pub zset_element : Bytes → Emit
  unfolding read_string read_float
  zset_element key =
      reading read_string
        λ member. reading (read_float F) λ score. send (zadd key (F.format_17g score) member) done

  unfoldable pub zset_element_2 : Bytes → Emit
  unfolding read_string read_double
  zset_element_2 key =
      reading read_string
        λ member. reading (read_double F) λ score. send (zadd key (F.format_17g score) member) done

  unfoldable pub read_zset : Bytes → Emit
  unfolding zset_element read_length times
  read_zset key = reading read_length λ size. times (rounds (signed 64 size)) (zset_element key)

  unfoldable pub read_zset_2 : Bytes → Emit
  unfolding zset_element_2 read_length times
  read_zset_2 key = reading read_length λ size. times (rounds (signed 64 size)) (zset_element_2 key)

  unfoldable pub rewrite_zset : Bytes → ℕ → Emit
  unfolding read_zset read_zset_2 read_zset_ziplist read_zset_listpack
  rewrite_zset key type_byte = send (codes "del" ∷ key ∷ []) (
      if type_byte == 3
      then read_zset key
      else if type_byte == 5
      then read_zset_2 key
      else if type_byte == 12
      then read_zset_ziplist key
      else if type_byte == 17
      then read_zset_listpack key
      else stop unknown_type)
