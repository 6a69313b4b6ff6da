-- ===== src/Rdb/Types/Set.antt =====
-- internal/rdb/types/set.go, and string.go.
pub mod RoundTrip
use rdb_elasticache_migrator.Prelude.{ℕ, List, [], ◌∷◌, ◌==◌, if◌then◌else◌, codes}
use rdb_elasticache_migrator.Prelude.Int.{signed}
use rdb_elasticache_migrator.Runtime.{Bytes, unknown_type}
use rdb_elasticache_migrator.Runtime.Emit.{
  Command, Emit, done, stop, send, reading, send_all, times, rounds,
}
use rdb_elasticache_migrator.Rdb.Structure.Length.{read_length}
use rdb_elasticache_migrator.Rdb.Structure.Strings.{read_string}
use rdb_elasticache_migrator.Rdb.Structure.Listpack.{read_listpack}
use rdb_elasticache_migrator.Rdb.Structure.Intset.{read_intset}

-- `StringObject.Rewrite`
unfoldable pub rewrite_string : Bytes → Emit
unfolding read_string
rewrite_string key = reading read_string λ value. send (codes "set" ∷ key ∷ value ∷ []) done

abbrev pub sadd : Bytes → Bytes → Command
sadd key val = codes "sadd" ∷ key ∷ val ∷ []

-- The body of the loop of `readSet`.
unfoldable pub set_element : Bytes → Emit
unfolding read_string
set_element key = reading read_string λ val. send (sadd key val) done

unfoldable pub read_set : Bytes → Emit
unfolding set_element read_length times
read_set key = reading read_length λ size. times (rounds (signed 64 size)) (set_element key)

unfoldable pub read_set_intset : Bytes → Emit
unfolding read_intset send_all
read_set_intset key = reading read_intset λ elements. send_all (sadd key) elements

unfoldable pub read_set_listpack : Bytes → Emit
unfolding read_listpack send_all
read_set_listpack key = reading read_listpack λ elements. send_all (sadd key) elements

unfoldable pub rewrite_set : Bytes → ℕ → Emit
unfolding read_set read_set_intset read_set_listpack
rewrite_set key type_byte = send (codes "del" ∷ key ∷ []) (
    if type_byte == 2
    then read_set key
    else if type_byte == 11
    then read_set_intset key
    else if type_byte == 20
    then read_set_listpack key
    else stop unknown_type)
