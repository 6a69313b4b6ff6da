-- ===== src/Rdb/Types/List.antt =====
-- internal/rdb/types/list.go.
pub mod RoundTrip
use rdb_elasticache_migrator.Prelude.{ℕ, List, [], ◌∷◌, ◌==◌, if◌then◌else◌, codes}
use rdb_elasticache_migrator.Prelude.Int.{signed}
use rdb_elasticache_migrator.Runtime.{Bytes, unknown_type}
use rdb_elasticache_migrator.Runtime.Emit.{
  Command, Emit, done, stop, send, reading, send_all, times, rounds,
}
use rdb_elasticache_migrator.Rdb.Structure.Length.{read_length}
use rdb_elasticache_migrator.Rdb.Structure.Strings.{read_string}
use rdb_elasticache_migrator.Rdb.Structure.Listpack.{read_listpack}
use rdb_elasticache_migrator.Rdb.Structure.Ziplist.{read_ziplist}

abbrev pub rpush : Bytes → Bytes → Command
rpush key ele = codes "rpush" ∷ key ∷ ele ∷ []

-- The body of the loop of `readList`.
unfoldable pub list_element : Bytes → Emit
unfolding read_string
list_element key = reading read_string λ ele. send (rpush key ele) done

unfoldable pub read_list : Bytes → Emit
unfolding list_element read_length times
read_list key = reading read_length λ size. times (rounds (signed 64 size)) (list_element key)

unfoldable pub read_zip_list : Bytes → Emit
unfolding read_ziplist send_all
read_zip_list key = reading read_ziplist λ elements. send_all (rpush key) elements

unfoldable pub read_quick_list : Bytes → Emit
unfolding read_zip_list read_length times
read_quick_list key =
    reading read_length λ size. times (rounds (signed 64 size)) (read_zip_list key)

-- The body of the loop of `readQuickList2`: a plain or a packed node.
unfoldable pub quick_list_node : Bytes → Emit
unfolding read_length read_string read_listpack send_all
quick_list_node key = reading read_length λ container.
    if container == 1
    then reading read_string (λ ele. send (rpush key ele) done)
    else if container == 2
    then reading read_listpack (λ elements. send_all (rpush key) elements)
    else stop unknown_type

unfoldable pub read_quick_list_2 : Bytes → Emit
unfolding quick_list_node read_length times
read_quick_list_2 key =
    reading read_length λ size. times (rounds (signed 64 size)) (quick_list_node key)

unfoldable pub rewrite_list : Bytes → ℕ → Emit
unfolding read_list read_zip_list read_quick_list read_quick_list_2
rewrite_list key type_byte = send (codes "del" ∷ key ∷ []) (
    if type_byte == 1
    then read_list key
    else if type_byte == 10
    then read_zip_list key
    else if type_byte == 14
    then read_quick_list key
    else if type_byte == 18
    then read_quick_list_2 key
    else stop unknown_type)
