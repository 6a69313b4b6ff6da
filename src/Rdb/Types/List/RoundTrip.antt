-- ===== src/Rdb/Types/List/RoundTrip.antt =====
-- The commands of a saved list.
use rdb_elasticache_migrator.Prelude.{
  ℕ, ◌<◌, ◌^◌, ◌≡◌, refl, List, [], ◌∷◌, ◌++◌, map, flat_map, length, arith, append_assoc, codes,
}
use rdb_elasticache_migrator.Runtime.{Bytes, ok}
use rdb_elasticache_migrator.Runtime.Emit.{Each, send_all-map}
use rdb_elasticache_migrator.Rdb.Structure.Length.RoundTrip.{
  encode_length, read_length-encode_length,
}
use rdb_elasticache_migrator.Rdb.Structure.Strings.RoundTrip.{
  Stored, IsStored, save, content, read_string-save,
}
use rdb_elasticache_migrator.Rdb.Types.Saved.{
  ZipNode, PackNode, IsZipNode, IsPackNode, zip_elements, pack_elements, read_ziplist-node,
  read_listpack-node, save_all, times-save_all, flat_map-map,
}
use rdb_elasticache_migrator.Rdb.Types.List.{
  rpush, list_element, read_list, read_zip_list, read_quick_list, quick_list_node,
  read_quick_list_2, rewrite_list,
}

-- A node of a quicklist: one large element, or a listpack.
pub data Node : Type 0 where
  plain : Stored → Node
  packed : PackNode → Node

-- The four forms of a list in the file.
pub data SavedList : Type 0 where
  list : List Stored → SavedList
  one_ziplist : ZipNode → SavedList
  quicklist : List ZipNode → SavedList
  quicklist_2 : List Node → SavedList

abbrev pub IsNode : Node → Type 0
IsNode (plain s) = IsStored s
IsNode (packed n) = IsPackNode n

abbrev pub IsSavedList : SavedList → Type 0
IsSavedList (list ss) = Each IsStored ss × (length ss < 2 ^ 63)
IsSavedList (one_ziplist n) = IsZipNode n
IsSavedList (quicklist ns) = Each IsZipNode ns × (length ns < 2 ^ 63)
IsSavedList (quicklist_2 ns) = Each IsNode ns × (length ns < 2 ^ 63)

abbrev pub type_byte : SavedList → ℕ
type_byte (list _) = 1
type_byte (one_ziplist _) = 10
type_byte (quicklist _) = 14
type_byte (quicklist_2 _) = 18

abbrev pub save_node : Node → Bytes
save_node (plain s) = encode_length 1 ++ save s
save_node (packed n) = encode_length 2 ++ save n.text

abbrev pub save_list : SavedList → Bytes
save_list (list ss) = save_all save ss
save_list (one_ziplist n) = save n.text
save_list (quicklist ns) = save_all (λ n. save n.text) ns
save_list (quicklist_2 ns) = save_all save_node ns

abbrev pub node_elements : Node → List Bytes
node_elements (plain s) = content s ∷ []
node_elements (packed n) = pack_elements n

-- The elements, from the head to the tail.
abbrev pub elements : SavedList → List Bytes
elements (list ss) = flat_map (λ s. content s ∷ []) ss
elements (one_ziplist n) = zip_elements n
elements (quicklist ns) = flat_map zip_elements ns
elements (quicklist_2 ns) = flat_map node_elements ns

list_element-save :
    (key : Bytes) (s : Stored) (rest : Bytes)
    → IsStored s
    → list_element key (save s ++ rest)
      ≡ record { sent = map (rpush key) (content s ∷ []); outcome = ok rest }
unfolding list_element
list_element-save key s rest h = rw (read_string-save s rest h) refl

read_zip_list-node :
    (key : Bytes) (n : ZipNode) (rest : Bytes)
    → IsZipNode n
    → read_zip_list key (save n.text ++ rest)
      ≡ record { sent = map (rpush key) (zip_elements n); outcome = ok rest }
unfolding read_zip_list
read_zip_list-node key n rest h =
    rw (read_ziplist-node n rest h) (send_all-map (rpush key) (zip_elements n) rest)

quick_list_node-save :
    (key : Bytes) (n : Node) (rest : Bytes)
    → IsNode n
    → quick_list_node key (save_node n ++ rest)
      ≡ record { sent = map (rpush key) (node_elements n); outcome = ok rest }
unfolding quick_list_node
quick_list_node-save key (plain s) rest h =
    rw
      (
        append_assoc,
        read_length-encode_length 1 (save s ++ rest) (omega arith),
        read_string-save s rest h,
      )
      refl
quick_list_node-save key (packed n) rest h =
    rw
      (
        append_assoc,
        read_length-encode_length 2 (save n.text ++ rest) (omega arith),
        read_listpack-node n rest h,
      )
      (send_all-map (rpush key) (pack_elements n) rest)

-- A list in any of the four forms of the file is written again as a `del` of the key and one `rpush` for
-- each element, from the head of the list to its tail, and what follows it in the file is left unread.
pub rewrite_list-save :
    (key : Bytes) (v : SavedList) (rest : Bytes)
    → IsSavedList v
    → rewrite_list key (type_byte v) (save_list v ++ rest)
      ≡ record { sent = (codes "del" ∷ key ∷ []) ∷ map (rpush key) (elements v); outcome = ok rest }
unfolding rewrite_list read_list read_quick_list read_quick_list_2
rewrite_list-save key (list ss) rest (all, few) =
    rw
      (
        times-save_all IsStored save (λ s. map (rpush key) (content s ∷ [])) (list_element key) ss
            rest all few (list_element-save key),
        flat_map-map (rpush key) (λ s. content s ∷ []) ss,
      )
      refl
rewrite_list-save key (one_ziplist n) rest h = rw (read_zip_list-node key n rest h) refl
rewrite_list-save key (quicklist ns) rest (all, few) =
    rw
      (
        times-save_all IsZipNode (λ n. save n.text) (λ n. map (rpush key) (zip_elements n))
            (read_zip_list key) ns rest all few (read_zip_list-node key),
        flat_map-map (rpush key) zip_elements ns,
      )
      refl
rewrite_list-save key (quicklist_2 ns) rest (all, few) =
    rw
      (
        times-save_all IsNode save_node (λ n. map (rpush key) (node_elements n))
            (quick_list_node key) ns rest all few (quick_list_node-save key),
        flat_map-map (rpush key) node_elements ns,
      )
      refl
