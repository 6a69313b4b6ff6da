-- ===== src/Rdb/Types/Set/RoundTrip.antt =====
-- The commands of a saved set and of a saved string.
use rdb_elasticache_migrator.Prelude.{
  ℕ, ◌<◌, ◌^◌, ◌≡◌, refl, List, [], ◌∷◌, ◌++◌, map, flat_map, length, codes,
}
use rdb_elasticache_migrator.Prelude.Int.{ℤ}
use rdb_elasticache_migrator.Runtime.{Bytes, ok}
use rdb_elasticache_migrator.Runtime.Strconv.{format_int}
use rdb_elasticache_migrator.Runtime.Emit.{Each, send_all-map}
use rdb_elasticache_migrator.Rdb.Structure.Strings.RoundTrip.{
  Stored, IsStored, save, content, read_string-save,
}
use rdb_elasticache_migrator.Rdb.Structure.Intset.RoundTrip.{
  Width, AllFit, intset, read_intset-intset,
}
use rdb_elasticache_migrator.Rdb.Types.Saved.{
  PackNode, IsPackNode, pack_elements, read_listpack-node, save_all, times-save_all, flat_map-map,
}
use rdb_elasticache_migrator.Rdb.Types.Set.{
  rewrite_string, sadd, set_element, read_set, read_set_intset, read_set_listpack, rewrite_set,
}

-- A string in any of its stored forms is written again as a `set` of its content.
pub rewrite_string-save :
    (key : Bytes) (s : Stored) (rest : Bytes)
    → IsStored s
    → rewrite_string key (save s ++ rest)
      ≡ record { sent = (codes "set" ∷ key ∷ content s ∷ []) ∷ []; outcome = ok rest }
unfolding rewrite_string
rewrite_string-save key s rest h = rw (read_string-save s rest h) refl

-- The three forms of a set in the file.
pub data SavedSet : Type 0 where
  hashtable : List Stored → SavedSet
  integers : Stored → Width → List ℤ → SavedSet
  one_listpack : PackNode → SavedSet

abbrev pub IsSavedSet : SavedSet → Type 0
IsSavedSet (hashtable ss) = Each IsStored ss × (length ss < 2 ^ 63)
IsSavedSet (integers s w zs) =
    IsStored s × AllFit w zs × (length zs < 2 ^ 32) × (content s ≡ intset w zs)
IsSavedSet (one_listpack n) = IsPackNode n

abbrev pub type_byte : SavedSet → ℕ
type_byte (hashtable _) = 2
type_byte (integers _ _ _) = 11
type_byte (one_listpack _) = 20

abbrev pub save_set : SavedSet → Bytes
save_set (hashtable ss) = save_all save ss
save_set (integers s w zs) = save s
save_set (one_listpack n) = save n.text

abbrev pub members : SavedSet → List Bytes
members (hashtable ss) = flat_map (λ s. content s ∷ []) ss
members (integers s w zs) = map format_int zs
members (one_listpack n) = pack_elements n

set_element-save :
    (key : Bytes) (s : Stored) (rest : Bytes)
    → IsStored s
    → set_element key (save s ++ rest)
      ≡ record { sent = map (sadd key) (content s ∷ []); outcome = ok rest }
unfolding set_element
set_element-save key s rest h = rw (read_string-save s rest h) refl

read_set_intset-save :
    (key : Bytes) (s : Stored) (w : Width) (zs : List ℤ) (rest : Bytes)
    → IsStored s
    → AllFit w zs
    → length zs < 2 ^ 32
    → content s ≡ intset w zs
    → read_set_intset key (save s ++ rest)
      ≡ record { sent = map (sadd key) (map format_int zs); outcome = ok rest }
unfolding read_set_intset
read_set_intset-save key s w zs rest a b c e =
    rw (read_intset-intset s w zs rest a b c e) (send_all-map (sadd key) (map format_int zs) rest)

read_set_listpack-node :
    (key : Bytes) (n : PackNode) (rest : Bytes)
    → IsPackNode n
    → read_set_listpack key (save n.text ++ rest)
      ≡ record { sent = map (sadd key) (pack_elements n); outcome = ok rest }
unfolding read_set_listpack
read_set_listpack-node key n rest h =
    rw (read_listpack-node n rest h) (send_all-map (sadd key) (pack_elements n) rest)

-- A set in any of the three forms of the file is written again as a `del` of the key and one `sadd` for
-- each member, and what follows it in the file is left unread.
pub rewrite_set-save :
    (key : Bytes) (v : SavedSet) (rest : Bytes)
    → IsSavedSet v
    → rewrite_set key (type_byte v) (save_set v ++ rest)
      ≡ record { sent = (codes "del" ∷ key ∷ []) ∷ map (sadd key) (members v); outcome = ok rest }
unfolding rewrite_set read_set
rewrite_set-save key (hashtable ss) rest (all, few) =
    rw
      (
        times-save_all IsStored save (λ s. map (sadd key) (content s ∷ [])) (set_element key) ss
            rest all few (set_element-save key),
        flat_map-map (sadd key) (λ s. content s ∷ []) ss,
      )
      refl
rewrite_set-save key (integers s w zs) rest (a, b, c, e) =
    rw (read_set_intset-save key s w zs rest a b c e) refl
rewrite_set-save key (one_listpack n) rest h = rw (read_set_listpack-node key n rest h) refl
