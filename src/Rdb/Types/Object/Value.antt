-- ===== src/Rdb/Types/Object/Value.antt =====
-- A value of any type that `ParseObject` of internal/rdb/types/interface.go knows, as it stands in the file.
use rdb_elasticache_migrator.Prelude.{
  ℕ, ◌<◌, ◌^◌, ◌≡◌, refl, ◌∙◌, List, [], ◌∷◌, ◌++◌, map, flat_map, length, append_assoc, codes,
}
use rdb_elasticache_migrator.Prelude.Int.{ℤ}
use rdb_elasticache_migrator.Runtime.{Bytes, ok}
use rdb_elasticache_migrator.Runtime.Strconv.{format_uint}
use rdb_elasticache_migrator.Runtime.Emit.{Command, Emit, Each}
use rdb_elasticache_migrator.Rdb.Structure.Float.{Floats}
use rdb_elasticache_migrator.Rdb.Structure.Length.RoundTrip.{encode_length}
use rdb_elasticache_migrator.Rdb.Structure.Strings.RoundTrip.{Stored, IsStored, save, content}
use rdb_elasticache_migrator.Rdb.Types.List
use rdb_elasticache_migrator.Rdb.Types.Set
use rdb_elasticache_migrator.Rdb.Types.Zset
use rdb_elasticache_migrator.Rdb.Types.Hash
use rdb_elasticache_migrator.Rdb.Types.List.{rewrite_list}
use rdb_elasticache_migrator.Rdb.Types.List.RoundTrip.{rewrite_list-save}
use rdb_elasticache_migrator.Rdb.Types.Set.{rewrite_string, rewrite_set}
use rdb_elasticache_migrator.Rdb.Types.Set.RoundTrip.{rewrite_string-save, rewrite_set-save}
use rdb_elasticache_migrator.Rdb.Types.Zset.{rewrite_zset}
use rdb_elasticache_migrator.Rdb.Types.Zset.RoundTrip.{rewrite_zset-save}
use rdb_elasticache_migrator.Rdb.Types.Hash.{rewrite_hash}
use rdb_elasticache_migrator.Rdb.Types.Hash.RoundTrip.{rewrite_hash-save}
use rdb_elasticache_migrator.Rdb.Types.Stream.Groups.{rewrite_stream}
use rdb_elasticache_migrator.Rdb.Types.Stream.Saved.{
  SavedStream, IsSavedStream, StreamType, save_stream, stream_commands,
}
use rdb_elasticache_migrator.Rdb.Types.Stream.Saved.StreamType.{listpacks, listpacks_2, listpacks_3}
use rdb_elasticache_migrator.Rdb.Types.Stream.RoundTrip.{rewrite_stream-save}
use rdb_elasticache_migrator.Rdb.Types.Tair.{exset}
use rdb_elasticache_migrator.Rdb.Types.Tair.RoundTrip.{
  Field, IsField, field_command, save_tair_hash, TairString, IsTairString, save_tair_string,
}
use rdb_elasticache_migrator.Rdb.Types.Module.Name.{encode_id}
use rdb_elasticache_migrator.Rdb.Types.Module.Dispatch.{
  exstrtype, tairhash, rewrite_module-tair_hash, rewrite_module-tair_string,
}
use rdb_elasticache_migrator.Rdb.Types.Object.{rewrite_object}

module _ (F : Floats) where
  pub data Value : Type 0 where
    string : Stored → Value
    list : List.RoundTrip.SavedList → Value
    set : Set.RoundTrip.SavedSet → Value
    zset : Zset.RoundTrip.SavedZset F → Value
    hash : Hash.RoundTrip.SavedHash → Value
    stream : (t : ℕ) → StreamType t → SavedStream → Value
    tair_string : ℕ → TairString → Value
    tair_hash : ℕ → Stored → List Field → Value

  abbrev pub IsValue : Value → Type 0
  IsValue (string s) = IsStored s
  IsValue (list v) = List.RoundTrip.IsSavedList v
  IsValue (set v) = Set.RoundTrip.IsSavedSet v
  IsValue (zset v) = Zset.RoundTrip.IsSavedZset F v
  IsValue (hash v) = Hash.RoundTrip.IsSavedHash v
  IsValue (stream t is v) = IsSavedStream v
  IsValue (tair_string version v) = (version < 1024) × IsTairString v
  IsValue (tair_hash version name fs) =
      (version < 1024) × IsStored name × Each IsField fs × (length fs < 2 ^ 63)

  abbrev pub value_type : Value → ℕ
  value_type (string s) = 0
  value_type (list v) = List.RoundTrip.type_byte v
  value_type (set v) = Set.RoundTrip.type_byte v
  value_type (zset v) = Zset.RoundTrip.type_byte F v
  value_type (hash v) = Hash.RoundTrip.type_byte v
  value_type (stream t is v) = t
  value_type (tair_string version v) = 7
  value_type (tair_hash version name fs) = 7

  unfoldable pub save_value : Value → Bytes
  save_value (string s) = save s
  save_value (list v) = List.RoundTrip.save_list v
  save_value (set v) = Set.RoundTrip.save_set v
  save_value (zset v) = Zset.RoundTrip.save_zset F v
  save_value (hash v) = Hash.RoundTrip.save_hash v
  save_value (stream t is v) = save_stream t v
  save_value (tair_string version v) =
      encode_length (encode_id exstrtype version) ++ save_tair_string v
  save_value (tair_hash version name fs) =
      encode_length (encode_id tairhash version) ++ save_tair_hash name fs

  -- The commands of a value under its key.
  unfoldable pub value_commands : Bytes → Value → List Command
  value_commands key (string s) = (codes "set" ∷ key ∷ content s ∷ []) ∷ []
  value_commands key (list v) =
      (codes "del" ∷ key ∷ []) ∷ map (List.rpush key) (List.RoundTrip.elements v)
  value_commands key (set v) =
      (codes "del" ∷ key ∷ []) ∷ map (Set.sadd key) (Set.RoundTrip.members v)
  value_commands key (zset v) = (codes "del" ∷ key ∷ []) ∷ Zset.RoundTrip.commands F key v
  value_commands key (hash v) = (codes "del" ∷ key ∷ []) ∷ Hash.RoundTrip.commands key v
  value_commands key (stream t is v) = (codes "del" ∷ key ∷ []) ∷ stream_commands key v
  value_commands key (tair_string version v) =
      exset key (content v.value) (format_uint v.version) (format_uint v.flags) ∷ []
  value_commands key (tair_hash version name fs) =
      (codes "del" ∷ content name ∷ []) ∷ flat_map (λ f. field_command (content name) f ∷ []) fs

module _ (F : Floats) (format_f format_15f : F.Float64 → Bytes) (bits_of : ℕ → F.Float64 → ℕ)
    (to_bits : F.Float64 → ℕ) (ver : ℤ) where
  abbrev rewrite_any : ℕ → Bytes → Emit
  rewrite_any = rewrite_object F format_f format_15f bits_of to_bits ver

  list_chosen :
      (key bs : Bytes) (v : List.RoundTrip.SavedList)
      → rewrite_any (List.RoundTrip.type_byte v) key bs
        ≡ rewrite_list key (List.RoundTrip.type_byte v) bs
  unfolding rewrite_object
  list_chosen key bs (List.RoundTrip.list ss) = refl
  list_chosen key bs (List.RoundTrip.one_ziplist n) = refl
  list_chosen key bs (List.RoundTrip.quicklist ns) = refl
  list_chosen key bs (List.RoundTrip.quicklist_2 ns) = refl

  set_chosen :
      (key bs : Bytes) (v : Set.RoundTrip.SavedSet)
      → rewrite_any (Set.RoundTrip.type_byte v) key bs
        ≡ rewrite_set key (Set.RoundTrip.type_byte v) bs
  unfolding rewrite_object
  set_chosen key bs (Set.RoundTrip.hashtable ss) = refl
  set_chosen key bs (Set.RoundTrip.integers s w zs) = refl
  set_chosen key bs (Set.RoundTrip.one_listpack n) = refl

  zset_chosen :
      (key bs : Bytes) (v : Zset.RoundTrip.SavedZset F)
      → rewrite_any (Zset.RoundTrip.type_byte F v) key bs
        ≡ rewrite_zset F key (Zset.RoundTrip.type_byte F v) bs
  unfolding rewrite_object
  zset_chosen key bs (Zset.RoundTrip.zset ms) = refl
  zset_chosen key bs (Zset.RoundTrip.zset_2 ms) = refl
  zset_chosen key bs (Zset.RoundTrip.one_ziplist n ps) = refl
  zset_chosen key bs (Zset.RoundTrip.one_listpack n ps) = refl

  hash_chosen :
      (key bs : Bytes) (v : Hash.RoundTrip.SavedHash)
      → rewrite_any (Hash.RoundTrip.type_byte v) key bs
        ≡ rewrite_hash key (Hash.RoundTrip.type_byte v) bs
  unfolding rewrite_object
  hash_chosen key bs (Hash.RoundTrip.hashtable ps) = refl
  hash_chosen key bs (Hash.RoundTrip.one_ziplist n ps) = refl
  hash_chosen key bs (Hash.RoundTrip.one_listpack n ps) = refl
  hash_chosen key bs (Hash.RoundTrip.metadata least ps) = refl
  hash_chosen key bs (Hash.RoundTrip.listpack_ex least n ps) = refl
  hash_chosen key bs (Hash.RoundTrip.metadata_pre ps) = refl
  hash_chosen key bs (Hash.RoundTrip.listpack_ex_pre n ps) = refl

  stream_chosen :
      (key bs : Bytes) (t : ℕ) → StreamType t → rewrite_any t key bs ≡ rewrite_stream key t bs
  unfolding rewrite_object
  stream_chosen key bs t listpacks = refl
  stream_chosen key bs t listpacks_2 = refl
  stream_chosen key bs t listpacks_3 = refl

  -- A value of any of these types and forms is written again by the commands of its type, and what follows it
  -- in the file is left unread.
  pub rewrite_object-save :
      (key : Bytes) (v : Value F) (rest : Bytes)
      → IsValue F v
      → rewrite_object F format_f format_15f bits_of to_bits ver
          (value_type F v)
          key
          (save_value F v ++ rest)
        ≡ record { sent = value_commands F key v; outcome = ok rest }
  unfolding rewrite_object save_value value_commands
  rewrite_object-save key (string s) rest h = rewrite_string-save key s rest h
  rewrite_object-save key (list v) rest h =
      list_chosen key (List.RoundTrip.save_list v ++ rest) v ∙ rewrite_list-save key v rest h
  rewrite_object-save key (set v) rest h =
      set_chosen key (Set.RoundTrip.save_set v ++ rest) v ∙ rewrite_set-save key v rest h
  rewrite_object-save key (zset v) rest h =
      zset_chosen key (Zset.RoundTrip.save_zset F v ++ rest) v ∙ rewrite_zset-save F key v rest h
  rewrite_object-save key (hash v) rest h =
      hash_chosen key (Hash.RoundTrip.save_hash v ++ rest) v ∙ rewrite_hash-save key v rest h
  rewrite_object-save key (stream t is v) rest h =
      stream_chosen key (save_stream t v ++ rest) t is ∙ rewrite_stream-save key t v rest is h
  rewrite_object-save key (tair_string version v) rest (few, h) =
      rw (append_assoc (encode_length (encode_id exstrtype version)) (save_tair_string v) rest) (
        rewrite_module-tair_string F format_f format_15f bits_of to_bits ver key version v rest few
          h)
  rewrite_object-save key (tair_hash version name fs) rest (few, n, all, h) =
      rw (append_assoc (encode_length (encode_id tairhash version)) (save_tair_hash name fs) rest) (
        rewrite_module-tair_hash F format_f format_15f bits_of to_bits ver key version name fs rest
          few n all h)
