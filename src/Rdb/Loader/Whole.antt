-- ===== src/Rdb/Loader/Whole.antt =====
-- `ParseRDB` of internal/rdb/rdb.go with `ParseObject` of internal/rdb/types on a whole file.
use rdb_elasticache_migrator.Prelude.{
  ℕ, suc, ◌+◌, ◌<◌, ◌≡◌, arith, Bool, false, some, List, [], ◌∷◌, ◌++◌, map, length, codes,
}
use rdb_elasticache_migrator.Prelude.Int.{ℤ}
use rdb_elasticache_migrator.Runtime.{Bytes, ok}
use rdb_elasticache_migrator.Runtime.Strconv.{parse_int}
use rdb_elasticache_migrator.Runtime.Emit.{Emit, Each}
use rdb_elasticache_migrator.Rdb.Structure.Float.{Floats}
use rdb_elasticache_migrator.Rdb.Structure.Strings.RoundTrip.{Stored, IsStored, content}
use rdb_elasticache_migrator.Rdb.Types.List
use rdb_elasticache_migrator.Rdb.Types.Set
use rdb_elasticache_migrator.Rdb.Types.Zset
use rdb_elasticache_migrator.Rdb.Types.Hash
use rdb_elasticache_migrator.Rdb.Types.Stream.Saved.StreamType.{listpacks, listpacks_2, listpacks_3}
use rdb_elasticache_migrator.Rdb.Types.Stream.Saved.{StreamType}
use rdb_elasticache_migrator.Rdb.Types.Object.{rewrite_object}
use rdb_elasticache_migrator.Rdb.Types.Object.Value.{
  Value, IsValue, value_type, save_value, value_commands, rewrite_object-save,
}
use rdb_elasticache_migrator.Rdb.Loader.{Loader}
use rdb_elasticache_migrator.Rdb.Loader.RoundTrip.{IsClock}
use rdb_elasticache_migrator.Rdb.Loader.Items.{Item, save_items, items_entries, after_items}
use rdb_elasticache_migrator.Rdb.Loader.Rounds.{IsItem}
use rdb_elasticache_migrator.Rdb.Loader.File.{parse_rdb, parse_rdb-save_items}

-- A file, record by record: the marks between the keys, and the keys with their values.
module _ (F : Floats) where
  pub data Part : Type 0 where
    mark : Item F → Part
    key : Stored → Value F → Part

  abbrev pub as_item : Part → Item F
  as_item (mark i) = i
  as_item (key name v) =
      Item.key (value_type F v) name (save_value F v) (value_commands F (content name) v)

  list_type : (v : List.RoundTrip.SavedList) → List.RoundTrip.type_byte v < 244
  list_type (List.RoundTrip.list ss) = omega arith
  list_type (List.RoundTrip.one_ziplist n) = omega arith
  list_type (List.RoundTrip.quicklist ns) = omega arith
  list_type (List.RoundTrip.quicklist_2 ns) = omega arith

  set_type : (v : Set.RoundTrip.SavedSet) → Set.RoundTrip.type_byte v < 244
  set_type (Set.RoundTrip.hashtable ss) = omega arith
  set_type (Set.RoundTrip.integers s w zs) = omega arith
  set_type (Set.RoundTrip.one_listpack n) = omega arith

  zset_type : (v : Zset.RoundTrip.SavedZset F) → Zset.RoundTrip.type_byte F v < 244
  zset_type (Zset.RoundTrip.zset ms) = omega arith
  zset_type (Zset.RoundTrip.zset_2 ms) = omega arith
  zset_type (Zset.RoundTrip.one_ziplist n ps) = omega arith
  zset_type (Zset.RoundTrip.one_listpack n ps) = omega arith

  hash_type : (v : Hash.RoundTrip.SavedHash) → Hash.RoundTrip.type_byte v < 244
  hash_type (Hash.RoundTrip.hashtable ps) = omega arith
  hash_type (Hash.RoundTrip.one_ziplist n ps) = omega arith
  hash_type (Hash.RoundTrip.one_listpack n ps) = omega arith
  hash_type (Hash.RoundTrip.metadata least ps) = omega arith
  hash_type (Hash.RoundTrip.listpack_ex least n ps) = omega arith
  hash_type (Hash.RoundTrip.metadata_pre ps) = omega arith
  hash_type (Hash.RoundTrip.listpack_ex_pre n ps) = omega arith

  stream_type : (t : ℕ) → StreamType t → t < 244
  stream_type t listpacks = omega arith
  stream_type t listpacks_2 = omega arith
  stream_type t listpacks_3 = omega arith

  -- No type of a value is a mark of the file.
  value_type-lt : (v : Value F) → value_type F v < 244
  value_type-lt (Value.string s) = omega arith
  value_type-lt (Value.list v) = list_type v
  value_type-lt (Value.set v) = set_type v
  value_type-lt (Value.zset v) = zset_type v
  value_type-lt (Value.hash v) = hash_type v
  value_type-lt (Value.stream t is v) = stream_type t is
  value_type-lt (Value.tair_string version v) = omega arith
  value_type-lt (Value.tair_hash version name fs) = omega arith

module _ (F : Floats) (format_f format_15f : F.Float64 → Bytes) (bits_of : ℕ → F.Float64 → ℕ)
    (to_bits : F.Float64 → ℕ) (ver : ℤ) (clock : ℕ → ℤ) where
  abbrev rewrite : ℕ → Bytes → Emit
  rewrite = rewrite_object F format_f format_15f bits_of to_bits ver

  -- Apart from the keys, whose values are those of `Part`.
  abbrev IsMark : Item F → Type 0
  IsMark (Item.key t name payload cmds) = ⊥
  IsMark i = IsItem F clock rewrite i

  abbrev pub IsPart : Part F → Type 0
  IsPart (Part.mark i) = IsMark i
  IsPart (Part.key name v) = IsStored name × IsValue F v

  mark-IsItem : (i : Item F) → IsMark i → IsItem F clock rewrite i
  mark-IsItem (Item.key t name payload cmds) h = absurd h
  mark-IsItem (Item.slot_info a b c) h = h
  mark-IsItem (Item.function code) h = h
  mark-IsItem (Item.module_aux a b c fs) h = h
  mark-IsItem (Item.idle n) h = h
  mark-IsItem (Item.freq n) h = h
  mark-IsItem (Item.repl_stream_db name value n) h = h
  mark-IsItem (Item.lua name value) h = h
  mark-IsItem (Item.other_aux name value) h = h
  mark-IsItem (Item.resize_db a b) h = h
  mark-IsItem (Item.expire_ms ms) h = h
  mark-IsItem (Item.expire s) h = h
  mark-IsItem (Item.select db) h = h

  part-IsItem : (p : Part F) → IsPart p → IsItem F clock rewrite (as_item F p)
  part-IsItem (Part.mark i) h = mark-IsItem i h
  part-IsItem (Part.key name v) (n, h) = (
    value_type-lt F v,
    n,
    λ rest. rewrite_object-save F format_f format_15f bits_of to_bits ver (content name) v rest h,
  )

  all_items :
      (ps : List (Part F)) → Each IsPart ps → Each (IsItem F clock rewrite) (map (as_item F) ps)
  all_items [] h = tt
  all_items (p ∷ ps) (h, hs) = (part-IsItem p h, all_items ps hs)

  -- A whole file is read to its end with one round for each record, whatever the order of the records: a select, a
  -- size hint, a time in milliseconds or seconds, the idle time and the frequency, an auxiliary field, the auxiliary
  -- data of a module, a slot, a function, or a key whose value is a string, list, set, sorted set, hash, stream, or
  -- a string or hash of Tair, in any form that the code reads. The functions of old versions (246) and hashes as
  -- zipmaps, which end the run, are none of them. What is sent is, in the order of the file, the loading of each
  -- function and script, and the commands of each key in the database that the last select before it names, with a
  -- `PEXPIRE` behind them when a time is pending that is not the very reading of the clock; the state at the end is
  -- that of the records too. The version has four digits, the clock fits, and `ctx` is not done.
  pub parse_rdb-parts :
      (cancelled : ℕ → Bool) (version : Bytes) (v : ℤ) (ld : Loader) (n : ℕ) (ps : List (Part F))
      (rest : Bytes)
      → ((n : ℕ) → cancelled n ≡ false)
      → ((i : ℕ) → IsClock (clock i))
      → length version ≡ 4
      → parse_int version ≡ some v
      → Each IsPart ps
      → parse_rdb F clock rewrite cancelled
          (length (map (as_item F) ps) + suc n)
          ld
          ((codes "REDIS" ++ version) ++ save_items F (map (as_item F) ps) (255 ∷ rest))
        ≡ record {
          sent = items_entries F clock ld (map (as_item F) ps);
          outcome = ok (after_items F clock ld (map (as_item F) ps));
        }
  parse_rdb-parts cancelled version v ld n ps rest never sane four digits all =
      parse_rdb-save_items F clock rewrite cancelled never sane version v ld n (map (as_item F) ps)
        rest four digits (all_items ps all)
