-- ===== src/Rdb/Loader/Items.antt =====
-- What an RDB file holds behind its header, one record for each type byte, as Redis writes it, and what the program
-- means to do with each.
use rdb_elasticache_migrator.Prelude.{ℕ, suc, ◌*◌, ◌<◌, ◌^◌, List, [], ◌∷◌, ◌++◌, map, codes}
use rdb_elasticache_migrator.Prelude.Int.{ℤ, pos}
use rdb_elasticache_migrator.Runtime.{Bytes}
use rdb_elasticache_migrator.Runtime.Words.{to_little}
use rdb_elasticache_migrator.Runtime.Emit.{Command}
use rdb_elasticache_migrator.Rdb.Structure.Float.{Floats}
use rdb_elasticache_migrator.Rdb.Structure.Length.RoundTrip.{encode_length}
use rdb_elasticache_migrator.Rdb.Structure.Strings.RoundTrip.{Stored, IsStored, save, content}
use rdb_elasticache_migrator.Rdb.Types.Zset.RoundTrip.{SavedFloat, IsSavedFloat, save_float}
use rdb_elasticache_migrator.Rdb.Loader.{Entry, Loader, tagged}
use rdb_elasticache_migrator.Rdb.Loader.RoundTrip.{time_entries, left_of}

module _ (F : Floats) where
  -- A value of a module's auxiliary data, behind its opcode.
  pub data Field : Type 0 where
    signed_int unsigned_int : ℕ → Field
    float : SavedFloat F → Field
    double : ℕ → Field
    string : Stored → Field

  abbrev pub IsField : Field → Type 0
  IsField (signed_int n) = n < 2 ^ 64
  IsField (unsigned_int n) = n < 2 ^ 64
  IsField (float f) = IsSavedFloat F f
  IsField (double bits) = bits < 2 ^ 64
  IsField (string s) = IsStored s

  abbrev pub opcode : Field → ℕ
  opcode (signed_int n) = 1
  opcode (unsigned_int n) = 2
  opcode (float f) = 3
  opcode (double bits) = 4
  opcode (string s) = 5

  abbrev pub save_field : Field → Bytes
  save_field (signed_int n) = encode_length n
  save_field (unsigned_int n) = encode_length n
  save_field (float f) = save_float F f
  save_field (double bits) = to_little 8 bits
  save_field (string s) = save s

  abbrev pub save_fields : List Field → Bytes → Bytes
  save_fields [] rest = encode_length 0 ++ rest
  save_fields (f ∷ fs) rest = encode_length (opcode f) ++ (save_field f ++ save_fields fs rest)

  -- The auxiliary fields are three: the database of the replication stream, a script, and those that are
  -- passed over. A key has the bytes of its value and the commands that it is written again by.
  pub data Item : Type 0 where
    slot_info : ℕ → ℕ → ℕ → Item
    function : Stored → Item
    module_aux : ℕ → ℕ → ℕ → List Field → Item
    idle freq : ℕ → Item
    repl_stream_db : Stored → Stored → ℤ → Item
    lua other_aux : Stored → Stored → Item
    resize_db : ℕ → ℕ → Item
    expire_ms expire : ℕ → Item
    select : ℕ → Item
    key : ℕ → Stored → Bytes → List Command → Item

  -- In front of the rest of the file.
  abbrev pub save_item : Item → Bytes → Bytes
  save_item (slot_info a b c) rest =
      244 ∷ (encode_length a ++ (encode_length b ++ (encode_length c ++ rest)))
  save_item (function code) rest = 245 ∷ (save code ++ rest)
  save_item (module_aux a b c fs) rest =
      247 ∷ (encode_length a ++ (encode_length b ++ (encode_length c ++ save_fields fs rest)))
  save_item (idle n) rest = 248 ∷ (encode_length n ++ rest)
  save_item (freq n) rest = 249 ∷ n ∷ rest
  save_item (repl_stream_db name value n) rest = 250 ∷ (save name ++ (save value ++ rest))
  save_item (lua name value) rest = 250 ∷ (save name ++ (save value ++ rest))
  save_item (other_aux name value) rest = 250 ∷ (save name ++ (save value ++ rest))
  save_item (resize_db a b) rest = 251 ∷ (encode_length a ++ (encode_length b ++ rest))
  save_item (expire_ms ms) rest = 252 ∷ (to_little 8 ms ++ rest)
  save_item (expire s) rest = 253 ∷ (to_little 4 s ++ rest)
  save_item (select db) rest = 254 ∷ (encode_length db ++ rest)
  save_item (key t name payload cmds) rest = t ∷ (save name ++ (payload ++ rest))

  abbrev pub save_items : List Item → Bytes → Bytes
  save_items [] rest = rest
  save_items (i ∷ is) rest = save_item i (save_items is rest)

  abbrev one : Command → List Entry
  one cmd = record { db_id = pos 0; argv = cmd } ∷ []

  -- What is sent for a record: the commands of a key, in the database that stands, with a PEXPIRE when a time
  -- is left.
  abbrev pub item_entries : Loader → Item → List Entry
  item_entries ld (function code) = one (codes "function" ∷ codes "load" ∷ content code ∷ [])
  item_entries ld (lua name value) = one (codes "script" ∷ codes "load" ∷ content value ∷ [])
  item_entries ld (key t name payload cmds) =
      map (tagged ld.now_db_id) cmds ++ time_entries ld.now_db_id (content name) ld.expire_ms
  item_entries ld _ = []

  module _ (clock : ℕ → ℤ) where
    -- The milliseconds from the reading of the clock to a time since 1970.
    abbrev until : ℕ → Loader → Loader
    until ms ld = record ld {
      expire_ms = left_of ms (clock ld.readings);
      readings = suc ld.readings;
    }

    -- The state behind a record: a time holds for the next key only.
    abbrev pub after_item : Loader → Item → Loader
    after_item ld (idle n) = record ld { idle = pos n }
    after_item ld (freq n) = record ld { freq = pos n }
    after_item ld (repl_stream_db name value n) = record ld { repl_stream_db_id = n }
    after_item ld (expire_ms ms) = until ms ld
    after_item ld (expire s) = until (s * 1000) ld
    after_item ld (select db) = record ld { now_db_id = pos db }
    after_item ld (key t name payload cmds) = record ld {
      expire_ms = pos 0;
      idle = pos 0;
      freq = pos 0;
    }
    after_item ld _ = ld

    abbrev pub items_entries : Loader → List Item → List Entry
    items_entries ld [] = []
    items_entries ld (i ∷ is) = item_entries ld i ++ items_entries (after_item ld i) is

    abbrev pub after_items : Loader → List Item → Loader
    after_items ld [] = ld
    after_items ld (i ∷ is) = after_items (after_item ld i) is
