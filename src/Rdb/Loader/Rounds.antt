-- ===== src/Rdb/Loader/Rounds.antt =====
-- A round of the loop for each record of the file (internal/rdb/rdb.go).
use rdb_elasticache_migrator.Prelude.{
  suc_add, zero_add, none, ℕ, suc, ◌+◌, ◌*◌, ◌<◌, ◌≡◌, ◌^◌, refl, ap, ◌∙◌, arith, List, [], ◌∷◌,
  ◌++◌, length, Bool, false, some, codes,
}
use rdb_elasticache_migrator.Prelude.Int.{ℤ}
use rdb_elasticache_migrator.Runtime.{Bytes, ok}
use rdb_elasticache_migrator.Runtime.Words.{to_little, little_endian-to_little}
use rdb_elasticache_migrator.Runtime.Strconv.{parse_int}
use rdb_elasticache_migrator.Runtime.Strings.{equal}
use rdb_elasticache_migrator.Runtime.Emit.{Emit, Each}
use rdb_elasticache_migrator.Rdb.Structure.Float.{Floats}
use rdb_elasticache_migrator.Rdb.Structure.Int.{read_byte, read_uint32}
use rdb_elasticache_migrator.Rdb.Structure.Length.RoundTrip.{
  encode_length, read_length-encode_length,
}
use rdb_elasticache_migrator.Rdb.Structure.Strings.RoundTrip.{
  Stored, IsStored, save, content, read_string-save,
}
use rdb_elasticache_migrator.Rdb.Loader.{
  Loader, onward, aux_field, one_entry, round, parse_rdb_entry,
}
use rdb_elasticache_migrator.Rdb.Loader.RoundTrip.{
  IsClock, left_of-remaining, signed-pos, time_read, key_value, parse-onward, parse-finished,
  prefix,
}
use rdb_elasticache_migrator.Rdb.Loader.ModuleAux.{module_aux-save}
use rdb_elasticache_migrator.Rdb.Loader.Items.{
  IsField, Item, save_item, save_items, item_entries, after_item, items_entries, after_items,
}

module _ (F : Floats) (clock : ℕ → ℤ) (rewrite : ℕ → Bytes → Emit) where
  -- The records that the loader reads: all but the functions of old versions (246). A value is one that `rewrite`
  -- reads to its end.
  abbrev pub IsItem : Item F → Type 0
  IsItem (Item.slot_info a b c) = (a < 2 ^ 64) × (b < 2 ^ 64) × (c < 2 ^ 64)
  IsItem (Item.function code) = IsStored code
  IsItem (Item.module_aux a b c fs) =
      (a < 2 ^ 64) × (b < 2 ^ 64) × (c < 2 ^ 64) × Each (IsField F) fs
  IsItem (Item.idle n) = n < 2 ^ 63
  IsItem (Item.freq n) = Unit {0}
  IsItem (Item.repl_stream_db name value n) =
      IsStored name
      × IsStored value
      × (content name ≡ codes "repl-stream-db")
      × (parse_int (content value) ≡ some n)
  IsItem (Item.lua name value) = IsStored name × IsStored value × (content name ≡ codes "lua")
  IsItem (Item.other_aux name value) =
      IsStored name
      × IsStored value
      × (equal (content name) (codes "repl-stream-db") ≡ false)
      × (equal (content name) (codes "lua") ≡ false)
  IsItem (Item.resize_db a b) = (a < 2 ^ 64) × (b < 2 ^ 64)
  IsItem (Item.expire_ms ms) = ms < 2 ^ 63
  IsItem (Item.expire s) = s < 2 ^ 32
  IsItem (Item.select db) = db < 2 ^ 63
  IsItem (Item.key t name payload cmds) =
      (t < 244)
      × IsStored name
      × ((rest : Bytes)
          → rewrite t (content name) (payload ++ rest) ≡ record { sent = cmds; outcome = ok rest })

  aux_round :
      (ld : Loader) (name value : Stored) (rest : Bytes)
      → IsStored name
      → IsStored value
      → round F clock rewrite ld (250 ∷ (save name ++ (save value ++ rest)))
        ≡ aux_field (content name) (content value) ld rest
  unfolding round one_entry read_byte
  aux_round ld name value rest n v =
      rw (read_string-save name (save value ++ rest) n, read_string-save value rest v) refl

  -- Behind a record the state is that of the record, and its entries have been sent.
  abbrev AsMeant : Loader → Item F → Bytes → Type 0
  AsMeant ld i rest =
      round F clock rewrite ld (save_item F i rest)
      ≡ record { sent = item_entries F ld i; outcome = ok (onward (after_item F clock ld i) rest) }

  module _ (sane : (i : ℕ) → IsClock (clock i)) where
    time_in_seconds :
        (ld : Loader) (s : ℕ) (rest : Bytes) → s < 2 ^ 32 → AsMeant ld (Item.expire s) rest
    unfolding round one_entry read_byte read_uint32 to_little
    time_in_seconds ld s rest h =
        rw
          (
            little_endian-to_little 4 s (omega arith),
            left_of-remaining (s * 1000) (clock ld.readings) (omega arith) (sane ld.readings),
          )
          refl

    round-AsMeant : (ld : Loader) (i : Item F) (rest : Bytes) → IsItem i → AsMeant ld i rest
    unfolding round one_entry read_byte aux_field equal
    round-AsMeant ld (Item.slot_info a b c) rest (p, q, r) =
        rw
          (
            read_length-encode_length a (encode_length b ++ (encode_length c ++ rest)) p,
            read_length-encode_length b (encode_length c ++ rest) q,
            read_length-encode_length c rest r,
          )
          refl
    round-AsMeant ld (Item.function code) rest h = rw (read_string-save code rest h) refl
    round-AsMeant ld (Item.module_aux a b c fs) rest (p, q, r, h) =
        rw (module_aux-save F a b c fs rest p q r h) refl
    round-AsMeant ld (Item.idle n) rest h =
        rw (read_length-encode_length n rest (omega arith), signed-pos n h) refl
    round-AsMeant ld (Item.freq n) rest h = refl
    round-AsMeant ld (Item.repl_stream_db name value n) rest (a, b, e, v) =
        aux_round ld name value rest a b ∙ rw (e, v) refl
    round-AsMeant ld (Item.lua name value) rest (a, b, e) =
        aux_round ld name value rest a b ∙ rw (e) refl
    round-AsMeant ld (Item.other_aux name value) rest (a, b, e, f) =
        aux_round ld name value rest a b ∙ rw (e, f) refl
    round-AsMeant ld (Item.resize_db a b) rest (p, q) =
        rw
          (
            read_length-encode_length a (encode_length b ++ rest) p,
            read_length-encode_length b rest q,
          )
          refl
    round-AsMeant ld (Item.expire_ms ms) rest h =
        time_read F clock rewrite ld ms rest h
        ∙ rw (left_of-remaining ms (clock ld.readings) h (sane ld.readings)) refl
    round-AsMeant ld (Item.expire s) rest h = time_in_seconds ld s rest h
    round-AsMeant ld (Item.select db) rest h =
        rw (read_length-encode_length db rest (omega arith), signed-pos db h) refl
    round-AsMeant ld (Item.key t name payload cmds) rest (few, n, v) =
        key_value F clock rewrite
          (record { expire = none; type_byte = t; key = name; payload = payload; commands = cmds })
          ld rest (few, n, tt, v)

    module _ (cancelled : ℕ → Bool) (never : (n : ℕ) → cancelled n ≡ false) where
      -- The records of a file, behind its header and in any order, and its end mark are read with one round for
      -- each: what is sent, and the state at the end, are those of the records.
      pub parse_rdb_entry-save_items :
          (ld : Loader) (n : ℕ) (is : List (Item F)) (rest : Bytes)
          → Each IsItem is
          → parse_rdb_entry F clock rewrite cancelled
              (length is + suc n)
              ld
              (save_items F is (255 ∷ rest))
            ≡ record {
              sent = items_entries F clock ld is;
              outcome = ok (after_items F clock ld is);
            }
      parse_rdb_entry-save_items ld n [] rest h =
          rw (zero_add (suc n)) (parse-finished F clock rewrite cancelled never sane n ld rest)
      parse_rdb_entry-save_items ld n (i ∷ is) rest (h, hs) = rw (suc_add (length is) (suc n)) (
          parse-onward F clock rewrite cancelled never sane (length is + suc n) ld _
            (item_entries F ld i) (after_item F clock ld i) (save_items F is (255 ∷ rest))
            (round-AsMeant ld i (save_items F is (255 ∷ rest)) h)
          ∙ ap (prefix F clock rewrite cancelled never sane (item_entries F ld i))
              (parse_rdb_entry-save_items (after_item F clock ld i) n is rest hs))
