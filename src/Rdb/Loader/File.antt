-- ===== src/Rdb/Loader/File.antt =====
-- `ParseRDB` of internal/rdb/rdb.go: the header of the file in front of its entries. Opening and closing the
-- file is left out.
use rdb_elasticache_migrator.Prelude.{
  ℕ, suc, ◌+◌, ◌≡◌, ap, Bool, false, Option, none, some, List, [], ◌∷◌, ◌++◌, take, drop, codes,
  if◌then◌else◌, length,
}
use rdb_elasticache_migrator.Prelude.Int.{ℤ}
use rdb_elasticache_migrator.Runtime.{
  Bytes, Result, ok, panic, Fault, bad_number, bad_end, read_full, read_full-append,
}
use rdb_elasticache_migrator.Runtime.Strconv.{parse_int}
use rdb_elasticache_migrator.Runtime.Strings.{equal}
use rdb_elasticache_migrator.Runtime.Emit.{Emit, Each}
use rdb_elasticache_migrator.Rdb.Structure.Float.{Floats}
use rdb_elasticache_migrator.Rdb.Loader.{Loader, Loaded, parse_rdb_entry}
use rdb_elasticache_migrator.Rdb.Loader.RoundTrip.{IsClock}
use rdb_elasticache_migrator.Rdb.Loader.Items.{Item, save_items, items_entries, after_items}
use rdb_elasticache_migrator.Rdb.Loader.Rounds.{IsItem, parse_rdb_entry-save_items}

module _ (F : Floats) (clock : ℕ → ℤ) (rewrite : ℕ → Bytes → Emit) (cancelled : ℕ → Bool) where
  abbrev ended : Fault → Loaded F clock rewrite
  ended e = record { sent = []; outcome = panic e }

  abbrev with_version : Option ℤ → Loaded F clock rewrite → Loaded F clock rewrite
  with_version none run = ended bad_number
  with_version (some version) run = run

  abbrev behind_header :
      Result (Bytes × Bytes) → (Bytes → Loaded F clock rewrite) → Loaded F clock rewrite
  behind_header (panic e) run = ended e
  behind_header (ok (buf, rest)) run =
      let read = with_version (parse_int (drop 5 buf)) (run rest) in
      if equal (take 5 buf) (codes "REDIS") then read else ended bad_end

  -- The fuel is that of the loop over the entries; `repl_stream_db_id` of the last state is returned.
  unfoldable pub parse_rdb : ℕ → Loader → Bytes → Loaded F clock rewrite
  unfolding read_full parse_rdb_entry
  parse_rdb fuel ld bs =
      behind_header (read_full 9 bs) (parse_rdb_entry F clock rewrite cancelled fuel ld)

  header_read :
      (version : Bytes) (rest : Bytes)
      → length version ≡ 4
      → read_full 9 ((codes "REDIS" ++ version) ++ rest) ≡ ok (codes "REDIS" ++ version, rest)
  header_read version rest h =
      read_full-append (codes "REDIS" ++ version) rest 9 (ap (λ n. suc (suc (suc (suc (suc n))))) h)

  module _ (never : (n : ℕ) → cancelled n ≡ false) (sane : (i : ℕ) → IsClock (clock i)) where
    -- A file with the header of Redis, a version of four digits, its records and the end mark is read to the
    -- end: what is sent, and the state at the end, are those of the records.
    pub parse_rdb-save_items :
        (version : Bytes) (v : ℤ) (ld : Loader) (n : ℕ) (is : List (Item F)) (rest : Bytes)
        → length version ≡ 4
        → parse_int version ≡ some v
        → Each (IsItem F clock rewrite) is
        → parse_rdb
            (length is + suc n)
            ld
            ((codes "REDIS" ++ version) ++ save_items F is (255 ∷ rest))
          ≡ record { sent = items_entries F clock ld is; outcome = ok (after_items F clock ld is) }
    unfolding parse_rdb
    parse_rdb-save_items version v ld n is rest four digits all =
        rw (header_read version (save_items F is (255 ∷ rest)) four, digits)
          (parse_rdb_entry-save_items F clock rewrite sane cancelled never ld n is rest all)
