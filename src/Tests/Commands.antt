-- ===== src/Tests/Commands.antt =====
-- internal/commands and internal/filter.
use rdb_elasticache_migrator.Prelude.{
  ◌%◌, ◌≡◌, refl, false, ◌&&◌, Option, none, some, List, [], ◌∷◌, map, arith, codes, if◌then◌else◌,
  inl, inr,
}
use rdb_elasticache_migrator.Prelude.Int.{pos, negsuc}
use rdb_elasticache_migrator.Runtime.{Bytes, ok}
use rdb_elasticache_migrator.Runtime.Strings.{equal, nothing, also}
use rdb_elasticache_migrator.Commands.Slots.{crc16, key_hash, find_hash_tag}
use rdb_elasticache_migrator.Commands.Slots.Tags.{tagged, key_hash-HashPart}
use rdb_elasticache_migrator.Commands.Keys.{
  RedisCommand, Calculated, calc_keys, all_specs, begin_search, find_keys,
}
use rdb_elasticache_migrator.Commands.Keys.Located.{Located, calc_keys-Located}
use rdb_elasticache_migrator.Filter.{FilterOptions, Entry, filter, new_keys_pattern}
use rdb_elasticache_migrator.Filter.Verdict.{Gives, all_pass, entry_passes, filter-Passes}

-- The keys of `TestKeyHash`.
key_hash_run : key_hash (codes "abcdefghi{same}abcdefghi") ≡ 13447
unfolding key_hash crc16 find_hash_tag
key_hash_run = refl

key_hash_abcde : key_hash (codes "abcde") ≡ 16097
unfolding key_hash crc16 find_hash_tag
key_hash_abcde = refl

key_hash-HashPart_example : key_hash (codes "u{id}v") ≡ crc16 (codes "id") % 16384
key_hash-HashPart_example = key_hash-HashPart (codes "u{id}v") (codes "id") (
    tagged {before = codes "u"} {tag = codes "d"} (codes "v") (also (omega arith) nothing)
      (also (omega arith) (also (omega arith) nothing)))

-- The entry of MSET in table.go.
abbrev mset : RedisCommand
mset = record {
  group = codes "STRING";
  key_spec =
      record {
        begin_search_type = codes "index";
        begin_search_index = pos 1;
        begin_search_keyword = [];
        begin_search_start_from = pos 0;
        find_keys_type = codes "range";
        find_keys_range_last_key = negsuc 0;
        find_keys_range_key_step = pos 2;
        find_keys_range_limit = pos 0;
        find_keys_keynum_index = pos 0;
        find_keys_keynum_first_key = pos 0;
        find_keys_keynum_key_step = pos 0;
      }
      ∷ [];
}

abbrev table : Bytes → Option RedisCommand
table name = if equal name (codes "MSET") then some mset else none

abbrev arguments : List Bytes
arguments = map codes ("MSET" ∷ "key1" ∷ "value1" ∷ "key2" ∷ "value2" ∷ [])

abbrev calculated : Calculated
calculated = record {
  cma_name = codes "MSET";
  group = codes "STRING";
  found = record { keys = codes "key1" ∷ codes "key2" ∷ []; keys_indexes = pos 2 ∷ pos 4 ∷ [] };
}

calc_keys_run : calc_keys (λ s. s) (λ name. false) table arguments ≡ ok calculated
unfolding calc_keys equal all_specs begin_search find_keys
calc_keys_run = refl

calc_keys-Located_example : Located arguments calculated.found.keys calculated.found.keys_indexes
calc_keys-Located_example =
    calc_keys-Located (λ s. s) (λ name. false) table arguments calculated calc_keys_run

-- A pattern is a text that matches itself.
abbrev options : FilterOptions
options = record {
  allow_keys = [];
  allow_key_prefix = codes "user" ∷ [];
  allow_key_suffix = [];
  block_keys = [];
  block_key_prefix = [];
  block_key_suffix = [];
  allow_key_regex = [];
  block_key_regex = codes "user1" ∷ [];
  allow_db = pos 0 ∷ [];
  block_db = [];
  allow_command = [];
  block_command = codes "DEL" ∷ [];
  allow_command_group = [];
  block_command_group = [];
}

abbrev an_entry : Entry
an_entry = record {
  db_id = pos 0;
  cmd_name = codes "SET";
  group = codes "STRING";
  keys = codes "user2" ∷ [];
}

block_patterns :
    new_keys_pattern (λ s. s) (λ s. some s) equal options.block_key_regex
    ≡ some (codes "user1" ∷ [])
unfolding new_keys_pattern
block_patterns = refl

allow_patterns : new_keys_pattern (λ s. s) (λ s. some s) equal options.allow_key_regex ≡ some []
unfolding new_keys_pattern
allow_patterns = refl

filter-Passes_example :
    Gives
      (λ s. s)
      (λ s. some s)
      equal
      (codes "user1" ∷ [])
      []
      (filter
        (λ s. s)
        (λ s. some s)
        equal
        options
        an_entry
        (record { block_list = none; allow_list = none }))
      (all_pass (λ s. s) (λ s. some s) equal options (codes "user1" ∷ []) [] an_entry.keys
        && entry_passes options an_entry)
filter-Passes_example =
    filter-Passes (λ s. s) (λ s. some s) equal options block_patterns (inr allow_patterns) an_entry
      (record { block_list = none; allow_list = none }) (inl refl, inl refl)
