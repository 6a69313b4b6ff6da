-- ===== src/Tests/Types.antt =====
-- internal/rdb/types and internal/rdb/rdb.go.
use rdb_elasticache_migrator.Prelude.{
  length, ℕ, ◌≡◌, refl, false, some, List, [], ◌∷◌, ◌++◌, map, arith, codes, inl, inr,
}
use rdb_elasticache_migrator.Prelude.Int.{pos}
use rdb_elasticache_migrator.Runtime.{Bytes, ok}
use rdb_elasticache_migrator.Runtime.Emit.{Emit}
use rdb_elasticache_migrator.Rdb.Structure.Float.{Floats}
use rdb_elasticache_migrator.Rdb.Structure.Strings.RoundTrip.{plain, int8, save, content}
use rdb_elasticache_migrator.Runtime.Strconv.{format_int}
use rdb_elasticache_migrator.Rdb.Structure.Listpack
use rdb_elasticache_migrator.Rdb.Structure.Listpack.RoundTrip.{listpack}
use rdb_elasticache_migrator.Rdb.Types.Saved.{PackNode}
use rdb_elasticache_migrator.Rdb.Types.List.{rewrite_list}
use rdb_elasticache_migrator.Rdb.Types.List
use rdb_elasticache_migrator.Rdb.Types.List.RoundTrip.{rewrite_list-save}
use rdb_elasticache_migrator.Rdb.Types.Set.{rewrite_string, rewrite_set}
use rdb_elasticache_migrator.Rdb.Types.Set
use rdb_elasticache_migrator.Rdb.Types.Set.RoundTrip.{rewrite_string-save, rewrite_set-save}
use rdb_elasticache_migrator.Rdb.Types.Zset
use rdb_elasticache_migrator.Rdb.Types.Zset.{rewrite_zset}
use rdb_elasticache_migrator.Rdb.Types.Zset.RoundTrip.{rewrite_zset-save}
use rdb_elasticache_migrator.Rdb.Types.Hash
use rdb_elasticache_migrator.Rdb.Types.Hash.{rewrite_hash}
use rdb_elasticache_migrator.Rdb.Types.Hash.RoundTrip.{rewrite_hash-save}
use rdb_elasticache_migrator.Rdb.Types.Object.{rewrite_object}
use rdb_elasticache_migrator.Rdb.Loader.{parse_rdb_entry}
use rdb_elasticache_migrator.Rdb.Loader.RoundTrip.{
  Record, between, save_record, parse_rdb_entry-expires_now,
}

abbrev pub key : Bytes
key = codes "k"

abbrev entries : List Listpack.Entry.Entry
entries = Listpack.Entry.str6 (codes "a") ∷ Listpack.Entry.uint7 5 ∷ []

abbrev node : PackNode
node = record { text = plain (listpack 12 2 entries); bytes = 12; entries = entries }

abbrev pub a_list : List.RoundTrip.SavedList
a_list =
    List.RoundTrip.quicklist_2
      (List.RoundTrip.plain (plain (codes "x")) ∷ List.RoundTrip.packed node ∷ [])

rewrite_list-save_example :
    rewrite_list key 18 (List.RoundTrip.save_list a_list ++ 7 ∷ []) ≡ record {
      sent = (codes "del" ∷ key ∷ []) ∷ map (List.rpush key) (List.RoundTrip.elements a_list);
      outcome = ok (7 ∷ []);
    }
unfolding listpack Listpack.Entry.encode_entries Listpack.Entry.encode_entry Listpack.Entry.payload
    Listpack.Entry.backlen content
rewrite_list-save_example =
    rewrite_list-save key a_list (7 ∷ [])
      ((omega arith, ((omega arith, omega arith, omega arith, refl), tt)), omega arith)

rewrite_set-save_example : rewrite_set key 20 (save node.text ++ 7 ∷ []) ≡ record {
  sent = (codes "del" ∷ key ∷ []) ∷ map (Set.sadd key) (codes "a" ∷ codes "5" ∷ []);
  outcome = ok (7 ∷ []);
}
unfolding listpack Listpack.Entry.encode_entries Listpack.Entry.encode_entry Listpack.Entry.payload
    Listpack.Entry.backlen content Listpack.Entry.render format_int
rewrite_set-save_example =
    rewrite_set-save key (Set.RoundTrip.one_listpack node) (7 ∷ [])
      (omega arith, omega arith, omega arith, refl)

-- A field with a time and one without.
abbrev pairs : List Hash.RoundTrip.StoredPair
pairs =
    record { field = plain (codes "f"); value = plain (codes "v"); time = 1700000000000 }
    ∷ record { field = plain (codes "g"); value = plain (codes "w"); time = 0 }
    ∷ []

abbrev pub a_hash : Hash.RoundTrip.SavedHash
a_hash = Hash.RoundTrip.metadata 1600000000000 pairs

rewrite_hash-save_example :
    rewrite_hash key 24 (Hash.RoundTrip.save_hash a_hash ++ 7 ∷ []) ≡ record {
      sent = (codes "del" ∷ key ∷ []) ∷ Hash.RoundTrip.commands key a_hash;
      outcome = ok (7 ∷ []);
    }
rewrite_hash-save_example = rewrite_hash-save key a_hash (7 ∷ []) (
  (
    (omega arith, omega arith, omega arith, inr (omega arith)),
    ((omega arith, omega arith, omega arith, inl refl), tt),
  ),
  omega arith,
  omega arith,
)

-- Texts as floats.
abbrev pub texts : Floats
texts = record {
  Float64 = Bytes;
  nan = codes "nan";
  positive_inf = codes "inf";
  negative_inf = codes "-inf";
  zero_float = codes "0";
  parse_float = λ s. some s;
  from_bits = λ n. n ∷ [];
  format_17g = λ s. s;
}

abbrev pub a_zset : Zset.RoundTrip.SavedZset texts
a_zset = Zset.RoundTrip.zset (
    record { member = plain (codes "m"); score = Zset.RoundTrip.text (codes "1.5") (codes "1.5") }
    ∷ record { member = int8 (pos 3); score = Zset.RoundTrip.negative_inf }
    ∷ [])

rewrite_zset-save_example :
    rewrite_zset texts key 3 (Zset.RoundTrip.save_zset texts a_zset ++ 7 ∷ []) ≡ record {
      sent = (codes "del" ∷ key ∷ []) ∷ Zset.RoundTrip.commands texts key a_zset;
      outcome = ok (7 ∷ []);
    }
rewrite_zset-save_example =
    rewrite_zset-save texts key a_zset (7 ∷ [])
      (((omega arith, (omega arith, refl)), ((omega arith, tt), tt)), omega arith)

-- The values of a file that has strings only.
abbrev rewrite : ℕ → Bytes → Emit
rewrite = rewrite_object texts (λ t. t) (λ t. t) (λ n t. n) length (pos 0)

abbrev a_record : Record
a_record = record {
  expire = some 5000;
  type_byte = 0;
  key = plain key;
  payload = save (plain (codes "v"));
  commands = (codes "set" ∷ key ∷ codes "v" ∷ []) ∷ [];
}

a_record-read :
    (rest : Bytes)
    → rewrite 0 (content (plain key)) (save (plain (codes "v")) ++ rest)
      ≡ record { sent = (codes "set" ∷ key ∷ codes "v" ∷ []) ∷ []; outcome = ok rest }
unfolding rewrite_object content
a_record-read rest = rewrite_string-save key (plain (codes "v")) rest (omega arith)

parse_rdb_entry-expires_now_example :
    parse_rdb_entry texts
      (λ i. pos 5000)
      rewrite
      (λ n. false)
      3
      (between (pos 0) (pos 0) 0)
      (save_record a_record (255 ∷ []))
    ≡ record {
      sent = record { db_id = pos 0; argv = codes "set" ∷ key ∷ codes "v" ∷ [] } ∷ [];
      outcome = ok (between (pos 0) (pos 0) 1);
    }
parse_rdb_entry-expires_now_example =
    parse_rdb_entry-expires_now texts (λ i. pos 5000) rewrite (λ n. false) (λ n. refl)
      (λ i. omega arith) (pos 0) (pos 0) 0 0 5000 a_record []
      (omega arith, omega arith, omega arith, a_record-read) refl refl
