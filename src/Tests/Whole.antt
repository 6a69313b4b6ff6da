-- ===== src/Tests/Whole.antt =====
-- A whole file: internal/rdb/rdb.go with internal/rdb/types.
use rdb_elasticache_migrator.Prelude.{
  ℕ, ◌≡◌, refl, false, List, [], ◌∷◌, ◌++◌, map, length, codes, arith, inl, inr,
}
use rdb_elasticache_migrator.Prelude.Int.{pos}
use rdb_elasticache_migrator.Runtime.{Bytes, ok}
use rdb_elasticache_migrator.Runtime.Strconv.{parse_int}
use rdb_elasticache_migrator.Runtime.Strings.{equal}
use rdb_elasticache_migrator.Runtime.Emit.{Emit, Each}
use rdb_elasticache_migrator.Rdb.Structure.Listpack
use rdb_elasticache_migrator.Rdb.Structure.Listpack.RoundTrip.{listpack}
use rdb_elasticache_migrator.Rdb.Structure.Strings.RoundTrip.{Stored, plain, content}
use rdb_elasticache_migrator.Rdb.Types.Stream.Saved.StreamType.{listpacks_3}
use rdb_elasticache_migrator.Rdb.Types.Object.{rewrite_object}
use rdb_elasticache_migrator.Rdb.Types.Object.Value.{Value}
use rdb_elasticache_migrator.Rdb.Types.Object.Value.Value.{list, zset, hash, stream, tair_hash}
use rdb_elasticache_migrator.Rdb.Loader.RoundTrip.{left_of, between}
use rdb_elasticache_migrator.Rdb.Loader.Items.Field.{signed_int, string}
use rdb_elasticache_migrator.Rdb.Loader.Items.Item.{
  slot_info, function, module_aux, idle, freq, repl_stream_db, lua, other_aux, resize_db, expire_ms,
  expire, select,
}
use rdb_elasticache_migrator.Rdb.Loader.Items.{save_items, items_entries}
use rdb_elasticache_migrator.Rdb.Loader.File.{parse_rdb}
use rdb_elasticache_migrator.Rdb.Loader.Whole.Part.{mark, key}
use rdb_elasticache_migrator.Rdb.Loader.Whole.{Part, IsPart, as_item, parse_rdb-parts}
use rdb_elasticache_migrator.Tests.Types.{texts, a_list, a_zset, a_hash}
use rdb_elasticache_migrator.Tests.Streams.{a_stream, a_stream-IsSavedStream, fields}

abbrev rewrite : ℕ → Bytes → Emit
rewrite = rewrite_object texts (λ t. t) (λ t. t) (λ n t. n) length (pos 0)

-- Two databases with keys of most types, behind auxiliary fields and marks of every kind.
abbrev front : List (Part texts)
front =
    mark (other_aux (plain (codes "redis-ver")) (plain (codes "7.2")))
    ∷ mark (repl_stream_db (plain (codes "repl-stream-db")) (plain (codes "2")) (pos 2))
    ∷ mark (lua (plain (codes "lua")) (plain (codes "return 1")))
    ∷ mark (module_aux 7 2 1 (signed_int 5 ∷ string (plain (codes "s")) ∷ []))
    ∷ mark (function (plain (codes "code")))
    ∷ mark (slot_info 1 2 3)
    ∷ mark (select 3)
    ∷ mark (resize_db 3 1)
    ∷ mark (expire_ms 5000)
    ∷ []

abbrev k : Stored
k = plain (codes "k")

abbrev first_keys : List (Part texts)
first_keys =
    key k (Value.string (plain (codes "v")))
    ∷ mark (idle 70)
    ∷ key k (list a_list)
    ∷ mark (freq 5)
    ∷ key k (zset a_zset)
    ∷ []

abbrev second_keys : List (Part texts)
second_keys =
    mark (select 0)
    ∷ key k (hash a_hash)
    ∷ key k (stream 21 listpacks_3 a_stream)
    ∷ mark (expire 9)
    ∷ key k (tair_hash 1 k fields)
    ∷ []

abbrev Fits : List (Part texts) → Type 0
Fits = Each (IsPart texts (λ t. t) (λ t. t) (λ n t. n) length (pos 0) (λ i. pos 4000))

front-Fits : (ps : List (Part texts)) → Fits ps → Fits (front ++ ps)
unfolding parse_int equal content
front-Fits ps h = (
  (omega arith, omega arith, refl, refl),
  (
    (omega arith, omega arith, refl, refl),
    (
      (omega arith, omega arith, refl),
      (
        (omega arith, omega arith, omega arith, (omega arith, (omega arith, tt))),
        (
          omega arith,
          (
            (omega arith, omega arith, omega arith),
            (omega arith, ((omega arith, omega arith), (omega arith, h))),
          ),
        ),
      ),
    ),
  ),
)

first_keys-Fits : (ps : List (Part texts)) → Fits ps → Fits (first_keys ++ ps)
unfolding listpack Listpack.Entry.encode_entries Listpack.Entry.encode_entry Listpack.Entry.payload
    Listpack.Entry.backlen content
first_keys-Fits ps h = (
  (omega arith, omega arith),
  (
    omega arith,
    (
      (
        omega arith,
        ((omega arith, ((omega arith, omega arith, omega arith, refl), tt)), omega arith),
      ),
      (
        tt,
        (
          (
            omega arith,
            (((omega arith, (omega arith, refl)), ((omega arith, tt), tt)), omega arith),
          ),
          h,
        ),
      ),
    ),
  ),
)

second_keys-Fits : Fits second_keys
second_keys-Fits = (
  omega arith,
  (
    (
      omega arith,
      (
        (
          (omega arith, omega arith, omega arith, inr (omega arith)),
          ((omega arith, omega arith, omega arith, inl refl), tt),
        ),
        omega arith,
        omega arith,
      ),
    ),
    (
      (omega arith, a_stream-IsSavedStream),
      (
        omega arith,
        (
          (
            omega arith,
            (
              omega arith,
              omega arith,
              (
                (omega arith, omega arith, omega arith, omega arith),
                ((omega arith, omega arith, omega arith, omega arith), tt),
              ),
              omega arith,
            ),
          ),
          tt,
        ),
      ),
    ),
  ),
)

abbrev parts : List (Part texts)
parts = front ++ (first_keys ++ second_keys)

parse_rdb-parts_example :
    parse_rdb texts
      (λ i. pos 4000)
      rewrite
      (λ n. false)
      20
      (between (pos 0) (pos 0) 0)
      ((codes "REDIS" ++ codes "0011") ++ save_items texts (map (as_item texts) parts) (255 ∷ []))
    ≡ record {
      sent =
          items_entries texts
            (λ i. pos 4000)
            (between (pos 0) (pos 0) 0)
            (map (as_item texts) parts);
      outcome = ok (between (pos 2) (pos 0) 2);
    }
unfolding parse_int left_of
parse_rdb-parts_example =
    parse_rdb-parts texts (λ t. t) (λ t. t) (λ n t. n) length (pos 0) (λ i. pos 4000) (λ n. false)
      (codes "0011") (pos 11) (between (pos 0) (pos 0) 0) 0 parts [] (λ n. refl) (λ i. omega arith)
      refl refl
      (front-Fits (first_keys ++ second_keys) (first_keys-Fits second_keys second_keys-Fits))
