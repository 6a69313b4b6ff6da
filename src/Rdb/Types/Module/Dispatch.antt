-- ===== src/Rdb/Types/Module/Dispatch.antt =====
-- The values of the modules behind their ids (internal/rdb/types/module2.go).
use rdb_elasticache_migrator.Prelude.{
  ℕ, ◌^◌, ◌<◌, ◌≡◌, refl, arith, List, [], ◌∷◌, ◌++◌, map, length, flat_map, codes,
}
use rdb_elasticache_migrator.Prelude.Int.{ℤ}
use rdb_elasticache_migrator.Runtime.{Bytes, ok}
use rdb_elasticache_migrator.Runtime.Strconv.{format_uint}
use rdb_elasticache_migrator.Runtime.Emit.{Each}
use rdb_elasticache_migrator.Rdb.Structure.Float.{Floats}
use rdb_elasticache_migrator.Rdb.Structure.Length.RoundTrip.{
  encode_length, read_length-encode_length,
}
use rdb_elasticache_migrator.Rdb.Structure.Strings.RoundTrip.{Stored, IsStored, content}
use rdb_elasticache_migrator.Rdb.Types.Module.{rewrite_named, char_of, rewrite_module}
use rdb_elasticache_migrator.Rdb.Types.Module.Name.{encode_id, module_type_name_by_id-encode_id}
use rdb_elasticache_migrator.Rdb.Types.Tair.{exset}
use rdb_elasticache_migrator.Rdb.Types.Tair.RoundTrip.{
  Field, IsField, field_command, save_tair_hash, rewrite_tair_hash-save, TairString, IsTairString,
  save_tair_string, rewrite_tair_string-save,
}

-- The characters of `exstrtype` and of `tairhash-`.
abbrev pub exstrtype : List ℕ
exstrtype = 30 ∷ 49 ∷ 44 ∷ 45 ∷ 43 ∷ 45 ∷ 50 ∷ 41 ∷ 30 ∷ []

abbrev pub tairhash : List ℕ
tairhash = 45 ∷ 26 ∷ 34 ∷ 43 ∷ 33 ∷ 26 ∷ 44 ∷ 33 ∷ 62 ∷ []

exstrtype_places : Each (λ p. p < 64) exstrtype
exstrtype_places = (
  omega arith,
  (
    omega arith,
    (
      omega arith,
      (omega arith, (omega arith, (omega arith, (omega arith, (omega arith, (omega arith, tt)))))),
    ),
  ),
)

tairhash_places : Each (λ p. p < 64) tairhash
tairhash_places = (
  omega arith,
  (
    omega arith,
    (
      omega arith,
      (omega arith, (omega arith, (omega arith, (omega arith, (omega arith, (omega arith, tt)))))),
    ),
  ),
)

module _ (F : Floats) (format_f format_15f : F.Float64 → Bytes) (bits_of : ℕ → F.Float64 → ℕ)
    (to_bits : F.Float64 → ℕ) (ver : ℤ) where
  -- The value of a hash of Tair, once its name is known.
  named_tair_hash :
      (key : Bytes) (module_id : ℕ) (name : Stored) (fs : List Field) (rest : Bytes)
      → IsStored name
      → Each IsField fs
      → length fs < 2 ^ 63
      → rewrite_named F format_f format_15f bits_of to_bits ver key module_id
          (map char_of tairhash)
          (save_tair_hash name fs ++ rest)
        ≡ record {
          sent =
              (codes "del" ∷ content name ∷ [])
              ∷ flat_map (λ f. field_command (content name) f ∷ []) fs;
          outcome = ok rest;
        }
  unfolding rewrite_named
  named_tair_hash key module_id name fs rest n all few =
      rewrite_tair_hash-save name fs rest n all few

  -- A hash of Tair behind the id of its module, whatever version the id has: a `del` of the key that stands in
  -- the value and one EXHSET for each field, with its version and its time where it has one.
  pub rewrite_module-tair_hash :
      (key : Bytes) (version : ℕ) (name : Stored) (fs : List Field) (rest : Bytes)
      → version < 1024
      → IsStored name
      → Each IsField fs
      → length fs < 2 ^ 63
      → rewrite_module F format_f format_15f bits_of to_bits ver 7 key
          (encode_length (encode_id tairhash version) ++ (save_tair_hash name fs ++ rest))
        ≡ record {
          sent =
              (codes "del" ∷ content name ∷ [])
              ∷ flat_map (λ f. field_command (content name) f ∷ []) fs;
          outcome = ok rest;
        }
  unfolding rewrite_module
  rewrite_module-tair_hash key version name fs rest v n all few =
      rw
        (
          read_length-encode_length (encode_id tairhash version) (save_tair_hash name fs ++ rest)
              (omega arith),
          (module_type_name_by_id-encode_id tairhash version refl tairhash_places v).0,
        )
        (named_tair_hash key (encode_id tairhash version) name fs rest n all few)

  named_tair_string :
      (key : Bytes) (module_id : ℕ) (v : TairString) (rest : Bytes)
      → IsTairString v
      → rewrite_named F format_f format_15f bits_of to_bits ver key module_id
          (map char_of exstrtype)
          (save_tair_string v ++ rest)
        ≡ record {
          sent = exset key (content v.value) (format_uint v.version) (format_uint v.flags) ∷ [];
          outcome = ok rest;
        }
  unfolding rewrite_named
  named_tair_string key module_id v rest h = rewrite_tair_string-save key v rest h

  -- A string of Tair behind the id of its module is written again with its version and its flags.
  pub rewrite_module-tair_string :
      (key : Bytes) (version : ℕ) (v : TairString) (rest : Bytes)
      → version < 1024
      → IsTairString v
      → rewrite_module F format_f format_15f bits_of to_bits ver 7 key
          (encode_length (encode_id exstrtype version) ++ (save_tair_string v ++ rest))
        ≡ record {
          sent = exset key (content v.value) (format_uint v.version) (format_uint v.flags) ∷ [];
          outcome = ok rest;
        }
  unfolding rewrite_module
  rewrite_module-tair_string key version v rest h s =
      rw
        (
          read_length-encode_length (encode_id exstrtype version) (save_tair_string v ++ rest)
              (omega arith),
          (module_type_name_by_id-encode_id exstrtype version refl exstrtype_places h).0,
        )
        (named_tair_string key (encode_id exstrtype version) v rest s)
