-- ===== src/Rdb/Loader/ModuleAux.antt =====
-- The auxiliary data of a module is passed over as a whole (internal/rdb/rdb.go).
use rdb_elasticache_migrator.Prelude.{
  ℕ, zero, suc, ◌<◌, ◌≤◌, ◌≡◌, ◌^◌, refl, arith, List, [], ◌∷◌, ◌++◌, length, length-append, ◌==◌,
  false,
}
use rdb_elasticache_migrator.Runtime.{Bytes, Read, ok, ◌>>=◌}
use rdb_elasticache_migrator.Runtime.Emit.{Each}
use rdb_elasticache_migrator.Rdb.Structure.Float.{Floats}
use rdb_elasticache_migrator.Rdb.Structure.Length.{read_length}
use rdb_elasticache_migrator.Rdb.Structure.Length.RoundTrip.{
  encode_length, read_length-encode_length,
}
use rdb_elasticache_migrator.Rdb.Structure.Strings.RoundTrip.{read_string-save}
use rdb_elasticache_migrator.Rdb.Types.Zset.RoundTrip.{read_float-save_float, double-read}
use rdb_elasticache_migrator.Rdb.Loader.{module_field, module_fields, module_aux}
use rdb_elasticache_migrator.Rdb.Loader.Items.{Field, IsField, opcode, save_field, save_fields}

module _ (F : Floats) where
  module_field-save :
      (f : Field F) (rest : Bytes)
      → IsField F f
      → module_field F (opcode F f) (save_field F f ++ rest) ≡ ok (tt, rest)
  unfolding module_field
  module_field-save (Field.signed_int n) rest h = rw (read_length-encode_length n rest h) refl
  module_field-save (Field.unsigned_int n) rest h = rw (read_length-encode_length n rest h) refl
  module_field-save (Field.float f) rest h = rw (read_float-save_float F f rest h) refl
  module_field-save (Field.double bits) rest h = rw (double-read F bits rest h) refl
  module_field-save (Field.string s) rest h = rw (read_string-save s rest h) refl

  opcode-lt : (f : Field F) → opcode F f < 2 ^ 64
  opcode-lt (Field.signed_int n) = omega arith
  opcode-lt (Field.unsigned_int n) = omega arith
  opcode-lt (Field.float f) = omega arith
  opcode-lt (Field.double bits) = omega arith
  opcode-lt (Field.string s) = omega arith

  abbrev next_opcode : ℕ → Read (Unit {0})
  next_opcode fuel = read_length >>= module_fields F fuel

  module_fields-save :
      (fuel : ℕ) (fs : List (Field F)) (rest : Bytes)
      → length fs < fuel
      → Each (IsField F) fs
      → next_opcode fuel (save_fields F fs rest) ≡ ok (tt, rest)
  unfolding module_fields
  module_fields-save zero fs rest few h = absurd (omega arith)
  module_fields-save (suc fuel) [] rest few h =
      rw (read_length-encode_length 0 rest (omega arith)) refl
  module_fields-save (suc fuel) (f ∷ fs) rest few (h, hs) =
      rw
        (
          read_length-encode_length (opcode F f) (save_field F f ++ save_fields F fs rest)
              (opcode-lt f),
          another f,
          module_field-save f (save_fields F fs rest) h,
        )
        (module_fields-save fuel fs rest (omega arith) hs)
    where
      another : (f : Field F) → (opcode F f == 0) ≡ false
      another (Field.signed_int n) = refl
      another (Field.unsigned_int n) = refl
      another (Field.float f) = refl
      another (Field.double bits) = refl
      another (Field.string s) = refl

  byte_at_least : (n : ℕ) → 0 < length (encode_length n)
  unfolding encode_length
  byte_at_least n = ground arith

  length-save_fields :
      (fs : List (Field F)) (rest : Bytes) → length fs ≤ length (save_fields F fs rest)
  length-save_fields [] rest = omega arith
  length-save_fields (f ∷ fs) rest = omega (
    arith,
    length-save_fields fs rest,
    byte_at_least (opcode F f),
    length-append {0} (encode_length (opcode F f)) (save_field F f ++ save_fields F fs rest),
    length-append {0} (save_field F f) (save_fields F fs rest),
  )

  pub module_aux-save :
      (a b c : ℕ) (fs : List (Field F)) (rest : Bytes)
      → a < 2 ^ 64
      → b < 2 ^ 64
      → c < 2 ^ 64
      → Each (IsField F) fs
      → module_aux F
          (encode_length a ++ (encode_length b ++ (encode_length c ++ save_fields F fs rest)))
        ≡ ok (tt, rest)
  unfolding module_aux
  module_aux-save a b c fs rest p q r h =
      let tail = save_fields F fs rest in
      let all = encode_length a ++ (encode_length b ++ (encode_length c ++ tail)) in
      rw
        (
          read_length-encode_length a (encode_length b ++ (encode_length c ++ tail)) p,
          read_length-encode_length b (encode_length c ++ tail) q,
          read_length-encode_length c tail r,
        )
        (module_fields-save (suc (length all)) fs rest
          (omega (
            arith,
            length-save_fields fs rest,
            length-append {0} (encode_length a) (encode_length b ++ (encode_length c ++ tail)),
            length-append {0} (encode_length b) (encode_length c ++ tail),
            length-append {0} (encode_length c) tail,
          ))
          h)
