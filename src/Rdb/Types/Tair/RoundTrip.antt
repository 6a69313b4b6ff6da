-- ===== src/Rdb/Types/Tair/RoundTrip.antt =====
-- Tair values as the modules write them.
use rdb_elasticache_migrator.Prelude.{
  ℕ, ◌^◌, ◌<◌, ◌≡◌, refl, List, [], ◌∷◌, ◌++◌, ◌==◌, if◌then◌else◌, length, flat_map, append_assoc,
  append-nil, arith, codes,
}
use rdb_elasticache_migrator.Prelude.Int.{pos, eq_ℤ}
use rdb_elasticache_migrator.Runtime.{Bytes, ok}
use rdb_elasticache_migrator.Runtime.Strconv.{
  format_int, format_uint, parse_int_value, parse_int_value-parse_int, parse_int-format_int,
}
use rdb_elasticache_migrator.Runtime.Emit.{Command, Each, times-flat_map}
use rdb_elasticache_migrator.Rdb.Structure.Length.RoundTrip.{
  encode_length, read_length-encode_length,
}
use rdb_elasticache_migrator.Rdb.Structure.Strings.RoundTrip.{
  Stored, IsStored, save, content, read_string-save,
}
use rdb_elasticache_migrator.Rdb.Structure.Module.{
  read_module_unsigned, read_module_string, read_module_eof,
}
use rdb_elasticache_migrator.Rdb.Types.Tair.{
  exset, exhset, tair_field, rewrite_tair_string, rewrite_tair_hash,
}

-- A number and a text behind their opcodes, and the end.
unfoldable pub save_uint : ℕ → Bytes
save_uint n = 2 ∷ encode_length n

unfoldable pub save_text : Stored → Bytes
save_text s = 5 ∷ save s

unfoldable pub save_eof : Bytes
save_eof = encode_length 0

pub read_module_unsigned-save :
    (n : ℕ) (rest : Bytes)
    → n < 2 ^ 64
    → read_module_unsigned (save_uint n ++ rest) ≡ ok (format_uint n, rest)
unfolding read_module_unsigned save_uint
read_module_unsigned-save n rest h = rw (read_length-encode_length n rest h) refl

pub read_module_string-save :
    (s : Stored) (rest : Bytes)
    → IsStored s
    → read_module_string (save_text s ++ rest) ≡ ok (content s, rest)
unfolding read_module_string save_text
read_module_string-save s rest h = rw (read_string-save s rest h) refl

pub read_module_eof-save : (rest : Bytes) → read_module_eof (save_eof ++ rest) ≡ ok (tt, rest)
unfolding read_module_eof save_eof
read_module_eof-save rest = rw (read_length-encode_length 0 rest (omega arith)) refl

-- A string with its version and flags.
pub record TairString : Type 0 where
  pub version : ℕ
  pub flags : ℕ
  pub value : Stored

abbrev pub IsTairString : TairString → Type 0
IsTairString v = (v.version < 2 ^ 64) × (v.flags < 2 ^ 64) × IsStored v.value

unfoldable pub save_tair_string : TairString → Bytes
save_tair_string v = save_uint v.version ++ (save_uint v.flags ++ (save_text v.value ++ save_eof))

-- A string of Tair is written again with its version and its flags.
pub rewrite_tair_string-save :
    (key : Bytes) (v : TairString) (rest : Bytes)
    → IsTairString v
    → rewrite_tair_string key (save_tair_string v ++ rest) ≡ record {
      sent = exset key (content v.value) (format_uint v.version) (format_uint v.flags) ∷ [];
      outcome = ok rest;
    }
unfolding rewrite_tair_string save_tair_string
rewrite_tair_string-save key v rest (a, b, c) =
    rw
      (
        append_assoc (save_uint v.version) (save_uint v.flags ++ (save_text v.value ++ save_eof))
            rest,
        append_assoc (save_uint v.flags) (save_text v.value ++ save_eof) rest,
        append_assoc (save_text v.value) save_eof rest,
        read_module_unsigned-save v.version
            (save_uint v.flags ++ (save_text v.value ++ (save_eof ++ rest))) a,
        read_module_unsigned-save v.flags (save_text v.value ++ (save_eof ++ rest)) b,
        read_module_string-save v.value (save_eof ++ rest) c,
        read_module_eof-save rest,
      )
      refl

-- A field with its version and the time when it goes, which is 0 for none.
pub record Field : Type 0 where
  pub name : Stored
  pub version : ℕ
  pub expire : ℕ
  pub value : Stored

abbrev pub IsField : Field → Type 0
IsField f = IsStored f.name × (f.version < 2 ^ 64) × (f.expire < 2 ^ 63) × IsStored f.value

abbrev pub save_field : Field → Bytes
save_field f =
    save_text f.name ++ (save_uint f.version ++ (save_uint f.expire ++ save_text f.value))

abbrev pub field_command : Bytes → Field → Command
field_command key f = exhset key (content f.name) (content f.value) (
    if f.expire == 0
    then []
    else codes "ABS" ∷ format_uint f.version ∷ codes "PXAT" ∷ format_uint f.expire ∷ [])

uint_value : (n : ℕ) → n < 2 ^ 63 → parse_int_value (format_uint n) ≡ pos n
unfolding format_int
uint_value n h = parse_int_value-parse_int (format_uint n) (pos n) (parse_int-format_int (pos n) h)

is_zero : (n : ℕ) → eq_ℤ (pos n) (pos 0) ≡ (n == 0)
is_zero n = ground arith

tair_field-save :
    (key : Bytes) (f : Field) (rest : Bytes)
    → IsField f
    → tair_field key (save_field f ++ rest)
      ≡ record { sent = field_command key f ∷ []; outcome = ok rest }
unfolding tair_field
tair_field-save key f rest (n, v, e, w) =
    rw
      (
        append_assoc (save_text f.name)
            (save_uint f.version ++ (save_uint f.expire ++ save_text f.value)) rest,
        append_assoc (save_uint f.version) (save_uint f.expire ++ save_text f.value) rest,
        append_assoc (save_uint f.expire) (save_text f.value) rest,
        read_module_string-save f.name
            (save_uint f.version ++ (save_uint f.expire ++ (save_text f.value ++ rest))) n,
        read_module_unsigned-save f.version (save_uint f.expire ++ (save_text f.value ++ rest)) v,
        read_module_unsigned-save f.expire (save_text f.value ++ rest) (omega arith),
        read_module_string-save f.value rest w,
        uint_value f.expire e,
        is_zero f.expire,
      )
      refl

unfoldable pub save_tair_hash : Stored → List Field → Bytes
save_tair_hash name fs =
    save_uint (length fs) ++ (save_text name ++ (flat_map save_field fs ++ save_eof))

-- A hash of Tair is written again as a `del` of the key that stands in the value and one EXHSET for each
-- field, with its version and its time where it has one.
pub rewrite_tair_hash-save :
    (name : Stored) (fs : List Field) (rest : Bytes)
    → IsStored name
    → Each IsField fs
    → length fs < 2 ^ 63
    → rewrite_tair_hash (save_tair_hash name fs ++ rest) ≡ record {
      sent =
          (codes "del" ∷ content name ∷ [])
          ∷ flat_map (λ f. field_command (content name) f ∷ []) fs;
      outcome = ok rest;
    }
unfolding rewrite_tair_hash save_tair_hash
rewrite_tair_hash-save name fs rest n all few =
    rw
      (
        append_assoc (save_uint (length fs))
            (save_text name ++ (flat_map save_field fs ++ save_eof)) rest,
        append_assoc (save_text name) (flat_map save_field fs ++ save_eof) rest,
        append_assoc (flat_map save_field fs) save_eof rest,
        read_module_unsigned-save (length fs)
            (save_text name ++ (flat_map save_field fs ++ (save_eof ++ rest))) (omega arith),
        read_module_string-save name (flat_map save_field fs ++ (save_eof ++ rest)) n,
        uint_value (length fs) few,
        times-flat_map IsField save_field (λ f. field_command (content name) f ∷ [])
            (tair_field (content name)) fs (save_eof ++ rest) all (tair_field-save (content name)),
        read_module_eof-save rest,
        append-nil (flat_map (λ f. field_command (content name) f ∷ []) fs),
      )
      refl
