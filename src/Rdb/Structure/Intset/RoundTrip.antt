-- ===== src/Rdb/Structure/Intset/RoundTrip.antt =====
-- Reading back the integer sets of intset.c.
use rdb_elasticache_migrator.Prelude.{
  ℕ, ◌-◌, ◌*◌, ◌^◌, ◌<◌, ◌≡◌, refl, ap, ◌∙◌, List, [], ◌∷◌, ◌++◌, map, arith, length,
}
use rdb_elasticache_migrator.Prelude.Int.{ℤ, pos, negsuc, unsigned, signed}
use rdb_elasticache_migrator.Runtime.{Bytes, ok}
use rdb_elasticache_migrator.Runtime.Strconv.{format_int}
use rdb_elasticache_migrator.Runtime.Words.{little_endian, to_little, little_endian-to_little}
use rdb_elasticache_migrator.Rdb.Structure.Int.{read_bytes, read_uint32}
use rdb_elasticache_migrator.Rdb.Structure.Strings.RoundTrip.{
  Stored, IsStored, save, content, InRange, read_string-save,
}
use rdb_elasticache_migrator.Rdb.Structure.Intset.{
  int_string, read_intset_elements, intset_body, read_intset,
}

-- The bytes of an element: INTSET_ENC_INT16, INTSET_ENC_INT32 and INTSET_ENC_INT64.
pub data Width : Type 0 where
  int16 int32 int64 : Width

abbrev pub bytes : Width → ℕ
bytes int16 = 2
bytes int32 = 4
bytes int64 = 8

abbrev pub AllFit : Width → List ℤ → Type 0
AllFit w [] = Unit {0}
AllFit w (z ∷ zs) = InRange (8 * bytes w) z × AllFit w zs

unfoldable pub encode_elements : Width → List ℤ → Bytes
encode_elements w [] = []
encode_elements w (z ∷ zs) = to_little (bytes w) (unsigned (8 * bytes w) z) ++ encode_elements w zs

unfoldable pub intset : Width → List ℤ → Bytes
intset w zs = to_little 4 (bytes w) ++ (to_little 4 (length zs) ++ encode_elements w zs)

read_element :
    (w : Width) (z : ℤ) (rest : Bytes)
    → InRange (8 * bytes w) z
    → read_bytes (pos (bytes w)) (to_little (bytes w) (unsigned (8 * bytes w) z) ++ rest)
      ≡ ok (to_little (bytes w) (unsigned (8 * bytes w) z), rest)
unfolding read_bytes to_little
read_element int16 z rest h = refl
read_element int32 z rest h = refl
read_element int64 z rest h = refl

signed-unsigned :
    (w : Width) (z : ℤ)
    → InRange (8 * bytes w) z
    → signed (8 * bytes w) (unsigned (8 * bytes w) z) ≡ z
signed-unsigned int16 (pos n) h = ground arith
signed-unsigned int16 (negsuc n) h = ground arith
signed-unsigned int32 (pos n) h = ground arith
signed-unsigned int32 (negsuc n) h = ground arith
signed-unsigned int64 (pos n) h = ground arith
signed-unsigned int64 (negsuc n) h = ground arith

little_endian-element :
    (w : Width) (z : ℤ)
    → InRange (8 * bytes w) z
    → little_endian (to_little (bytes w) (unsigned (8 * bytes w) z)) ≡ unsigned (8 * bytes w) z
little_endian-element int16 (pos n) h = little_endian-to_little 2 n (omega arith)
little_endian-element int16 (negsuc n) h = little_endian-to_little 2 (2 ^ 16 - 1 - n) (omega arith)
little_endian-element int32 (pos n) h = little_endian-to_little 4 n (omega arith)
little_endian-element int32 (negsuc n) h = little_endian-to_little 4 (2 ^ 32 - 1 - n) (omega arith)
little_endian-element int64 (pos n) h = little_endian-to_little 8 n (omega arith)
little_endian-element int64 (negsuc n) h = little_endian-to_little 8 (2 ^ 64 - 1 - n) (omega arith)

element-value :
    (w : Width) (z : ℤ)
    → InRange (8 * bytes w) z
    → int_string (bytes w) (to_little (bytes w) (unsigned (8 * bytes w) z)) ≡ format_int z
unfolding int_string
element-value int16 z h =
    ap format_int (ap (signed 16) (little_endian-element int16 z h) ∙ signed-unsigned int16 z h)
element-value int32 z h =
    ap format_int (ap (signed 32) (little_endian-element int32 z h) ∙ signed-unsigned int32 z h)
element-value int64 z h =
    ap format_int (ap (signed 64) (little_endian-element int64 z h) ∙ signed-unsigned int64 z h)

read_intset_elements-encode :
    (w : Width) (zs : List ℤ)
    → AllFit w zs
    → read_intset_elements (bytes w) (length zs) (encode_elements w zs) ≡ ok (map format_int zs, [])
unfolding read_intset_elements encode_elements
read_intset_elements-encode w [] h = refl
read_intset_elements-encode w (z ∷ zs) (fit, fits) =
    rw
      (
        read_element w z (encode_elements w zs) fit,
        read_intset_elements-encode w zs fits,
        element-value w z fit,
      )
      refl

byte_counts : (w : Width) → bytes w < 256
byte_counts int16 = omega arith
byte_counts int32 = omega arith
byte_counts int64 = omega arith

intset_body-intset :
    (w : Width) (zs : List ℤ)
    → AllFit w zs
    → length zs < 2 ^ 32
    → intset_body (intset w zs) ≡ ok (map format_int zs, [])
unfolding intset_body intset read_uint32 to_little
intset_body-intset w zs fits few =
    rw
      (
        little_endian-to_little 4 (bytes w) (omega (arith, byte_counts w)),
        little_endian-to_little 4 (length zs) few,
      )
      (read_intset_elements-encode w zs fits)

-- An integer set of any of the three widths, stored as a string in any of the forms, is read back as the
-- decimal texts of its elements, in their order.
pub read_intset-intset :
    (s : Stored) (w : Width) (zs : List ℤ) (rest : Bytes)
    → IsStored s
    → AllFit w zs
    → length zs < 2 ^ 32
    → content s ≡ intset w zs
    → read_intset (save s ++ rest) ≡ ok (map format_int zs, rest)
unfolding read_intset
read_intset-intset s w zs rest hs fits few e =
    rw (read_string-save s rest hs, e, intset_body-intset w zs fits few) refl
