-- ===== src/Rdb/Structure/Strings/RoundTrip.antt =====
-- Every form in which Redis stores a string is read back, whatever follows it.
use rdb_elasticache_migrator.Prelude.{
  ℕ, ◌-◌, ◌^◌, ◌<◌, ◌≡◌, List, [], ◌∷◌, ◌++◌, arith, append_assoc, length, lt→ltb, refl,
}
use rdb_elasticache_migrator.Prelude.Int.{ℤ, pos, negsuc, signed, unsigned}
use rdb_elasticache_migrator.Runtime.{Bytes, ok, read_full-append}
use rdb_elasticache_migrator.Runtime.Words.{to_little}
use rdb_elasticache_migrator.Runtime.Strconv.{format_int}
use rdb_elasticache_migrator.Rdb.Structure.Int.{read_bytes, read_int8, read_int16, read_int32}
use rdb_elasticache_migrator.Rdb.Structure.Length.RoundTrip.{
  encode_length, read_encoded_length-encode_length, read_length-encode_length, special_encoding,
}
use rdb_elasticache_migrator.Rdb.Structure.Lzf.Tokens.{Token, expand, encode, AllFit}
use rdb_elasticache_migrator.Rdb.Structure.Lzf.Decompress.{lzf_decompress-encode}
use rdb_elasticache_migrator.Rdb.Structure.Strings.{read_string}

-- The `int` of a length that fits.
signed_small : (n : ℕ) → n < 2 ^ 63 → signed 64 n ≡ pos n
signed_small n h = rw (lt→ltb n (2 ^ 63) h)

pub read_bytes-append :
    (xs rest : Bytes)
    → length xs < 2 ^ 63
    → read_bytes (signed 64 (length xs)) (xs ++ rest) ≡ ok (xs, rest)
unfolding read_bytes
read_bytes-append xs rest h =
    rw (signed_small (length xs) h, read_full-append xs rest (length xs) refl)

-- How Redis stores a string: as it is, as a small integer, or compressed.
pub data Stored : Type 0 where
  plain : Bytes → Stored
  int8 int16 int32 : ℤ → Stored
  lzf : List Token → Stored

abbrev pub InRange : ℕ → ℤ → Type 0
InRange w (pos n) = n < 2 ^ (w - 1)
InRange w (negsuc n) = n < 2 ^ (w - 1)

abbrev pub IsStored : Stored → Type 0
IsStored (plain s) = length s < 2 ^ 63
IsStored (int8 z) = InRange 8 z
IsStored (int16 z) = InRange 16 z
IsStored (int32 z) = InRange 32 z
IsStored (lzf ts) = AllFit ts [] × (length (encode ts) < 2 ^ 63) × (length (expand ts []) < 2 ^ 63)

-- `rdbSaveRawString`, `rdbEncodeInteger` and `rdbSaveLzfBlob`.
unfoldable pub save : Stored → Bytes
save (plain s) = encode_length (length s) ++ s
save (int8 z) = 0xc0 ∷ to_little 1 (unsigned 8 z)
save (int16 z) = 0xc1 ∷ to_little 2 (unsigned 16 z)
save (int32 z) = 0xc2 ∷ to_little 4 (unsigned 32 z)
save (lzf ts) =
    0xc3
    ∷ (encode_length (length (encode ts)) ++ (encode_length (length (expand ts [])) ++ encode ts))

unfoldable pub content : Stored → Bytes
content (plain s) = s
content (int8 z) = format_int z
content (int16 z) = format_int z
content (int32 z) = format_int z
content (lzf ts) = expand ts []

int8-value :
    (z : ℤ) (rest : Bytes)
    → InRange 8 z
    → read_int8 (to_little 1 (unsigned 8 z) ++ rest) ≡ ok (z, rest)
unfolding read_int8 to_little
int8-value (pos n) rest h = ground arith
int8-value (negsuc n) rest h = ground arith

int16-value :
    (z : ℤ) (rest : Bytes)
    → InRange 16 z
    → read_int16 (to_little 2 (unsigned 16 z) ++ rest) ≡ ok (z, rest)
unfolding read_int16 to_little
int16-value (pos n) rest h = ground arith
int16-value (negsuc n) rest h = ground arith

int32-value :
    (z : ℤ) (rest : Bytes)
    → InRange 32 z
    → read_int32 (to_little 4 (unsigned 32 z) ++ rest) ≡ ok (z, rest)
unfolding read_int32 to_little
int32-value (pos n) rest h = ground arith
int32-value (negsuc n) rest h = ground arith

-- Every stored form of a string, plain, as an integer of 8, 16 or 32 bits or compressed by LZF, is read
-- back as its content, with the rest left unread.
pub read_string-save :
    (s : Stored) (rest : Bytes) → IsStored s → read_string (save s ++ rest) ≡ ok (content s, rest)
unfolding read_string save content
read_string-save (plain s) rest h =
    rw (append_assoc, read_encoded_length-encode_length (length s) (s ++ rest) (omega arith))
      (read_bytes-append s rest h)
read_string-save (int8 z) rest h = rw (special_encoding 0 _ (omega arith), int8-value z rest h)
read_string-save (int16 z) rest h = rw (special_encoding 1 _ (omega arith), int16-value z rest h)
read_string-save (int32 z) rest h = rw (special_encoding 2 _ (omega arith), int32-value z rest h)
read_string-save (lzf ts) rest (fits, short, small) = rw (
  special_encoding 3 _ (omega arith),
  append_assoc,
  append_assoc,
  read_length-encode_length (length (encode ts)) _ (omega arith),
  read_length-encode_length (length (expand ts [])) _ (omega arith),
  read_bytes-append (encode ts) rest short,
  signed_small (length (expand ts [])) small,
  lzf_decompress-encode ts fits,
)
