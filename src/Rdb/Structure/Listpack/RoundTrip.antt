-- ===== src/Rdb/Structure/Listpack/RoundTrip.antt =====
-- Reading back a whole listpack.
use rdb_elasticache_migrator.Prelude.{
  ℕ, ◌<◌, ◌≡◌, List, [], ◌∷◌, ◌++◌, map, arith, append_assoc, length, refl, ◌==◌, if◌then◌else◌,
}
use rdb_elasticache_migrator.Runtime.{Bytes, ok, bad_end, continue, ◌>>=◌, pure, fail}
use rdb_elasticache_migrator.Runtime.Words.{to_little, little_endian-to_little}
use rdb_elasticache_migrator.Rdb.Structure.Int.{read_byte, read_uint16, read_uint32}
use rdb_elasticache_migrator.Rdb.Structure.Strings.RoundTrip.{
  Stored, IsStored, save, content, read_string-save,
}
use rdb_elasticache_migrator.Rdb.Structure.Listpack.{
  read_listpack_entries, listpack_body, read_listpack,
}
use rdb_elasticache_migrator.Rdb.Structure.Listpack.Entry.{Entry, IsEntry, render, encode_entries}
use rdb_elasticache_migrator.Rdb.Structure.Listpack.ReadEntry.{read_listpack_entry-encode_entry}

abbrev pub AllEntries : List Entry → Type 0
AllEntries [] = Unit
AllEntries (e ∷ es) = IsEntry e × AllEntries es

-- A listpack: its size in bytes, the count, the entries and the end mark.
unfoldable pub listpack : ℕ → ℕ → List Entry → Bytes
listpack bytes count es =
    to_little 4 bytes ++ (to_little 2 count ++ (encode_entries es ++ 0xff ∷ []))

pub read_listpack_entries-encode :
    (es : List Entry) (rest : Bytes)
    → AllEntries es
    → read_listpack_entries (length es) (encode_entries es ++ rest) ≡ ok (map render es, rest)
unfolding read_listpack_entries encode_entries
read_listpack_entries-encode [] rest h = refl
read_listpack_entries-encode (e ∷ es) rest (h, hs) = rw (
  append_assoc,
  read_listpack_entry-encode_entry e (encode_entries es ++ rest) h,
  read_listpack_entries-encode es rest hs,
)

pub header :
    (bytes count : ℕ) (rest : Bytes)
    → count < 65536
    → listpack_body (to_little 4 bytes ++ (to_little 2 count ++ rest))
      ≡ continue (read_listpack_entries count rest) (λ elements. do
        last_byte ← read_byte
        if last_byte == 0xff then pure elements else fail bad_end)
unfolding listpack_body read_uint32 read_uint16 to_little
header bytes count rest h = rw (little_endian-to_little 2 count h)

listpack_body-listpack :
    (bytes : ℕ) (es : List Entry)
    → AllEntries es
    → length es < 65535
    → listpack_body (listpack bytes (length es) es) ≡ ok (map render es, [])
unfolding listpack read_byte
listpack_body-listpack bytes es h few = rw (
  header bytes (length es) (encode_entries es ++ 0xff ∷ []) (omega arith),
  read_listpack_entries-encode es (0xff ∷ []) h,
)

-- A listpack of fewer than 65535 entries, stored as a string in any of the forms, is read back as the texts of its entries.
pub read_listpack-listpack :
    (s : Stored) (bytes : ℕ) (es : List Entry) (rest : Bytes)
    → IsStored s
    → AllEntries es
    → length es < 65535
    → content s ≡ listpack bytes (length es) es
    → read_listpack (save s ++ rest) ≡ ok (map render es, rest)
unfolding read_listpack
read_listpack-listpack s bytes es rest hs h few e =
    rw (read_string-save s rest hs, e, listpack_body-listpack bytes es h few)
