-- ===== src/Rdb/Structure/Listpack/Overfull.antt =====
-- A listpack whose count field says "unknown" (65535), which Redis writes from 65535 entries on.
use rdb_elasticache_migrator.Prelude.{
  ℕ, ◌≡◌, List, [], ◌∷◌, ◌++◌, map, arith, append_assoc, length, refl, ◌==◌, if◌then◌else◌,
}
use rdb_elasticache_migrator.Prelude.Int.{pos, negsuc}
use rdb_elasticache_migrator.Runtime.{Bytes, Read, panic, bad_end, ◌>>=◌, pure, fail}
use rdb_elasticache_migrator.Rdb.Structure.Int.{read_byte}
use rdb_elasticache_migrator.Rdb.Structure.Listpack.{listpack_body}
use rdb_elasticache_migrator.Rdb.Structure.Listpack.Entry.{
  Entry, uint7, int13, int16, int24, int32, int64, str6, str12, str32, IsEntry, render, payload,
  encode_entry, encode_entries,
}
use rdb_elasticache_migrator.Rdb.Structure.Listpack.RoundTrip.{
  AllEntries, listpack, read_listpack_entries-encode, header,
}

encode_entries-append :
    (es fs : List Entry) → encode_entries (es ++ fs) ≡ encode_entries es ++ encode_entries fs
unfolding encode_entries
encode_entries-append [] fs = refl
encode_entries-append (e ∷ es) fs = rw (encode_entries-append es fs, append_assoc)

abbrev last_check : List Bytes → Read (List Bytes)
last_check elements = do
  last_byte ← read_byte
  if last_byte == 0xff then pure elements else fail bad_end

-- No entry begins like the end mark.
last_check-entry :
    (e : Entry) (rest : Bytes) (elements : List Bytes)
    → IsEntry e
    → last_check elements (encode_entry e ++ rest) ≡ panic bad_end
unfolding read_byte encode_entry payload
last_check-entry (uint7 n) rest elements h = ground arith
last_check-entry (int13 (pos n)) rest elements h = ground arith
last_check-entry (int13 (negsuc n)) rest elements h = ground arith
last_check-entry (str6 s) rest elements h = ground arith
last_check-entry (str12 s) rest elements h = ground arith
last_check-entry (str32 s) rest elements h = refl
last_check-entry (int16 z) rest elements h = refl
last_check-entry (int24 z) rest elements h = refl
last_check-entry (int32 z) rest elements h = refl
last_check-entry (int64 z) rest elements h = refl

-- With more than 65535 entries behind that count the run ends with an error, although every entry is well formed.
pub listpack_body-overfull :
    (bytes : ℕ) (es fs : List Entry) (e : Entry)
    → AllEntries es
    → IsEntry e
    → length es ≡ 65535
    → listpack_body (listpack bytes 65535 (es ++ e ∷ fs)) ≡ panic bad_end
unfolding listpack encode_entries
listpack_body-overfull bytes es fs e hs h full =
    rw
      (
        header bytes 65535 _ (omega arith),
        encode_entries-append es (e ∷ fs),
        append_assoc,
        ← full,
        read_listpack_entries-encode es _ hs,
        append_assoc,
      )
      (last_check-entry e _ (map render es) h)
