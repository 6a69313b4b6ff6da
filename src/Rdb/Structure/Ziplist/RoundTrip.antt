-- ===== src/Rdb/Structure/Ziplist/RoundTrip.antt =====
-- Reading back a whole ziplist.
use rdb_elasticache_migrator.Prelude.{
  ℕ, ◌^◌, ◌<◌, ◌≡◌, false, List, [], ◌∷◌, ◌++◌, map, arith, append_assoc, length, refl, ◌∙◌, ◌==◌,
}
use rdb_elasticache_migrator.Runtime.{Bytes, bind_assoc, ok}
use rdb_elasticache_migrator.Runtime.Words.{to_little, little_endian-to_little}
use rdb_elasticache_migrator.Rdb.Structure.Int.{read_byte, read_uint16, read_uint32}
use rdb_elasticache_migrator.Rdb.Structure.Strings.RoundTrip.{
  Stored, IsStored, save, content, read_string-save,
}
use rdb_elasticache_migrator.Rdb.Structure.Ziplist.{
  read_ziplist_entry, read_ziplist_entries, ziplist_body, read_ziplist,
}
use rdb_elasticache_migrator.Rdb.Structure.Ziplist.Entry.{
  Value, IsValue, render, encode_entry, encode_entries,
}
use rdb_elasticache_migrator.Rdb.Structure.Ziplist.ReadEntry.{read_ziplist_entry-encode_entry}

-- The values fit, and each entry is short enough for the length that the next one holds.
abbrev pub AllEntries : ℕ → List Value → Type 0
AllEntries before [] = Unit
AllEntries before (v ∷ vs) =
    IsValue v × (before < 2 ^ 32) × AllEntries (length (encode_entry before v)) vs

-- zlbytes, zltail, zllen, the entries and zlend.
unfoldable pub ziplist : ℕ → ℕ → ℕ → List Value → Bytes
ziplist bytes last count vs =
    to_little 4 bytes
    ++ (to_little 4 last ++ (to_little 2 count ++ (encode_entries 0 vs ++ 0xff ∷ [])))

pub read_ziplist_entries-encode :
    (before : ℕ) (vs : List Value) (rest : Bytes)
    → AllEntries before vs
    → read_ziplist_entries (length vs) (encode_entries before vs ++ rest) ≡ ok (map render vs, rest)
unfolding read_ziplist_entries encode_entries
read_ziplist_entries-encode before [] rest h = refl
read_ziplist_entries-encode before (v ∷ vs) rest (h, small, hs) =
    bind_assoc read_byte read_ziplist_entry _ _
    ∙ rw (
      append_assoc,
      read_ziplist_entry-encode_entry before v
          (encode_entries (length (encode_entry before v)) vs ++ rest) small h,
      read_ziplist_entries-encode (length (encode_entry before v)) vs rest hs,
    )

ziplist_body-ziplist :
    (bytes last : ℕ) (vs : List Value)
    → AllEntries 0 vs
    → length vs < 65535
    → ziplist_body (ziplist bytes last (length vs) vs) ≡ ok (map render vs, [])
unfolding ziplist_body read_uint32 read_uint16 ziplist to_little
ziplist_body-ziplist bytes last vs h few =
    rw
      (
        little_endian-to_little 2 (length vs) (omega arith),
        known (length vs) few,
        read_ziplist_entries-encode 0 vs (0xff ∷ []) h,
      )
      (unfold read_byte in refl)
  where
    known : (n : ℕ) → n < 65535 → (n == 65535) ≡ false
    known n h = ground arith

-- A ziplist of fewer than 65535 entries, stored as a string in any of the forms, is read back as the
-- texts of its entries.
pub read_ziplist-ziplist :
    (s : Stored) (bytes last : ℕ) (vs : List Value) (rest : Bytes)
    → IsStored s
    → AllEntries 0 vs
    → length vs < 65535
    → content s ≡ ziplist bytes last (length vs) vs
    → read_ziplist (save s ++ rest) ≡ ok (map render vs, rest)
unfolding read_ziplist
read_ziplist-ziplist s bytes last vs rest hs h few e =
    rw (read_string-save s rest hs, e, ziplist_body-ziplist bytes last vs h few)
