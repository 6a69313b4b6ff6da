-- ===== src/Tests/Structure.antt =====
-- internal/rdb/structure.
use rdb_elasticache_migrator.Prelude.{
  ℕ, suc, ◌≡◌, refl, List, [], ◌∷◌, ◌++◌, arith, length, replicate, length-replicate, zero, map,
  some, codes,
}
use rdb_elasticache_migrator.Prelude.Int.{pos, negsuc}
use rdb_elasticache_migrator.Runtime.{ok, panic, eof, bad_end}
use rdb_elasticache_migrator.Runtime.Strconv.{format_int, parse_int, parse_int-format_int}
use rdb_elasticache_migrator.Rdb.Structure.Int.{read_int24}
use rdb_elasticache_migrator.Rdb.Structure.Length.{read_encoded_length}
use rdb_elasticache_migrator.Rdb.Structure.Lzf.{
  lzf_decompress, lzf_loop, lzf_step, back_reference, copy_literal, copy_back,
}
use rdb_elasticache_migrator.Rdb.Structure.Lzf.Tokens.{
  Token, literal, back, encode, expand, encode_token, expand_token, extend,
}
use rdb_elasticache_migrator.Rdb.Structure.Lzf.Decompress.{lzf_decompress-encode}
use rdb_elasticache_migrator.Rdb.Structure.Strings.{read_string}
use rdb_elasticache_migrator.Rdb.Structure.Strings.RoundTrip.{
  Stored, plain, lzf, save, content, read_string-save,
}
use rdb_elasticache_migrator.Rdb.Structure.Listpack.{
  read_listpack, listpack_body, read_listpack_entries, read_listpack_entry, lp_encode_backlen,
  to_signed,
}
use rdb_elasticache_migrator.Rdb.Structure.Listpack
use rdb_elasticache_migrator.Rdb.Structure.Listpack.RoundTrip.{
  AllEntries, listpack, read_listpack-listpack,
}
use rdb_elasticache_migrator.Rdb.Structure.Listpack.Overfull.{listpack_body-overfull}
use rdb_elasticache_migrator.Rdb.Structure.Ziplist
use rdb_elasticache_migrator.Rdb.Structure.Ziplist.{read_ziplist, ziplist_body}
use rdb_elasticache_migrator.Rdb.Structure.Ziplist.RoundTrip.{ziplist, read_ziplist-ziplist}
use rdb_elasticache_migrator.Rdb.Structure.Ziplist.UnknownSize.{ziplist_body-unknown_size}

parse_int-format_int_example : parse_int (format_int (negsuc 41)) ≡ some (negsuc 41)
parse_int-format_int_example = parse_int-format_int (negsuc 41) (omega arith)

-- Of the bytes 00 01 02 as they stand in the file.
int24_read : read_int24 (0x00 ∷ 0x00 ∷ 0x80 ∷ []) ≡ ok (negsuc 8388607, [])
unfolding read_int24
int24_read = refl

abbrev tokens : List Token
tokens = literal (b'a' ∷ b'b' ∷ b'c' ∷ []) ∷ back 3 9 ∷ literal (b'd' ∷ []) ∷ []

lzf_decompress_run :
    lzf_decompress (2 ∷ b'a' ∷ b'b' ∷ b'c' ∷ 224 ∷ 0 ∷ 2 ∷ []) (pos 12)
    ≡ ok (b'a' ∷ b'b' ∷ b'c' ∷ b'a' ∷ b'b' ∷ b'c' ∷ b'a' ∷ b'b' ∷ b'c' ∷ b'a' ∷ b'b' ∷ b'c' ∷ [])
unfolding lzf_decompress lzf_loop lzf_step back_reference copy_literal copy_back
lzf_decompress_run = refl

lzf_decompress-encode_example :
    lzf_decompress (encode tokens) (pos (length (expand tokens []))) ≡ ok (expand tokens [])
unfolding expand_token extend
lzf_decompress-encode_example = lzf_decompress-encode tokens (omega arith)

-- The string "ab12ab12ab12", compressed.
abbrev compressed : Stored
compressed = lzf (literal (codes "ab12") ∷ back 4 8 ∷ [])

read_string-save_example :
    read_string (save compressed ++ 0xff ∷ []) ≡ ok (content compressed, 0xff ∷ [])
unfolding expand expand_token extend encode encode_token
read_string-save_example = read_string-save compressed (0xff ∷ []) (omega arith)

abbrev items : List Listpack.Entry.Entry
items =
    Listpack.Entry.uint7 5
    ∷ Listpack.Entry.int13 (negsuc 4095)
    ∷ Listpack.Entry.int64 (negsuc 0)
    ∷ Listpack.Entry.str6 (codes "hi")
    ∷ []

read_listpack-listpack_example :
    read_listpack (save (plain (listpack 27 4 items)) ++ 1 ∷ [])
    ≡ ok (map Listpack.Entry.render items, 1 ∷ [])
unfolding listpack Listpack.Entry.encode_entries Listpack.Entry.encode_entry Listpack.Entry.payload
    Listpack.Entry.backlen content
read_listpack-listpack_example =
    read_listpack-listpack (plain (listpack 27 4 items)) 27 items (1 ∷ []) (omega arith)
      (omega arith) (omega arith) refl

-- The data of `TestSetListpack`.
read_listpack_run :
    read_listpack (
      0x1b ∷ 0x1b ∷ 0 ∷ 0 ∷ 0 ∷ 8 ∷ 0 ∷ 0x81 ∷ b'w' ∷ 2 ∷ 0x81 ∷ b'r' ∷ 2 ∷ 4 ∷ 1 ∷ 0x81 ∷ b'e' ∷ 2
      ∷ 1 ∷ 1 ∷ 2 ∷ 1 ∷ 0x81 ∷ b'q' ∷ 2 ∷ 3 ∷ 1 ∷ 0xff ∷ 11 ∷ 0 ∷ [])
    ≡ ok (map codes ("w" ∷ "r" ∷ "4" ∷ "e" ∷ "1" ∷ "2" ∷ "q" ∷ "3" ∷ []), 11 ∷ 0 ∷ [])
unfolding read_listpack listpack_body read_listpack_entries read_listpack_entry lp_encode_backlen
    to_signed read_string read_encoded_length format_int
read_listpack_run = refl

entries_full : List Listpack.Entry.Entry
entries_full = replicate 65535 (Listpack.Entry.uint7 0)

AllEntries-replicate : (n : ℕ) → AllEntries (replicate n (Listpack.Entry.uint7 0))
AllEntries-replicate zero = tt
AllEntries-replicate (suc n) = (omega arith, AllEntries-replicate n)

full-AllEntries : AllEntries entries_full
unfolding entries_full
full-AllEntries = AllEntries-replicate 65535

length-full : length entries_full ≡ 65535
unfolding entries_full
length-full = length-replicate 65535 (Listpack.Entry.uint7 0)

listpack_body-overfull_example :
    listpack_body (listpack 0 65535 (entries_full ++ Listpack.Entry.uint7 1 ∷ [])) ≡ panic bad_end
listpack_body-overfull_example =
    listpack_body-overfull 0 entries_full [] (Listpack.Entry.uint7 1) full-AllEntries (omega arith)
      length-full

abbrev values : List Ziplist.Entry.Value
values =
    Ziplist.Entry.int04 3
    ∷ Ziplist.Entry.str06 (codes "score")
    ∷ Ziplist.Entry.int24 (negsuc 8388607)
    ∷ []

read_ziplist-ziplist_example :
    read_ziplist (save (plain (ziplist 30 20 3 values)) ++ 1 ∷ [])
    ≡ ok (map Ziplist.Entry.render values, 1 ∷ [])
unfolding ziplist Ziplist.Entry.encode_entries Ziplist.Entry.encode_entry Ziplist.Entry.payload
    Ziplist.Entry.prevlen content
read_ziplist-ziplist_example =
    read_ziplist-ziplist (plain (ziplist 30 20 3 values)) 30 20 values (1 ∷ []) (omega arith)
      (omega arith) (omega arith) refl

ziplist_body-unknown_size_example : ziplist_body (ziplist 30 20 65535 values) ≡ panic eof
unfolding Ziplist.Entry.encode_entry Ziplist.Entry.payload Ziplist.Entry.prevlen
ziplist_body-unknown_size_example = ziplist_body-unknown_size 30 20 values (omega arith)

-- A long entry, and one behind it.
abbrev long_value : Ziplist.Entry.Value
long_value = Ziplist.Entry.str14 (replicate 300 b'x')
