-- ===== src/Aof/Reader/Fallback.antt =====
-- A path that is no manifest.
use rdb_elasticache_migrator.Aof.Line.{Buffer}
use rdb_elasticache_migrator.Prelude.{
  ℕ, ◌≡◌, refl, sym, ap, ◌∙◌, Bool, true, false, none, some, List, [], ◌∷◌, ◌++◌, length,
  append_assoc, arith,
}
use rdb_elasticache_migrator.Prelude.Int.{ℤ}
use rdb_elasticache_migrator.Runtime.{Bytes, ok}
use rdb_elasticache_migrator.Runtime.Strings.{also, nothing}
use rdb_elasticache_migrator.Runtime.Strconv.{format_uint}
use rdb_elasticache_migrator.Runtime.Decimal.{Without-append, format_uint-Without, format_uint-Each}
use rdb_elasticache_migrator.Runtime.Bufio.{read_until_newline, read_until_newline-append}
use rdb_elasticache_migrator.Runtime.Emit.{Each}
use rdb_elasticache_migrator.Aof.Single.{File, present, load_single}
use rdb_elasticache_migrator.Aof.Single.RoundTrip.{
  Item, entry, save_args, save_item, save_items, IsItem, wanted, ending, load_single-save_items,
}
use rdb_elasticache_migrator.Aof.Split.Words.{IsSeen, split_args-spaced}
use rdb_elasticache_migrator.Aof.Manifest.{
  drop_blank, trim_left, trim_right, trim, no_manifest, parse_line, load_manifest_lines,
  load_manifest_from_file,
}
use rdb_elasticache_migrator.Aof.Reader.{start_read}

trim_right-seen : (w : Bytes) → Each IsSeen w → trim_right (w ++ b'\r' ∷ b'\n' ∷ []) ≡ w
unfolding trim_right
trim_right-seen [] h = refl
trim_right-seen (c ∷ w) (h, hs) = rw (trim_right-seen w hs) (keeps c w h)
  where
    keeps : (c : ℕ) (w : Bytes) → IsSeen c → drop_blank c w ≡ c ∷ w
    keeps c [] h = ground arith
    keeps c (d ∷ ds) h = refl

abbrev count_text : ℕ → Bytes
count_text n = b'*' ∷ format_uint n

count-Each : (n : ℕ) → Each IsSeen (count_text n)
count-Each n = (omega arith, format_uint-Each IsSeen n (λ d lt. omega arith))

trim-count : (n : ℕ) → trim (count_text n ++ b'\r' ∷ b'\n' ∷ []) ≡ count_text n
unfolding trim trim_left
trim-count n = trim_right-seen (count_text n) (count-Each n)

read_until_newline-count :
    (n : ℕ) (rest : Bytes)
    → read_until_newline (count_text n ++ b'\r' ∷ b'\n' ∷ rest)
      ≡ some (count_text n ++ b'\r' ∷ b'\n' ∷ [], rest)
read_until_newline-count n rest =
    ap read_until_newline (regroup (b'\n' ∷ rest))
    ∙ read_until_newline-append rest (
        Without-append {b = b'\n'} (also (omega arith) (format_uint-Without b'\n' n (omega arith)))
          (also (omega arith) nothing))
    ∙ ap (λ t. some (t, rest)) (sym (regroup (b'\n' ∷ [])))
  where
    regroup : (t : Bytes) → count_text n ++ b'\r' ∷ t ≡ (count_text n ++ b'\r' ∷ []) ++ t
    regroup t = sym (append_assoc (count_text n) (b'\r' ∷ []) t)

module _ (equal_fold : Bytes → Bytes → Bool) where
  parse_line-count :
      (n : ℕ) → parse_line equal_fold (count_text n ++ b'\r' ∷ b'\n' ∷ []) ≡ ok no_manifest
  unfolding parse_line
  parse_line-count n =
      rw (trim-count n, split_args-spaced (count_text n ∷ []) ((count-Each n, omega arith), tt))
        refl

  load_manifest_from_file-entry :
      (argv : List Bytes) (rest : Bytes)
      → load_manifest_from_file equal_fold (save_item (entry argv) rest) ≡ ok none
  unfolding load_manifest_from_file load_manifest_lines
  load_manifest_from_file-entry argv rest =
      rw
        (
          read_until_newline-count (length argv) (save_args argv rest),
          parse_line-count (length argv),
        )
        refl

  -- A path with an append-only file that begins with an entry is no manifest: its own entries are read, up
  -- to the first time that is later than the wanted one. The directory is there; each
  -- entry has 1 to 128 arguments with no newline, of fewer than 4095 bytes each; `ctx` is not done.
  pub start_read-save_items :
      (buffer : Buffer) (cancelled : ℕ → Bool)
      → ((n : ℕ) → cancelled n ≡ false)
      → (files : Bytes → File) (path : Bytes) (timestamp : ℤ) (argv : List Bytes) (is : List Item)
      → Each IsItem (entry argv ∷ is)
      → files path ≡ present (save_items (entry argv ∷ is))
      → start_read buffer cancelled equal_fold true files timestamp path ≡ record {
        sent = wanted timestamp (entry argv ∷ is);
        ret = ok (ending timestamp (entry argv ∷ is));
      }
  unfolding start_read
  start_read-save_items buffer cancelled never files path timestamp argv is all e =
      rw (e, load_manifest_from_file-entry argv (save_items is))
        (ap (load_single buffer cancelled timestamp) e
          ∙ load_single-save_items buffer cancelled never timestamp (entry argv ∷ is) all)
