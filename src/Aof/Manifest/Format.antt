-- ===== src/Aof/Manifest/Format.antt =====
-- A manifest that is written and read again.
pub mod Line
pub mod Load
use rdb_elasticache_migrator.Prelude.{
  inr, inl, Bool-cases, ◌≤◌, ℕ, zero, suc, ◌+◌, ◌<◌, ◌≡◌, ◌≢◌, refl, ap, ◌∙◌, Bool, true, false,
  Option, some, none, List, [], ◌∷◌, ◌++◌, length, length-append, append_assoc, append-nil, arith,
  codes,
}
use rdb_elasticache_migrator.Prelude.Int.{ℤ, pos, leb_ℤ}
use rdb_elasticache_migrator.Runtime.{Bytes, Result, ok, panic}
use rdb_elasticache_migrator.Runtime.Outcome.{◌>>=◌}
use rdb_elasticache_migrator.Runtime.Strings.{equal, contains_text}
use rdb_elasticache_migrator.Runtime.Emit.{Each}
use rdb_elasticache_migrator.Runtime.Decimal.{Each-append}
use rdb_elasticache_migrator.Aof.Split.Words.{IsSeen}
use rdb_elasticache_migrator.Aof.Manifest.Quoted.{written}
use rdb_elasticache_migrator.Aof.Manifest.{
  format_base, AofInfo, AofManifest, new_manifest, Loading, info_line, path_is_base_name,
  string_needs_repr, aof_info_format, format_all, manifest_as_string, add_info, at_eof,
  load_manifest_lines, load_manifest_from_file,
}
use rdb_elasticache_migrator.Aof.Manifest.Format.Line.{
  IsInfo, TellsKeys, parse_line-info_line, read_until_newline-info_line,
}
use rdb_elasticache_migrator.Aof.Manifest.Format.Load.{
  text, empty_loading, base_files, files, last_seq, IsBase, no_base, one_base, IsManifest, add_all,
  add_files, load_manifest_lines-text, IsInfo-base_files, IsInfo-history, IsInfo-incr, files-IsInfo,
}

module _ (is_print : ℕ → Bool) (prints : (c : ℕ) → 32 ≤ c → c < 127 → is_print c ≡ true) where
  aof_info_format-written :
      (buf : Bytes) (ai : AofInfo)
      → aof_info_format is_print buf ai ≡ buf ++ info_line (written is_print prints ai.file_name) ai
  unfolding aof_info_format
  aof_info_format-written buf ai = elim (Bool-cases (string_needs_repr is_print ai.file_name)) [
    | inl t ↦ rw (t) refl
    | inr t ↦ rw (t) refl
  ]

  format_all-text :
      (buf : Bytes) (ais : List AofInfo)
      → format_all is_print buf ais ≡ buf ++ text is_print prints ais
  unfolding format_all
  format_all-text buf [] = rw (append-nil) refl
  format_all-text buf (ai ∷ ais) =
      rw
        (
          aof_info_format-written buf ai,
          format_all-text (buf ++ info_line (written is_print prints ai.file_name) ai) ais,
          append_assoc buf (info_line (written is_print prints ai.file_name) ai)
              (text is_print prints ais),
        )
        refl

  text-append :
      (xs ys : List AofInfo)
      → text is_print prints (xs ++ ys) ≡ text is_print prints xs ++ text is_print prints ys
  text-append [] ys = refl
  text-append (x ∷ xs) ys = rw (text-append xs ys) (simp (append_assoc))

  length-text : (ais : List AofInfo) → length ais ≤ length (text is_print prints ais)
  length-text [] = omega arith
  length-text (ai ∷ ais) = omega (
    arith,
    length-text ais,
    length-append {0} (info_line (written is_print prints ai.file_name) ai)
        (text is_print prints ais),
  )

module _ (is_print : ℕ → Bool) (prints : (c : ℕ) → 32 ≤ c → c < 127 → is_print c ≡ true)
    (equal_fold : Bytes → Bytes → Bool) (keys : TellsKeys equal_fold) where
  base_text :
      (base : Option AofInfo) (seq : ℤ)
      → IsBase base seq
      → format_base is_print base ≡ text is_print prints (base_files base)
  unfolding format_all aof_info_format
  base_text none seq no_base = refl
  base_text (some ai) seq (one_base i t) = format_all-text is_print prints [] (ai ∷ [])

  manifest_as_string-text :
      (am : AofManifest)
      → IsManifest am
      → manifest_as_string is_print am ≡ text is_print prints (files am)
  unfolding manifest_as_string
  manifest_as_string-text am h =
      rw
        (
          base_text am.base_aof_info am.curr_base_file_seq h.base,
          format_all-text is_print prints (text is_print prints (base_files am.base_aof_info))
              am.history_list,
          format_all-text is_print prints
              (text is_print prints (base_files am.base_aof_info)
                ++ text is_print prints am.history_list)
              am.incr_aof_list,
          text-append is_print prints (base_files am.base_aof_info ++ am.history_list)
              am.incr_aof_list,
          text-append is_print prints (base_files am.base_aof_info) am.history_list,
        )
        refl

  some_lines : (s : Loading) (n : ℕ) → 0 < n → at_eof s n ≡ ok (some s.am)
  some_lines s zero h = absurd (omega arith)
  some_lines s (suc n) h = refl

  -- A manifest that is written comes back as it was: its base file, its history and its incremental files
  -- in their order, with the two current numbers, also where a name has to be put in quotation marks. Each name
  -- is of printed ASCII, newlines and bells, without apostrophes, slashes and backslashes; no number is 0; those of the incremental files rise from above 0; no
  -- file of the history is called after `base.rdb`; there is a file. `IsPrint` says yes of printed ASCII, and
  -- `strings.EqualFold` tells the three keys apart.
  pub load_manifest_from_file-manifest_as_string :
      (am : AofManifest)
      → IsManifest am
      → load_manifest_from_file equal_fold (manifest_as_string is_print am) ≡ ok (some am)
  unfolding load_manifest_from_file
  load_manifest_from_file-manifest_as_string am h =
      rw
        (
          manifest_as_string-text am h,
          load_manifest_lines-text is_print prints equal_fold keys
              (suc (length (text is_print prints (files am)))) 0 empty_loading (files am)
              (files-IsInfo am h) (omega (arith, length-text is_print prints (files am))),
          add_files am h,
        )
        (some_lines (record { am = am; max_seq = last_seq (pos 0) am.incr_aof_list })
          (0 + length (files am)) (omega (arith, h.not_empty)))
