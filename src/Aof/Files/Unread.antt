-- ===== src/Aof/Files/Unread.antt =====
-- The files of a manifest that are never read.
use rdb_elasticache_migrator.Aof.Line.{Buffer}
use rdb_elasticache_migrator.Prelude.{
  ℕ, suc, ◌+◌, ◌≡◌, ◌⊎◌, inl, inr, refl, ap, Bool, true, false, Option, none, some, List, [], ◌∷◌,
  ◌++◌, ◌==◌, append-nil, length, arith, codes, if◌then◌else◌,
}
use rdb_elasticache_migrator.Prelude.Int.{ℤ, pos}
use rdb_elasticache_migrator.Runtime.{Bytes, Result, ok, panic, bad_format}
use rdb_elasticache_migrator.Runtime.Outcome.{◌>>=◌}
use rdb_elasticache_migrator.Runtime.Strings.{equal}
use rdb_elasticache_migrator.Runtime.Emit.{Command}
use rdb_elasticache_migrator.Aof.Single.{aof_ok, Load, File, absent, unreadable, present}
use rdb_elasticache_migrator.Aof.Manifest.{AofInfo, AofManifest}
use rdb_elasticache_migrator.Aof.Files.{
  ended, size_of, file_size, parse_single, list_size, base_size, total_size, load_list, with_size,
  load_append_only_file, base_num,
}

-- A file of the manifest of the given type.
abbrev pub of_type : Bytes → Bytes → ℤ → AofInfo
of_type type name seq = record { file_name = name; file_seq = seq; aof_file_type = type }

module _ (buffer : Buffer) (cancelled : ℕ → Bool) (files : Bytes → File) where
  plus_zero : (k : ℕ) → suc k + 0 ≡ suc k
  plus_zero k = omega arith

  some_files : (n : ℕ) → (1 + suc n == 0) ≡ false
  some_files n = ground arith

  -- Behind the first incremental file that is read to its end the run returns: whatever other incremental
  -- files the manifest has, what is sent are the entries of the base file and of that one file. The base
  -- file has some bytes, and there is no history.
  pub load_append_only_file_first :
      (timestamp : ℤ) (am : AofManifest) (b i : Bytes) (m n : ℤ) (rest : List AofInfo)
      (cs ds : List Command) (k : ℕ)
      → file_size buffer cancelled files (of_type (codes "b") b m) ≡ ok (suc k)
      → parse_single buffer cancelled files (pos 0) (of_type (codes "b") b m)
        ≡ record { sent = cs; ret = ok aof_ok }
      → parse_single buffer cancelled files timestamp (of_type (codes "i") i n)
        ≡ record { sent = ds; ret = ok aof_ok }
      → load_append_only_file buffer cancelled files timestamp (
          some (record am {
            base_aof_info = some (of_type (codes "b") b m);
            incr_aof_list = of_type (codes "i") i n ∷ rest;
            history_list = [];
          }))
        ≡ record { sent = cs ++ ds; ret = ok aof_ok }
  unfolding load_append_only_file load_list total_size list_size equal
  load_append_only_file_first timestamp am b i m n rest cs ds k size base incr =
      rw (size, some_files (length rest), plus_zero k, base, incr)
        (ap (λ t. record { sent = t ++ ds; ret = ok aof_ok }) (append-nil cs))

  base_size_cases :
      (o : Option AofInfo)
      → ((k : ℕ) × (base_size buffer cancelled files o ≡ ok k))
        ⊎ (base_size buffer cancelled files o ≡ panic bad_format)
  base_size_cases none = inl (0, refl)
  base_size_cases (some ai) = by_type (equal ai.aof_file_type (codes "b")) (files ai.file_name)
    where
      by_type :
          (t : Bool) (f : File)
          → ((k : ℕ) × ((if t then size_of buffer cancelled files f else panic bad_format) ≡ ok k))
            ⊎ ((if t then size_of buffer cancelled files f else panic bad_format)
                ≡ panic bad_format)
      by_type false f = inr refl
      by_type true absent = inr refl
      by_type true (unreadable bs) = inl (length bs, refl)
      by_type true (present bs) = inl (length bs, refl)

  -- A manifest with a history whose first file has the type of a history ends the run before anything is
  -- sent, because the sizes are asked of the history as of incremental files.
  pub load_append_only_file_history :
      (timestamp : ℤ) (am : AofManifest) (name : Bytes) (n : ℤ) (rest : List AofInfo)
      → load_append_only_file buffer cancelled files timestamp
          (some (record am { history_list = of_type (codes "h") name n ∷ rest }))
        ≡ ended (panic bad_format)
  unfolding load_append_only_file total_size list_size equal
  load_append_only_file_history timestamp am name n rest =
      at_sizes (base_num buffer cancelled files am.base_aof_info + length am.incr_aof_list == 0)
        (base_size buffer cancelled files am.base_aof_info) (base_size_cases am.base_aof_info)
    where
      sizes : Result ℕ → Load
      sizes r =
          with_size buffer cancelled files timestamp
            (record am { history_list = of_type (codes "h") name n ∷ rest })
            (r >>= λ k. panic bad_format)

      at_sizes :
          (t : Bool) (r : Result ℕ)
          → ((k : ℕ) × (r ≡ ok k)) ⊎ (r ≡ panic bad_format)
          → (if t then ended (panic bad_format) else sizes r) ≡ ended (panic bad_format)
      at_sizes true r e = refl
      at_sizes false r (inl (k, e)) = rw (e) refl
      at_sizes false r (inr e) = rw (e) refl
