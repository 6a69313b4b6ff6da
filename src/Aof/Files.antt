-- ===== src/Aof/Files.antt =====
-- `LoadAppendOnlyFile` of internal/reader/parsing_aof.go: the files of a manifest, one after the other.
-- The files of the directory are an argument. A base file in RDB form goes to a reader of its own, whose
-- channel nobody reads, so it sends nothing here.
pub mod Unread
use rdb_elasticache_migrator.Aof.Line.{Buffer}
use rdb_elasticache_migrator.Prelude.{
  ℕ, zero, suc, ◌+◌, Bool, true, false, Option, none, some, List, [], ◌∷◌, ◌++◌, ◌==◌,
  if◌then◌else◌, length, codes,
}
use rdb_elasticache_migrator.Prelude.Int.{ℤ, pos, negsuc, ◌-ℤ◌, eq_ℤ}
use rdb_elasticache_migrator.Runtime.{Bytes, Result, ok, panic, bad_format, out_of_range}
use rdb_elasticache_migrator.Runtime.Outcome.{◌>>=◌}
use rdb_elasticache_migrator.Runtime.Strings.{equal, has_prefix}
use rdb_elasticache_migrator.Runtime.Emit.{Command}
use rdb_elasticache_migrator.Aof.Single.{
  Ret, aof_ok, not_exist, aof_empty, open_err, failed, truncated, Load, File, absent, unreadable,
  present, load_single,
}
use rdb_elasticache_migrator.Aof.Manifest.{AofInfo, AofManifest}

abbrev pub ended : Result Ret → Load
ended r = record { sent = []; ret = r }

abbrev pub after : List Command → Load → Load
after cs l = record { sent = cs ++ l.sent; ret = l.ret }

-- Behind the files of a loop: the return, or what was sent with `totalNum` and `ret`.
pub data Files : Type 0 where
  returned : Load → Files
  goes_on : List Command → ℤ → Ret → Files

abbrev pub also_sent : List Command → Files → Files
also_sent cs (returned l) = returned (after cs l)
also_sent cs (goes_on ds total_num ret) = goes_on (cs ++ ds) total_num ret

module _ (buffer : Buffer) (cancelled : ℕ → Bool) (files : Bytes → File) where
  abbrev pub size_of : File → Result ℕ
  size_of absent = panic bad_format
  size_of (unreadable bs) = ok (length bs)
  size_of (present bs) = ok (length bs)

  -- `GetAppendOnlyFileSize`
  abbrev pub file_size : AofInfo → Result ℕ
  file_size ai = size_of (files ai.file_name)

  -- `ParsingSingleAppendOnlyFile`
  abbrev pub parse_file : ℤ → File → Load
  parse_file timestamp absent = ended (ok not_exist)
  parse_file timestamp (unreadable bs) = ended (panic out_of_range)
  parse_file timestamp (present bs) =
      if has_prefix bs (codes "REDIS")
      then ended (ok aof_ok)
      else load_single buffer cancelled timestamp (present bs)

  unfoldable pub parse_single : ℤ → AofInfo → Load
  unfolding has_prefix
  parse_single timestamp ai = parse_file timestamp (files ai.file_name)

  -- The loop over the history in `GetBaseAndIncrAppendOnlyFilesSize`, with the type that it asks for.
  unfoldable pub list_size : List AofInfo → Result ℕ
  unfolding equal
  list_size [] = ok 0
  list_size (ai ∷ ais) =
      if equal ai.aof_file_type (codes "i")
      then (file_size ai >>= λ n. list_size ais >>= λ m. ok (n + m))
      else panic bad_format

  abbrev pub base_size : Option AofInfo → Result ℕ
  base_size none = ok 0
  base_size (some ai) =
      if equal ai.aof_file_type (codes "b") then file_size ai else panic bad_format

  unfoldable pub total_size : AofManifest → Result ℕ
  unfolding list_size
  total_size am = base_size am.base_aof_info >>= λ n. list_size am.history_list >>= λ m. ok (n + m)

  -- What the return value of one file of a list comes to.
  abbrev pub behind_file : List Command → Result Ret → Files → Files
  behind_file cs (panic e) later = returned (record { sent = cs; ret = panic e })
  behind_file cs (ok aof_ok) later = returned (record { sent = cs; ret = ok aof_ok })
  behind_file cs (ok truncated) later = returned (record { sent = cs; ret = ok truncated })
  behind_file cs (ok open_err) later = returned (record { sent = cs; ret = panic bad_format })
  behind_file cs (ok failed) later = returned (record { sent = cs; ret = ok failed })
  behind_file cs (ok aof_empty) later = also_sent cs later
  behind_file cs (ok not_exist) later = also_sent cs later

  -- `ret` as the file leaves it.
  abbrev pub left : Ret → Result Ret → Ret
  left ret (ok aof_empty) = aof_ok
  left ret (ok r) = r
  left ret (panic e) = ret

  -- The loops over the history and over the incremental files.
  unfoldable pub load_list : Bytes → ℤ → List AofInfo → ℤ → Ret → Files
  unfolding parse_single equal
  load_list kind timestamp [] total_num ret = goes_on [] total_num ret
  load_list kind timestamp (ai ∷ ais) total_num ret =
      let l = parse_single timestamp ai in
      let later = load_list kind timestamp ais (total_num -ℤ pos 1) (left ret l.ret) in
      if equal ai.aof_file_type kind
      then behind_file l.sent l.ret later
      else returned (ended (panic bad_format))

  -- `All AOF files have been sent`, or not.
  abbrev pub at_end : Files → Load
  at_end (returned l) = l
  at_end (goes_on cs total_num ret) = record {
    sent = cs;
    ret = if eq_ℤ total_num (pos 0) then ok ret else panic bad_format;
  }

  abbrev pub then_list : ℤ → List AofInfo → Files → Files
  then_list timestamp ais (returned l) = returned l
  then_list timestamp ais (goes_on cs total_num ret) =
      also_sent cs (load_list (codes "i") timestamp ais total_num ret)

  -- Behind the base file.
  abbrev pub behind_base : List Command → Result Ret → (Ret → Files) → Files
  behind_base cs (panic e) later = returned (record { sent = cs; ret = panic e })
  behind_base cs (ok open_err) later = returned (record { sent = cs; ret = panic bad_format })
  behind_base cs (ok failed) later = returned (record { sent = cs; ret = panic bad_format })
  behind_base cs (ok r) later = also_sent cs (later (left aof_ok (ok r)))

  abbrev pub incr_left : AofManifest → Ret → Files
  incr_left am ret = goes_on [] (pos (length am.incr_aof_list)) ret

  abbrev pub load_base : ℤ → AofManifest → Option AofInfo → Files
  load_base timestamp am (some ai) =
      let l = parse_single (pos 0) ai in
      if equal ai.aof_file_type (codes "b")
      then behind_base l.sent l.ret (incr_left am)
      else incr_left am aof_ok
  load_base timestamp am none =
      load_list (codes "h") timestamp am.history_list
        (pos (length am.history_list + length am.incr_aof_list)) aof_ok

  abbrev pub base_num : Option AofInfo → ℕ
  base_num none = 0
  base_num (some _) = 1

  abbrev pub with_size : ℤ → AofManifest → Result ℕ → Load
  with_size timestamp am (panic e) = ended (panic e)
  with_size timestamp am (ok zero) = ended (ok aof_empty)
  with_size timestamp am (ok (suc _)) =
      at_end (then_list timestamp am.incr_aof_list (load_base timestamp am am.base_aof_info))

  -- A manifest that is there; without one, and without a base file and incremental files, the run ends.
  unfoldable pub load_append_only_file : ℤ → Option AofManifest → Load
  unfolding load_list total_size
  load_append_only_file timestamp none = ended (panic bad_format)
  load_append_only_file timestamp (some am) =
      if base_num am.base_aof_info + length am.incr_aof_list == 0
      then ended (panic bad_format)
      else with_size timestamp am (total_size am)
