-- ===== src/Tests/Aof.antt =====
-- internal/aof and internal/reader/parsing_aof.go.
use rdb_elasticache_migrator.Prelude.{
  true, ◌==◌, if◌then◌else◌, ◌≡◌, ◌≢◌, refl, false, ◌&&◌, some, [], ◌∷◌, ltb, leb, arith, codes,
}
use rdb_elasticache_migrator.Prelude.Int.{pos}
use rdb_elasticache_migrator.Runtime.{bad_format, Bytes, ok, panic, out_of_range, out_of_fuel}
use rdb_elasticache_migrator.Runtime.Emit.{Each}
use rdb_elasticache_migrator.Runtime.Strconv.{parse_int_value}
use rdb_elasticache_migrator.Runtime.Bufio.{read_line}
use rdb_elasticache_migrator.Runtime.Strings.{equal, nothing, also}
use rdb_elasticache_migrator.Aof.Line.{Buffer, read_complete_line}
use rdb_elasticache_migrator.Aof.Single.{absent, File, aof_ok, truncated, present, load_single}
use rdb_elasticache_migrator.Aof.Single.RoundTrip.{
  IsArg, wanted, ending, entry, time, save_items, load_single-save_items,
}
use rdb_elasticache_migrator.Aof.Split.{split_args}
use rdb_elasticache_migrator.Aof.Split.Ends.{split_args-ends}
use rdb_elasticache_migrator.Aof.Manifest.{
  path_is_base_name, AofInfo, AofManifest, manifest_as_string, load_manifest_from_file,
}
use rdb_elasticache_migrator.Aof.Manifest.Format.{load_manifest_from_file-manifest_as_string}
use rdb_elasticache_migrator.Aof.Manifest.Quoted.Quotable.{printed, quote, newline}
use rdb_elasticache_migrator.Aof.Manifest.Format.Line.{TellsKeys, IsInfo, base, incr}
use rdb_elasticache_migrator.Aof.Manifest.Format.Load.{IsManifest, one_base, rise, no_more}
use rdb_elasticache_migrator.Aof.Reader.{start_read}
use rdb_elasticache_migrator.Aof.Reader.Fallback.{start_read-save_items}
use rdb_elasticache_migrator.Aof.Files.{ended, file_size, parse_single, load_append_only_file}
use rdb_elasticache_migrator.Aof.Files.Unread.{
  of_type, load_append_only_file_first, load_append_only_file_history,
}

-- Memory that is left alone, and no slice beyond a line.
abbrev buffer : Buffer
buffer = record { kept = λ chunk rest. chunk; reslice = λ text rest n. panic out_of_range }

ping-IsArg : Each IsArg (codes "PING" ∷ [])
ping-IsArg = (
  (
    also (omega arith) (also (omega arith) (also (omega arith) (also (omega arith) nothing))),
    omega arith,
  ),
  tt,
)

exec-IsArg : Each IsArg (codes "EXEC" ∷ [])
exec-IsArg = (
  (
    also (omega arith) (also (omega arith) (also (omega arith) (also (omega arith) nothing))),
    omega arith,
  ),
  tt,
)

load_single-save_items_example :
    load_single buffer
      (λ n. false)
      (pos 5)
      (present
        (save_items (entry (codes "PING" ∷ []) ∷ time (pos 7) ∷ entry (codes "EXEC" ∷ []) ∷ [])))
    ≡ record { sent = (codes "PING" ∷ []) ∷ []; ret = ok truncated }
unfolding wanted ending
load_single-save_items_example =
    load_single-save_items buffer (λ n. false) (λ n. refl) (pos 5)
      (entry (codes "PING" ∷ []) ∷ time (pos 7) ∷ entry (codes "EXEC" ∷ []) ∷ [])
      (
        (ping-IsArg, omega arith, omega arith),
        (omega arith, ((exec-IsArg, omega arith, omega arith), tt)),
      )

start_read-save_items_example :
    start_read buffer
      (λ n. false)
      equal
      true
      (λ name. present (save_items (entry (codes "PING" ∷ []) ∷ time (pos 7) ∷ [])))
      (pos 5)
      (codes "a.aof")
    ≡ record { sent = (codes "PING" ∷ []) ∷ []; ret = ok truncated }
unfolding wanted ending
start_read-save_items_example =
    start_read-save_items equal buffer (λ n. false) (λ n. refl)
      (λ name. present (save_items (entry (codes "PING" ∷ []) ∷ time (pos 7) ∷ []))) (codes "a.aof")
      (pos 5) (codes "PING" ∷ []) (time (pos 7) ∷ [])
      ((ping-IsArg, omega arith, omega arith), (omega arith, tt)) refl

split_args-ends_example : split_args (codes "file \"a") ≢ panic out_of_fuel
split_args-ends_example = split_args-ends (codes "file \"a")

split_args_run :
    split_args (codes " a  'b c' \"d\\\"\" ")
    ≡ ok (some (codes "a" ∷ codes "b c" ∷ codes "d\"" ∷ []))
unfolding split_args
split_args_run = refl

abbrev base_file : AofInfo
base_file = record { file_name = codes "a.base"; file_seq = pos 1; aof_file_type = codes "b" }

abbrev incr_file : AofInfo
incr_file = record { file_name = codes "a \"\nin"; file_seq = pos 2; aof_file_type = codes "i" }

abbrev two_files : AofManifest
two_files = record {
  base_aof_info = some base_file;
  incr_aof_list = incr_file ∷ [];
  history_list = [];
  curr_base_file_seq = pos 1;
  curr_incr_file_seq = pos 2;
}

equal-TellsKeys : TellsKeys equal
unfolding equal
equal-TellsKeys = record {
  file = refl;
  seq = refl;
  type = refl;
  seq_file = refl;
  type_file = refl;
  type_seq = refl;
}

base_file-IsInfo : IsInfo base_file
unfolding path_is_base_name
base_file-IsInfo = record {
  name_letters = (
    printed (omega arith) (omega arith) (omega arith) (omega arith) (omega arith),
    (
      printed (omega arith) (omega arith) (omega arith) (omega arith) (omega arith),
      (
        printed (omega arith) (omega arith) (omega arith) (omega arith) (omega arith),
        (
          printed (omega arith) (omega arith) (omega arith) (omega arith) (omega arith),
          (
            printed (omega arith) (omega arith) (omega arith) (omega arith) (omega arith),
            (printed (omega arith) (omega arith) (omega arith) (omega arith) (omega arith), tt),
          ),
        ),
      ),
    ),
  );
  name_full = omega arith;
  name_base = refl;
  seq_int = omega arith;
  seq_set = refl;
  kind = base;
}

incr_file-IsInfo : IsInfo incr_file
unfolding path_is_base_name
incr_file-IsInfo = record {
  name_letters = (
    printed (omega arith) (omega arith) (omega arith) (omega arith) (omega arith),
    (
      printed (omega arith) (omega arith) (omega arith) (omega arith) (omega arith),
      (
        quote,
        (
          newline,
          (
            printed (omega arith) (omega arith) (omega arith) (omega arith) (omega arith),
            (printed (omega arith) (omega arith) (omega arith) (omega arith) (omega arith), tt),
          ),
        ),
      ),
    ),
  );
  name_full = omega arith;
  name_base = refl;
  seq_int = omega arith;
  seq_set = refl;
  kind = incr;
}

two_files-IsManifest : IsManifest two_files
two_files-IsManifest = record {
  base = one_base base_file-IsInfo refl;
  history = tt;
  incr = rise incr_file-IsInfo refl refl no_more;
  last = refl;
  not_empty = omega arith;
}

load_manifest_from_file-manifest_as_string_example :
    load_manifest_from_file equal (manifest_as_string (λ c. leb 32 c && ltb c 127) two_files)
    ≡ ok (some two_files)
load_manifest_from_file-manifest_as_string_example =
    load_manifest_from_file-manifest_as_string (λ c. leb 32 c && ltb c 127)
      (λ c lo hi. ground arith) equal equal-TellsKeys two_files two_files-IsManifest

-- Three files of which only the first two are read.
abbrev three_files : Bytes → File
three_files [] = absent
three_files (c ∷ name) =
    if c == b'b' then present (codes "#\r\n") else present (codes "*1\r\n$4\r\nPING\r\n")

base_size :
    file_size buffer (λ n. false) three_files (of_type (codes "b") (codes "b") (pos 1)) ≡ ok 3
base_size = refl

base_parsed :
    parse_single buffer (λ n. false) three_files (pos 0) (of_type (codes "b") (codes "b") (pos 1))
    ≡ record { sent = []; ret = ok aof_ok }
unfolding parse_single load_single read_complete_line read_line
base_parsed = refl

incr_parsed :
    parse_single buffer (λ n. false) three_files (pos 0) (of_type (codes "i") (codes "i") (pos 1))
    ≡ record { sent = (codes "PING" ∷ []) ∷ []; ret = ok aof_ok }
unfolding parse_single load_single parse_int_value read_complete_line
incr_parsed = refl

load_append_only_file_first_example :
    load_append_only_file buffer
      (λ n. false)
      three_files
      (pos 0)
      (some (record two_files {
        base_aof_info = some (of_type (codes "b") (codes "b") (pos 1));
        incr_aof_list =
            of_type (codes "i") (codes "i") (pos 1) ∷ of_type (codes "i") (codes "j") (pos 2) ∷ [];
        history_list = [];
      }))
    ≡ record { sent = (codes "PING" ∷ []) ∷ []; ret = ok aof_ok }
load_append_only_file_first_example =
    load_append_only_file_first buffer (λ n. false) three_files (pos 0) two_files (codes "b")
      (codes "i") (pos 1) (pos 1) (of_type (codes "i") (codes "j") (pos 2) ∷ []) []
      ((codes "PING" ∷ []) ∷ []) 2 base_size base_parsed incr_parsed

load_append_only_file_history_example :
    load_append_only_file buffer
      (λ n. false)
      three_files
      (pos 0)
      (some (record two_files { history_list = of_type (codes "h") (codes "a") (pos 1) ∷ [] }))
    ≡ ended (panic bad_format)
load_append_only_file_history_example =
    load_append_only_file_history buffer (λ n. false) three_files (pos 0) two_files (codes "a")
      (pos 1) []
