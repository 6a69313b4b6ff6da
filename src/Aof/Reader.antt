-- ===== src/Aof/Reader.antt =====
-- `StartRead` of internal/reader/aof_reader.go and `AOFLoadManifestFromDisk` of parsing_aof.go: the path
-- is tried as a manifest first. Whether the directory is there, and its files, are arguments.
pub mod Fallback
use rdb_elasticache_migrator.Aof.Line.{Buffer}
use rdb_elasticache_migrator.Prelude.{ℕ, Bool, true, false, Option, none, some, List}
use rdb_elasticache_migrator.Prelude.Int.{ℤ}
use rdb_elasticache_migrator.Runtime.{Bytes, Result, ok, panic, bad_format}
use rdb_elasticache_migrator.Aof.Single.{Load, File, absent, unreadable, present, load_single}
use rdb_elasticache_migrator.Aof.Manifest.{AofManifest, new_manifest, load_manifest_from_file}
use rdb_elasticache_migrator.Aof.Files.{ended, load_append_only_file}

module _ (buffer : Buffer) (cancelled : ℕ → Bool) (equal_fold : Bytes → Bytes → Bool)
    (dir_exists : Bool) (files : Bytes → File) where
  abbrev manifest_of : Bool → File → Result (Option AofManifest)
  manifest_of false file = ok none
  manifest_of true absent = ok (some new_manifest)
  manifest_of true (unreadable bs) = panic bad_format
  manifest_of true (present bs) = load_manifest_from_file equal_fold bs

  unfoldable pub load_manifest_from_disk : Bytes → Result (Option AofManifest)
  load_manifest_from_disk path = manifest_of dir_exists (files path)

  abbrev with_manifest : ℤ → Bytes → Result (Option AofManifest) → Load
  with_manifest timestamp path (panic e) = ended (panic e)
  with_manifest timestamp path (ok none) = load_single buffer cancelled timestamp (files path)
  with_manifest timestamp path (ok (some am)) =
      load_append_only_file buffer cancelled files timestamp (some am)

  -- The entries that come out of the channel, and how the goroutine ends.
  unfoldable pub start_read : ℤ → Bytes → Load
  unfolding load_manifest_from_disk
  start_read timestamp path = with_manifest timestamp path (load_manifest_from_disk path)
