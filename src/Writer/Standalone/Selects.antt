-- ===== src/Writer/Standalone/Selects.antt =====
-- An entry that is itself a select, as the append-only files hold them.
use rdb_elasticache_migrator.Prelude.{Bool, ℕ, ◌<◌, ◌≤◌, ◌≡◌, true, false, List, [], ◌∷◌, arith}
use rdb_elasticache_migrator.Prelude.Int.{pos}
use rdb_elasticache_migrator.Runtime.{Bytes}
use rdb_elasticache_migrator.Writer.Standalone.{
  Entry, entry, Options, Shared, WritePhase, ready, writing, admitted, enqueued, bytes_counted,
  counted, ReplyPhase, idle, receiving, fine, Writer, new_writer, start, Event, comes, write_on,
  takes, answers, is_select, step, Run, begin, next,
}

abbrev pub one_by_one : Entry → List Event
one_by_one e =
    comes e ∷ write_on ∷ write_on ∷ write_on ∷ write_on ∷ write_on ∷ takes ∷ answers fine ∷ []

module _ (equal_fold : Bytes → Bytes → Bool) (size : Entry → ℕ) (opt : Options) where
  abbrev pub still_counted : Entry → Writer
  still_counted e = record {
    write = ready;
    reply = idle;
    shared = record start {
      unanswered_bytes = pos (size e);
      unanswered_entries = pos 1;
      sent = entry e ∷ [];
      replies = 1;
    };
  }

  -- An entry for the database 0 that is called select is counted when it is sent and not taken off when
  -- its reply comes: the writer has nothing left to wait for, and reports one unanswered entry.
  -- The entry is within the limit, the target answers, and the channel has room.
  pub still_counted-Run :
      (e : Entry)
      → is_select equal_fold size opt e ≡ true
      → e.db_id ≡ pos 0
      → size e ≤ opt.max_querybuf_len
      → opt.off_reply ≡ false
      → 0 < opt.capacity
      → Run equal_fold size opt new_writer (one_by_one e) (still_counted e)
  unfolding step
  still_counted-Run e named db fits on room = next {w' = at (writing e) idle start} (ground arith) (
      next {w' = at (admitted e) idle start} (ground arith) (
        next {w' = at (enqueued e) idle in_channel} (ground arith) (
          next {w' = at (bytes_counted e) idle with_bytes} (ground arith) (
            next {w' = at (counted e) idle with_entry} (ground arith) (
              next {w' = at ready idle gone} (ground arith) (
                next {w' = at ready (receiving e) (record gone { wait_reply = [] })} (ground arith)
                  (next {w' = still_counted e} (ground arith) begin)))))))
    where
      at : WritePhase → ReplyPhase → Shared → Writer
      at p q s = record { write = p; reply = q; shared = s }

      in_channel : Shared
      in_channel = record start { wait_reply = e ∷ [] }

      with_bytes : Shared
      with_bytes = record in_channel { unanswered_bytes = pos (size e) }

      with_entry : Shared
      with_entry = record with_bytes { unanswered_entries = pos 1 }

      gone : Shared
      gone = record with_entry { sent = entry e ∷ [] }
