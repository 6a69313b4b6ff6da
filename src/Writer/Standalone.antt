-- ===== src/Writer/Standalone.antt =====
-- `redisStandaloneWriter` of internal/writer/redis_standalone_writer.go: the goroutines `processWrite`
-- and `processReply` with the state they share, as steps that no other step comes between.
-- `strings.EqualFold` and the number of bytes that `Serialize` makes of an entry are arguments. What
-- `SendBytesBuff` takes may be flushed later, so a reply comes at any time after it.
pub mod Counts
pub mod Selects
pub mod Databases
pub mod Accounts
use rdb_elasticache_migrator.Prelude.{
  ◌≡◌, ℕ, ◌+◌, Bool, ◌&&◌, Option, none, some, List, [], ◌∷◌, ◌++◌, ltb, if◌then◌else◌, length,
  codes,
}
use rdb_elasticache_migrator.Prelude.Int.{ℤ, pos, ◌+ℤ◌, ◌-ℤ◌, eq_ℤ, leb_ℤ}
use rdb_elasticache_migrator.Runtime.{Bytes}
use rdb_elasticache_migrator.Runtime.Strings.{equal}
use rdb_elasticache_migrator.Runtime.Strconv.{format_int}

-- What the writer reads of an entry.
pub record Entry : Type 0 where
  pub db_id : ℤ
  pub argv : List Bytes
  pub cmd_name : Bytes

-- What goes to the target: a select of the writer's own, or an entry.
pub data Message : Type 0 where
  select : ℤ → Message
  entry : Entry → Message

-- The options that are read: `chWaitReply` has room for `capacity` entries.
pub record Options : Type 0 where
  pub off_reply : Bool
  pub capacity : ℕ
  pub max_querybuf_len : ℕ
  pub behavior : Bytes

-- What the two goroutines share, and the messages and replies so far.
pub record Shared : Type 0 where
  pub db_id : ℤ
  pub unanswered_bytes : ℤ
  pub unanswered_entries : ℤ
  pub wait_reply : List Entry
  pub sent : List Message
  pub replies : ℕ

-- Where `processWrite` stands with an entry.
pub data WritePhase : Type 0 where
  ready : WritePhase
  selecting writing admitted enqueued bytes_counted counted : Entry → WritePhase

-- Where `processReply` stands.
pub data ReplyPhase : Type 0 where
  idle : ReplyPhase
  receiving answered bytes_off : Entry → ReplyPhase

-- A reply of the target: none of the errors, the nil reply, the text of BUSYKEY, or another error.
pub data Reply : Type 0 where
  fine nil busy_key other_error : Reply

pub data Reaction : Type 0 where
  goes_on exits : Reaction

abbrev pub select_entry : ℤ → Entry
select_entry db = record {
  db_id = pos 0;
  argv = codes "select" ∷ format_int db ∷ [];
  cmd_name = codes "select";
}

abbrev pub start : Shared
start = record {
  db_id = pos 0;
  unanswered_bytes = pos 0;
  unanswered_entries = pos 0;
  wait_reply = [];
  sent = [];
  replies = 0;
}

pub record Writer : Type 0 where
  pub write : WritePhase
  pub reply : ReplyPhase
  pub shared : Shared

abbrev pub new_writer : Writer
new_writer = record { write = ready; reply = idle; shared = start }

-- The choices of the scheduler, of the source and of the target.
pub data Event : Type 0 where
  comes : Entry → Event
  write_on : Event
  takes : Event
  answers : Reply → Event
  reply_on : Event

-- A step that waits is no step.
abbrev pub written : Writer → Option (WritePhase × Shared) → Option Writer
written w none = none
written w (some (p, s)) = some (record w { write = p; shared = s })

abbrev pub replied : Writer → Option (ReplyPhase × Shared) → Option Writer
replied w none = none
replied w (some (q, s)) = some (record w { reply = q; shared = s })

abbrev reacting : Reaction → Option Writer → Option Writer
reacting goes_on o = o
reacting exits o = none

-- `StatusConsistent`
unfoldable pub status_consistent : Writer → Bool
status_consistent w =
    eq_ℤ w.shared.unanswered_bytes (pos 0) && eq_ℤ w.shared.unanswered_entries (pos 0)

module _ (equal_fold : Bytes → Bytes → Bool) (size : Entry → ℕ) (opt : Options) where
  abbrev pub is_select : Entry → Bool
  is_select e = equal_fold e.cmd_name (codes "select")

  -- `w.chWaitReply <- e`, which waits while the channel is full.
  abbrev pub put : Entry → WritePhase → Shared → Option (WritePhase × Shared)
  put e next s =
      if ltb (length s.wait_reply) opt.capacity
      then some (next, record s { wait_reply = s.wait_reply ++ e ∷ [] })
      else none

  -- An entry comes out of `w.ch`: `switchDbTo` sends its select.
  unfoldable pub take : Entry → WritePhase → Shared → Option (WritePhase × Shared)
  take e ready s =
      if eq_ℤ s.db_id e.db_id
      then some (writing e, s)
      else some (selecting e, record s { db_id = e.db_id; sent = s.sent ++ select e.db_id ∷ [] })
  take e _ s = none

  -- The next step of `processWrite` with the entry; `none` where it waits.
  unfoldable pub process_write : WritePhase → Shared → Option (WritePhase × Shared)
  process_write ready s = none
  process_write (selecting e) s =
      if opt.off_reply then some (writing e, s) else put (select_entry e.db_id) (writing e) s
  process_write (writing e) s =
      if leb_ℤ (pos (size e) +ℤ s.unanswered_bytes) (pos opt.max_querybuf_len)
      then some (admitted e, s)
      else none
  process_write (admitted e) s = if opt.off_reply then some (counted e, s) else put e (enqueued e) s
  process_write (enqueued e) s =
      some (bytes_counted e, record s { unanswered_bytes = s.unanswered_bytes +ℤ pos (size e) })
  process_write (bytes_counted e) s =
      some (counted e, record s { unanswered_entries = s.unanswered_entries +ℤ pos 1 })
  process_write (counted e) s = some (ready, record s { sent = s.sent ++ entry e ∷ [] })

  -- `for e := range w.chWaitReply`
  abbrev pub from_channel : List Entry → Shared → Option (ReplyPhase × Shared)
  from_channel [] s = none
  from_channel (e ∷ es) s = some (receiving e, record s { wait_reply = es })

  unfoldable pub receive : ReplyPhase → Shared → Option (ReplyPhase × Shared)
  receive idle s = from_channel s.wait_reply s
  receive _ s = none

  -- What `processReply` makes of a reply.
  unfoldable pub reaction : Reply → Reaction
  unfolding equal
  reaction fine = goes_on
  reaction nil = goes_on
  reaction busy_key = if equal opt.behavior (codes "panic") then exits else goes_on
  reaction other_error = exits

  abbrev pub behind_reply : Entry → ReplyPhase
  behind_reply e = if is_select e then idle else answered e

  -- The reply to the entry comes, behind the message it answers; the run goes on with it.
  unfoldable pub take_reply : ReplyPhase → Shared → Option (ReplyPhase × Shared)
  take_reply (receiving e) s =
      if ltb s.replies (length s.sent)
      then some (behind_reply e, record s { replies = s.replies + 1 })
      else none
  take_reply _ s = none

  unfoldable pub process_reply : ReplyPhase → Shared → Option (ReplyPhase × Shared)
  process_reply (answered e) s =
      some (bytes_off e, record s { unanswered_bytes = s.unanswered_bytes -ℤ pos (size e) })
  process_reply (bytes_off e) s =
      some (idle, record s { unanswered_entries = s.unanswered_entries -ℤ pos 1 })
  process_reply _ s = none

  unfoldable pub step : Event → Writer → Option Writer
  unfolding take process_write receive take_reply process_reply reaction
  step (comes e) w = written w (take e w.write w.shared)
  step write_on w = written w (process_write w.write w.shared)
  step takes w = replied w (receive w.reply w.shared)
  step (answers r) w = reacting (reaction r) (replied w (take_reply w.reply w.shared))
  step reply_on w = replied w (process_reply w.reply w.shared)

  -- A run: the events in their order, none of which waits or ends the process.
  pub data Run : Writer → List Event → Writer → Type 0 where
    begin : {w : Writer} → Run w [] w
    next :
        {w w' w'' : Writer} {v : Event} {vs : List Event}
        → step v w ≡ some w'
        → Run w' vs w''
        → Run w (v ∷ vs) w''
