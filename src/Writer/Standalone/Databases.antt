-- ===== src/Writer/Standalone/Databases.antt =====
-- What the target makes of the messages: each entry in its database.
use mathlib.Core.Path.{subst}
use rdb_elasticache_migrator.Runtime.Emit.{Each}
use rdb_elasticache_migrator.Writer.Standalone.Counts.{NoSelect, Named}
use rdb_elasticache_migrator.Writer.Standalone.Accounts.{Proper}
use rdb_elasticache_migrator.Writer.Standalone.{is_select}
use rdb_elasticache_migrator.Prelude.{
  ℕ, ◌+◌, ◌≡◌, refl, sym, ap, ◌∙◌, Bool, true, false, inl, inr, Bool-cases, Option, none, some,
  List, [], ◌∷◌, ◌++◌, map, append_assoc, append-nil, arith, if◌then◌else◌, ltb, length,
}
use rdb_elasticache_migrator.Prelude.Int.{ℤ, pos, negsuc, eq_ℤ, leb_ℤ, ◌+ℤ◌}
use rdb_elasticache_migrator.Runtime.{Bytes}
use rdb_elasticache_migrator.Writer.Standalone.{
  is_select, Entry, Message, select, entry, Options, Shared, WritePhase, ready, selecting, writing,
  admitted, enqueued, bytes_counted, counted, ReplyPhase, idle, receiving, answered, bytes_off,
  Reaction, goes_on, exits, Writer, new_writer, Event, comes, write_on, takes, answers, reply_on,
  from_channel, behind_reply, written, replied, reacting, reaction, take, process_write, receive,
  take_reply, process_reply, step, Run, begin, next,
}

-- A target with its current database, `behind e db` after the entry `e`: a select of the writer changes it, and so
-- may an entry, which is executed in it.
pub served : (Entry → ℤ → ℤ) → ℤ → List Message → List (ℤ × List Bytes)
served behind db [] = []
served behind db (select d ∷ ms) = served behind d ms
served behind db (entry e ∷ ms) = (db, e.argv) ∷ served behind (behind e db) ms

last_db : (Entry → ℤ → ℤ) → ℤ → List Message → ℤ
last_db behind db [] = db
last_db behind db (select d ∷ ms) = last_db behind d ms
last_db behind db (entry e ∷ ms) = last_db behind (behind e db) ms

abbrev pub target : Entry → ℤ × List Bytes
target e = (e.db_id, e.argv)

abbrev pub in_hand : WritePhase → List Entry
in_hand ready = []
in_hand (selecting e) = e ∷ []
in_hand (writing e) = e ∷ []
in_hand (admitted e) = e ∷ []
in_hand (enqueued e) = e ∷ []
in_hand (bytes_counted e) = e ∷ []
in_hand (counted e) = e ∷ []

-- The entries that came, in their order.
abbrev pub came : List Event → List Entry
came [] = []
came (comes e ∷ vs) = e ∷ came vs
came (write_on ∷ vs) = came vs
came (takes ∷ vs) = came vs
came (answers r ∷ vs) = came vs
came (reply_on ∷ vs) = came vs

abbrev InDb : ℤ → List Entry → Type 0
InDb db [] = Unit
InDb db (e ∷ es) = e.db_id ≡ db

eq_ℤ_sound : (a b : ℤ) → eq_ℤ a b ≡ true → a ≡ b
eq_ℤ_sound (pos a) (pos b) h = ground arith
eq_ℤ_sound (pos a) (negsuc b) h = ground arith
eq_ℤ_sound (negsuc a) (pos b) h = ground arith
eq_ℤ_sound (negsuc a) (negsuc b) h = ground arith

module _ (behind : Entry → ℤ → ℤ) where
  last_db-select :
      (db : ℤ) (ms : List Message) (d : ℤ) → last_db behind db (ms ++ select d ∷ []) ≡ d
  unfolding last_db
  last_db-select db [] d = refl
  last_db-select db (select c ∷ ms) d = last_db-select c ms d
  last_db-select db (entry e ∷ ms) d = last_db-select (behind e db) ms d

  last_db-entry :
      (db : ℤ) (ms : List Message) (e : Entry)
      → last_db behind db (ms ++ entry e ∷ []) ≡ behind e (last_db behind db ms)
  unfolding last_db
  last_db-entry db [] e = refl
  last_db-entry db (select c ∷ ms) e = last_db-entry c ms e
  last_db-entry db (entry f ∷ ms) e = last_db-entry (behind f db) ms e

  served-select :
      (db : ℤ) (ms : List Message) (d : ℤ)
      → served behind db (ms ++ select d ∷ []) ≡ served behind db ms
  unfolding served
  served-select db [] d = refl
  served-select db (select c ∷ ms) d = served-select c ms d
  served-select db (entry e ∷ ms) d = ap (λ t. (db, e.argv) ∷ t) (served-select (behind e db) ms d)

  served-entry :
      (db : ℤ) (ms : List Message) (e : Entry)
      → served behind db (ms ++ entry e ∷ [])
        ≡ served behind db ms ++ (last_db behind db ms, e.argv) ∷ []
  unfolding served last_db
  served-entry db [] e = refl
  served-entry db (select c ∷ ms) e = served-entry c ms e
  served-entry db (entry f ∷ ms) e = ap (λ t. (db, f.argv) ∷ t) (served-entry (behind f db) ms e)

map_snoc :
    (es : List Entry) (e : Entry) → map target (es ++ e ∷ []) ≡ map target es ++ target e ∷ []
map_snoc [] e = refl
map_snoc (x ∷ es) e = ap (λ t. target x ∷ t) (map_snoc es e)

-- `chosen` is the database that a target goes to at an entry that is a select.
module _ (equal_fold : Bytes → Bytes → Bool) (size : Entry → ℕ) (opt : Options)
    (chosen : List Bytes → ℤ) where
  abbrev pub behind : Entry → ℤ → ℤ
  behind e db = if is_select equal_fold size opt e then chosen e.argv else db

  -- The state behind the entries `es`.
  abbrev Follows : List Entry → WritePhase → Shared → Type 0
  Follows es p s =
      (last_db behind (pos 0) s.sent ≡ s.db_id)
      × InDb s.db_id (in_hand p)
      × Named equal_fold size opt p
      × (served behind (pos 0) s.sent ++ map target (in_hand p) ≡ map target es)

  abbrev Stays : List Entry → Option (WritePhase × Shared) → Type 0
  Stays es none = Unit
  Stays es (some (p, s)) = Follows es p s

  Stays-if :
      (es : List Entry) (t : Bool) (x y : Option (WritePhase × Shared))
      → Stays es x
      → Stays es y
      → Stays es (if t then x else y)
  Stays-if es true x y h k = h
  Stays-if es false x y h k = k

  take-Follows :
      (es : List Entry) (e : Entry) (p : WritePhase) (s : Shared)
      → NoSelect equal_fold size opt e
      → Follows es p s
      → Stays (es ++ e ∷ []) (take equal_fold size opt e p s)
  unfolding take
  take-Follows es e ready s h (db, hand, named, done) =
      let more =
        ap (λ t. t ++ target e ∷ []) (sym (append-nil (served behind (pos 0) s.sent)) ∙ done)
        ∙ sym (map_snoc es e) in
      elim (Bool-cases (eq_ℤ s.db_id e.db_id)) [
        | inl t ↦ rw (t) (db, sym (eq_ℤ_sound s.db_id e.db_id t), h, more)
        | inr t ↦ rw (t) (
          last_db-select behind (pos 0) s.sent e.db_id,
          refl,
          h,
          ap (λ t. t ++ target e ∷ []) (served-select behind (pos 0) s.sent e.db_id) ∙ more,
        )
      ]
  take-Follows es e (selecting x) s h f = tt
  take-Follows es e (writing x) s h f = tt
  take-Follows es e (admitted x) s h f = tt
  take-Follows es e (enqueued x) s h f = tt
  take-Follows es e (bytes_counted x) s h f = tt
  take-Follows es e (counted x) s h f = tt

  process_write-Follows :
      (es : List Entry) (p : WritePhase) (s : Shared)
      → Follows es p s
      → Stays es (process_write equal_fold size opt p s)
  unfolding process_write
  process_write-Follows es ready s f = tt
  process_write-Follows es (selecting e) s f =
      Stays-if es opt.off_reply _ _ f
        (Stays-if es (ltb (length s.wait_reply) opt.capacity) _ _ f tt)
  process_write-Follows es (writing e) s f =
      Stays-if es (leb_ℤ (pos (size e) +ℤ s.unanswered_bytes) (pos opt.max_querybuf_len)) _ _ f tt
  process_write-Follows es (admitted e) s f =
      Stays-if es opt.off_reply _ _ f
        (Stays-if es (ltb (length s.wait_reply) opt.capacity) _ _ f tt)
  process_write-Follows es (enqueued e) s f = f
  process_write-Follows es (bytes_counted e) s f = f
  process_write-Follows es (counted e) s (db, hand, named, done) = (
    last_db-entry behind (pos 0) s.sent e ∙ rw (named) db,
    tt,
    tt,
    append-nil (served behind (pos 0) (s.sent ++ entry e ∷ []))
        ∙ served-entry behind (pos 0) s.sent e
        ∙ ap (λ d. served behind (pos 0) s.sent ++ (d, e.argv) ∷ []) (db ∙ sym hand)
        ∙ done,
  )

  abbrev On : List Entry → Option Writer → Type 0
  On es none = Unit
  On es (some w) = Follows es w.write w.shared

  written-On :
      (es : List Entry) (w : Writer) (o : Option (WritePhase × Shared))
      → Stays es o
      → On es (written w o)
  written-On es w none h = tt
  written-On es w (some (p, s)) h = h

  reacting-On :
      (es : List Entry) (r : Reaction) (o : Option Writer) → On es o → On es (reacting r o)
  reacting-On es goes_on o h = h
  reacting-On es exits o h = tt

  -- The other goroutine touches neither the messages nor the database.
  receive-On :
      (es : List Entry) (w : Writer) (q : ReplyPhase)
      → On es (some w)
      → On es (replied w (receive equal_fold size opt q w.shared))
  unfolding receive
  receive-On es w idle f = first w.shared.wait_reply
    where
      first : (xs : List Entry) → On es (replied w (from_channel equal_fold size opt xs w.shared))
      first [] = tt
      first (x ∷ xs) = f
  receive-On es w (receiving e) f = tt
  receive-On es w (answered e) f = tt
  receive-On es w (bytes_off e) f = tt

  take_reply-On :
      (es : List Entry) (w : Writer) (q : ReplyPhase)
      → On es (some w)
      → On es (replied w (take_reply equal_fold size opt q w.shared))
  unfolding take_reply
  take_reply-On es w (receiving e) f = first (ltb w.shared.replies (length w.shared.sent))
    where
      first :
          (t : Bool)
          → On es (
              replied w (
                if t
                then some (
                  behind_reply equal_fold size opt e,
                  record w.shared { replies = w.shared.replies + 1 },
                )
                else none))
      first true = f
      first false = tt
  take_reply-On es w idle f = tt
  take_reply-On es w (answered e) f = tt
  take_reply-On es w (bytes_off e) f = tt

  process_reply-On :
      (es : List Entry) (w : Writer) (q : ReplyPhase)
      → On es (some w)
      → On es (replied w (process_reply equal_fold size opt q w.shared))
  unfolding process_reply
  process_reply-On es w idle f = tt
  process_reply-On es w (receiving e) f = tt
  process_reply-On es w (answered e) f = f
  process_reply-On es w (bytes_off e) f = f

  step-On :
      (es : List Entry) (v : Event) (w : Writer)
      → Proper equal_fold size opt v
      → On es (some w)
      → On (es ++ came (v ∷ [])) (step equal_fold size opt v w)
  unfolding step
  step-On es (comes e) w p f =
      written-On (es ++ e ∷ []) w (take equal_fold size opt e w.write w.shared)
        (take-Follows es e w.write w.shared p f)
  step-On es write_on w p f = rw (append-nil) (
      written-On es w (process_write equal_fold size opt w.write w.shared)
        (process_write-Follows es w.write w.shared f))
  step-On es takes w p f = rw (append-nil) (receive-On es w w.reply f)
  step-On es (answers r) w p f = rw (append-nil) (
      reacting-On es (reaction equal_fold size opt r)
        (replied w (take_reply equal_fold size opt w.reply w.shared))
        (take_reply-On es w w.reply f))
  step-On es reply_on w p f = rw (append-nil) (process_reply-On es w w.reply f)

  came-append : (v : Event) (vs : List Event) → came (v ∷ []) ++ came vs ≡ came (v ∷ vs)
  came-append (comes e) vs = refl
  came-append write_on vs = refl
  came-append takes vs = refl
  came-append (answers r) vs = refl
  came-append reply_on vs = refl

  Run-On :
      (es : List Entry) (vs : List Event) (w w' : Writer)
      → Run equal_fold size opt w vs w'
      → Each (Proper equal_fold size opt) vs
      → On es (some w)
      → On (es ++ came vs) (some w')
  Run-On es [] w w' begin ps f = rw (append-nil) f
  Run-On es (v ∷ vs) w w' (next {w' = m} e r) (p, ps) f =
      subst (λ xs. On xs (some w'))
        (append_assoc es (came (v ∷ [])) (came vs) ∙ ap (λ t. es ++ t) (came-append v vs))
        (Run-On (es ++ came (v ∷ [])) vs m w' r ps
          (subst (On (es ++ came (v ∷ []))) e (step-On es v w p f)))

  -- In every run in which no entry that comes is itself a select, the messages make the target execute the entries
  -- that came, each in its own database, in their order and once, up to the entry that the writer still has in hand.
  -- The target starts in the database 0, and a select changes its database, be it the writer's or an entry.
  pub served-came :
      (vs : List Event) (w : Writer)
      → Each (Proper equal_fold size opt) vs
      → Run equal_fold size opt new_writer vs w
      → served behind (pos 0) w.shared.sent ++ map target (in_hand w.write) ≡ map target (came vs)
  served-came vs w ps r =
      (Run-On [] vs new_writer w r ps (unfold last_db served in (refl, tt, tt, refl))).3
