-- ===== src/Writer/Standalone/Accounts.antt =====
-- What the accounts of the writer come to in every run.
use mathlib.Core.Path.{subst}
use rdb_elasticache_migrator.Prelude.{
  ◌<◌, ℕ, ◌+◌, ◌≤◌, ◌≡◌, refl, ◌&&◌, Bool, true, false, Option, none, some, List, [], ◌∷◌, arith,
  codes, ◌↔◌,
}
use rdb_elasticache_migrator.Prelude.Int.{pos, eq_ℤ}
use rdb_elasticache_migrator.Runtime.{Bytes}
use rdb_elasticache_migrator.Runtime.Emit.{Each}
use rdb_elasticache_migrator.Writer.Standalone.{
  Entry, Options, Shared, WritePhase, ready, ReplyPhase, idle, Reaction, goes_on, exits, Writer,
  new_writer, Event, comes, write_on, takes, answers, reply_on, written, replied, reacting,
  reaction, take, process_write, receive, take_reply, process_reply, step, Run, begin, next,
  status_consistent,
}
use rdb_elasticache_migrator.Writer.Standalone.Counts.{
  outstanding, uncounted_bytes, uncounted_entries, owed_bytes, owed_entries, weight, count,
  NoSelect, Counted, WriteStays, ReplyStays, take-Counted, process_write-Counted, receive-Counted,
  take_reply-Counted, process_reply-Counted,
}

module _ (equal_fold : Bytes → Bytes → Bool) (size : Entry → ℕ) (opt : Options) where
  -- No entry that comes is a select.
  abbrev pub Proper : Event → Type 0
  Proper (comes e) = NoSelect equal_fold size opt e
  Proper write_on = Unit
  Proper takes = Unit
  Proper (answers r) = Unit
  Proper reply_on = Unit

  abbrev On : Option Writer → Type 0
  On none = Unit
  On (some w) = Counted equal_fold size opt w.write w.reply w.shared

  written-On :
      (w : Writer) (o : Option (WritePhase × Shared))
      → WriteStays equal_fold size opt w.reply o
      → On (written w o)
  written-On w none h = tt
  written-On w (some (p, s)) h = h

  replied-On :
      (w : Writer) (o : Option (ReplyPhase × Shared))
      → ReplyStays equal_fold size opt w.write o
      → On (replied w o)
  replied-On w none h = tt
  replied-On w (some (q, s)) h = h

  reacting-On : (r : Reaction) (o : Option Writer) → On o → On (reacting r o)
  reacting-On goes_on o h = h
  reacting-On exits o h = tt

  count-weight :
      ((e : Entry) → 0 < size e)
      → (es : List Entry) → count equal_fold size opt es ≡ 0
      → weight equal_fold size opt es ≡ 0
  count-weight full [] h = refl
  count-weight full (e ∷ es) h = ground (arith, full e, count-weight full es)

  consistent_at_rest :
      ((e : Entry) → 0 < size e)
      → (s : Shared) → Counted equal_fold size opt ready idle s
      → ((eq_ℤ s.unanswered_bytes (pos 0) && eq_ℤ s.unanswered_entries (pos 0)) ≡ true)
        ↔ (count equal_fold size opt s.wait_reply ≡ 0)
  consistent_at_rest full s (b, n, c) =
      (λ h. ground arith, λ h. ground (arith, count-weight full s.wait_reply h))

  module _ (answers_on : opt.off_reply ≡ false)
      (select_name : equal_fold (codes "select") (codes "select") ≡ true) where
    step-On : (v : Event) (w : Writer) → Proper v → On (some w) → On (step equal_fold size opt v w)
    unfolding step
    step-On (comes e) w p c =
        written-On w (take equal_fold size opt e w.write w.shared)
          (take-Counted equal_fold size opt e w.write w.reply w.shared p c)
    step-On write_on w p c = written-On w (process_write equal_fold size opt w.write w.shared) (
        process_write-Counted equal_fold size opt answers_on select_name w.write w.reply w.shared c)
    step-On takes w p c =
        replied-On w (receive equal_fold size opt w.reply w.shared)
          (receive-Counted equal_fold size opt w.reply w.write w.shared c)
    step-On (answers r) w p c =
        reacting-On (reaction equal_fold size opt r)
          (replied w (take_reply equal_fold size opt w.reply w.shared))
          (replied-On w (take_reply equal_fold size opt w.reply w.shared)
            (take_reply-Counted equal_fold size opt w.reply w.write w.shared c))
    step-On reply_on w p c =
        replied-On w (process_reply equal_fold size opt w.reply w.shared)
          (process_reply-Counted equal_fold size opt w.reply w.write w.shared c)

    Run-On :
        {w w' : Writer} {vs : List Event}
        → Run equal_fold size opt w vs w'
        → Each Proper vs
        → On (some w)
        → On (some w')
    Run-On begin p c = c
    Run-On (next {w = w} {v = v} e r) (p, ps) c = Run-On r ps (subst On e (step-On v w p c))

    start-On : On (some new_writer)
    start-On = (0, 0, ground arith)

    -- In every run the two accounts are natural numbers and agree with the entries in the channel and
    -- the one whose reply is awaited, selects aside, up to the entry that either goroutine is counting at
    -- the moment. The target answers, and no entry that comes is itself a select.
    -- `strings.EqualFold` finds select equal to itself.
    pub unanswered-outstanding :
        (vs : List Event) (w : Writer)
        → Each Proper vs
        → Run equal_fold size opt new_writer vs w
        → (b : ℕ) × (n : ℕ) × (w.shared.unanswered_bytes ≡ pos b)
          × (w.shared.unanswered_entries ≡ pos n)
          × (b + uncounted_bytes equal_fold size opt w.write
              ≡ weight equal_fold size opt (outstanding w.reply w.shared.wait_reply)
                + owed_bytes equal_fold size opt w.reply)
          × (n + uncounted_entries w.write
              ≡ count equal_fold size opt (outstanding w.reply w.shared.wait_reply)
                + owed_entries w.reply)
    unanswered-outstanding vs w p r =
        let (b, n, c) = Run-On r p start-On in
        (b, n, c.bytes_eq, c.entries_eq, c.bytes_sum, c.entries_sum)

    -- In every run the bytes without a reply stay within the limit for the buffer of the target. The
    -- target answers, and no entry that comes is itself a select.
    -- `strings.EqualFold` finds select equal to itself.
    pub unanswered-bounded :
        (vs : List Event) (w : Writer)
        → Each Proper vs
        → Run equal_fold size opt new_writer vs w
        → (b : ℕ) × (w.shared.unanswered_bytes ≡ pos b) × (b ≤ opt.max_querybuf_len)
    unanswered-bounded vs w p r =
        let (b, n, c) = Run-On r p start-On in (b, c.bytes_eq, omega (arith, c.limit))

    -- When neither goroutine has an entry in hand, the writer calls itself consistent exactly when the
    -- channel holds nothing but selects. Each entry has some bytes, the target answers, no entry that comes
    -- is itself a select, and `strings.EqualFold` finds select equal to itself.
    pub status_consistent-answered :
        ((e : Entry) → 0 < size e)
        → (vs : List Event) (w : Writer) → Each Proper vs
        → Run equal_fold size opt new_writer vs w
        → w.write ≡ ready
        → w.reply ≡ idle
        → (status_consistent w ≡ true) ↔ (count equal_fold size opt w.shared.wait_reply ≡ 0)
    unfolding status_consistent
    status_consistent-answered full vs w p r e f = consistent_at_rest full w.shared (
        subst (λ q. Counted equal_fold size opt ready q w.shared) f
          (subst (λ x. Counted equal_fold size opt x w.reply w.shared) e (Run-On r p start-On)))
