-- ===== src/Writer/Standalone/Counts.antt =====
-- The accounts of unanswered bytes and entries, while the target answers.
use mathlib.Core.Path.{subst}
use rdb_elasticache_migrator.Prelude.{
  inr, inl, Bool-cases, ℕ, ◌+◌, ◌-◌, ◌≤◌, ◌≡◌, refl, sym, ap, Bool-cases, inl, inr, ltb→lt, Bool,
  true, false, Option, none, some, List, [], ◌∷◌, ◌++◌, length, length-append, arith, if◌then◌else◌,
  codes, ltb,
}
use rdb_elasticache_migrator.Prelude.Int.{pos, ◌+ℤ◌, ◌-ℤ◌, leb_ℤ, eq_ℤ}
use rdb_elasticache_migrator.Runtime.{Bytes}
use rdb_elasticache_migrator.Writer.Standalone.{
  Entry, select, entry, Options, Shared, WritePhase, ready, selecting, writing, admitted, enqueued,
  bytes_counted, counted, ReplyPhase, idle, receiving, answered, bytes_off, select_entry, is_select,
  put, from_channel, behind_reply, take, process_write, receive, take_reply, process_reply,
}

-- The entries whose replies have not come.
abbrev pub outstanding : ReplyPhase → List Entry → List Entry
outstanding (receiving e) es = e ∷ es
outstanding _ es = es

-- What stands in the channel and has not been sent.
abbrev pub unsent : WritePhase → List Entry
unsent (enqueued e) = e ∷ []
unsent (bytes_counted e) = e ∷ []
unsent (counted e) = e ∷ []
unsent _ = []

-- A select that was sent and does not stand in the channel.
abbrev pub ahead : WritePhase → ℕ
ahead (selecting e) = 1
ahead _ = 0

abbrev pub uncounted_entries : WritePhase → ℕ
uncounted_entries (enqueued e) = 1
uncounted_entries (bytes_counted e) = 1
uncounted_entries _ = 0

abbrev pub owed_entries : ReplyPhase → ℕ
owed_entries (answered e) = 1
owed_entries (bytes_off e) = 1
owed_entries _ = 0

abbrev pub EndsWith : List Entry → List Entry → Type 0
EndsWith [] es = Unit
EndsWith (u ∷ us) [] = ⊥
EndsWith (u ∷ us) (e ∷ []) = e ≡ u
EndsWith (u ∷ us) (e ∷ f ∷ es) = EndsWith (u ∷ us) (f ∷ es)

pos_add : (a b : ℕ) → pos a +ℤ pos b ≡ pos (a + b)
pos_add a b = ground arith

pos_sub : (a b : ℕ) → b ≤ a → pos a -ℤ pos b ≡ pos (a - b)
pos_sub a b h = ground arith

module _ (equal_fold : Bytes → Bytes → Bool) (size : Entry → ℕ) (opt : Options) where
  abbrev one_weight : Entry → ℕ
  one_weight e = if is_select equal_fold size opt e then 0 else size e

  abbrev one_count : Entry → ℕ
  one_count e = if is_select equal_fold size opt e then 0 else 1

  -- The bytes and the number of the entries that are no selects.
  abbrev pub weight : List Entry → ℕ
  weight [] = 0
  weight (e ∷ es) = one_weight e + weight es

  abbrev pub count : List Entry → ℕ
  count [] = 0
  count (e ∷ es) = one_count e + count es

  abbrev pub uncounted_bytes : WritePhase → ℕ
  uncounted_bytes (enqueued e) = size e
  uncounted_bytes _ = 0

  abbrev pub owed_bytes : ReplyPhase → ℕ
  owed_bytes (answered e) = size e
  owed_bytes _ = 0

  -- What has been let through and is not counted.
  abbrev pub admitted_bytes : WritePhase → ℕ
  admitted_bytes (admitted e) = size e
  admitted_bytes (enqueued e) = size e
  admitted_bytes _ = 0

  abbrev pub NoSelect : Entry → Type 0
  NoSelect e = is_select equal_fold size opt e ≡ false

  abbrev pub Named : WritePhase → Type 0
  Named ready = Unit
  Named (selecting e) = NoSelect e
  Named (writing e) = NoSelect e
  Named (admitted e) = NoSelect e
  Named (enqueued e) = NoSelect e
  Named (bytes_counted e) = NoSelect e
  Named (counted e) = NoSelect e

  -- The accounts: `b` bytes and `n` entries.
  pub record Counts (b n : ℕ) (p : WritePhase) (q : ReplyPhase) (s : Shared) : Type 0 where
    pub bytes_eq : s.unanswered_bytes ≡ pos b
    pub entries_eq : s.unanswered_entries ≡ pos n
    pub bytes_sum : b + uncounted_bytes p ≡ weight (outstanding q s.wait_reply) + owed_bytes q
    pub entries_sum : n + uncounted_entries p ≡ count (outstanding q s.wait_reply) + owed_entries q
    pub pairs :
        s.replies + length (outstanding q s.wait_reply) + ahead p
        ≡ length s.sent + length (unsent p)
    pub ends : EndsWith (unsent p) (outstanding q s.wait_reply)
    pub named : Named p
    pub limit : b + admitted_bytes p ≤ opt.max_querybuf_len

  abbrev pub Counted : WritePhase → ReplyPhase → Shared → Type 0
  Counted p q s = (b : ℕ) × (n : ℕ) × Counts b n p q s

  abbrev pub WriteStays : ReplyPhase → Option (WritePhase × Shared) → Type 0
  WriteStays q none = Unit
  WriteStays q (some (p, s)) = Counted p q s

  abbrev pub ReplyStays : WritePhase → Option (ReplyPhase × Shared) → Type 0
  ReplyStays p none = Unit
  ReplyStays p (some (q, s)) = Counted p q s

  write_if :
      (q : ReplyPhase) (t : Bool) (p : WritePhase) (s : Shared)
      → (t ≡ true → Counted p q s)
      → WriteStays q (if t then some (p, s) else none)
  write_if q true p s h = h refl
  write_if q false p s h = tt

  reply_if :
      (p : WritePhase) (t : Bool) (q : ReplyPhase) (s : Shared)
      → (t ≡ true → Counted p q s)
      → ReplyStays p (if t then some (q, s) else none)
  reply_if p true q s h = h refl
  reply_if p false q s h = tt

  weight-snoc : (es : List Entry) (e : Entry) → weight (es ++ e ∷ []) ≡ weight es + one_weight e
  weight-snoc [] e = omega arith
  weight-snoc (x ∷ es) e = omega (arith, weight-snoc es e)

  count-snoc : (es : List Entry) (e : Entry) → count (es ++ e ∷ []) ≡ count es + one_count e
  count-snoc [] e = omega arith
  count-snoc (x ∷ es) e = omega (arith, count-snoc es e)

  EndsWith-snoc : (es : List Entry) (e : Entry) → EndsWith (e ∷ []) (es ++ e ∷ [])
  EndsWith-snoc [] e = refl
  EndsWith-snoc (x ∷ []) e = refl
  EndsWith-snoc (x ∷ y ∷ es) e = EndsWith-snoc (y ∷ es) e

  outstanding-snoc :
      (q : ReplyPhase) (es : List Entry) (e : Entry)
      → outstanding q (es ++ e ∷ []) ≡ outstanding q es ++ e ∷ []
  outstanding-snoc idle es e = refl
  outstanding-snoc (receiving x) es e = refl
  outstanding-snoc (answered x) es e = refl
  outstanding-snoc (bytes_off x) es e = refl

  -- What has been put into the channel and is not counted is among the outstanding entries.
  EndsWith-weight :
      (u : Entry) (es : List Entry) → NoSelect u → EndsWith (u ∷ []) es → size u ≤ weight es
  EndsWith-weight u [] h k = absurd k
  EndsWith-weight u (e ∷ []) h k = rw (k, h) (omega arith)
  EndsWith-weight u (e ∷ f ∷ es) h k = omega (arith, EndsWith-weight u (f ∷ es) h k)

  EndsWith-count : (u : Entry) (es : List Entry) → NoSelect u → EndsWith (u ∷ []) es → 1 ≤ count es
  EndsWith-count u [] h k = absurd k
  EndsWith-count u (e ∷ []) h k = rw (k, h) (omega arith)
  EndsWith-count u (e ∷ f ∷ es) h k = omega (arith, EndsWith-count u (f ∷ es) h k)

  EndsWith-rest :
      (us es : List Entry) (e : Entry)
      → EndsWith us (e ∷ es)
      → length us ≤ length es
      → EndsWith us es
  EndsWith-rest [] es e h k = tt
  EndsWith-rest (u ∷ us) [] e h k = absurd (omega arith)
  EndsWith-rest (u ∷ us) (f ∷ es) e h k = h

  one_unsent : (p : WritePhase) → ahead p + length (unsent p) ≤ 1
  one_unsent ready = omega arith
  one_unsent (selecting e) = omega arith
  one_unsent (writing e) = omega arith
  one_unsent (admitted e) = omega arith
  one_unsent (enqueued e) = omega arith
  one_unsent (bytes_counted e) = omega arith
  one_unsent (counted e) = omega arith

  uncounted_bytes-weight :
      (p : WritePhase) (es : List Entry)
      → Named p
      → EndsWith (unsent p) es
      → uncounted_bytes p ≤ weight es
  uncounted_bytes-weight (enqueued e) es h k = EndsWith-weight e es h k
  uncounted_bytes-weight p es h k = omega arith

  uncounted_entries-count :
      (p : WritePhase) (es : List Entry)
      → Named p
      → EndsWith (unsent p) es
      → uncounted_entries p ≤ count es
  uncounted_entries-count (enqueued e) es h k = EndsWith-count e es h k
  uncounted_entries-count (bytes_counted e) es h k = EndsWith-count e es h k
  uncounted_entries-count p es h k = omega arith

  pub take-Counted :
      (e : Entry) (p : WritePhase) (q : ReplyPhase) (s : Shared)
      → NoSelect e
      → Counted p q s
      → WriteStays q (take equal_fold size opt e p s)
  unfolding take
  take-Counted e ready q s h (b, n, c) = elim (Bool-cases (eq_ℤ s.db_id e.db_id)) [
    | inl t ↦ rw (t) (b, n, ground arith)
    | inr t ↦ rw (t) (b, n, ground (arith, length-append {0} s.sent (select e.db_id ∷ [])))
  ]
  take-Counted e (selecting x) q s h c = tt
  take-Counted e (writing x) q s h c = tt
  take-Counted e (admitted x) q s h c = tt
  take-Counted e (enqueued x) q s h c = tt
  take-Counted e (bytes_counted x) q s h c = tt
  take-Counted e (counted x) q s h c = tt

  module _ (answers : opt.off_reply ≡ false)
      (select_name : equal_fold (codes "select") (codes "select") ≡ true) where
    in_channel : {A : Type 0} (x y : A) → (if opt.off_reply then x else y) ≡ y
    in_channel x y = ap (λ t. if t then x else y) answers

    pub process_write-Counted :
        (p : WritePhase) (q : ReplyPhase) (s : Shared)
        → Counted p q s
        → WriteStays q (process_write equal_fold size opt p s)
    unfolding process_write
    process_write-Counted ready q s c = tt
    process_write-Counted (selecting e) q s (b, n, c) =
        subst (WriteStays q)
          (sym (
            in_channel (some (writing e, s))
              (put equal_fold size opt (select_entry e.db_id) (writing e) s)))
          (write_if q (ltb (length s.wait_reply) opt.capacity) (writing e)
            (record s { wait_reply = s.wait_reply ++ select_entry e.db_id ∷ [] })
            (λ t. (
              b,
              n,
              ground (
                arith,
                outstanding-snoc q s.wait_reply (select_entry e.db_id),
                weight-snoc (outstanding q s.wait_reply) (select_entry e.db_id),
                count-snoc (outstanding q s.wait_reply) (select_entry e.db_id),
                length-append {0} (outstanding q s.wait_reply) (select_entry e.db_id ∷ []),
              ),
            )))
    process_write-Counted (writing e) q s (b, n, c) =
        write_if q (leb_ℤ (pos (size e) +ℤ s.unanswered_bytes) (pos opt.max_querybuf_len))
          (admitted e) s (λ t. (b, n, ground arith))
    process_write-Counted (admitted e) q s (b, n, c) =
        subst (WriteStays q)
          (sym (in_channel (some (counted e, s)) (put equal_fold size opt e (enqueued e) s)))
          (write_if q (ltb (length s.wait_reply) opt.capacity) (enqueued e)
            (record s { wait_reply = s.wait_reply ++ e ∷ [] })
            (λ t. (
              b,
              n,
              ground (
                arith,
                outstanding-snoc q s.wait_reply e,
                EndsWith-snoc (outstanding q s.wait_reply) e,
                weight-snoc (outstanding q s.wait_reply) e,
                count-snoc (outstanding q s.wait_reply) e,
                length-append {0} (outstanding q s.wait_reply) (e ∷ []),
              ),
            )))
    process_write-Counted (enqueued e) q s (b, n, c) = (b + size e, n, ground arith)
    process_write-Counted (bytes_counted e) q s (b, n, c) = (b, n + 1, ground arith)
    process_write-Counted (counted e) q s (b, n, c) =
        (b, n, ground (arith, length-append {0} s.sent (entry e ∷ [])))

  pub receive-Counted :
      (q : ReplyPhase) (p : WritePhase) (s : Shared)
      → Counted p q s
      → ReplyStays p (receive equal_fold size opt q s)
  unfolding receive
  receive-Counted idle p s (b, n, c) = received s.wait_reply refl
    where
      received :
          (es : List Entry)
          → s.wait_reply ≡ es
          → ReplyStays p (from_channel equal_fold size opt es s)
      received [] e = tt
      received (x ∷ es) e = (b, n, ground arith)
  receive-Counted (receiving e) p s c = tt
  receive-Counted (answered e) p s c = tt
  receive-Counted (bytes_off e) p s c = tt

  pub take_reply-Counted :
      (q : ReplyPhase) (p : WritePhase) (s : Shared)
      → Counted p q s
      → ReplyStays p (take_reply equal_fold size opt q s)
  unfolding take_reply
  take_reply-Counted (receiving e) p s (b, n, c) =
      reply_if p (ltb s.replies (length s.sent)) (behind_reply equal_fold size opt e)
        (record s { replies = s.replies + 1 })
        (λ t. by_name (is_select equal_fold size opt e) refl (
          EndsWith-rest (unsent p) s.wait_reply e c.ends
            (omega (arith, one_unsent p, c.pairs, ltb→lt s.replies (length s.sent) t))))
    where
      by_name :
          (i : Bool)
          → is_select equal_fold size opt e ≡ i
          → EndsWith (unsent p) s.wait_reply
          → Counted p (if i then idle else answered e) (record s { replies = s.replies + 1 })
      by_name true i k = (b, n, ground arith)
      by_name false i k = (b, n, ground arith)
  take_reply-Counted idle p s c = tt
  take_reply-Counted (answered e) p s c = tt
  take_reply-Counted (bytes_off e) p s c = tt

  pub process_reply-Counted :
      (q : ReplyPhase) (p : WritePhase) (s : Shared)
      → Counted p q s
      → ReplyStays p (process_reply equal_fold size opt q s)
  unfolding process_reply
  process_reply-Counted (answered e) p s (b, n, c) = (
    b - size e,
    n,
    ground (arith, uncounted_bytes-weight p s.wait_reply c.named c.ends, pos_sub b (size e)),
  )
  process_reply-Counted (bytes_off e) p s (b, n, c) =
      (b, n - 1, ground (arith, uncounted_entries-count p s.wait_reply c.named c.ends, pos_sub n 1))
  process_reply-Counted idle p s c = tt
  process_reply-Counted (receiving e) p s c = tt
