-- ===== src/Aof/Single/RoundTrip.antt =====
-- An append-only file of whole entries and time annotations.
use rdb_elasticache_migrator.Prelude.{
  take_all, ℕ, zero, suc, ◌+◌, ◌<◌, ◌≤◌, ◌≡◌, refl, Bool, true, false, not, ◌&&◌, some, List, [],
  ◌∷◌, ◌++◌, length, length-append, arith, codes, if◌then◌else◌, inl, inr, Bool-cases, leb,
}
use rdb_elasticache_migrator.Prelude.Int.{ℤ, pos, eq_ℤ, ltb_ℤ}
use rdb_elasticache_migrator.Runtime.{Bytes, ok}
use rdb_elasticache_migrator.Runtime.Strings.{Without, also}
use rdb_elasticache_migrator.Runtime.Strconv.{
  format_uint, format_int, parse_int_value, parse_int_value-parse_int, parse_int-format_int,
  IsInt64,
}
use rdb_elasticache_migrator.Runtime.Decimal.{
  format_uint-Without, format_int-Without, length-format_uint, length-format_int,
}
use rdb_elasticache_migrator.Runtime.Emit.{Command, Each}
use rdb_elasticache_migrator.Aof.Line.{Buffer, read_complete_line}
use rdb_elasticache_migrator.Aof.Line.Short.{read_complete_line-whole}
use rdb_elasticache_migrator.Aof.Single.{
  Ret, aof_ok, truncated, Load, args, skip, quit, command, arg_count, buffer_size, annotation,
  against, sliced, read_argv, aof_step, load_lines, present, load_single, after_step,
}

-- What Redis appends: entries, and times.
pub data Item : Type 0 where
  entry : List Bytes → Item
  time : ℤ → Item

-- A line with its end, in front of the rest.
abbrev pub line : Bytes → Bytes → Bytes
line text rest = text ++ b'\r' ∷ b'\n' ∷ rest

abbrev pub save_args : List Bytes → Bytes → Bytes
save_args [] rest = rest
save_args (arg ∷ argv) rest =
    line (b'$' ∷ format_uint (length arg)) (line arg (save_args argv rest))

abbrev pub save_item : Item → Bytes → Bytes
save_item (entry argv) rest = line (b'*' ∷ format_uint (length argv)) (save_args argv rest)
save_item (time ts) rest = line (codes "#TS:" ++ format_int ts) rest

abbrev pub save_items : List Item → Bytes
save_items [] = []
save_items (i ∷ is) = save_item i (save_items is)

-- Arguments with no newline that fit into the buffer with the end of their line.
abbrev pub IsArg : Bytes → Type 0
IsArg arg = Without b'\n' arg × (length arg < 4095)

abbrev pub IsItem : Item → Type 0
IsItem (entry argv) = Each IsArg argv × (0 < length argv) × (length argv ≤ 128)
IsItem (time ts) = IsInt64 ts

-- The entries in front of the first time that is later than the wanted one; a wanted time of 0 is none.
abbrev pub too_late : ℤ → ℤ → Bool
too_late timestamp ts = not (eq_ℤ timestamp (pos 0)) && ltb_ℤ timestamp ts

unfoldable pub wanted : ℤ → List Item → List Command
wanted timestamp [] = []
wanted timestamp (entry argv ∷ is) = argv ∷ wanted timestamp is
wanted timestamp (time ts ∷ is) =
    let later = wanted timestamp is in if too_late timestamp ts then [] else later

unfoldable pub ending : ℤ → List Item → Ret
ending timestamp [] = aof_ok
ending timestamp (entry argv ∷ is) = ending timestamp is
ending timestamp (time ts ∷ is) =
    let later = ending timestamp is in if too_late timestamp ts then truncated else later

number-value : (n : ℕ) → n < 4096 → parse_int_value (format_uint n) ≡ pos n
unfolding format_int
number-value n h =
    parse_int_value-parse_int (format_uint n) (pos n) (parse_int-format_int (pos n) (omega arith))

number-line :
    (buffer : Buffer) (c n : ℕ) (rest : Bytes)
    → 48 ≤ c + 20
    → c < 48
    → read_complete_line buffer buffer_size (line (c ∷ format_uint n) rest)
      ≡ some (c ∷ format_uint n, rest)
number-line buffer c n rest h k =
    read_complete_line-whole buffer buffer_size rest
      (also (omega arith) (format_uint-Without b'\n' n (omega arith)))
      (omega (arith, length-format_uint n))

leb_refl : (n : ℕ) → leb n n ≡ true
leb_refl n = ground arith

arg_count-ok : (n : ℕ) → 0 < n → n ≤ 128 → arg_count (pos n) ≡ ok n
arg_count-ok n h k = ground arith

length-line : (text rest : Bytes) → length rest < length (line text rest)
length-line text rest = omega (arith, length-append {0} text (b'\r' ∷ b'\n' ∷ rest))

length-save_args : (argv : List Bytes) (rest : Bytes) → length rest ≤ length (save_args argv rest)
length-save_args [] rest = omega arith
length-save_args (arg ∷ argv) rest = omega (
  arith,
  length-save_args argv rest,
  length-line arg (save_args argv rest),
  length-line (b'$' ∷ format_uint (length arg)) (line arg (save_args argv rest)),
)

length-save_item : (i : Item) (rest : Bytes) → length rest < length (save_item i rest)
length-save_item (entry argv) rest = omega (
  arith,
  length-save_args argv rest,
  length-line (b'*' ∷ format_uint (length argv)) (save_args argv rest),
)
length-save_item (time ts) rest = length-line (codes "#TS:" ++ format_int ts) rest

length-save_items : (is : List Item) → length is ≤ length (save_items is)
length-save_items [] = omega arith
length-save_items (i ∷ is) = omega (arith, length-save_items is, length-save_item i (save_items is))

module _ (buffer : Buffer) where
  sliced-all : (arg rest : Bytes) → sliced buffer arg rest (pos (length arg)) ≡ ok arg
  unfolding sliced
  sliced-all arg rest = rw (leb_refl (length arg), take_all arg) refl

  read_argv-save_args :
      (argv : List Bytes) (rest : Bytes)
      → Each IsArg argv
      → read_argv buffer (length argv) (save_args argv rest) ≡ args argv rest
  unfolding read_argv
  read_argv-save_args [] rest h = refl
  read_argv-save_args (arg ∷ argv) rest ((w, short), hs) =
      rw
        (
          number-line buffer b'$' (length arg) (line arg (save_args argv rest)) (omega arith)
              (omega arith),
          read_complete_line-whole buffer buffer_size (save_args argv rest) w (omega arith),
          number-value (length arg) (omega arith),
          sliced-all arg (save_args argv rest),
          read_argv-save_args argv rest hs,
        )
        refl

  entry_step :
      (timestamp : ℤ) (argv : List Bytes) (rest : Bytes)
      → IsItem (entry argv)
      → aof_step buffer timestamp (save_item (entry argv) rest) ≡ command argv rest
  unfolding aof_step
  entry_step timestamp argv rest (all, some_arg, few) =
      rw
        (
          number-line buffer b'*' (length argv) (save_args argv rest) (omega arith) (omega arith),
          number-value (length argv) (omega arith),
          arg_count-ok (length argv) some_arg few,
          read_argv-save_args argv rest all,
        )
        refl

  time_line :
      (ts : ℤ) (rest : Bytes)
      → read_complete_line buffer buffer_size (line (codes "#TS:" ++ format_int ts) rest)
        ≡ some (codes "#TS:" ++ format_int ts, rest)
  time_line ts rest =
      read_complete_line-whole buffer buffer_size rest
        (also (omega arith) (
          also (omega arith)
            (also (omega arith) (also (omega arith) (format_int-Without b'\n' ts (omega arith))))))
        (omega (arith, length-format_int ts))

  time_step :
      (timestamp ts : ℤ) (rest : Bytes)
      → IsInt64 ts
      → aof_step buffer timestamp (save_item (time ts) rest)
        ≡ (if too_late timestamp ts then quit (ok truncated) else skip rest)
  unfolding aof_step annotation
  time_step timestamp ts rest h =
      rw (time_line ts rest, parse_int-format_int ts h) (both timestamp ts rest)
    where
      both :
          (timestamp ts : ℤ) (rest : Bytes)
          → (if not (eq_ℤ timestamp (pos 0)) && true
              then against timestamp (some ts) rest
              else skip rest)
            ≡ (if too_late timestamp ts then quit (ok truncated) else skip rest)
      both timestamp ts rest = ground arith

  module _ (cancelled : ℕ → Bool) (never : (n : ℕ) → cancelled n ≡ false) where
    after_time :
        (timestamp ts : ℤ) (is : List Item) (again : Bytes → Load)
        → again (save_items is)
          ≡ record { sent = wanted timestamp is; ret = ok (ending timestamp is) }
        → after_step buffer cancelled
            (if too_late timestamp ts then quit (ok truncated) else skip (save_items is))
            again
          ≡ record {
            sent = wanted timestamp (time ts ∷ is);
            ret = ok (ending timestamp (time ts ∷ is));
          }
    unfolding wanted ending
    after_time timestamp ts is again h = elim (Bool-cases (too_late timestamp ts)) [
      | inl e ↦ rw (e) refl
      | inr e ↦ rw (e) h
    ]

    load_lines-save_items :
        (timestamp : ℤ) (fuel : ℕ) (is : List Item)
        → length is < fuel
        → Each IsItem is
        → load_lines buffer cancelled timestamp fuel (save_items is)
          ≡ record { sent = wanted timestamp is; ret = ok (ending timestamp is) }
    unfolding load_lines
    load_lines-save_items timestamp zero is h all = absurd (omega arith)
    load_lines-save_items timestamp (suc fuel) [] h all =
        rw (never fuel) (unfold aof_step read_complete_line wanted ending in refl)
    load_lines-save_items timestamp (suc fuel) (entry argv ∷ is) h (i, all) =
        rw
          (
            never fuel,
            entry_step timestamp argv (save_items is) i,
            load_lines-save_items timestamp fuel is (omega arith) all,
          )
          (unfold wanted ending in refl)
    load_lines-save_items timestamp (suc fuel) (time ts ∷ is) h (i, all) =
        rw (never fuel, time_step timestamp ts (save_items is) i)
          (after_time timestamp ts is (load_lines buffer cancelled timestamp fuel)
            (load_lines-save_items timestamp fuel is (omega arith) all))

    -- An append-only file of whole entries and time annotations gives its entries, in the order of the
    -- file, up to the first time that is later than the wanted one, and tells whether it stopped there.
    -- Each entry has 1 to 128 arguments with no newline, of fewer than 4095 bytes each; `ctx` is not done.
    pub load_single-save_items :
        (timestamp : ℤ) (is : List Item)
        → Each IsItem is
        → load_single buffer cancelled timestamp (present (save_items is))
          ≡ record { sent = wanted timestamp is; ret = ok (ending timestamp is) }
    unfolding load_single
    load_single-save_items timestamp is all =
        load_lines-save_items timestamp (suc (length (save_items is))) is
          (omega (arith, length-save_items is)) all
