-- ===== src/Aof/Single.antt =====
-- `LoadSingleAppendOnlyFile` of internal/aof/aof.go. The size of the buffer of `bufio.NewReader` is 4096;
-- what its memory gives (`Buffer`) and the answers of `ctx.Done()` are arguments.
pub mod RoundTrip
use rdb_elasticache_migrator.Prelude.{
  ℕ, zero, suc, ◌-◌, Bool, true, false, not, ◌&&◌, Option, none, some, List, [], ◌∷◌, ◌++◌, ◌==◌,
  ltb, leb, if◌then◌else◌, length, take, drop, codes,
}
use rdb_elasticache_migrator.Prelude.Int.{ℤ, pos, negsuc, ltb_ℤ, eq_ℤ}
use rdb_elasticache_migrator.Runtime.{
  Bytes, Fault, Result, ok, panic, out_of_range, bad_number, bad_format, out_of_fuel,
}
use rdb_elasticache_migrator.Runtime.Strconv.{parse_int, parse_int_value}
use rdb_elasticache_migrator.Runtime.Strings.{has_prefix}
use rdb_elasticache_migrator.Runtime.Emit.{Command}
use rdb_elasticache_migrator.Aof.Line.{Buffer, read_complete_line}

-- `OK`, `NotExist`, `Empty`, `OpenErr`, `Failed` and `Truncated`.
pub data Ret : Type 0 where
  aof_ok not_exist aof_empty open_err failed truncated : Ret

-- The entries that were sent, and the return value.
pub record Load : Type 0 where
  pub sent : List Command
  pub ret : Result Ret

abbrev pub buffer_size : ℕ
buffer_size = 4096

-- A path: nothing there, or a file that may be read or not. `Stat` of the file that could not be
-- opened is a read through a nil pointer.
pub data File : Type 0 where
  absent : File
  unreadable : Bytes → File
  present : Bytes → File

-- What is read of an entry, or the return value.
pub data Args : Type 0 where
  args : List Bytes → Bytes → Args
  stopped : Result Ret → Args

-- What one round of the loop comes to.
pub data Step : Type 0 where
  quit : Result Ret → Step
  skip : Bytes → Step
  command : List Bytes → Bytes → Step

abbrev pub put_arg : Bytes → Args → Args
put_arg arg (args argv rest) = args (arg ∷ argv) rest
put_arg arg (stopped r) = stopped r

-- `argc < 1` and `argc > SizeMax` end the run.
abbrev pub arg_count : ℤ → Result ℕ
arg_count (negsuc n) = panic bad_format
arg_count (pos n) =
    if ltb n 1 then panic bad_format else if ltb 128 n then panic bad_format else ok n

-- `#TS:` and a time that is later than the wanted one.
abbrev pub against : ℤ → Option ℤ → Bytes → Step
against timestamp none rest = quit (panic bad_number)
against timestamp (some ts) rest = if ltb_ℤ timestamp ts then quit (ok truncated) else skip rest

unfoldable pub annotation : ℤ → Bytes → Bytes → Step
unfolding has_prefix parse_int
annotation timestamp line rest =
    if not (eq_ℤ timestamp (pos 0)) && has_prefix line (codes "#TS:")
    then against timestamp (parse_int (drop 4 line)) rest
    else skip rest

module _ (buffer : Buffer) where
  -- `argString[:v64]`
  unfoldable pub sliced : Bytes → Bytes → ℤ → Result Bytes
  sliced text rest (negsuc _) = panic out_of_range
  sliced text rest (pos n) =
      if leb n (length text) then ok (take n text) else buffer.reslice text rest n

  abbrev with_slice : Result Bytes → Args → Args
  with_slice (panic e) later = stopped (panic e)
  with_slice (ok arg) later = put_arg arg later

  abbrev with_text : Bytes → Option (Bytes × Bytes) → (Bytes → Args) → Args
  with_text digits none later = stopped (ok failed)
  with_text digits (some (text, rest)) later =
      with_slice (sliced text rest (parse_int_value digits)) (later rest)

  abbrev with_length : Option (Bytes × Bytes) → (Bytes → Args) → Args
  with_length none later = stopped (ok failed)
  with_length (some ([], rest)) later = stopped (panic out_of_range)
  with_length (some (c ∷ digits, rest)) later =
      if c == b'$'
      then with_text digits (read_complete_line buffer buffer_size rest) later
      else stopped (ok failed)

  -- `for j := 0; j < int(argc); j++`
  unfoldable pub read_argv : ℕ → Bytes → Args
  unfolding sliced
  read_argv zero bs = args [] bs
  read_argv (suc n) bs = with_length (read_complete_line buffer buffer_size bs) (read_argv n)

  abbrev entry_of : Args → Step
  entry_of (args argv rest) = command argv rest
  entry_of (stopped r) = quit r

  abbrev with_count : Result ℕ → Bytes → Step
  with_count (panic e) rest = quit (panic e)
  with_count (ok argc) rest = entry_of (read_argv argc rest)

  abbrev pub with_line : ℤ → Option (Bytes × Bytes) → Step
  with_line timestamp none = quit (ok aof_ok)
  with_line timestamp (some ([], rest)) = quit (panic out_of_range)
  with_line timestamp (some (c ∷ text, rest)) =
      if c == b'#'
      then annotation timestamp (c ∷ text) rest
      else if c == b'*'
      then with_count (arg_count (parse_int_value text)) rest
      else quit (panic bad_format)

  unfoldable pub aof_step : ℤ → Bytes → Step
  unfolding annotation read_argv
  aof_step timestamp bs = with_line timestamp (read_complete_line buffer buffer_size bs)

  module _ (cancelled : ℕ → Bool) where
    abbrev pub after_step : Step → (Bytes → Load) → Load
    after_step (quit r) again = record { sent = []; ret = r }
    after_step (skip rest) again = again rest
    after_step (command argv rest) again = record {
      sent = argv ∷ (again rest).sent;
      ret = (again rest).ret;
    }

    -- The loop, on fuel; `cancelled n` is the answer of `ctx.Done()` in the round with the fuel n.
    unfoldable pub load_lines : ℤ → ℕ → Bytes → Load
    unfolding aof_step
    load_lines timestamp zero bs = record { sent = []; ret = panic out_of_fuel }
    load_lines timestamp (suc fuel) bs =
        let round = after_step (aof_step timestamp bs) (load_lines timestamp fuel) in
        if cancelled fuel then record { sent = []; ret = ok aof_ok } else round

    -- Each round reads a byte at least, so one round more than there are bytes will do.
    unfoldable pub load_single : ℤ → File → Load
    unfolding load_lines
    load_single timestamp absent = record { sent = []; ret = ok not_exist }
    load_single timestamp (unreadable _) = record { sent = []; ret = panic out_of_range }
    load_single timestamp (present bs) = load_lines timestamp (suc (length bs)) bs
