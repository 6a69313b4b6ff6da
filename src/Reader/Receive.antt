-- ===== src/Reader/Receive.antt =====
-- `receiveRDB` of internal/reader/sync_standalone_reader.go: the file that the source sends. How many bytes each
-- `Read` of the connection brings is an argument, and so is `strings.TrimSpace`. A write to the file does not fail.
pub mod Marked
pub mod Counted
pub mod Whole
use rdb_elasticache_migrator.Prelude.{
  ℕ, zero, suc, ◌+◌, ◌-◌, ◌%◌, ◌^◌, ◌==◌, ltb, leb, Bool, ◌&&◌, if◌then◌else◌, Option, none, some,
  List, [], ◌∷◌, ◌++◌, length, take, drop, codes,
}
use rdb_elasticache_migrator.Prelude.Int.{ℤ, pos, negsuc}
use rdb_elasticache_migrator.Runtime.{
  Bytes, Read, Result, ok, panic, Fault, eof, out_of_range, bad_number, bad_format, out_of_fuel,
}
use rdb_elasticache_migrator.Runtime.Bufio.{read_until_newline}
use rdb_elasticache_migrator.Runtime.Strconv.{parse_int}
use rdb_elasticache_migrator.Runtime.Strings.{equal, has_prefix}

-- What was written to the file, what was added to `RdbReceivedBytes`, and the unread input or the panic.
pub record Received : Type 0 where
  pub written : Bytes
  pub counted : ℕ
  pub outcome : Result Bytes

abbrev pub ended : Fault → Received
ended e = record { written = []; counted = 0; outcome = panic e }

-- `wt.Write(...)` and what follows; `nwrite` is what is added to the count.
abbrev pub write_then : Bytes → ℕ → Received → Received
write_then chunk nwrite r = record {
  written = chunk ++ r.written;
  counted = (nwrite + r.counted) % 2 ^ 64;
  outcome = r.outcome;
}

-- `client.Read(buf[:asked])`: a byte at least, and no more than were asked for.
unfoldable pub read_some : ℕ → ℕ → Read Bytes
read_some size asked [] = panic eof
read_some size asked (b ∷ bs) =
    let n = if ltb (suc size) asked then suc size else asked in
    ok (take n (b ∷ bs), drop n (b ∷ bs))

abbrev pub behind_read : Result (Bytes × Bytes) → (Bytes → Bytes → Received) → Received
behind_read (panic e) f = ended e
behind_read (ok (chunk, rest)) f = f chunk rest

abbrev pub buf_size : ℕ
buf_size = 33554432

-- `RDB_EOF_MARKER_LEN`
abbrev pub marker_len : ℕ
marker_len = 40

-- What is done with `buf[:bufLen]`: the end of the file, all but its last 40 bytes, or nothing is written.
abbrev pub with_buffer : Bytes → Bytes → Bytes → (Bytes → Bytes → Received) → Received
with_buffer marker buf rest next =
    let cut = length buf - marker_len in
    if leb marker_len (length buf) && equal (drop cut buf) marker
    then record { written = take cut buf; counted = 0; outcome = ok rest }
    else if leb marker_len (length buf)
    then write_then (take cut buf) cut (next (drop cut buf) rest)
    else next buf rest

module _ (sizes : ℕ → ℕ) where
  -- The loop of `receiveRDBWithDiskless`, on fuel: a read takes a byte at least.
  unfoldable pub receive_marked : Bytes → ℕ → ℕ → Bytes → Bytes → Received
  receive_marked marker zero i last_bytes bs = ended out_of_fuel
  receive_marked marker (suc fuel) i last_bytes bs =
      behind_read (read_some (sizes i) (buf_size - length last_bytes) bs) λ chunk rest.
        with_buffer marker (last_bytes ++ chunk) rest (receive_marked marker fuel (suc i))

  -- The loop of `receiveRDBWithoutDiskless`, on fuel.
  unfoldable pub receive_counted : ℕ → ℕ → ℕ → Bytes → Received
  receive_counted zero i remainder bs = ended out_of_fuel
  receive_counted (suc fuel) i remainder bs =
      let read_once = if ltb remainder buf_size then remainder else buf_size in
      let round = behind_read (read_some (sizes i) read_once bs) (λ chunk rest.
        write_then chunk (length chunk)
          (receive_counted fuel (suc i) (remainder - length chunk) rest)) in
      if remainder == 0 then record { written = []; counted = 0; outcome = ok bs } else round

-- The heartbeats, and the `$` behind them.
unfoldable pub await_dollar : Bytes → Result Bytes
await_dollar [] = panic eof
await_dollar (b ∷ bs) =
    let later = await_dollar bs in
    if b == b'\n' then later else if b == b'$' then ok bs else panic bad_format

unfoldable pub before_colon : Bytes → Bytes
before_colon [] = []
before_colon (b ∷ bs) = let more = before_colon bs in if b == b':' then [] else b ∷ more

-- `strings.Split(marker, ":")[1]`
unfoldable pub second_part : Bytes → Result Bytes
unfolding before_colon
second_part [] = panic out_of_range
second_part (b ∷ bs) =
    let later = second_part bs in if b == b':' then ok (before_colon bs) else later

module _ (sizes : ℕ → ℕ) where
  -- `receiveRDBWithDiskless` behind the `Split`.
  unfoldable pub with_marker : Result Bytes → Bytes → Received
  with_marker (panic e) bs = ended e
  with_marker (ok marker) bs =
      if length marker == marker_len
      then receive_marked sizes marker (suc (length bs)) 0 [] bs
      else ended bad_format

  -- `receiveRDBWithoutDiskless` behind the `ParseInt`; a slice with a negative bound ends the run.
  unfoldable pub with_length : Option ℤ → Bytes → Received
  with_length none bs = ended bad_number
  with_length (some (negsuc _)) bs = ended out_of_range
  with_length (some (pos n)) bs = receive_counted sizes (suc (length bs)) 0 n bs

  -- By the first letters of the header.
  unfoldable pub with_header : Bytes → Bytes → Received
  with_header marker bs =
      if has_prefix marker (codes "EOF")
      then with_marker (second_part marker) bs
      else with_length (parse_int marker) bs

module _ (sizes : ℕ → ℕ) (trim_space : Bytes → Bytes) where
  abbrev pub behind_line : Option (Bytes × Bytes) → Received
  behind_line none = ended eof
  behind_line (some (line, rest)) = with_header sizes (trim_space line) rest

  abbrev pub behind_dollar : Result Bytes → Received
  behind_dollar (panic e) = ended e
  behind_dollar (ok rest) = behind_line (read_until_newline rest)

  unfoldable pub receive_rdb : Bytes → Received
  receive_rdb bs = behind_dollar (await_dollar bs)
