-- ===== src/Rdb/Types/Stream/Groups.antt =====
-- The consumer groups of a stream, and the whole of it.
use rdb_elasticache_migrator.Prelude.{
  ℕ, Bool, true, false, Option, none, some, List, [], ◌∷◌, ◌++◌, ◌==◌, leb, if◌then◌else◌, take,
  drop, codes,
}
use rdb_elasticache_migrator.Prelude.Int.{ℤ, pos, signed, eq_ℤ}
use rdb_elasticache_migrator.Runtime.{Bytes, Read, collect, ◌>>=◌, pure, unknown_type}
use rdb_elasticache_migrator.Runtime.Words.{big_endian}
use rdb_elasticache_migrator.Runtime.Strings.{equal}
use rdb_elasticache_migrator.Runtime.Strconv.{format_uint}
use rdb_elasticache_migrator.Runtime.Emit.{
  Command, Emit, done, stop, send, reading, in_turn, times, rounds,
}
use rdb_elasticache_migrator.Rdb.Structure.Int.{read_bytes, read_uint64}
use rdb_elasticache_migrator.Rdb.Structure.Length.{read_length}
use rdb_elasticache_migrator.Rdb.Structure.Strings.{read_string}
use rdb_elasticache_migrator.Rdb.Types.Stream.{stream_node}

-- `fmt.Sprintf("%v-%v", ms, seq)` on `uint64`
abbrev pub uint_id : ℕ → ℕ → Bytes
uint_id ms seq = format_uint ms ++ (b'-' ∷ format_uint seq)

abbrev pub id_of : Bytes → Bytes
id_of tmp_bytes = uint_id (big_endian (take 8 tmp_bytes)) (big_endian (drop 8 tmp_bytes))

-- What the maps of a group hold of an entry that is pending.
pub record Pending : Type 0 where
  pub stream_id : Bytes
  pub time : ℕ
  pub delivered : ℕ

unfoldable pub read_pending : Read Pending
unfolding read_bytes big_endian read_uint64 read_length
read_pending = do
  tmp_bytes ← read_bytes (pos 16)
  delivery_time ← read_uint64
  delivery_count ← read_length
  pure (record { stream_id = id_of tmp_bytes; time = delivery_time; delivered = delivery_count })

-- The maps: the last entry with the id counts, and what is missing is 0.
abbrev or_else : Option Pending → Option Pending → Option Pending
or_else (some p) q = some p
or_else none q = q

unfoldable pub find_pending : Bytes → List Pending → Option Pending
unfolding equal
find_pending id [] = none
find_pending id (p ∷ ps) =
    or_else (find_pending id ps) (if equal p.stream_id id then some p else none)

abbrev pub time_of : Option Pending → ℕ
time_of none = 0
time_of (some p) = p.time

abbrev pub delivered_of : Option Pending → ℕ
delivered_of none = 0
delivered_of (some p) = p.delivered

abbrev pub xclaim : Bytes → Bytes → Bytes → Bytes → Option Pending → Command
xclaim key group consumer id p =
    codes "xclaim"
    ∷ key
    ∷ group
    ∷ consumer
    ∷ codes "0"
    ∷ id
    ∷ codes "TIME"
    ∷ format_uint (time_of p)
    ∷ codes "RETRYCOUNT"
    ∷ format_uint (delivered_of p)
    ∷ codes "JUSTID"
    ∷ codes "FORCE"
    ∷ []

-- The body of the loop over what a consumer has pending.
unfoldable pub claim : Bytes → Bytes → Bytes → List Pending → Emit
unfolding read_bytes big_endian find_pending
claim key group consumer ps = reading (read_bytes (pos 16)) λ tmp_bytes.
    send (xclaim key group consumer (id_of tmp_bytes) (find_pending (id_of tmp_bytes) ps)) done

-- Read where the type of the stream has it.
abbrev pub read_if : {A : Type 0} → Bool → Read A → Read (Unit {0})
read_if true m = m >>= λ _. pure tt
read_if false m = pure tt

unfoldable pub stream_consumer : Bytes → ℕ → Bytes → List Pending → Emit
unfolding read_string read_uint64 read_length claim times
stream_consumer key type_byte group ps = reading read_string λ consumer. reading read_uint64 λ seen.
    reading (read_if (leb 21 type_byte) read_uint64) λ active.
      reading read_length λ n_pel. times (rounds (signed 64 n_pel)) (claim key group consumer ps)

abbrev pub xgroup : Bytes → Bytes → ℕ → ℕ → Command
xgroup key group ms seq = codes "XGROUP" ∷ codes "CREATE" ∷ key ∷ group ∷ uint_id ms seq ∷ []

unfoldable pub stream_group : Bytes → ℕ → Emit
unfolding read_string read_length read_pending collect stream_consumer times
stream_group key type_byte = reading read_string λ group. reading read_length λ last_ms.
    reading read_length λ last_seq. send (xgroup key group last_ms last_seq) (
      reading (read_if (leb 19 type_byte) read_length) λ offset. reading read_length λ n_pel.
        reading (collect (rounds (signed 64 n_pel)) read_pending) λ ps.
          reading read_length λ n_consumer.
            times (rounds (signed 64 n_consumer)) (stream_consumer key type_byte group ps))

abbrev pub empty_stream : Bytes → Command
empty_stream key =
    codes "xadd" ∷ key ∷ codes "MAXLEN" ∷ codes "0" ∷ codes "0-1" ∷ codes "x" ∷ codes "y" ∷ []

abbrev pub xsetid : Bytes → ℕ → ℕ → Command
xsetid key ms seq = codes "xsetid" ∷ key ∷ uint_id ms seq ∷ []

-- Behind the number of entries and the last id.
unfoldable pub stream_groups : Bytes → ℕ → Emit
unfolding read_length collect stream_group times
stream_groups key type_byte =
    reading (read_if (leb 19 type_byte) (collect 5 read_length)) λ skipped.
      reading read_length λ n_group. times (rounds (signed 64 n_group)) (stream_group key type_byte)

unfoldable pub stream_tail : Bytes → ℕ → ℤ → Emit
unfolding read_length stream_groups
stream_tail key type_byte n_listpack = reading read_length λ number. reading read_length λ last_ms.
    reading read_length λ last_seq.
      let rest = send (xsetid key last_ms last_seq) (stream_groups key type_byte) in
      if eq_ℤ n_listpack (pos 0) then send (empty_stream key) rest else rest

unfoldable pub read_stream : Bytes → ℕ → Emit
unfolding read_length stream_node times
read_stream key type_byte = reading read_length λ n.
    in_turn (times (rounds (signed 64 n)) (stream_node key))
      (stream_tail key type_byte (signed 64 n))

unfoldable pub rewrite_stream : Bytes → ℕ → Emit
unfolding read_stream
rewrite_stream key type_byte = send (codes "del" ∷ key ∷ []) (
    if type_byte == 15
    then read_stream key type_byte
    else if type_byte == 19
    then read_stream key type_byte
    else if type_byte == 21
    then read_stream key type_byte
    else stop unknown_type)
