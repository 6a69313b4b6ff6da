-- ===== src/Rdb/Types/Stream.antt =====
-- internal/rdb/types/stream.go. A slice that goes beyond the elements of a listpack but not beyond what was
-- allocated for them gives empty texts; the next element is then out of range, so it is a panic here.
pub mod Groups
pub mod Items
pub mod Nodes
pub mod Saved
pub mod Ends
pub mod RoundTrip
use rdb_elasticache_migrator.Prelude.{
  ℕ, zero, suc, ◌+◌, ◌*◌, ◌/◌, ◌%◌, ◌^◌, ◌-◌, Bool, true, false, ◌&&◌, Option, none, some, List, [],
  ◌∷◌, ◌++◌, ◌==◌, ltb, leb, if◌then◌else◌, length, take, drop, codes,
}
use rdb_elasticache_migrator.Prelude.Int.{ℤ, pos, negsuc, signed, unsigned, eq_ℤ}
use rdb_elasticache_migrator.Runtime.{
  Bytes, Result, ok, panic, Fault, out_of_range, bad_number, bad_format, out_of_fuel, unknown_type,
}
use rdb_elasticache_migrator.Runtime.Words.{big_endian}
use rdb_elasticache_migrator.Runtime.Strings.{equal}
use rdb_elasticache_migrator.Runtime.Strconv.{format_int, format_uint, parse_int}
use rdb_elasticache_migrator.Runtime.Emit.{
  Command, Emit, done, stop, send, reading, in_turn, times, rounds,
}
use rdb_elasticache_migrator.Rdb.Structure.Length.{read_length}
use rdb_elasticache_migrator.Rdb.Structure.Strings.{read_string}
use rdb_elasticache_migrator.Rdb.Structure.Listpack.{read_listpack}

-- `elements` from `inx` on.
abbrev pub Cursor : Type 0 → Type 0
Cursor A = List Bytes → Result (A × List Bytes)

abbrev pub from_here :
    {A B : Type 0} → Result (A × List Bytes) → (A → Cursor B) → Result (B × List Bytes)
from_here (ok (a, rest)) f = f a rest
from_here (panic e) f = panic e

infixl 5 ◌>>=◌ ◌>>◌
abbrev pub ◌>>=◌ : {A B : Type 0} → Cursor A → (A → Cursor B) → Cursor B
◌>>=◌ m f es = from_here (m es) f

abbrev pub ◌>>◌ : {A B : Type 0} → Cursor A → Cursor B → Cursor B
m >> k = m >>= λ _. k

abbrev pub here : {A : Type 0} → A → Cursor A
here a es = ok (a, es)

abbrev pub gone : {A : Type 0} → Fault → Cursor A
gone e es = panic e

unfoldable pub next_string : Cursor Bytes
next_string [] = panic out_of_range
next_string (ele ∷ es) = ok (ele, es)

abbrev pub integer : Option ℤ → Cursor ℤ
integer none = gone bad_number
integer (some i) = here i

unfoldable pub next_integer : Cursor ℤ
unfolding next_string parse_int
next_integer = do ele ← next_string; integer (parse_int ele)

-- `elements[inx:inx+n]`. Go allows a slice up to the capacity, but the read that follows each slice then ends
-- the run by the same panic, before anything is sent.
unfoldable pub slice : ℤ → Cursor (List Bytes)
slice (negsuc _) es = panic out_of_range
slice (pos n) es = if ltb (length es) n then panic out_of_range else ok (take n es, drop n es)

-- `+` and `* 2` on `int64`
abbrev pub add_int64 : ℤ → ℤ → ℤ
add_int64 a b = signed 64 ((unsigned 64 a + unsigned 64 b) % 2 ^ 64)

abbrev pub doubled : ℤ → ℤ
doubled a = signed 64 (unsigned 64 a * 2 % 2 ^ 64)

abbrev pub bit_of : ℕ → ℤ → Bool
bit_of k z = unsigned 64 z / 2 ^ k % 2 == 1

-- The master entry: `count`, `deleted` and the fields.
pub record Master : Type 0 where
  pub count : ℤ
  pub deleted : ℤ
  pub fields : List Bytes

unfoldable pub read_master : Cursor Master
unfolding next_integer next_string slice equal
read_master = do
  count ← next_integer
  deleted ← next_integer
  num_fields ← next_integer
  fields ← slice num_fields
  last_entry ← next_string
  if equal last_entry (codes "0")
      then here (record { count = count; deleted = deleted; fields = fields })
      else gone bad_format

-- An entry: whether it is deleted, its distance from the master and its fields with their values.
pub record StreamEntry : Type 0 where
  pub is_deleted : Bool
  pub ms : ℤ
  pub seq : ℤ
  pub values : List Bytes

-- The values of the fields of the master entry.
unfoldable pub values_of : List Bytes → Cursor (List Bytes)
unfolding next_string
values_of [] = here []
values_of (field ∷ fields) = do
  value ← next_string
  rest ← values_of fields
  here (field ∷ value ∷ rest)

unfoldable pub own_fields : Cursor (List Bytes)
unfolding next_integer slice
own_fields = do num ← next_integer; slice (doubled num)

unfoldable pub stream_entry : List Bytes → Cursor StreamEntry
unfolding next_integer next_string values_of own_fields
stream_entry fields = do
  flags ← next_integer
  ms ← next_integer
  seq ← next_integer
  values ← if bit_of 1 flags then values_of fields else own_fields
  next_string
  here (record { is_deleted = bit_of 0 flags; ms = ms; seq = seq; values = values })

abbrev pub id_text : ℤ → ℤ → Bytes
id_text ms seq = format_int ms ++ (b'-' ∷ format_int seq)

abbrev pub xadd : Bytes → Bytes → List Bytes → Command
xadd key id values = codes "xadd" ∷ key ∷ id ∷ values

-- The loop over the entries of a listpack, on fuel; `master_ms` and `master_seq` are those of its key.
module _ (key : Bytes) (master_ms master_seq : ℤ) (fields : List Bytes) where
  abbrev pub behind_entry :
      ℤ → ℤ → (ℤ → ℤ → List Bytes → Emit) → Result (StreamEntry × List Bytes) → Emit
  behind_entry count deleted again (panic e) = stop e
  behind_entry count deleted again (ok (entry, rest)) =
      if entry.is_deleted
      then again count (add_int64 deleted (negsuc 0)) rest
      else send
          (xadd key (id_text (add_int64 entry.ms master_ms) (add_int64 entry.seq master_seq))
            entry.values)
          (again (add_int64 count (negsuc 0)) deleted rest)

  unfoldable pub send_entries : ℕ → ℤ → ℤ → List Bytes → Emit
  unfolding stream_entry
  send_entries zero count deleted elements = stop out_of_fuel
  send_entries (suc fuel) count deleted elements =
      let round = behind_entry count deleted (send_entries fuel) (stream_entry fields elements) in
      if eq_ℤ count (pos 0) && eq_ℤ deleted (pos 0) then done else round

-- Each entry takes four elements at least.
abbrev pub behind_master : Bytes → ℤ → ℤ → Result (Master × List Bytes) → Emit
behind_master key ms seq (panic e) = stop e
behind_master key ms seq (ok (m, rest)) =
    send_entries key ms seq m.fields (suc (length rest)) m.count m.deleted rest

unfoldable pub node_entries : Bytes → Bytes → List Bytes → Emit
unfolding big_endian read_master send_entries
node_entries key id elements =
    behind_master key (signed 64 (big_endian (take 8 id)))
      (signed 64 (big_endian (take 8 (drop 8 id)))) (read_master elements)

-- The body of the loop over the listpacks.
unfoldable pub stream_node : Bytes → Emit
unfolding read_string read_listpack node_entries
stream_node key = reading read_string λ id.
    if ltb (length id) 16
    then stop out_of_range
    else reading read_listpack λ elements. node_entries key id elements
