-- ===== src/Rdb/Types/Stream/Items.antt =====
-- The entries of a listpack of a stream.
use rdb_elasticache_migrator.Prelude.{
  take-append, drop-append, ℕ, zero, suc, ◌+◌, ◌*◌, ◌-◌, ◌^◌, ◌<◌, ◌≤◌, ◌≡◌, refl, Bool, true,
  false, ◌&&◌, List, [], ◌∷◌, ◌++◌, ltb, if◌then◌else◌, length, length-append, flat_map,
  append_assoc, arith,
}
use rdb_elasticache_migrator.Prelude.Int.{ℤ, pos, negsuc, ◌-ℤ◌, eq_ℤ}
use rdb_elasticache_migrator.Runtime.{Bytes, ok}
use rdb_elasticache_migrator.Runtime.Strconv.{format_int, parse_int-format_int, IsInt64}
use rdb_elasticache_migrator.Runtime.Emit.{Command, Emit, Each}
use rdb_elasticache_migrator.Rdb.Types.Stream.{
  next_string, next_integer, slice, add_int64, doubled, bit_of, values_of, own_fields, stream_entry,
  id_text, xadd, behind_entry, send_entries,
}

-- An entry of a stream with its id; with `same` it leaves its fields to the master entry.
pub record Item : Type 0 where
  pub is_deleted : Bool
  pub same : Bool
  pub ms : ℕ
  pub seq : ℕ
  pub pairs : List (Bytes × Bytes)
  pub lp_count : Bytes

abbrev pub flag : Bool → ℕ
flag true = 1
flag false = 0

abbrev pub flat : List (Bytes × Bytes) → List Bytes
flat [] = []
flat ((field, value) ∷ ps) = field ∷ value ∷ flat ps

abbrev pub names : List (Bytes × Bytes) → List Bytes
names [] = []
names ((field, value) ∷ ps) = field ∷ names ps

abbrev values : List (Bytes × Bytes) → List Bytes
values [] = []
values ((field, value) ∷ ps) = value ∷ values ps

abbrev pub pair_texts : Bool → List (Bytes × Bytes) → List Bytes
pair_texts true ps = values ps
pair_texts false ps = format_int (pos (length ps)) ∷ flat ps

abbrev pub item_texts : ℕ → ℕ → Item → List Bytes
item_texts master_ms master_seq i =
    format_int (pos (flag i.is_deleted + 2 * flag i.same))
    ∷ format_int (pos i.ms -ℤ pos master_ms)
    ∷ format_int (pos i.seq -ℤ pos master_seq)
    ∷ (pair_texts i.same i.pairs ++ i.lp_count ∷ [])

abbrev pub HasFields : List Bytes → Bool → List (Bytes × Bytes) → Type 0
HasFields fields true ps = names ps ≡ fields
HasFields fields false ps = length ps < 2 ^ 62

abbrev pub IsItem : List Bytes → Item → Type 0
IsItem fields i = (i.ms < 2 ^ 63) × (i.seq < 2 ^ 63) × HasFields fields i.same i.pairs

pub next_integer-format_int :
    (z : ℤ) (es : List Bytes) → IsInt64 z → next_integer (format_int z ∷ es) ≡ ok (z, es)
unfolding next_integer
next_integer-format_int z es h = rw (parse_int-format_int z h) refl

difference : (a b : ℕ) → a < 2 ^ 63 → b < 2 ^ 63 → IsInt64 (pos a -ℤ pos b)
difference a b h k = ground arith

add_back : (a b : ℕ) → a < 2 ^ 63 → b < 2 ^ 63 → add_int64 (pos a -ℤ pos b) (pos b) ≡ pos a
add_back a b h k = ground arith

values_of-values :
    (ps : List (Bytes × Bytes)) (rest : List Bytes)
    → values_of (names ps) (values ps ++ rest) ≡ ok (flat ps, rest)
unfolding values_of
values_of-values [] rest = refl
values_of-values ((field, value) ∷ ps) rest = rw (values_of-values ps rest) refl

length-flat : (ps : List (Bytes × Bytes)) → length (flat ps) ≡ 2 * length ps
length-flat [] = refl
length-flat ((field, value) ∷ ps) = omega (arith, length-flat ps)

fits : (xs rest : List Bytes) → ltb (length (xs ++ rest)) (length xs) ≡ false
fits xs rest = ground (arith, length-append {0} xs rest)

pub slice-front : (xs rest : List Bytes) → slice (pos (length xs)) (xs ++ rest) ≡ ok (xs, rest)
unfolding slice
slice-front xs rest =
    rw (fits xs rest, take-append xs rest (length xs) refl, drop-append xs rest (length xs) refl)
      refl

twice :
    (ps : List (Bytes × Bytes))
    → length ps < 2 ^ 62
    → doubled (pos (length ps)) ≡ pos (length (flat ps))
twice ps h = ground (arith, length-flat ps)

own_fields-flat :
    (ps : List (Bytes × Bytes)) (rest : List Bytes)
    → length ps < 2 ^ 62
    → own_fields (format_int (pos (length ps)) ∷ (flat ps ++ rest)) ≡ ok (flat ps, rest)
unfolding own_fields
own_fields-flat ps rest h =
    rw
      (
        next_integer-format_int (pos (length ps)) (flat ps ++ rest) (omega arith),
        twice ps h,
        slice-front (flat ps) rest,
      )
      refl

same_bit : (d s : Bool) → bit_of 1 (pos (flag d + 2 * flag s)) ≡ s
same_bit true true = refl
same_bit true false = refl
same_bit false true = refl
same_bit false false = refl

deleted_bit : (d s : Bool) → bit_of 0 (pos (flag d + 2 * flag s)) ≡ d
deleted_bit true true = refl
deleted_bit true false = refl
deleted_bit false true = refl
deleted_bit false false = refl

read_pairs :
    (fields : List Bytes) (same : Bool) (ps : List (Bytes × Bytes)) (rest : List Bytes)
    → HasFields fields same ps
    → (if same then values_of fields else own_fields) (pair_texts same ps ++ rest)
      ≡ ok (flat ps, rest)
read_pairs fields true ps rest h = rw (← h) (values_of-values ps rest)
read_pairs fields false ps rest h = own_fields-flat ps rest h

small_flags : (d s : Bool) → IsInt64 (pos (flag d + 2 * flag s))
small_flags d s = ground arith

stream_entry-item :
    (fields : List Bytes) (master_ms master_seq : ℕ) (i : Item) (rest : List Bytes)
    → master_ms < 2 ^ 63
    → master_seq < 2 ^ 63
    → IsItem fields i
    → stream_entry fields (item_texts master_ms master_seq i ++ rest)
      ≡ ok (
        record {
          is_deleted = i.is_deleted;
          ms = pos i.ms -ℤ pos master_ms;
          seq = pos i.seq -ℤ pos master_seq;
          values = flat i.pairs;
        },
        rest,
      )
unfolding stream_entry next_string
stream_entry-item fields master_ms master_seq i rest m s (a, b, c) =
    rw
      (
        append_assoc (pair_texts i.same i.pairs) (i.lp_count ∷ []) rest,
        next_integer-format_int (pos (flag i.is_deleted + 2 * flag i.same))
            (format_int (pos i.ms -ℤ pos master_ms)
              ∷ format_int (pos i.seq -ℤ pos master_seq)
              ∷ (pair_texts i.same i.pairs ++ i.lp_count ∷ rest))
            (small_flags i.is_deleted i.same),
        next_integer-format_int (pos i.ms -ℤ pos master_ms)
            (format_int (pos i.seq -ℤ pos master_seq)
              ∷ (pair_texts i.same i.pairs ++ i.lp_count ∷ rest))
            (difference i.ms master_ms a m),
        next_integer-format_int (pos i.seq -ℤ pos master_seq)
            (pair_texts i.same i.pairs ++ i.lp_count ∷ rest) (difference i.seq master_seq b s),
        same_bit i.is_deleted i.same,
        deleted_bit i.is_deleted i.same,
        read_pairs fields i.same i.pairs (i.lp_count ∷ rest) c,
      )
      refl

abbrev pub alive : List Item → ℕ
alive [] = 0
alive (i ∷ is) = (1 - flag i.is_deleted) + alive is

abbrev pub dead : List Item → ℕ
dead [] = 0
dead (i ∷ is) = flag i.is_deleted + dead is

abbrev pub added : Bytes → Item → List Command
added key i =
    if i.is_deleted then [] else xadd key (id_text (pos i.ms) (pos i.seq)) (flat i.pairs) ∷ []

one_less : (n : ℕ) → n < 2 ^ 63 → add_int64 (pos (1 + n)) (negsuc 0) ≡ pos n
one_less n h = ground arith

none_more : (n : ℕ) → 0 + n ≡ n
none_more n = omega arith

pub alive-le : (is : List Item) → alive is ≤ length is
alive-le [] = omega arith
alive-le (i ∷ is) = ground (arith, alive-le is)

pub dead-le : (is : List Item) → dead is ≤ length is
dead-le [] = omega arith
dead-le (i ∷ is) = ground (arith, dead-le is)

some_left :
    (d : Bool) (a b : ℕ)
    → (eq_ℤ (pos ((1 - flag d) + a)) (pos 0) && eq_ℤ (pos (flag d + b)) (pos 0)) ≡ false
some_left true a b = ground arith
some_left false a b = ground arith

one_round :
    (key : Bytes) (mm ms : ℕ) (fields : List Bytes) (d : Bool) (im is a b : ℕ) (vs : List Bytes)
    (again : ℤ → ℤ → List Bytes → Emit) (rest : List Bytes) (bs : Bytes) (cmds : List Command)
    → mm < 2 ^ 63
    → ms < 2 ^ 63
    → im < 2 ^ 63
    → is < 2 ^ 63
    → a < 2 ^ 63
    → b < 2 ^ 63
    → again (pos a) (pos b) rest bs ≡ record { sent = cmds; outcome = ok bs }
    → behind_entry key
        (pos mm)
        (pos ms)
        fields
        (pos ((1 - flag d) + a))
        (pos (flag d + b))
        again
        (ok (
          record { is_deleted = d; ms = pos im -ℤ pos mm; seq = pos is -ℤ pos ms; values = vs },
          rest,
        ))
        bs
      ≡ record {
        sent = (if d then [] else xadd key (id_text (pos im) (pos is)) vs ∷ []) ++ cmds;
        outcome = ok bs;
      }
one_round key mm ms fields true im is a b vs again rest bs cmds q r s t u v h =
    rw (none_more a, one_less b v) h
one_round key mm ms fields false im is a b vs again rest bs cmds q r s t u v h =
    rw (none_more b, one_less a u, add_back im mm s q, add_back is ms t r, h) refl

pub send_entries-items :
    (key : Bytes) (master_ms master_seq : ℕ) (fields : List Bytes) (fuel : ℕ) (is : List Item)
    (bs : Bytes)
    → master_ms < 2 ^ 63
    → master_seq < 2 ^ 63
    → Each (IsItem fields) is
    → length is < fuel
    → length is < 2 ^ 63
    → send_entries key
        (pos master_ms)
        (pos master_seq)
        fields
        fuel
        (pos (alive is))
        (pos (dead is))
        (flat_map (item_texts master_ms master_seq) is)
        bs
      ≡ record { sent = flat_map (added key) is; outcome = ok bs }
unfolding send_entries flat_map
send_entries-items key mm ms fields zero is bs a b all h few = absurd (omega arith)
send_entries-items key mm ms fields (suc fuel) [] bs a b all h few = refl
send_entries-items key mm ms fields (suc fuel) (i ∷ is) bs a b (p, all) h few =
    rw
      (
        some_left i.is_deleted (alive is) (dead is),
        stream_entry-item fields mm ms i (flat_map (item_texts mm ms) is) a b p,
      )
      (one_round key mm ms fields i.is_deleted i.ms i.seq (alive is) (dead is) (flat i.pairs)
        (send_entries key (pos mm) (pos ms) fields fuel) (flat_map (item_texts mm ms) is) bs
        (flat_map (added key) is) a b (p.0) (p.1) (omega (arith, alive-le is))
        (omega (arith, dead-le is))
        (send_entries-items key mm ms fields fuel is bs a b all (omega arith) (omega arith)))
