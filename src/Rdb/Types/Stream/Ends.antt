-- ===== src/Rdb/Types/Stream/Ends.antt =====
-- The loop over the entries of a listpack ends whatever the listpack holds.
use rdb_elasticache_migrator.Prelude.{
  ℕ, zero, suc, ◌≤◌, ◌<◌, ◌≢◌, Bool, true, false, ◌&&◌, Option, none, some, List, [], ◌∷◌, ltb,
  if◌then◌else◌, length, take, drop, length-drop, arith, codes,
}
use rdb_elasticache_migrator.Prelude.Int.{ℤ, pos, negsuc, signed, eq_ℤ}
use rdb_elasticache_migrator.Runtime.{Bytes, Result, ok, panic, out_of_fuel}
use rdb_elasticache_migrator.Runtime.Strings.{equal}
use rdb_elasticache_migrator.Runtime.Strconv.{parse_int}
use rdb_elasticache_migrator.Runtime.Emit.{Emit, done, send}
use rdb_elasticache_migrator.Rdb.Types.Stream.{
  bad_format, gone, here, big_endian, id_text, out_of_range, xadd, Cursor, from_here, next_string,
  integer, next_integer, slice, doubled, bit_of, add_int64, Master, read_master, StreamEntry,
  values_of, own_fields, stream_entry, behind_entry, send_entries, behind_master, node_entries,
}

-- No lack of fuel, and at most `n` elements are left.
abbrev Leaves : {A : Type 0} → ℕ → Result (A × List Bytes) → Type 0
Leaves n (ok (a, rest)) = length rest ≤ n
Leaves n (panic e) = e ≢ out_of_fuel

then_Leaves :
    {A B : Type 0} (n k : ℕ) (r : Result (A × List Bytes)) (f : A → Cursor B)
    → Leaves n r
    → ((a : A) (rest : List Bytes) → length rest ≤ n → Leaves k (f a rest))
    → Leaves k (from_here r f)
then_Leaves n k (ok (a, rest)) f h g = g a rest h
then_Leaves n k (panic e) f h g = h

next_string-Leaves : (n : ℕ) (es : List Bytes) → length es ≤ suc n → Leaves n (next_string es)
unfolding next_string
next_string-Leaves n [] h = cc
next_string-Leaves n (e ∷ es) h = omega arith

integer-Leaves : (n : ℕ) (o : Option ℤ) (es : List Bytes) → length es ≤ n → Leaves n (integer o es)
integer-Leaves n none es h = cc
integer-Leaves n (some z) es h = h

next_integer-Leaves : (n : ℕ) (es : List Bytes) → length es ≤ suc n → Leaves n (next_integer es)
unfolding next_integer
next_integer-Leaves n es h =
    then_Leaves n n (next_string es) (λ ele. integer (parse_int ele)) (next_string-Leaves n es h)
      (λ ele rest le. integer-Leaves n (parse_int ele) rest le)

slice-Leaves : (n : ℕ) (z : ℤ) (es : List Bytes) → length es ≤ n → Leaves n (slice z es)
unfolding slice
slice-Leaves n (negsuc m) es h = cc
slice-Leaves n (pos m) es h = by_length (ltb (length es) m)
  where
    by_length : (t : Bool) → Leaves n (if t then panic out_of_range else ok (take m es, drop m es))
    by_length true = cc
    by_length false = omega (arith, length-drop {0} m es)

values_of-Leaves : (n : ℕ) (fields es : List Bytes) → length es ≤ n → Leaves n (values_of fields es)
unfolding values_of
values_of-Leaves n [] es h = h
values_of-Leaves n (field ∷ fields) es h =
    then_Leaves n n (next_string es) _ (next_string-Leaves n es (omega arith)) (λ value rest le.
      then_Leaves n n (values_of fields rest) _ (values_of-Leaves n fields rest le)
        (λ more last k. k))

own_fields-Leaves : (n : ℕ) (es : List Bytes) → length es ≤ n → Leaves n (own_fields es)
unfolding own_fields
own_fields-Leaves n es h =
    then_Leaves n n (next_integer es) _ (next_integer-Leaves n es (omega arith))
      (λ num rest le. slice-Leaves n (doubled num) rest le)

pairs-Leaves :
    (n : ℕ) (t : Bool) (fields es : List Bytes)
    → length es ≤ n
    → Leaves n ((if t then values_of fields else own_fields) es)
pairs-Leaves n true fields es h = values_of-Leaves n fields es h
pairs-Leaves n false fields es h = own_fields-Leaves n es h

stream_entry-Leaves :
    (n : ℕ) (fields es : List Bytes) → length es ≤ suc n → Leaves n (stream_entry fields es)
unfolding stream_entry
stream_entry-Leaves n fields es h =
    then_Leaves n n (next_integer es) _ (next_integer-Leaves n es h) (λ flags es1 l1.
      then_Leaves n n (next_integer es1) _ (next_integer-Leaves n es1 (omega arith)) (λ ms es2 l2.
        then_Leaves n n (next_integer es2) _ (next_integer-Leaves n es2 (omega arith))
          (λ seq es3 l3.
            then_Leaves n n ((if bit_of 1 flags then values_of fields else own_fields) es3) _
              (pairs-Leaves n (bit_of 1 flags) fields es3 l3)
              (λ values es4 l4.
                then_Leaves n n (next_string es4) _ (next_string-Leaves n es4 (omega arith))
                  (λ count es5 l5. l5)))))

behind_entry-ends :
    (key : Bytes) (ms seq : ℤ) (fields : List Bytes) (n : ℕ) (count deleted : ℤ)
    (again : ℤ → ℤ → List Bytes → Emit) (r : Result (StreamEntry × List Bytes)) (bs : Bytes)
    → Leaves n r
    → ((c d : ℤ) (rest : List Bytes)
        → length rest ≤ n
        → (again c d rest bs).outcome ≢ panic out_of_fuel)
    → (behind_entry key ms seq fields count deleted again r bs).outcome ≢ panic out_of_fuel
behind_entry-ends key ms seq fields n count deleted again (panic e) bs h f = λ q. h (cc)
behind_entry-ends key ms seq fields n count deleted again (ok (entry, rest)) bs h f =
    by_state entry.is_deleted (f count (add_int64 deleted (negsuc 0)) rest h)
      (f (add_int64 count (negsuc 0)) deleted rest h)
  where
    by_state :
        (t : Bool)
        → (again count (add_int64 deleted (negsuc 0)) rest bs).outcome ≢ panic out_of_fuel
        → (again (add_int64 count (negsuc 0)) deleted rest bs).outcome ≢ panic out_of_fuel
        → ((if t
              then again count (add_int64 deleted (negsuc 0)) rest
              else send
                  (xadd key
                    (id_text (add_int64 entry.ms ms) (add_int64 entry.seq seq))
                    entry.values)
                  (again (add_int64 count (negsuc 0)) deleted rest))
            bs).outcome
          ≢ panic out_of_fuel
    by_state true p q = p
    by_state false p q = q

unless :
    (t : Bool) (round : Emit) (bs : Bytes)
    → (round bs).outcome ≢ panic out_of_fuel
    → ((if t then done else round) bs).outcome ≢ panic out_of_fuel
unless true round bs h = cc
unless false round bs h = h

send_entries-ends :
    (key : Bytes) (ms seq : ℤ) (fields : List Bytes) (fuel : ℕ) (count deleted : ℤ)
    (es : List Bytes) (bs : Bytes)
    → length es < fuel
    → (send_entries key ms seq fields fuel count deleted es bs).outcome ≢ panic out_of_fuel
unfolding send_entries
send_entries-ends key ms seq fields zero count deleted es bs h = absurd (omega arith)
send_entries-ends key ms seq fields (suc fuel) count deleted [] bs h =
    unless (eq_ℤ count (pos 0) && eq_ℤ deleted (pos 0))
      (behind_entry key ms seq fields count deleted (send_entries key ms seq fields fuel)
        (stream_entry fields []))
      bs (cc)
send_entries-ends key ms seq fields (suc fuel) count deleted (e ∷ es) bs h =
    unless (eq_ℤ count (pos 0) && eq_ℤ deleted (pos 0))
      (behind_entry key ms seq fields count deleted (send_entries key ms seq fields fuel)
        (stream_entry fields (e ∷ es)))
      bs
      (behind_entry-ends key ms seq fields (length es) count deleted
        (send_entries key ms seq fields fuel) (stream_entry fields (e ∷ es)) bs
        (stream_entry-Leaves (length es) fields (e ∷ es) (omega arith))
        (λ c d rest le. send_entries-ends key ms seq fields fuel c d rest bs (omega arith)))

read_master-Leaves : (n : ℕ) (es : List Bytes) → length es ≤ suc n → Leaves n (read_master es)
unfolding read_master
read_master-Leaves n es h =
    then_Leaves n n (next_integer es) _ (next_integer-Leaves n es h) (λ count es1 l1.
      then_Leaves n n (next_integer es1) _ (next_integer-Leaves n es1 (omega arith))
        (λ deleted es2 l2.
          then_Leaves n n (next_integer es2) _ (next_integer-Leaves n es2 (omega arith))
            (λ num es3 l3.
              then_Leaves n n (slice num es3) _ (slice-Leaves n num es3 l3) (λ fields es4 l4.
                then_Leaves n n (next_string es4) _ (next_string-Leaves n es4 (omega arith))
                  (λ entry es5 l5. by_end (equal entry (codes "0")) count deleted fields es5 l5)))))
  where
    by_end :
        (t : Bool) (count deleted : ℤ) (fields rest : List Bytes)
        → length rest ≤ n
        → Leaves {A = Master} n (
            (if t
                then here (record { count = count; deleted = deleted; fields = fields })
                else gone bad_format)
              rest)
    by_end true count deleted fields rest l = l
    by_end false count deleted fields rest l = cc

behind_master-ends :
    (key : Bytes) (ms seq : ℤ) (n : ℕ) (r : Result (Master × List Bytes)) (bs : Bytes)
    → Leaves n r
    → (behind_master key ms seq r bs).outcome ≢ panic out_of_fuel
behind_master-ends key ms seq n (panic e) bs h = λ q. h (cc)
behind_master-ends key ms seq n (ok (m, rest)) bs h =
    send_entries-ends key ms seq m.fields (suc (length rest)) m.count m.deleted rest bs
      (omega arith)

-- Whatever texts a listpack of a stream holds, the loop over its entries ends: their number is always fuel
-- enough.
pub node_entries-ends :
    (key id : Bytes) (elements : List Bytes) (bs : Bytes)
    → (node_entries key id elements bs).outcome ≢ panic out_of_fuel
unfolding node_entries
node_entries-ends key id elements bs =
    behind_master-ends key (signed 64 (big_endian (take 8 id)))
      (signed 64 (big_endian (take 8 (drop 8 id)))) (length elements) (read_master elements) bs
      (read_master-Leaves (length elements) elements (omega arith))
