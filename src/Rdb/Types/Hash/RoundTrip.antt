-- ===== src/Rdb/Types/Hash/RoundTrip.antt =====
-- The commands of a saved hash.
use rdb_elasticache_migrator.Prelude.{
  ℕ, ◌+◌, ◌-◌, ◌<◌, ◌≤◌, ◌^◌, ◌≡◌, refl, ap, Bool, true, false, ◌==◌, List, [], ◌∷◌, ◌++◌, map,
  flat_map, length, arith, append_assoc, append-nil, codes, zero, suc, if◌then◌else◌, ◌⊎◌, inl, inr,
}
use rdb_elasticache_migrator.Prelude.Int.{pos, eq_ℤ}
use rdb_elasticache_migrator.Runtime.{Bytes, ok}
use rdb_elasticache_migrator.Runtime.Strconv.{format_int, parse_int-format_int}
use rdb_elasticache_migrator.Runtime.Words.{to_little, little_endian-to_little}
use rdb_elasticache_migrator.Runtime.Emit.{Command, Emit, Each, done}
use rdb_elasticache_migrator.Rdb.Structure.Int.{read_uint64}
use rdb_elasticache_migrator.Rdb.Structure.Length.RoundTrip.{
  encode_length, read_length-encode_length,
}
use rdb_elasticache_migrator.Rdb.Structure.Strings.RoundTrip.{
  Stored, IsStored, save, content, read_string-save,
}
use rdb_elasticache_migrator.Rdb.Types.Saved.{
  ZipNode, PackNode, IsZipNode, IsPackNode, zip_elements, pack_elements, read_ziplist-node,
  read_listpack-node, save_all, times-save_all,
}
use rdb_elasticache_migrator.Rdb.Types.Hash.{
  hset, hpexpireat, hash_element, read_hash, send_fields, read_hash_ziplist, read_hash_listpack,
  send_with_ttl, send_fields_ttl, read_hash_listpack_ttl, absolute, hash_element_ttl, read_hash_ttl,
  rewrite_hash,
}

-- A field and its value, as texts; and with a time, where 0 is none.
pub record Pair : Type 0 where
  pub field : Bytes
  pub value : Bytes

pub record Timed : Type 0 where
  pub field : Bytes
  pub value : Bytes
  pub time : ℕ

abbrev pub flatten : List Pair → List Bytes
flatten [] = []
flatten (p ∷ ps) = p.field ∷ p.value ∷ flatten ps

abbrev pub flatten_timed : List Timed → List Bytes
flatten_timed [] = []
flatten_timed (p ∷ ps) = p.field ∷ p.value ∷ format_int (pos p.time) ∷ flatten_timed ps

abbrev pub set_pair : Bytes → Pair → Command
set_pair key p = hset key p.field p.value

-- A time of 0 gives no command.
abbrev pub set_timed : Bytes → Timed → List Command
set_timed key p =
    hset key p.field p.value
    ∷ (if p.time == 0 then [] else hpexpireat key (pos p.time) p.field ∷ [])

-- The same in stored strings; `time` is absolute.
pub record StoredPair : Type 0 where
  pub field : Stored
  pub value : Stored
  pub time : ℕ

abbrev pub timed : StoredPair → Timed
timed p = record { field = content p.field; value = content p.value; time = p.time }

abbrev pub pair : StoredPair → Pair
pair p = record { field = content p.field; value = content p.value }

abbrev pub IsStoredPair : StoredPair → Type 0
IsStoredPair p = IsStored p.field × IsStored p.value

abbrev pub IsTimedPair : ℕ → StoredPair → Type 0
IsTimedPair least p =
    IsStored p.field × IsStored p.value × (p.time < 2 ^ 63) × ((p.time ≡ 0) ⊎ (least ≤ p.time))

abbrev pub IsTimed : Timed → Type 0
IsTimed p = p.time < 2 ^ 63

-- What is written for a time when `least` is the least one of the hash: 0 stays, and `least` is 1.
abbrev pub relative : ℕ → ℕ → ℕ
relative least time = if time == 0 then 0 else time - least + 1

-- The forms of a hash in the file. Those with times have the least time of the hash in front, but not
-- those of the release candidates (`_pre`), which keep the times as they are.
pub data SavedHash : Type 0 where
  hashtable : List StoredPair → SavedHash
  one_ziplist : ZipNode → List Pair → SavedHash
  one_listpack : PackNode → List Pair → SavedHash
  metadata : ℕ → List StoredPair → SavedHash
  listpack_ex : ℕ → PackNode → List Timed → SavedHash
  metadata_pre : List StoredPair → SavedHash
  listpack_ex_pre : PackNode → List Timed → SavedHash

abbrev pub IsSavedHash : SavedHash → Type 0
IsSavedHash (hashtable ps) = Each IsStoredPair ps × (length ps < 2 ^ 63)
IsSavedHash (one_ziplist n ps) = IsZipNode n × (zip_elements n ≡ flatten ps)
IsSavedHash (one_listpack n ps) = IsPackNode n × (pack_elements n ≡ flatten ps)
IsSavedHash (metadata least ps) =
    Each (IsTimedPair least) ps × (length ps < 2 ^ 63) × (least < 2 ^ 63)
IsSavedHash (listpack_ex least n ps) =
    IsPackNode n × (pack_elements n ≡ flatten_timed ps) × Each IsTimed ps × (least < 2 ^ 63)
IsSavedHash (metadata_pre ps) = Each (IsTimedPair 0) ps × (length ps < 2 ^ 63)
IsSavedHash (listpack_ex_pre n ps) =
    IsPackNode n × (pack_elements n ≡ flatten_timed ps) × Each IsTimed ps

abbrev pub type_byte : SavedHash → ℕ
type_byte (hashtable _) = 4
type_byte (one_ziplist _ _) = 13
type_byte (one_listpack _ _) = 16
type_byte (metadata _ _) = 24
type_byte (listpack_ex _ _ _) = 25
type_byte (metadata_pre _) = 22
type_byte (listpack_ex_pre _ _) = 23

abbrev pub save_pair : StoredPair → Bytes
save_pair p = save p.field ++ save p.value

abbrev pub save_timed : ℕ → StoredPair → Bytes
save_timed least p = encode_length (relative least p.time) ++ (save p.field ++ save p.value)

abbrev pub save_timed_pre : StoredPair → Bytes
save_timed_pre p = encode_length p.time ++ (save p.field ++ save p.value)

abbrev pub save_hash : SavedHash → Bytes
save_hash (hashtable ps) = save_all save_pair ps
save_hash (one_ziplist n ps) = save n.text
save_hash (one_listpack n ps) = save n.text
save_hash (metadata least ps) = to_little 8 least ++ save_all (save_timed least) ps
save_hash (listpack_ex least n ps) = to_little 8 least ++ save n.text
save_hash (metadata_pre ps) = save_all save_timed_pre ps
save_hash (listpack_ex_pre n ps) = save n.text

abbrev pub commands : Bytes → SavedHash → List Command
commands key (hashtable ps) = flat_map (λ p. set_pair key (pair p) ∷ []) ps
commands key (one_ziplist n ps) = map (set_pair key) ps
commands key (one_listpack n ps) = map (set_pair key) ps
commands key (metadata least ps) = flat_map (λ p. set_timed key (timed p)) ps
commands key (listpack_ex least n ps) = flat_map (set_timed key) ps
commands key (metadata_pre ps) = flat_map (λ p. set_timed key (timed p)) ps
commands key (listpack_ex_pre n ps) = flat_map (set_timed key) ps

hash_element-save :
    (key : Bytes) (p : StoredPair) (rest : Bytes)
    → IsStoredPair p
    → hash_element key (save_pair p ++ rest)
      ≡ record { sent = set_pair key (pair p) ∷ []; outcome = ok rest }
unfolding hash_element
hash_element-save key p rest (f, v) =
    rw
      (
        append_assoc,
        read_string-save p.field (save p.value ++ rest) f,
        read_string-save p.value rest v,
      )
      refl

send_fields-flatten :
    (key : Bytes) (ps : List Pair) (rest : Bytes)
    → send_fields key (flatten ps) rest ≡ record { sent = map (set_pair key) ps; outcome = ok rest }
unfolding send_fields
send_fields-flatten key [] rest = refl
send_fields-flatten key (p ∷ ps) rest =
    ap (λ r. record { sent = set_pair key p ∷ r.sent; outcome = r.outcome })
      (send_fields-flatten key ps rest)

absolute-relative :
    (least time : ℕ)
    → time < 2 ^ 63
    → least < 2 ^ 63
    → (time ≡ 0) ⊎ (least ≤ time)
    → absolute false least (relative least time) ≡ pos time
unfolding absolute
absolute-relative least time a b (inl e) = ground arith
absolute-relative least time a b (inr e) = ground arith

absolute-pre : (least time : ℕ) → time < 2 ^ 63 → absolute true least time ≡ pos time
unfolding absolute
absolute-pre least time h = ground arith

some_time : (n : ℕ) → eq_ℤ (pos (suc n)) (pos 0) ≡ false
some_time n = ground arith

suc_not_zero : (n : ℕ) → (suc n == 0) ≡ false
suc_not_zero n = ground arith

send_with_ttl-timed :
    (key field value : Bytes) (time : ℕ) (k : Emit) (rest : Bytes)
    → send_with_ttl key field value (pos time) k rest ≡ record {
      sent = set_timed key (record { field = field; value = value; time = time }) ++ (k rest).sent;
      outcome = (k rest).outcome;
    }
unfolding send_with_ttl
send_with_ttl-timed key field value zero k rest = refl
send_with_ttl-timed key field value (suc n) k rest = rw (some_time n, suc_not_zero n) refl

-- A time is written as `written`.
hash_element_ttl-save :
    (key : Bytes) (is_pre : Bool) (least written : ℕ) (p : StoredPair) (rest : Bytes)
    → IsStored p.field
    → IsStored p.value
    → written < 2 ^ 64
    → absolute is_pre least written ≡ pos p.time
    → hash_element_ttl key is_pre least
        ((encode_length written ++ (save p.field ++ save p.value)) ++ rest)
      ≡ record { sent = set_timed key (timed p); outcome = ok rest }
unfolding hash_element_ttl
hash_element_ttl-save key is_pre least written p rest f v small e =
    rw
      (
        append_assoc,
        append_assoc,
        read_length-encode_length written (save p.field ++ (save p.value ++ rest)) small,
        read_string-save p.field (save p.value ++ rest) f,
        read_string-save p.value rest v,
        e,
        send_with_ttl-timed key (content p.field) (content p.value) p.time done rest,
        append-nil,
      )
      refl

send_fields_ttl-flatten :
    (key : Bytes) (ps : List Timed) (rest : Bytes)
    → Each IsTimed ps
    → send_fields_ttl key (flatten_timed ps) rest
      ≡ record { sent = flat_map (set_timed key) ps; outcome = ok rest }
unfolding send_fields_ttl flat_map
send_fields_ttl-flatten key [] rest h = refl
send_fields_ttl-flatten key (p ∷ ps) rest (h, hs) =
    rw
      (
        parse_int-format_int (pos p.time) (omega arith),
        send_with_ttl-timed key p.field p.value p.time (send_fields_ttl key (flatten_timed ps))
            rest,
        send_fields_ttl-flatten key ps rest hs,
      )
      refl

least-read :
    (least : ℕ) (rest : Bytes)
    → least < 2 ^ 63
    → read_uint64 (to_little 8 least ++ rest) ≡ ok (least, rest)
unfolding read_uint64 to_little
least-read least rest h = rw (little_endian-to_little 8 least (omega arith)) refl

relative-small : (least time : ℕ) → time < 2 ^ 63 → relative least time < 2 ^ 64
relative-small least time h = ground arith

metadata-save :
    (key : Bytes) (least : ℕ) (p : StoredPair) (rest : Bytes)
    → least < 2 ^ 63
    → IsTimedPair least p
    → hash_element_ttl key false least (save_timed least p ++ rest)
      ≡ record { sent = set_timed key (timed p); outcome = ok rest }
metadata-save key least p rest few (f, v, t, e) =
    hash_element_ttl-save key false least (relative least p.time) p rest f v
      (relative-small least p.time t) (absolute-relative least p.time t few e)

metadata_pre-save :
    (key : Bytes) (p : StoredPair) (rest : Bytes)
    → IsTimedPair 0 p
    → hash_element_ttl key true 0 (save_timed_pre p ++ rest)
      ≡ record { sent = set_timed key (timed p); outcome = ok rest }
metadata_pre-save key p rest (f, v, t, e) =
    hash_element_ttl-save key true 0 p.time p rest f v (omega arith) (absolute-pre 0 p.time t)

-- A hash in any of the seven forms that the code reads (all but the zipmap, type 9, which ends the run) is written
-- again as a `del` of the key, one `hset` for each field, in the order of the file, and one `hpexpireat` behind the `hset` of a field that has a time, with
-- that time. What follows the hash in the file is left unread.
pub rewrite_hash-save :
    (key : Bytes) (v : SavedHash) (rest : Bytes)
    → IsSavedHash v
    → rewrite_hash key (type_byte v) (save_hash v ++ rest)
      ≡ record { sent = (codes "del" ∷ key ∷ []) ∷ commands key v; outcome = ok rest }
unfolding rewrite_hash read_hash read_hash_ziplist read_hash_listpack read_hash_ttl
    read_hash_listpack_ttl
rewrite_hash-save key (hashtable ps) rest (all, few) =
    rw
      (times-save_all IsStoredPair save_pair (λ p. set_pair key (pair p) ∷ []) (hash_element key) ps
        rest all few (hash_element-save key))
      refl
rewrite_hash-save key (one_ziplist n ps) rest (h, e) =
    rw (read_ziplist-node n rest h, e, send_fields-flatten key ps rest) refl
rewrite_hash-save key (one_listpack n ps) rest (h, e) =
    rw (read_listpack-node n rest h, e, send_fields-flatten key ps rest) refl
rewrite_hash-save key (metadata least ps) rest (all, few, small) =
    rw
      (
        append_assoc,
        least-read least (save_all (save_timed least) ps ++ rest) small,
        times-save_all (IsTimedPair least) (save_timed least) (λ p. set_timed key (timed p))
            (hash_element_ttl key false least) ps rest all few
            (λ p more. metadata-save key least p more small),
      )
      refl
rewrite_hash-save key (listpack_ex least n ps) rest (h, e, times, small) =
    rw
      (
        append_assoc,
        least-read least (save n.text ++ rest) small,
        read_listpack-node n rest h,
        e,
        send_fields_ttl-flatten key ps rest times,
      )
      refl
rewrite_hash-save key (metadata_pre ps) rest (all, few) =
    rw
      (times-save_all (IsTimedPair 0) save_timed_pre (λ p. set_timed key (timed p))
        (hash_element_ttl key true 0) ps rest all few (metadata_pre-save key))
      refl
rewrite_hash-save key (listpack_ex_pre n ps) rest (h, e, times) =
    rw (read_listpack-node n rest h, e, send_fields_ttl-flatten key ps rest times) refl
