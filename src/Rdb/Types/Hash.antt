-- ===== src/Rdb/Types/Hash.antt =====
-- internal/rdb/types/hash.go.
pub mod RoundTrip
use rdb_elasticache_migrator.Prelude.{
  ℕ, Bool, true, false, Option, none, some, List, [], ◌∷◌, ◌==◌, if◌then◌else◌, codes, ◌+◌, ◌%◌,
  ◌^◌, ◌-◌,
}
use rdb_elasticache_migrator.Prelude.Int.{ℤ, pos, signed, eq_ℤ}
use rdb_elasticache_migrator.Runtime.{
  Bytes, Read, unknown_type, unsupported, bad_number, out_of_range, pure,
}
use rdb_elasticache_migrator.Runtime.Strconv.{format_int, parse_int}
use rdb_elasticache_migrator.Runtime.Emit.{Command, Emit, done, stop, send, reading, times, rounds}
use rdb_elasticache_migrator.Rdb.Structure.Int.{read_uint64}
use rdb_elasticache_migrator.Rdb.Structure.Length.{read_length}
use rdb_elasticache_migrator.Rdb.Structure.Strings.{read_string}
use rdb_elasticache_migrator.Rdb.Structure.Listpack.{read_listpack}
use rdb_elasticache_migrator.Rdb.Structure.Ziplist.{read_ziplist}

abbrev pub hset : Bytes → Bytes → Bytes → Command
hset key field value = codes "hset" ∷ key ∷ field ∷ value ∷ []

abbrev pub hpexpireat : Bytes → ℤ → Bytes → Command
hpexpireat key expire_at field =
    codes "hpexpireat" ∷ key ∷ format_int expire_at ∷ codes "fields" ∷ codes "1" ∷ field ∷ []

-- The body of the loop of `readHash`.
unfoldable pub hash_element : Bytes → Emit
unfolding read_string
hash_element key =
    reading read_string λ field. reading read_string λ value. send (hset key field value) done

unfoldable pub read_hash : Bytes → Emit
unfolding hash_element read_length times
read_hash key = reading read_length λ size. times (rounds (signed 64 size)) (hash_element key)

-- `for i := 0; i < size; i += 2`
unfoldable pub send_fields : Bytes → List Bytes → Emit
send_fields key [] = done
send_fields key (field ∷ []) = stop out_of_range
send_fields key (field ∷ value ∷ list) = send (hset key field value) (send_fields key list)

unfoldable pub read_hash_ziplist : Bytes → Emit
unfolding read_ziplist send_fields
read_hash_ziplist key = reading read_ziplist λ list. send_fields key list

unfoldable pub read_hash_listpack : Bytes → Emit
unfolding read_listpack send_fields
read_hash_listpack key = reading read_listpack λ list. send_fields key list

-- `hset`, and `hpexpireat` where there is a time.
unfoldable pub send_with_ttl : Bytes → Bytes → Bytes → ℤ → Emit → Emit
send_with_ttl key field value expire_at k =
    send (hset key field value)
      (if eq_ℤ expire_at (pos 0) then k else send (hpexpireat key expire_at field) k)

abbrev with_parsed : Option ℤ → (ℤ → Emit) → Emit
with_parsed none f = stop bad_number
with_parsed (some expire_at) f = f expire_at

-- `for i := 0; i < size; i += 3`
unfoldable pub send_fields_ttl : Bytes → List Bytes → Emit
unfolding send_with_ttl parse_int
send_fields_ttl key [] = done
send_fields_ttl key (field ∷ []) = stop out_of_range
send_fields_ttl key (field ∷ value ∷ []) = stop out_of_range
send_fields_ttl key (field ∷ value ∷ time ∷ list) =
    with_parsed (parse_int time)
      λ expire_at. send_with_ttl key field value expire_at (send_fields_ttl key list)

-- The least time stands in front, but not in the files of the release candidate.
abbrev read_min_expire : Bool → Read ℕ
read_min_expire is_pre = if is_pre then pure 0 else read_uint64

unfoldable pub read_hash_listpack_ttl : Bytes → Bool → Emit
unfolding read_uint64 read_listpack send_fields_ttl
read_hash_listpack_ttl key is_pre =
    reading (read_min_expire is_pre)
      λ min_expire. reading read_listpack λ list. send_fields_ttl key list

-- `expireAt + minExpire - 1`, on 64-bit words.
unfoldable pub absolute : Bool → ℕ → ℕ → ℤ
absolute is_pre min_expire expire_at =
    if is_pre
    then signed 64 expire_at
    else if expire_at == 0
    then pos 0
    else signed 64 ((expire_at + min_expire + (2 ^ 64 - 1)) % 2 ^ 64)

-- The body of the loop of `readHashTtl`.
unfoldable pub hash_element_ttl : Bytes → Bool → ℕ → Emit
unfolding read_length read_string send_with_ttl absolute
hash_element_ttl key is_pre min_expire = reading read_length λ expire_at.
    reading read_string λ field.
      reading read_string
        λ value. send_with_ttl key field value (absolute is_pre min_expire expire_at) done

unfoldable pub read_hash_ttl : Bytes → Bool → Emit
unfolding read_uint64 read_length hash_element_ttl times
read_hash_ttl key is_pre = reading (read_min_expire is_pre) λ min_expire.
    reading read_length
      λ size. times (rounds (signed 64 size)) (hash_element_ttl key is_pre min_expire)

unfoldable pub rewrite_hash : Bytes → ℕ → Emit
unfolding read_hash read_hash_ziplist read_hash_listpack read_hash_ttl read_hash_listpack_ttl
rewrite_hash key type_byte = send (codes "del" ∷ key ∷ []) (
    if type_byte == 4
    then read_hash key
    else if type_byte == 9
    then stop unsupported
    else if type_byte == 13
    then read_hash_ziplist key
    else if type_byte == 16
    then read_hash_listpack key
    else if type_byte == 22
    then read_hash_ttl key true
    else if type_byte == 23
    then read_hash_listpack_ttl key true
    else if type_byte == 24
    then read_hash_ttl key false
    else if type_byte == 25
    then read_hash_listpack_ttl key false
    else stop unknown_type)
