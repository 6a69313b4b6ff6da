-- ===== src/Rdb/Structure/Ziplist/UnknownSize.antt =====
-- The ziplist whose count field says "unknown" (65535): the loop ends at 0xFE, which begins an entry
-- behind a long one, and not at 0xFF, which ends the list.
use rdb_elasticache_migrator.Prelude.{
  ℕ, zero, suc, ◌<◌, ◌≤◌, ◌≡◌, false, List, [], ◌∷◌, ◌++◌, map, arith, append_assoc, append-nil,
  length, refl, ◌∙◌, ltb, lt→ltb, length-append,
}
use rdb_elasticache_migrator.Runtime.{Bytes, Result, ok, panic, eof, continue, pure}
use rdb_elasticache_migrator.Runtime.Words.{to_little}
use rdb_elasticache_migrator.Rdb.Structure.Int.{read_byte, read_uint16, read_uint32}
use rdb_elasticache_migrator.Rdb.Structure.Ziplist.{
  read_ziplist_entry, read_ziplist_until, ziplist_body,
}
use rdb_elasticache_migrator.Rdb.Structure.Ziplist.Entry.{
  Value, IsValue, render, payload, prevlen, encode_entry, encode_entries,
}
use rdb_elasticache_migrator.Rdb.Structure.Ziplist.ReadEntry.{entry_short, not_marked}
use rdb_elasticache_migrator.Rdb.Structure.Ziplist.RoundTrip.{ziplist}

-- The values fit, and no entry stands behind one of 254 bytes or more.
abbrev pub AllShort : ℕ → List Value → Type 0
AllShort before [] = Unit
AllShort before (v ∷ vs) = IsValue v × (before < 254) × AllShort (length (encode_entry before v)) vs

-- The length of the last entry.
abbrev pub last_length : ℕ → List Value → ℕ
last_length before [] = before
last_length before (v ∷ vs) = last_length (length (encode_entry before v)) vs

encode_entries-append :
    (before : ℕ) (vs ws : List Value)
    → encode_entries before (vs ++ ws)
      ≡ encode_entries before vs ++ encode_entries (last_length before vs) ws
unfolding encode_entries
encode_entries-append before [] ws = refl
encode_entries-append before (v ∷ vs) ws =
    rw (encode_entries-append (length (encode_entry before v)) vs ws, append_assoc)

-- One round of the loop on an entry with a short length before it.
round :
    (fuel before : ℕ) (v : Value) (rest : Bytes)
    → before < 254
    → IsValue v
    → read_ziplist_until (suc fuel) (encode_entry before v ++ rest)
      ≡ continue (read_ziplist_until fuel rest) (λ elements. pure (render v ∷ elements))
unfolding read_ziplist_until read_byte encode_entry prevlen
round fuel before v rest small h =
    rw (lt→ltb before 254 small, not_marked before small, entry_short before v rest small h)

-- Behind a long entry the loop ends, with everything from there on unread.
abbrev unread : ℕ → Value → Bytes → Bytes
unread before v rest = to_little 4 before ++ payload v ++ rest

long_prevlen :
    (fuel before : ℕ) (v : Value) (rest : Bytes)
    → 254 ≤ before
    → read_ziplist_until (suc fuel) (encode_entry before v ++ rest) ≡ ok ([], unread before v rest)
unfolding read_ziplist_until read_byte encode_entry prevlen
long_prevlen fuel before v rest h = rw (long before h)
  where
    long : (n : ℕ) → 254 ≤ n → ltb n 254 ≡ false
    long n h = ground arith

-- At the end mark another entry is tried.
end_mark : (fuel : ℕ) → read_ziplist_until (suc fuel) (0xff ∷ []) ≡ panic eof
unfolding read_ziplist_until read_byte read_ziplist_entry
end_mark fuel = refl

length-entry : (before : ℕ) (v : Value) → 1 ≤ length (encode_entry before v)
unfolding encode_entry prevlen
length-entry before v = ground (arith, length-append {0} (prevlen before) (payload v))

abbrev after : List Bytes → Result (List Bytes × Bytes) → Result (List Bytes × Bytes)
after xs r = continue r (λ elements. pure (xs ++ elements))

after-nil : (r : Result (List Bytes × Bytes)) → r ≡ after [] r
after-nil (ok a) = refl
after-nil (panic e) = refl

after-cons :
    (x : Bytes) (xs : List Bytes) (r : Result (List Bytes × Bytes))
    → continue (after xs r) (λ elements. pure (x ∷ elements)) ≡ after (x ∷ xs) r
after-cons x xs (ok a) = refl
after-cons x xs (panic e) = refl

rounds :
    (vs : List Value) (before fuel : ℕ) (rest : Bytes) (r : Result (List Bytes × Bytes))
    → AllShort before vs
    → length (encode_entries before vs) ≤ fuel
    → ((f : ℕ) → read_ziplist_until (suc f) rest ≡ r)
    → read_ziplist_until (suc fuel) (encode_entries before vs ++ rest) ≡ after (map render vs) r
unfolding encode_entries
rounds [] before fuel rest r h enough last = last fuel ∙ after-nil r
rounds (v ∷ vs) before zero rest r (h, small, hs) enough last = absurd (
    omega (
      arith,
      length-entry before v,
      length-append {0} (encode_entry before v)
          (encode_entries (length (encode_entry before v)) vs),
    ))
rounds (v ∷ vs) before (suc fuel) rest r (h, small, hs) enough last = rw append_assoc (
    round (suc fuel) before v (encode_entries (length (encode_entry before v)) vs ++ rest) small h
    ∙ rw
        (rounds vs (length (encode_entry before v)) fuel rest r hs
          (omega (
            arith,
            length-entry before v,
            length-append {0} (encode_entry before v)
                (encode_entries (length (encode_entry before v)) vs),
          ))
          last)
        (after-cons (render v) (map render vs) r))

header :
    (bytes last : ℕ) (vs : List Value)
    → ziplist_body (ziplist bytes last 65535 vs)
      ≡ read_ziplist_until
          (suc (length (encode_entries 0 vs ++ 0xff ∷ [])))
          (encode_entries 0 vs ++ 0xff ∷ [])
unfolding ziplist_body read_uint32 read_uint16 ziplist to_little
header bytes last vs = refl

-- If every entry but the last is shorter than 254 bytes, the run ends with an error.
pub ziplist_body-unknown_size :
    (bytes last : ℕ) (vs : List Value)
    → AllShort 0 vs
    → ziplist_body (ziplist bytes last 65535 vs) ≡ panic eof
ziplist_body-unknown_size bytes last vs h =
    header bytes last vs
    ∙ rounds vs 0 _ (0xff ∷ []) (panic eof) h
        (omega (arith, length-append {0} (encode_entries 0 vs) (0xff ∷ []))) end_mark

-- If an entry of 254 bytes or more, with only shorter ones before it, is not the last, then what
-- stands behind it is lost without an error.
pub ziplist_body-unknown_size_long :
    (bytes last : ℕ) (vs : List Value) (w : Value) (ws : List Value)
    → AllShort 0 vs
    → 254 ≤ last_length 0 vs
    → (left : Bytes) × (ziplist_body (ziplist bytes last 65535 (vs ++ w ∷ ws))
        ≡ ok (map render vs, left))
ziplist_body-unknown_size_long bytes last vs w ws h long = (
  unread (last_length 0 vs) w tail,
  header bytes last (vs ++ w ∷ ws)
      ∙ rw (encode_entries-append 0 vs (w ∷ ws), append_assoc)
          (rounds vs 0 _ (encode_entries (last_length 0 vs) (w ∷ ws) ++ 0xff ∷ [])
              (ok ([], unread (last_length 0 vs) w tail)) h
              (omega (
                arith,
                length-append {0} (encode_entries 0 vs)
                    (encode_entries (last_length 0 vs) (w ∷ ws) ++ 0xff ∷ []),
              ))
              (λ f.
                unfold encode_entries in
                rw append_assoc (long_prevlen f (last_length 0 vs) w tail long))
            ∙ rw append-nil),
)
  where
    tail : Bytes
    tail = encode_entries (length (encode_entry (last_length 0 vs) w)) ws ++ 0xff ∷ []
