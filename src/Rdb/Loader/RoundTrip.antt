-- ===== src/Rdb/Loader/RoundTrip.antt =====
-- A key of the file and its value.
use rdb_elasticache_migrator.Prelude.{
  zero, codes, ℕ, ◌+◌, ◌-◌, ltb, ◌==◌, if◌then◌else◌, suc, ◌<◌, ◌^◌, ◌≡◌, refl, ◌∙◌, Bool, false,
  Option, none, some, List, [], ◌∷◌, ◌++◌, map, arith, append-nil,
}
use mathlib.Core.Path.{subst}
use rdb_elasticache_migrator.Prelude.Int.{ℤ, pos, negsuc, signed, eq_ℤ}
use rdb_elasticache_migrator.Runtime.{Bytes, ok}
use rdb_elasticache_migrator.Runtime.Strconv.{format_int}
use rdb_elasticache_migrator.Runtime.Words.{to_little, little_endian-to_little}
use rdb_elasticache_migrator.Runtime.Emit.{Command, Emit}
use rdb_elasticache_migrator.Rdb.Structure.Int.{read_byte, read_uint64}
use rdb_elasticache_migrator.Rdb.Structure.Float.{Floats}
use rdb_elasticache_migrator.Rdb.Structure.Strings.RoundTrip.{
  Stored, IsStored, save, content, read_string-save,
}
use rdb_elasticache_migrator.Rdb.Loader.{
  Entry, Loader, onward, remaining, tagged, expire_entries, value_entry, one_entry, round, Loaded,
  parse_rdb_entry,
}

-- A key with its value: the bytes of the value, and the commands that it is written again by.
pub record Record : Type 0 where
  pub expire : Option ℕ
  pub type_byte : ℕ
  pub key : Stored
  pub payload : Bytes
  pub commands : List Command

-- Milliseconds since 1970, in front of the key.
abbrev pub save_expire : Option ℕ → Bytes → Bytes
save_expire none rest = rest
save_expire (some ms) rest = 252 ∷ (to_little 8 ms ++ rest)

-- In front of the rest of the file.
abbrev pub save_record : Record → Bytes → Bytes
save_record r rest = save_expire r.expire (r.type_byte ∷ (save r.key ++ (r.payload ++ rest)))

-- Between two keys: no time is pending.
abbrev pub between : ℤ → ℤ → ℕ → Loader
between repl db readings = record {
  repl_stream_db_id = repl;
  now_db_id = db;
  expire_ms = pos 0;
  idle = pos 0;
  freq = pos 0;
  readings = readings;
}

abbrev pub IsTime : Option ℕ → Type 0
IsTime none = Unit {0}
IsTime (some ms) = ms < 2 ^ 63

abbrev pub time_entries : ℤ → Bytes → ℤ → List Entry
time_entries db key (pos zero) = []
time_entries db key (pos (suc n)) =
    record { db_id = db; argv = codes "PEXPIRE" ∷ key ∷ format_int (pos (suc n)) ∷ [] } ∷ []
time_entries db key (negsuc n) =
    record { db_id = db; argv = codes "PEXPIRE" ∷ key ∷ format_int (negsuc n) ∷ [] } ∷ []

not_zero : (n : ℕ) → eq_ℤ (pos (suc n)) (pos 0) ≡ false
not_zero n = ground arith

not_negative : (n : ℕ) → eq_ℤ (negsuc n) (pos 0) ≡ false
not_negative n = ground arith

expire_entries-time :
    (ld : Loader) (time : ℤ) (key : Bytes)
    → expire_entries (record ld { expire_ms = time }) key ≡ time_entries ld.now_db_id key time
expire_entries-time ld (pos zero) key = refl
expire_entries-time ld (pos (suc n)) key = rw (not_zero n) refl
expire_entries-time ld (negsuc n) key = rw (not_negative n) refl

-- The milliseconds from the reading of the clock to the time of the key; 1 when the time is over.
unfoldable pub left_of : ℕ → ℤ → ℤ
left_of ms (pos now) = if ltb now ms then pos (ms - now) else if now == ms then pos 0 else pos 1
left_of ms (negsuc n) = pos (ms + suc n)

-- The clock stands between 1970 and the end of what 64 bits hold.
abbrev pub IsClock : ℤ → Type 0
IsClock (pos now) = now < 2 ^ 63
IsClock (negsuc _) = ⊥

pub left_of-remaining :
    (ms : ℕ) (now : ℤ) → ms < 2 ^ 63 → IsClock now → left_of ms now ≡ remaining (pos ms) now
unfolding left_of remaining
left_of-remaining ms (pos now) h k = ground arith
left_of-remaining ms (negsuc n) h k = absurd k

remaining-now : (n : ℕ) → remaining (pos n) (pos n) ≡ pos 0
unfolding remaining
remaining-now n = ground arith

pub signed-pos : (n : ℕ) → n < 2 ^ 63 → signed 64 n ≡ pos n
signed-pos n h = ground arith

module _ (F : Floats) (clock : ℕ → ℤ) (rewrite : ℕ → Bytes → Emit) where
  abbrev pub IsRecord : Record → Type 0
  IsRecord r =
      (r.type_byte < 244)
      × IsStored r.key
      × IsTime r.expire
      × ((rest : Bytes)
          → rewrite r.type_byte (content r.key) (r.payload ++ rest)
            ≡ record { sent = r.commands; outcome = ok rest })

  abbrev with_time : ℤ → ℤ → ℤ → ℕ → Loader
  with_time repl db time i = record (between repl db i) { expire_ms = time }

  key_round :
      (t : ℕ) (ld : Loader) (bs : Bytes)
      → t < 244
      → round F clock rewrite ld (t ∷ bs) ≡ value_entry F clock rewrite t ld bs
  unfolding round one_entry read_byte
  key_round t ld bs h = ground arith

  pub key_value :
      (r : Record) (ld : Loader) (rest : Bytes)
      → IsRecord r
      → round F clock rewrite ld (r.type_byte ∷ (save r.key ++ (r.payload ++ rest))) ≡ record {
        sent =
            map (tagged ld.now_db_id) r.commands
            ++ time_entries ld.now_db_id (content r.key) ld.expire_ms;
        outcome = ok (onward (between ld.repl_stream_db_id ld.now_db_id ld.readings) rest);
      }
  unfolding value_entry
  key_value r ld rest (t, k, e, v) =
      key_round r.type_byte ld (save r.key ++ (r.payload ++ rest)) t
      ∙ rw
          (
            read_string-save r.key (r.payload ++ rest) k,
            v rest,
            expire_entries-time ld ld.expire_ms (content r.key),
          )
          refl

  pub time_read :
      (ld : Loader) (ms : ℕ) (bs : Bytes)
      → ms < 2 ^ 63
      → round F clock rewrite ld (252 ∷ (to_little 8 ms ++ bs)) ≡ record {
        sent = [];
        outcome = ok (
            onward
              (record ld {
                expire_ms = remaining (pos ms) (clock ld.readings);
                readings = suc ld.readings;
              })
              bs);
      }
  unfolding round one_entry read_byte read_uint64 to_little
  time_read ld ms bs h = rw (little_endian-to_little 8 ms (omega arith), signed-pos ms h) refl

  module _ (cancelled : ℕ → Bool) (never : (n : ℕ) → cancelled n ≡ false)
      (sane : (i : ℕ) → IsClock (clock i)) where
    abbrev pub parse : ℕ → Loader → Bytes → Loaded F clock rewrite
    parse = parse_rdb_entry F clock rewrite cancelled

    abbrev pub prefix : List Entry → Loaded F clock rewrite → Loaded F clock rewrite
    prefix es l = record { sent = es ++ l.sent; outcome = l.outcome }

    -- A round that sends `es` and goes on.
    pub parse-onward :
        (n : ℕ) (ld : Loader) (bs : Bytes) (es : List Entry) (ld' : Loader) (rest : Bytes)
        → round F clock rewrite ld bs ≡ record { sent = es; outcome = ok (onward ld' rest) }
        → parse (suc n) ld bs ≡ prefix es (parse n ld' rest)
    unfolding parse_rdb_entry
    parse-onward n ld bs es ld' rest h = rw (h, never n) refl

    pub parse-finished :
        (n : ℕ) (ld : Loader) (bs : Bytes)
        → parse (suc n) ld (255 ∷ bs) ≡ record { sent = []; outcome = ok ld }
    unfolding parse_rdb_entry
    parse-finished n ld bs = refl

    -- A key whose time is the very reading of the clock is written again with its commands only: no
    -- `PEXPIRE` follows, so the key has no time any more.
    pub parse_rdb_entry-expires_now :
        (repl db : ℤ) (i n ms : ℕ) (r : Record) (rest : Bytes)
        → IsRecord r
        → r.expire ≡ some ms
        → clock i ≡ pos ms
        → parse_rdb_entry F clock rewrite cancelled
            (suc (suc (suc n)))
            (between repl db i)
            (save_record r (255 ∷ rest))
          ≡ record { sent = map (tagged db) r.commands; outcome = ok (between repl db (suc i)) }
    parse_rdb_entry-expires_now repl db i n ms r rest h e now =
        let ld = with_time repl db (remaining (pos ms) (clock i)) (suc i) in
        rw (e) (
          parse-onward (suc (suc n)) (between repl db i) _ [] ld _
            (time_read (between repl db i) ms _ (subst IsTime e (h.2)))
          ∙ parse-onward (suc n) ld _ _ _ (255 ∷ rest) (key_value r ld (255 ∷ rest) h)
          ∙ rw
              (
                now,
                remaining-now ms,
                append-nil,
                parse-finished n (between repl db (suc i)) rest,
                append-nil,
              )
              refl)
