-- ===== src/Rdb/Loader.antt =====
-- `parseRDBEntry` of internal/rdb/rdb.go. The clock, the answers of `ctx.Done()` and what the values of
-- the file are written again by (`types.ParseObject` and `Rewrite`) are arguments. The report of the offset
-- is left out.
pub mod RoundTrip
pub mod File
pub mod Items
pub mod ModuleAux
pub mod Rounds
pub mod Whole
use rdb_elasticache_migrator.Prelude.{
  ℕ, zero, suc, ◌+◌, ◌-◌, ◌*◌, ◌%◌, ◌^◌, Bool, true, false, Option, none, some, List, [], ◌∷◌, ◌++◌,
  map, ◌==◌, if◌then◌else◌, codes, length,
}
use rdb_elasticache_migrator.Prelude.Int.{ℤ, pos, negsuc, signed, ◌-ℤ◌, ltb_ℤ, eq_ℤ}
use rdb_elasticache_migrator.Runtime.{
  Bytes, Read, Fault, Result, ok, panic, bad_number, unknown_type, unsupported, out_of_fuel, ◌>>=◌,
  pure, fail,
}
use rdb_elasticache_migrator.Runtime.Strconv.{format_int, parse_int}
use rdb_elasticache_migrator.Runtime.Strings.{equal}
use rdb_elasticache_migrator.Runtime.Emit.{Command, Emit, Run}
use rdb_elasticache_migrator.Rdb.Structure.Int.{read_byte, read_uint32, read_uint64}
use rdb_elasticache_migrator.Rdb.Structure.Length.{read_length}
use rdb_elasticache_migrator.Rdb.Structure.Float.{Floats, read_float, read_double}
use rdb_elasticache_migrator.Rdb.Structure.Strings.{read_string}

-- The fields of an entry that the loader sets; the rest is filled in by `Parse`.
pub record Entry : Type 0 where
  pub db_id : ℤ
  pub argv : Command

-- The state of the loader. `readings` counts the times that it has asked for the clock.
pub record Loader : Type 0 where
  pub repl_stream_db_id : ℤ
  pub now_db_id : ℤ
  pub expire_ms : ℤ
  pub idle : ℤ
  pub freq : ℤ
  pub readings : ℕ

-- What one round has sent, and what follows it: the end of the file, or the next round.
pub data Next : Type 0 where
  finished : Loader → Bytes → Next
  onward : Loader → Bytes → Next

pub record Round : Type 0 where
  pub sent : List Entry
  pub outcome : Result Next

abbrev quiet : Loader → Bytes → Round
quiet ld rest = record { sent = []; outcome = ok (onward ld rest) }

abbrev pub broken : Fault → Round
broken e = record { sent = []; outcome = panic e }

abbrev and_then : {A : Type 0} → Result (A × Bytes) → (A → Bytes → Round) → Round
and_then (ok (a, rest)) f = f a rest
and_then (panic e) f = broken e

-- An entry of the database 0.
abbrev send_one : Command → Loader → Bytes → Round
send_one cmd ld rest = record {
  sent = record { db_id = pos 0; argv = cmd } ∷ [];
  outcome = ok (onward ld rest);
}

-- An `int64` after a subtraction.
abbrev pub wrap : ℤ → ℤ
wrap (pos n) = signed 64 (n % 2 ^ 64)
wrap (negsuc n) = signed 64 (2 ^ 64 - 1 - n % 2 ^ 64)

-- `ld.expireMs`
unfoldable pub remaining : ℤ → ℤ → ℤ
remaining at now = let left = wrap (at -ℤ now) in if ltb_ℤ left (pos 0) then pos 1 else left

abbrev with_db : Option ℤ → Loader → Bytes → Round
with_db none ld rest = broken bad_number
with_db (some n) ld rest = quiet (record ld { repl_stream_db_id = n }) rest

unfoldable pub aux_field : Bytes → Bytes → Loader → Bytes → Round
unfolding parse_int equal
aux_field key value ld rest =
    if equal key (codes "repl-stream-db")
    then with_db (parse_int value) ld rest
    else if equal key (codes "lua")
    then send_one (codes "script" ∷ codes "load" ∷ value ∷ []) ld rest
    else quiet ld rest

-- The commands of the value, `PEXPIRE` where a time was read, and the reset.
abbrev pub tagged : ℤ → Command → Entry
tagged db cmd = record { db_id = db; argv = cmd }

abbrev pub expire_entries : Loader → Bytes → List Entry
expire_entries ld key =
    if eq_ℤ ld.expire_ms (pos 0)
    then []
    else record {
      db_id = ld.now_db_id;
      argv = codes "PEXPIRE" ∷ key ∷ format_int ld.expire_ms ∷ [];
    }
      ∷ []

abbrev reset : Loader → Loader
reset ld = record ld { expire_ms = pos 0; idle = pos 0; freq = pos 0 }

abbrev after_value : Loader → Bytes → List Command → Result Bytes → Round
after_value ld key cmds (panic e) = record {
  sent = map (tagged ld.now_db_id) cmds;
  outcome = panic e;
}
after_value ld key cmds (ok rest) = record {
  sent = map (tagged ld.now_db_id) cmds ++ expire_entries ld key;
  outcome = ok (onward (reset ld) rest);
}

module _ (F : Floats) where
  -- `for opcode != kRDBModuleOpcodeEOF`, on fuel: a round reads a byte at least.
  abbrev skipped : {A : Type 0} → Read A → Read (Unit {0})
  skipped m = m >>= λ a. pure tt

  unfoldable pub module_field : ℕ → Read (Unit {0})
  unfolding read_length read_float read_double read_string
  module_field opcode =
      if opcode == 1
      then skipped read_length
      else if opcode == 2
      then skipped read_length
      else if opcode == 3
      then skipped (read_float F)
      else if opcode == 4
      then skipped (read_double F)
      else if opcode == 5
      then skipped read_string
      else fail unknown_type

  unfoldable pub module_fields : ℕ → ℕ → Read (Unit {0})
  unfolding module_field
  module_fields zero opcode = fail out_of_fuel
  module_fields (suc fuel) opcode =
      let round = (do _ ← module_field opcode; next ← read_length; module_fields fuel next) in
      if opcode == 0 then pure tt else round

  unfoldable pub module_aux : Read (Unit {0})
  unfolding module_fields
  module_aux bs =
      (do
        _ ← read_length
        _ ← read_length
        _ ← read_length
        opcode ← read_length
        module_fields (suc (length bs)) opcode)
        bs

  module _ (clock : ℕ → ℤ) (rewrite : ℕ → Bytes → Emit) where
    -- `default:`
    unfoldable pub value_entry : ℕ → Loader → Bytes → Round
    unfolding read_string
    value_entry type_byte ld bs =
        and_then (read_string bs) λ key rest.
          let run = rewrite type_byte key rest in after_value ld key run.sent run.outcome

    abbrev timed : Loader → ℤ → Bytes → Round
    timed ld at rest =
        quiet
          (record ld { expire_ms = remaining at (clock ld.readings); readings = suc ld.readings })
          rest

    -- One round, behind its type byte.
    unfoldable pub one_entry : ℕ → Loader → Bytes → Round
    unfolding value_entry aux_field module_aux remaining
    one_entry type_byte ld bs =
        if type_byte == 244
        then and_then (read_length bs) (λ _ b.
          and_then (read_length b) λ _ c. and_then (read_length c) λ _ rest. quiet ld rest)
        else if type_byte == 245
        then and_then (read_string bs)
            (λ function rest. send_one (codes "function" ∷ codes "load" ∷ function ∷ []) ld rest)
        else if type_byte == 246
        then broken unsupported
        else if type_byte == 247
        then and_then (module_aux bs) (λ _ rest. quiet ld rest)
        else if type_byte == 248
        then and_then (read_length bs) (λ n rest. quiet (record ld { idle = signed 64 n }) rest)
        else if type_byte == 249
        then and_then (read_byte bs) (λ n rest. quiet (record ld { freq = pos n }) rest)
        else if type_byte == 250
        then and_then (read_string bs)
            (λ key b. and_then (read_string b) λ value rest. aux_field key value ld rest)
        else if type_byte == 251
        then and_then (read_length bs) (λ _ b. and_then (read_length b) λ _ rest. quiet ld rest)
        else if type_byte == 252
        then and_then (read_uint64 bs) (λ ms rest. timed ld (signed 64 ms) rest)
        else if type_byte == 253
        then and_then (read_uint32 bs) (λ s rest. timed ld (pos (s * 1000)) rest)
        else if type_byte == 254
        then and_then (read_length bs)
            (λ db rest. quiet (record ld { now_db_id = signed 64 db }) rest)
        else if type_byte == 255
        then record { sent = []; outcome = ok (finished ld bs) }
        else value_entry type_byte ld bs

    unfoldable pub round : Loader → Bytes → Round
    unfolding one_entry
    round ld bs = and_then (read_byte bs) λ type_byte rest. one_entry type_byte ld rest

    -- The whole run: what was sent, and the state at its end.
    pub record Loaded : Type 0 where
      pub sent : List Entry
      pub outcome : Result Loader

    module _ (cancelled : ℕ → Bool) where
      abbrev pub goes_on : List Entry → Result Next → (Loader → Bytes → Loaded) → Loaded
      goes_on es (panic e) f = record { sent = es; outcome = panic e }
      goes_on es (ok (finished ld rest)) f = record { sent = es; outcome = ok ld }
      goes_on es (ok (onward ld rest)) f = record {
        sent = es ++ (f ld rest).sent;
        outcome = (f ld rest).outcome;
      }

      -- The loop, on fuel; `cancelled n` tells whether the `select` of the round with the fuel n ends it.
      unfoldable pub parse_rdb_entry : ℕ → Loader → Bytes → Loaded
      unfolding round
      parse_rdb_entry zero ld bs = record { sent = []; outcome = panic out_of_fuel }
      parse_rdb_entry (suc fuel) ld bs =
          let r = round ld bs in
          goes_on r.sent r.outcome λ ld' rest.
            let later = parse_rdb_entry fuel ld' rest in
            if cancelled fuel then record { sent = []; outcome = ok ld' } else later
