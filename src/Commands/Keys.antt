-- ===== src/Commands/Keys.antt =====
-- `CalcKeys` of internal/commands/keys.go, over the types of types.go. The table of commands
-- (table.go, which a script generates) and `strings.ToUpper` are arguments.
pub mod Located
use rdb_elasticache_migrator.Prelude.{
  ℕ, zero, suc, ◌+◌, ◌-◌, ◌/◌, Bool, true, ◌||◌, Option, none, some, List, [], ◌∷◌, ◌++◌, ltb, ◌==◌,
  if◌then◌else◌, length, codes, ◌≡◌,
}
use rdb_elasticache_migrator.Prelude.Int.{ℤ, pos, negsuc, ◌+ℤ◌, ◌-ℤ◌, ltb_ℤ, leb_ℤ, eq_ℤ}
use rdb_elasticache_migrator.Runtime.Outcome.{
  Result, ok, panic, bad_number, bad_size, out_of_range, unknown_type, out_of_fuel, ◌>>=◌,
}
use rdb_elasticache_migrator.Runtime.{Bytes}
use rdb_elasticache_migrator.Runtime.Strconv.{parse_int}
use rdb_elasticache_migrator.Runtime.Strings.{equal, contains, index}

pub record KeySpec : Type 0 where
  pub begin_search_type : Bytes
  pub begin_search_index : ℤ
  pub begin_search_keyword : Bytes
  pub begin_search_start_from : ℤ
  pub find_keys_type : Bytes
  pub find_keys_range_last_key : ℤ
  pub find_keys_range_key_step : ℤ
  pub find_keys_range_limit : ℤ
  pub find_keys_keynum_index : ℤ
  pub find_keys_keynum_first_key : ℤ
  pub find_keys_keynum_key_step : ℤ

pub record RedisCommand : Type 0 where
  pub group : Bytes
  pub key_spec : List KeySpec

-- The slices `keys` and `keysIndexes`.
pub record Keys : Type 0 where
  pub keys : List Bytes
  pub keys_indexes : List ℤ

pub record Calculated : Type 0 where
  pub cma_name : Bytes
  pub group : Bytes
  pub found : Keys

abbrev pub no_keys : Keys
no_keys = record { keys = []; keys_indexes = [] }

-- What a loop appends in one round, before what the later rounds append.
abbrev pub add_key : Bytes → ℤ → Keys → Keys
add_key key inx rest = record {
  keys = key ∷ rest.keys;
  keys_indexes = (inx +ℤ pos 1) ∷ rest.keys_indexes;
}

abbrev pub join : Keys → Keys → Keys
join a b = record { keys = a.keys ++ b.keys; keys_indexes = a.keys_indexes ++ b.keys_indexes }

-- `for inx := begin; inx <= lastKeyInx && limitCount > 0; inx += keyStep`; the recursion is on
-- `limitCount`.
unfoldable pub range_loop : List Bytes → ℕ → ℤ → ℤ → ℤ → Result Keys
range_loop argv zero inx last_key_inx key_step = ok no_keys
range_loop argv (suc limit_count) inx last_key_inx key_step =
    let round = (do
      key ← index argv inx
      rest ← range_loop argv limit_count (inx +ℤ key_step) last_key_inx key_step
      ok (add_key key inx rest)) in
    if leb_ℤ inx last_key_inx then round else ok no_keys

-- `(argc - begin) / (-limit)`, as the number of rounds that it allows
abbrev quotient : ℤ → ℕ → ℕ
quotient (pos n) k = n / k
quotient (negsuc n) k = 0

-- `math.MaxInt32`, or for a limit of -2 and below a part of the arguments.
abbrev limit_of : ℤ → ℤ → ℕ
limit_of limit (pos n) = 2147483647
limit_of (pos _) (negsuc zero) = 2147483647
limit_of (negsuc _) (negsuc zero) = 2147483647
limit_of rest (negsuc (suc n)) = quotient rest (suc (suc n))

unfoldable pub find_range : KeySpec → List Bytes → ℤ → Result Keys
unfolding range_loop
find_range spec argv begin =
    let argc = pos (length argv) in
    let last = spec.find_keys_range_last_key in
    let last_key_inx = if leb_ℤ (pos 0) last then begin +ℤ last else argc +ℤ last in
    range_loop argv (limit_of (argc -ℤ begin) spec.find_keys_range_limit) begin last_key_inx
      spec.find_keys_range_key_step

-- `for inx := begin + firstKey; keyCount > 0; inx += step`
unfoldable pub keynum_loop : List Bytes → ℕ → ℤ → ℤ → Result Keys
keynum_loop argv zero inx step = ok no_keys
keynum_loop argv (suc key_count) inx step = do
  key ← index argv inx
  rest ← keynum_loop argv key_count (inx +ℤ step) step
  ok (add_key key inx rest)

abbrev count_of : Option ℤ → Result ℕ
count_of none = panic bad_number
count_of (some (pos n)) = ok n
count_of (some (negsuc _)) = ok 0

unfoldable pub find_keynum : KeySpec → List Bytes → ℤ → Result Keys
unfolding keynum_loop
find_keynum spec argv begin =
    let keynum_idx = begin +ℤ spec.find_keys_keynum_index in
    let found = (do
      arg ← index argv keynum_idx
      key_count ← count_of (parse_int arg)
      keynum_loop argv key_count (begin +ℤ spec.find_keys_keynum_first_key)
          spec.find_keys_keynum_key_step) in
    if ltb_ℤ keynum_idx (pos 0) || ltb_ℤ (pos (length argv)) keynum_idx
    then panic bad_number
    else found

unfoldable pub find_keys : KeySpec → List Bytes → ℤ → Result Keys
unfolding find_range find_keynum
find_keys spec argv begin =
    if equal spec.find_keys_type (codes "range")
    then find_range spec argv begin
    else if equal spec.find_keys_type (codes "keynum")
    then find_keynum spec argv begin
    else panic unknown_type

-- `strings.ToUpper`
module _ (to_upper : Bytes → Bytes) where
  -- `for ; ; inx += step`, on fuel
  unfoldable pub search_keyword : List Bytes → Bytes → ℤ → ℕ → ℤ → Result ℤ
  search_keyword argv keyword step zero inx = panic out_of_fuel
  search_keyword argv keyword step (suc fuel) inx =
      let later = search_keyword argv keyword step fuel (inx +ℤ step) in
      let round = (do
        arg ← index argv inx
        if equal (to_upper arg) keyword then ok (inx +ℤ pos 1) else later) in
      if eq_ℤ inx (pos (length argv)) then panic bad_size else round

  -- The loop leaves the arguments at either end, so two rounds more than there are arguments will do.
  abbrev search_from : List Bytes → Bytes → ℤ → Result ℤ
  search_from argv keyword start_from =
      let rounds = suc (suc (length argv)) in
      if ltb_ℤ (pos 0) start_from
      then search_keyword argv keyword (pos 1) rounds start_from
      else search_keyword argv keyword (negsuc 0) rounds (pos 0 -ℤ start_from)

  unfoldable pub begin_search : KeySpec → List Bytes → Result ℤ
  unfolding search_keyword
  begin_search spec argv =
      if equal spec.begin_search_type (codes "index")
      then ok spec.begin_search_index
      else if equal spec.begin_search_type (codes "keyword")
      then search_from argv spec.begin_search_keyword spec.begin_search_start_from
      else panic unknown_type

  -- `for _, spec := range cmd.keySpec`
  unfoldable pub all_specs : List KeySpec → List Bytes → Result Keys
  all_specs [] argv = ok no_keys
  all_specs (spec ∷ specs) argv = do
    begin ← begin_search spec argv
    here ← find_keys spec argv begin
    later ← all_specs specs argv
    ok (join here later)

  -- `containers` of table.go
  module _ (containers : Bytes → Bool) (redis_commands : Bytes → Option RedisCommand) where
    abbrev full_name : Bytes → List Bytes → Bytes
    full_name name [] = name
    full_name name (sub ∷ _) = if containers name then name ++ (b'-' ∷ to_upper sub) else name

    abbrev of_command : Bytes → List Bytes → Option RedisCommand → Result Calculated
    of_command name argv none =
        ok (record { cma_name = name; group = codes "unknown"; found = no_keys })
    of_command name argv (some cmd) = do
      found ← all_specs cmd.key_spec argv
      ok (record { cma_name = name; group = cmd.group; found = found })

    unfoldable pub calc_keys : List Bytes → Result Calculated
    calc_keys [] = panic out_of_range
    calc_keys (arg ∷ args) =
        let name = full_name (to_upper arg) args in
        of_command name (arg ∷ args) (redis_commands name)
