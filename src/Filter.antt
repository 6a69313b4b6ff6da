-- ===== src/Filter.antt =====
-- `Filter` of internal/filter/filter.go and `KeysPattern` of internal/filter/filter_keys_pattern.go.
-- Package regexp and `strings.TrimSpace` are arguments. A pattern list is compiled at the first key that
-- asks for it (`sync.Once`), so the two compiled lists are a state, `Patterns`.
pub mod Verdict
use rdb_elasticache_migrator.Prelude.{
  ℕ, zero, suc, Bool, true, false, not, ◌&&◌, ◌||◌, Option, none, some, List, [], ◌∷◌,
  if◌then◌else◌, codes,
}
use rdb_elasticache_migrator.Prelude.Int.{ℤ, eq_ℤ}
use rdb_elasticache_migrator.Runtime.{Bytes}
use rdb_elasticache_migrator.Runtime.Outcome.{Result, ok, panic, bad_pattern, ◌>>=◌}
use rdb_elasticache_migrator.Runtime.Strings.{equal, contains, has_prefix, has_suffix}

pub record FilterOptions : Type 0 where
  pub allow_keys : List Bytes
  pub allow_key_prefix : List Bytes
  pub allow_key_suffix : List Bytes
  pub block_keys : List Bytes
  pub block_key_prefix : List Bytes
  pub block_key_suffix : List Bytes
  pub allow_key_regex : List Bytes
  pub block_key_regex : List Bytes
  pub allow_db : List ℤ
  pub block_db : List ℤ
  pub allow_command : List Bytes
  pub block_command : List Bytes
  pub allow_command_group : List Bytes
  pub block_command_group : List Bytes

-- The fields of `entry.Entry` that the filter reads.
pub record Entry : Type 0 where
  pub db_id : ℤ
  pub cmd_name : Bytes
  pub group : Bytes
  pub keys : List Bytes

-- `slices.Contains` on the database numbers
unfoldable pub contains_db : List ℤ → ℤ → Bool
contains_db [] db = false
contains_db (x ∷ xs) db = eq_ℤ x db || contains_db xs db

abbrev pub is_empty {ℓ} : {A : Type ℓ} → List A → Bool
is_empty [] = true
is_empty (x ∷ xs) = false

-- The loops over the prefixes and the suffixes.
unfoldable pub any_prefix : List Bytes → Bytes → Bool
unfolding has_prefix
any_prefix [] key = false
any_prefix (p ∷ ps) key = if has_prefix key p then true else any_prefix ps key

unfoldable pub any_suffix : List Bytes → Bytes → Bool
unfolding has_suffix
any_suffix [] key = false
any_suffix (s ∷ ss) key = if has_suffix key s then true else any_suffix ss key

-- `len(regList) == 1` and one of the three texts
abbrev pub is_any : List Bytes → Bool
is_any [] = false
is_any (first ∷ []) =
    equal first (codes "*") || equal first (codes ".*") || equal first (codes "^.*$")
is_any (_ ∷ _ ∷ _) = false

abbrev pub all_true : List Bool → Bool
all_true [] = true
all_true (r ∷ rs) = if r then all_true rs else false

abbrev pub all_false : List Bool → Bool
all_false [] = true
all_false (r ∷ rs) = if r then false else all_false rs

-- The checks behind those of the keys.
unfoldable pub filter_entry : FilterOptions → Entry → Bool
unfolding contains_db contains
filter_entry opt e =
    if not (is_empty opt.allow_db) && not (contains_db opt.allow_db e.db_id)
    then false
    else if not (is_empty opt.block_db) && contains_db opt.block_db e.db_id
    then false
    else if not (is_empty opt.allow_command) && not (contains opt.allow_command e.cmd_name)
    then false
    else if not (is_empty opt.block_command) && contains opt.block_command e.cmd_name
    then false
    else if not (is_empty opt.allow_command_group) && not (contains opt.allow_command_group e.group)
    then false
    else if not (is_empty opt.block_command_group) && contains opt.block_command_group e.group
    then false
    else true

-- The results of the keys: `allTrue`, `allFalse` and what is between.
abbrev pub tally : FilterOptions → Entry → List Bool → Bool
tally opt e results =
    if all_true results then filter_entry opt e else if all_false results then false else false

module _ {Regexp : Type 0} (trim_space : Bytes → Bytes) (compile : Bytes → Option Regexp)
    (match_string : Regexp → Bytes → Bool) where
  abbrev also : Regexp → Option (List Regexp) → Option (List Regexp)
  also r none = none
  also r (some rs) = some (r ∷ rs)

  abbrev add_compiled : Option Regexp → Option (List Regexp) → Option (List Regexp)
  add_compiled none later = none
  add_compiled (some r) later = also r later

  unfoldable pub new_keys_pattern : List Bytes → Option (List Regexp)
  new_keys_pattern [] = some []
  new_keys_pattern (k ∷ ks) =
      let later = new_keys_pattern ks in
      let k01 = trim_space k in if is_empty k01 then later else add_compiled (compile k01) later

  unfoldable pub match_key : List Regexp → Bytes → Bool
  match_key [] k01 = false
  match_key (reg ∷ regs) k01 = if match_string reg k01 then true else match_key regs k01

  -- `once.Do`
  abbrev pub compiled : Option (List Regexp) → Result (List Regexp)
  compiled none = panic bad_pattern
  compiled (some regs) = ok regs

  abbrev pub once : Option (List Regexp) → List Bytes → Result (List Regexp)
  once none patterns = compiled (new_keys_pattern patterns)
  once (some regs) patterns = ok regs

  -- The compiled lists, where they are compiled: `blockListKeyPatterns` and `allowListKeyPatterns`.
  pub record Patterns : Type 0 where
    pub block_list : Option (List Regexp)
    pub allow_list : Option (List Regexp)

  abbrev pub Step : Type 0 → Type 0
  Step A = Patterns → Result (A × Patterns)

  unfoldable pub block_key_match : List Bytes → Bytes → Step Bool
  unfolding match_key new_keys_pattern
  block_key_match reg_list key s = do
    regs ← once s.block_list reg_list
    ok (match_key regs key, record s { block_list = some regs })

  unfoldable pub allow_key_match : List Bytes → Bytes → Step Bool
  unfolding match_key new_keys_pattern
  allow_key_match reg_list key s =
      let by_patterns = (do
        regs ← once s.allow_list reg_list
        ok (match_key regs key, record s { allow_list = some regs })) in
      if is_any reg_list then ok (true, s) else by_patterns

  -- `if …KeyMatch(…) { return true }` and what stands behind it
  abbrev pub or_else : Result (Bool × Patterns) → Bool → Result (Bool × Patterns)
  or_else (panic e) later = panic e
  or_else (ok (true, s)) later = ok (true, s)
  or_else (ok (false, s)) later = ok (later, s)

  unfoldable pub block_key_filter : FilterOptions → Bytes → Step Bool
  unfolding block_key_match contains any_prefix any_suffix
  block_key_filter opt key s =
      if is_empty opt.block_key_regex
        && is_empty opt.block_key_prefix
        && is_empty opt.block_key_suffix
        && is_empty opt.block_keys
      then ok (false, s)
      else if contains opt.block_keys key
      then ok (true, s)
      else or_else (block_key_match opt.block_key_regex key s) (
          if any_prefix opt.block_key_prefix key then true else any_suffix opt.block_key_suffix key)

  unfoldable pub allow_key_filter : FilterOptions → Bytes → Step Bool
  unfolding allow_key_match contains any_prefix any_suffix
  allow_key_filter opt key s =
      if is_empty opt.allow_key_regex
        && is_empty opt.allow_key_prefix
        && is_empty opt.allow_key_suffix
        && is_empty opt.allow_keys
      then ok (true, s)
      else if contains opt.allow_keys key
      then ok (true, s)
      else or_else (allow_key_match opt.allow_key_regex key s) (
          if any_prefix opt.allow_key_prefix key then true else any_suffix opt.allow_key_suffix key)

  -- One round of the loop over the keys.
  abbrev pub unless_blocked : Result (Bool × Patterns) → Step Bool → Result (Bool × Patterns)
  unless_blocked (panic e) f = panic e
  unless_blocked (ok (true, s)) f = ok (false, s)
  unless_blocked (ok (false, s)) f = f s

  unfoldable pub key_result : FilterOptions → Bytes → Step Bool
  unfolding block_key_filter allow_key_filter
  key_result opt key s = unless_blocked (block_key_filter opt key s) (allow_key_filter opt key)

  abbrev pub put_result : Bool → Result (List Bool × Patterns) → Result (List Bool × Patterns)
  put_result r (panic e) = panic e
  put_result r (ok (rs, s)) = ok (r ∷ rs, s)

  abbrev pub and_later :
      Result (Bool × Patterns)
      → (Patterns → Result (List Bool × Patterns))
      → Result (List Bool × Patterns)
  and_later (panic e) f = panic e
  and_later (ok (r, s)) f = put_result r (f s)

  unfoldable pub key_results : FilterOptions → List Bytes → Step (List Bool)
  unfolding key_result
  key_results opt [] s = ok ([], s)
  key_results opt (key ∷ keys) s = and_later (key_result opt key s) (key_results opt keys)

  abbrev decided : FilterOptions → Entry → Result (List Bool × Patterns) → Result (Bool × Patterns)
  decided opt e (panic f) = panic f
  decided opt e (ok (rs, s)) = ok (tally opt e rs, s)

  unfoldable pub filter : FilterOptions → Entry → Step Bool
  unfolding key_results filter_entry
  filter opt e s = decided opt e (key_results opt e.keys s)
