-- ===== src/Filter/Verdict.antt =====
-- The answer of the filter, as one condition on the entry and the options.
use rdb_elasticache_migrator.Prelude.{
  Bool, true, false, not, ◌&&◌, ◌||◌, Option, none, some, List, [], ◌∷◌, map, if◌then◌else◌, ◌≡◌,
  refl, ap, ◌∙◌, ◌⊎◌, inl, inr, arith, Bool-cases,
}
use rdb_elasticache_migrator.Prelude.Int.{ℤ}
use rdb_elasticache_migrator.Runtime.{Bytes}
use rdb_elasticache_migrator.Runtime.Outcome.{Result, ok}
use rdb_elasticache_migrator.Runtime.Strings.{contains}
use rdb_elasticache_migrator.Filter.{
  FilterOptions, Entry, contains_db, is_empty, any_prefix, any_suffix, is_any, all_true,
  filter_entry, tally, new_keys_pattern, match_key, once, Patterns, block_key_match,
  allow_key_match, or_else, block_key_filter, allow_key_filter, key_result, key_results, filter,
}

-- An allow list and a block list: an empty one says nothing.
unfoldable pub permitted : Bool → Bool → Bool → Bool
permitted no_allow_list allowed blocked = (no_allow_list || allowed) && not blocked

unfoldable pub entry_passes : FilterOptions → Entry → Bool
unfolding permitted
entry_passes opt e =
    permitted (is_empty opt.allow_db) (contains_db opt.allow_db e.db_id)
      (contains_db opt.block_db e.db_id)
    && (permitted (is_empty opt.allow_command) (contains opt.allow_command e.cmd_name)
          (contains opt.block_command e.cmd_name)
        && permitted (is_empty opt.allow_command_group) (contains opt.allow_command_group e.group)
            (contains opt.block_command_group e.group))

contains_db-empty : (xs : List ℤ) (db : ℤ) → is_empty xs ≡ true → contains_db xs db ≡ false
unfolding contains_db
contains_db-empty [] db h = refl
contains_db-empty (x ∷ xs) db h = ground arith

contains-empty : (xs : List Bytes) (x : Bytes) → is_empty xs ≡ true → contains xs x ≡ false
unfolding contains
contains-empty [] x h = refl
contains-empty (y ∷ xs) x h = ground arith

any_prefix-empty : (xs : List Bytes) (x : Bytes) → is_empty xs ≡ true → any_prefix xs x ≡ false
unfolding any_prefix
any_prefix-empty [] x h = refl
any_prefix-empty (y ∷ xs) x h = ground arith

any_suffix-empty : (xs : List Bytes) (x : Bytes) → is_empty xs ≡ true → any_suffix xs x ≡ false
unfolding any_suffix
any_suffix-empty [] x h = refl
any_suffix-empty (y ∷ xs) x h = ground arith

-- Two guards in a row are one test.
two_guards :
    (no_allow allowed no_block blocked rest : Bool)
    → (no_block ≡ true → blocked ≡ false)
    → (if not no_allow && not allowed
        then false
        else if not no_block && blocked
        then false
        else rest)
      ≡ permitted no_allow allowed blocked && rest
unfolding permitted
two_guards no_allow allowed false blocked rest h = ground arith
two_guards no_allow allowed true blocked rest h = ground (arith, h refl)

and_true : (b : Bool) → b && true ≡ b
and_true b = ground arith

filter_entry-entry_passes :
    (opt : FilterOptions) (e : Entry) → filter_entry opt e ≡ entry_passes opt e
unfolding filter_entry entry_passes
filter_entry-entry_passes opt e =
    two_guards _ _ _ _ _ (contains_db-empty opt.block_db e.db_id)
    ∙ ap
        (λ x.
          permitted (is_empty opt.allow_db) (contains_db opt.allow_db e.db_id)
            (contains_db opt.block_db e.db_id)
          && x)
        (two_guards _ _ _ _ _ (contains-empty opt.block_command e.cmd_name)
          ∙ ap
              (λ x.
                permitted (is_empty opt.allow_command) (contains opt.allow_command e.cmd_name)
                  (contains opt.block_command e.cmd_name)
                && x)
              (two_guards _ _ _ _ _ (contains-empty opt.block_command_group e.group) ∙ and_true _))

tally-all_true :
    (opt : FilterOptions) (e : Entry) (results : List Bool)
    → tally opt e results ≡ all_true results && filter_entry opt e
tally-all_true opt e results = ground arith

module _ {Regexp : Type 0} (trim_space : Bytes → Bytes) (compile : Bytes → Option Regexp)
    (match_string : Regexp → Bytes → Bool) where
  -- A key against the block rules and the allow rules. `bs` and `rs` are the compiled patterns.
  unfoldable pub blocked : FilterOptions → List Regexp → Bytes → Bool
  blocked opt bs key =
      contains opt.block_keys key
      || match_key trim_space compile match_string bs key
      || any_prefix opt.block_key_prefix key
      || any_suffix opt.block_key_suffix key

  unfoldable pub allowed : FilterOptions → List Regexp → Bytes → Bool
  allowed opt rs key =
      contains opt.allow_keys key
      || is_any opt.allow_key_regex
      || match_key trim_space compile match_string rs key
      || any_prefix opt.allow_key_prefix key
      || any_suffix opt.allow_key_suffix key

  abbrev pub no_allow_rule : FilterOptions → Bool
  no_allow_rule opt =
      is_empty opt.allow_key_regex
      && is_empty opt.allow_key_prefix
      && is_empty opt.allow_key_suffix
      && is_empty opt.allow_keys

  unfoldable pub key_passes : FilterOptions → List Regexp → List Regexp → Bytes → Bool
  unfolding blocked allowed
  key_passes opt bs rs key = not (blocked opt bs key) && (no_allow_rule opt || allowed opt rs key)

  unfoldable pub all_pass : FilterOptions → List Regexp → List Regexp → List Bytes → Bool
  all_pass opt bs rs [] = true
  all_pass opt bs rs (key ∷ keys) = key_passes opt bs rs key && all_pass opt bs rs keys

  -- What is compiled is compiled from the options.
  abbrev pub Ready : List Regexp → List Regexp → Patterns trim_space compile match_string → Type 0
  Ready bs rs s =
      ((s.block_list ≡ none) ⊎ (s.block_list ≡ some bs))
      × ((s.allow_list ≡ none) ⊎ (s.allow_list ≡ some rs))

  -- The run goes on with `a`.
  abbrev pub Gives :
      {A : Type 0}
      → List Regexp
      → List Regexp
      → Result (A × Patterns trim_space compile match_string)
      → A
      → Type 0
  Gives bs rs r a = (s : Patterns trim_space compile match_string) × (r ≡ ok (a, s)) × Ready bs rs s

  module _ {bs rs : List Regexp} (opt : FilterOptions)
      (hb : new_keys_pattern trim_space compile match_string opt.block_key_regex ≡ some bs)
      (hr : (is_any opt.allow_key_regex ≡ true)
        ⊎ (new_keys_pattern trim_space compile match_string opt.allow_key_regex ≡ some rs)) where
    once-Ready :
        (o : Option (List Regexp)) (patterns : List Bytes) (regs : List Regexp)
        → (o ≡ none) ⊎ (o ≡ some regs)
        → new_keys_pattern trim_space compile match_string patterns ≡ some regs
        → once trim_space compile match_string o patterns ≡ ok regs
    once-Ready o patterns regs (inl e) h = rw (e, h) refl
    once-Ready o patterns regs (inr e) h = rw (e) refl

    block_key_match-Ready :
        (key : Bytes) (s : Patterns trim_space compile match_string)
        → Ready bs rs s
        → Gives bs rs
            (block_key_match trim_space compile match_string opt.block_key_regex key s)
            (match_key trim_space compile match_string bs key)
    unfolding block_key_match
    block_key_match-Ready key s (b, r) = (
      record s { block_list = some bs },
      rw (once-Ready s.block_list opt.block_key_regex bs b hb) refl,
      (inr refl, r),
    )

    allow_key_match-Ready :
        (key : Bytes) (s : Patterns trim_space compile match_string)
        → Ready bs rs s
        → Gives bs rs
            (allow_key_match trim_space compile match_string opt.allow_key_regex key s)
            (is_any opt.allow_key_regex || match_key trim_space compile match_string rs key)
    unfolding allow_key_match
    allow_key_match-Ready key s (b, r) = elim (Bool-cases (is_any opt.allow_key_regex)) [
      | inl e ↦ (s, rw (e) refl, (b, r))
      | inr e ↦ elim hr [
        | inl f ↦ absurd cc
        | inr f ↦ (
          record s { allow_list = some rs },
          rw (e, once-Ready s.allow_list opt.allow_key_regex rs r f) refl,
          (b, inr refl),
        )
      ]
    ]

    -- Without patterns nothing matches.
    match_key-empty :
        (patterns : List Bytes) (regs : List Regexp) (key : Bytes)
        → is_empty patterns ≡ true
        → new_keys_pattern trim_space compile match_string patterns ≡ some regs
        → match_key trim_space compile match_string regs key ≡ false
    unfolding match_key new_keys_pattern
    match_key-empty [] [] key h e = refl
    match_key-empty [] (r ∷ regs) key h e = ground arith
    match_key-empty (p ∷ patterns) regs key h e = ground arith

    or_else-Gives :
        (r : Result (Bool × Patterns trim_space compile match_string)) (a later : Bool)
        → Gives bs rs r a
        → Gives bs rs (or_else trim_space compile match_string r later) (a || later)
    or_else-Gives r true later (s, e, q) = (s, rw (e) refl, q)
    or_else-Gives r false later (s, e, q) = (s, rw (e) refl, q)

    no_block_rule-blocked :
        (key : Bytes)
        → is_empty opt.block_key_regex
            && is_empty opt.block_key_prefix
            && is_empty opt.block_key_suffix
            && is_empty opt.block_keys
          ≡ true
        → blocked opt bs key ≡ false
    unfolding blocked
    no_block_rule-blocked key h = ground (
      arith,
      match_key-empty opt.block_key_regex bs key,
      hb,
      any_prefix-empty opt.block_key_prefix key,
      any_suffix-empty opt.block_key_suffix key,
      contains-empty opt.block_keys key,
    )

    in_block_keys : (key : Bytes) → contains opt.block_keys key ≡ true → blocked opt bs key ≡ true
    unfolding blocked
    in_block_keys key h = rw (h) refl

    in_allow_keys : (key : Bytes) → contains opt.allow_keys key ≡ true → allowed opt rs key ≡ true
    unfolding allowed
    in_allow_keys key h = rw (h) refl

    blocked-rest :
        (key : Bytes)
        → contains opt.block_keys key ≡ false
        → blocked opt bs key
          ≡ match_key trim_space compile match_string bs key
            || (if any_prefix opt.block_key_prefix key
                then true
                else any_suffix opt.block_key_suffix key)
    unfolding blocked
    blocked-rest key h = ground arith

    allowed-rest :
        (key : Bytes)
        → contains opt.allow_keys key ≡ false
        → allowed opt rs key
          ≡ (is_any opt.allow_key_regex || match_key trim_space compile match_string rs key)
            || (if any_prefix opt.allow_key_prefix key
                then true
                else any_suffix opt.allow_key_suffix key)
    unfolding allowed
    allowed-rest key h = ground arith

    all_true-map :
        (keys : List Bytes) → all_true (map (key_passes opt bs rs) keys) ≡ all_pass opt bs rs keys
    unfolding all_pass
    all_true-map [] = refl
    all_true-map (key ∷ keys) = ground (arith, all_true-map keys)

    block_key_filter-Ready :
        (key : Bytes) (s : Patterns trim_space compile match_string)
        → Ready bs rs s
        → Gives bs rs
            (block_key_filter trim_space compile match_string opt key s)
            (blocked opt bs key)
    unfolding block_key_filter
    block_key_filter-Ready key s ready =
        elim (Bool-cases (
          is_empty opt.block_key_regex
          && is_empty opt.block_key_prefix
          && is_empty opt.block_key_suffix
          && is_empty opt.block_keys)) [
            | inl e ↦ (s, rw (e, no_block_rule-blocked key e) refl, ready)
            | inr e ↦ elim (Bool-cases (contains opt.block_keys key)) [
              | inl f ↦ (s, rw (e, f, in_block_keys key f) refl, ready)
              | inr f ↦
                  rw (e, f, blocked-rest key f)
                    (or_else-Gives _ _ _ (block_key_match-Ready key s ready))
            ]
          ]

    allow_key_filter-Ready :
        (key : Bytes) (s : Patterns trim_space compile match_string)
        → Ready bs rs s
        → Gives bs rs
            (allow_key_filter trim_space compile match_string opt key s)
            (no_allow_rule opt || allowed opt rs key)
    unfolding allow_key_filter
    allow_key_filter-Ready key s ready = elim (Bool-cases (no_allow_rule opt)) [
      | inl e ↦ (s, rw (e) refl, ready)
      | inr e ↦ elim (Bool-cases (contains opt.allow_keys key)) [
        | inl f ↦ (s, rw (e, f, in_allow_keys key f) refl, ready)
        | inr f ↦
            rw (e, f, allowed-rest key f) (or_else-Gives _ _ _ (allow_key_match-Ready key s ready))
      ]
    ]

    key_result-Ready :
        (key : Bytes) (s : Patterns trim_space compile match_string)
        → Ready bs rs s
        → Gives bs rs
            (key_result trim_space compile match_string opt key s)
            (key_passes opt bs rs key)
    unfolding key_result key_passes
    key_result-Ready key s ready =
        let (t, e, q) = block_key_filter-Ready key s ready in
        elim (Bool-cases (blocked opt bs key)) [
          | inl f ↦ (t, rw (e, f) refl, q)
          | inr f ↦ rw (e, f) (allow_key_filter-Ready key t q)
        ]

    -- One result for each key.
    key_results-Ready :
        (keys : List Bytes) (s : Patterns trim_space compile match_string)
        → Ready bs rs s
        → Gives bs rs
            (key_results trim_space compile match_string opt keys s)
            (map (key_passes opt bs rs) keys)
    unfolding key_results
    key_results-Ready [] s ready = (s, refl, ready)
    key_results-Ready (key ∷ keys) s ready =
        let (t, e, q) = key_result-Ready key s ready in
        let (u, f, p) = key_results-Ready keys t q in (u, rw (e, f) refl, p)

    tally-map :
        (e : Entry) (keys : List Bytes)
        → tally opt e (map (key_passes opt bs rs) keys)
          ≡ all_pass opt bs rs keys && filter_entry opt e
    unfolding all_pass
    tally-map e keys =
        tally-all_true opt e (map (key_passes opt bs rs) keys)
        ∙ ap (λ x. x && filter_entry opt e) (all_true-map keys)

    -- When the patterns compile, the filter gives an answer, whatever was compiled before, and the answer
    -- is yes exactly when every key of the entry is not blocked and is allowed, and the database, the
    -- command and its group are each on the allow list, unless that is empty, and not on the block list.
    pub filter-Passes :
        (e : Entry) (s : Patterns trim_space compile match_string)
        → Ready bs rs s
        → Gives bs rs
            (filter trim_space compile match_string opt e s)
            (all_pass opt bs rs e.keys && entry_passes opt e)
    unfolding filter
    filter-Passes e s ready =
        let (t, f, q) = key_results-Ready e.keys s ready in
        (t, rw (f, tally-map e e.keys, filter_entry-entry_passes opt e) refl, q)
