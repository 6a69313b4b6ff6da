-- ===== src/Commands/Keys/Located.antt =====
-- The keys against the positions that `CalcKeys` returns with them.
use rdb_elasticache_migrator.Prelude.{
  ℕ, zero, suc, Bool, Option, none, some, List, [], ◌∷◌, ◌++◌, ◌≡◌, refl, arith, length, codes,
  ◌||◌, if◌then◌else◌, true, false,
}
use mathlib.Core.Path.{subst}
use rdb_elasticache_migrator.Prelude.Int.{ℤ, pos, ◌+ℤ◌, ltb_ℤ, leb_ℤ}
use rdb_elasticache_migrator.Runtime.{Bytes}
use rdb_elasticache_migrator.Runtime.Outcome.{Result, ok, panic, bad_number, unknown_type, ◌>>=◌}
use rdb_elasticache_migrator.Runtime.Strings.{equal, index}
use rdb_elasticache_migrator.Runtime.Strconv.{parse_int}
use rdb_elasticache_migrator.Commands.Keys.{
  KeySpec, RedisCommand, Keys, Calculated, add_key, join, range_loop, find_range, keynum_loop,
  count_of, find_keynum, find_keys, begin_search, all_specs, of_command, calc_keys,
}

-- Each key is the argument that stands one place before its position, which counts from 1.
pub data Located (argv : List Bytes) : List Bytes → List ℤ → Type 0 where
  nowhere : Located argv [] []
  at :
      {key : Bytes} (inx : ℤ) {keys : List Bytes} {indexes : List ℤ}
      → index argv inx ≡ ok key
      → Located argv keys indexes
      → Located argv (key ∷ keys) ((inx +ℤ pos 1) ∷ indexes)

Located-append :
    {argv : List Bytes} {xs ys : List Bytes} {is js : List ℤ}
    → Located argv xs is
    → Located argv ys js
    → Located argv (xs ++ ys) (is ++ js)
Located-append nowhere q = q
Located-append (at inx e p) q = at inx e (Located-append p q)

-- Of a result, when there is one.
abbrev Sound : List Bytes → Result Keys → Type 0
Sound argv (ok r) = Located argv r.keys r.keys_indexes
Sound argv (panic e) = Unit {0}

Sound-bind :
    {A : Type 0} (argv : List Bytes) (m : Result A) (f : A → Result Keys)
    → ((a : A) → Sound argv (f a))
    → Sound argv (m >>= f)
Sound-bind argv (ok a) f h = h a
Sound-bind argv (panic e) f h = tt

Sound-add_key :
    (argv : List Bytes) (inx : ℤ) (r : Result Bytes) (rest : Result Keys)
    → index argv inx ≡ r
    → Sound argv rest
    → Sound argv (r >>= λ key. rest >>= λ q. ok (add_key key inx q))
Sound-add_key argv inx (ok key) (ok q) e h = at inx e h
Sound-add_key argv inx (ok key) (panic f) e h = tt
Sound-add_key argv inx (panic f) rest e h = tt

Sound-join :
    (argv : List Bytes) (a b : Result Keys)
    → Sound argv a
    → Sound argv b
    → Sound argv (a >>= λ here. b >>= λ later. ok (join here later))
Sound-join argv (ok x) (ok y) p q = Located-append p q
Sound-join argv (ok x) (panic e) p q = tt
Sound-join argv (panic e) b p q = tt

Sound-if :
    (argv : List Bytes) (b : Bool) (x y : Result Keys)
    → Sound argv x
    → Sound argv y
    → Sound argv (if b then x else y)
Sound-if argv true x y p q = p
Sound-if argv false x y p q = q

range_loop-Sound :
    (argv : List Bytes) (n : ℕ) (inx last step : ℤ) → Sound argv (range_loop argv n inx last step)
unfolding range_loop
range_loop-Sound argv zero inx last step = nowhere
range_loop-Sound argv (suc n) inx last step =
    Sound-if argv (leb_ℤ inx last) _ _
      (Sound-add_key argv inx (index argv inx) _ refl
        (range_loop-Sound argv n (inx +ℤ step) last step))
      nowhere

keynum_loop-Sound :
    (argv : List Bytes) (n : ℕ) (inx step : ℤ) → Sound argv (keynum_loop argv n inx step)
unfolding keynum_loop
keynum_loop-Sound argv zero inx step = nowhere
keynum_loop-Sound argv (suc n) inx step =
    Sound-add_key argv inx (index argv inx) _ refl (keynum_loop-Sound argv n (inx +ℤ step) step)

counted-Sound :
    (argv : List Bytes) (arg : Bytes) (inx step : ℤ)
    → Sound argv (count_of (parse_int arg) >>= λ n. keynum_loop argv n inx step)
counted-Sound argv arg inx step =
    Sound-bind argv (count_of (parse_int arg)) (λ n. keynum_loop argv n inx step)
      (λ n. keynum_loop-Sound argv n inx step)

find_keynum-Sound :
    (spec : KeySpec) (argv : List Bytes) (begin : ℤ) → Sound argv (find_keynum spec argv begin)
unfolding find_keynum
find_keynum-Sound spec argv begin =
    let keynum_idx = begin +ℤ spec.find_keys_keynum_index in
    let first = begin +ℤ spec.find_keys_keynum_first_key in
    let step = spec.find_keys_keynum_key_step in
    Sound-if argv (ltb_ℤ keynum_idx (pos 0) || ltb_ℤ (pos (length argv)) keynum_idx)
      (panic bad_number)
      (index argv keynum_idx >>= λ arg.
        count_of (parse_int arg) >>= λ n. keynum_loop argv n first step)
      tt
      (Sound-bind argv (index argv keynum_idx)
        (λ arg. count_of (parse_int arg) >>= λ n. keynum_loop argv n first step)
        (λ arg. counted-Sound argv arg first step))

find_keys-Sound :
    (spec : KeySpec) (argv : List Bytes) (begin : ℤ) → Sound argv (find_keys spec argv begin)
unfolding find_keys find_range
find_keys-Sound spec argv begin =
    Sound-if argv (equal spec.find_keys_type (codes "range")) (find_range spec argv begin)
      (if equal spec.find_keys_type (codes "keynum")
        then find_keynum spec argv begin
        else panic unknown_type)
      (range_loop-Sound argv _ begin _ _)
      (Sound-if argv (equal spec.find_keys_type (codes "keynum")) (find_keynum spec argv begin)
        (panic unknown_type) (find_keynum-Sound spec argv begin) tt)

abbrev keys_of : Result Calculated → Result Keys
keys_of (ok c) = ok c.found
keys_of (panic e) = panic e

keys_of-bind :
    (name group : Bytes) (argv : List Bytes) (r : Result Keys)
    → Sound argv r
    → Sound argv
        (keys_of (r >>= λ found. ok (record { cma_name = name; group = group; found = found })))
keys_of-bind name group argv (ok q) h = h
keys_of-bind name group argv (panic e) h = tt

module _ (to_upper : Bytes → Bytes) where
  all_specs-Sound :
      (specs : List KeySpec) (argv : List Bytes) → Sound argv (all_specs to_upper specs argv)
  unfolding all_specs
  all_specs-Sound [] argv = nowhere
  all_specs-Sound (spec ∷ specs) argv = Sound-bind argv (begin_search to_upper spec argv) _ λ begin.
      Sound-join argv (find_keys spec argv begin) (all_specs to_upper specs argv)
        (find_keys-Sound spec argv begin) (all_specs-Sound specs argv)

  module _ (containers : Bytes → Bool) (redis_commands : Bytes → Option RedisCommand) where
    of_command-Located :
        (name : Bytes) (argv : List Bytes) (cmd : Option RedisCommand) (c : Calculated)
        → of_command to_upper containers redis_commands name argv cmd ≡ ok c
        → Located argv c.found.keys c.found.keys_indexes
    of_command-Located name argv none c h = subst (λ x. Sound argv (keys_of x)) h nowhere
    of_command-Located name argv (some cmd) c h =
        subst (λ x. Sound argv (keys_of x)) h
          (keys_of-bind name cmd.group argv (all_specs to_upper cmd.key_spec argv)
            (all_specs-Sound cmd.key_spec argv))

    -- Each key that is returned is the argument at the position that is returned with it, and there are
    -- as many positions as keys. Positions count from 1.
    pub calc_keys-Located :
        (argv : List Bytes) (c : Calculated)
        → calc_keys to_upper containers redis_commands argv ≡ ok c
        → Located argv c.found.keys c.found.keys_indexes
    unfolding calc_keys
    calc_keys-Located [] c h = ground arith
    calc_keys-Located (arg ∷ args) c h = of_command-Located _ (arg ∷ args) _ c h
