-- ===== src/Runtime/Outcome.antt =====
-- The ends of a run. A panic of the run time and `log.Panicf`, which calls `os.Exit(1)`, both end the
-- process: `panic` with what was wrong.
use rdb_elasticache_migrator.Prelude.{◌≡◌, refl, ◌⊎◌, inl, inr}

pub data Fault : Type 0 where
  eof negative_length out_of_range illegal_length unknown_encoding bad_size : Fault
  bad_end bad_number bad_pattern bad_format unknown_type unsupported closed_channel : Fault
  -- No end of the program: a loop of the model has used up its fuel.
  out_of_fuel : Fault

pub data Result {ℓ} (A : Type ℓ) : Type ℓ where
  ok : A → Result A
  panic : Fault → Result A

infixl 5 ◌>>=◌ ◌>>◌
abbrev pub ◌>>=◌ {ℓ κ} : {A : Type ℓ} {B : Type κ} → Result A → (A → Result B) → Result B
ok a >>= f = f a
panic e >>= f = panic e

abbrev pub ◌>>◌ {ℓ κ} : {A : Type ℓ} {B : Type κ} → Result A → Result B → Result B
m >> k = m >>= λ _. k

pub Result-cases {ℓ} :
    {A : Type ℓ} (r : Result A) → ((a : A) × (r ≡ ok a)) ⊎ ((e : Fault) × (r ≡ panic e))
Result-cases (ok a) = inl (a, refl)
Result-cases (panic e) = inr (e, refl)
