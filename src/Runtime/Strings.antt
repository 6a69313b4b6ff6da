-- ===== src/Runtime/Strings.antt =====
-- What the program uses of package strings, and Go's indexing.
use rdb_elasticache_migrator.Prelude.{
  ◌≢◌, ℕ, ◌-◌, Bool, true, false, ◌&&◌, ◌||◌, Option, none, some, List, [], ◌∷◌, ◌==◌,
  if◌then◌else◌, ◌≡◌, refl, arith, get_elem?, length, ltb, drop,
}
use rdb_elasticache_migrator.Prelude.Int.{ℤ, pos, negsuc}
use rdb_elasticache_migrator.Runtime.Input.{Bytes}
use rdb_elasticache_migrator.Runtime.Outcome.{Result, ok, panic, out_of_range}

-- `==` on strings
unfoldable pub equal : Bytes → Bytes → Bool
equal [] [] = true
equal [] (y ∷ ys) = false
equal (x ∷ xs) [] = false
equal (x ∷ xs) (y ∷ ys) = x == y && equal xs ys

pub equal_refl : (s : Bytes) → equal s s ≡ true
unfolding equal
equal_refl [] = refl
equal_refl (c ∷ s) = ground (arith, equal_refl s)

-- `slices.Contains` on strings
unfoldable pub contains : List Bytes → Bytes → Bool
unfolding equal
contains [] a = false
contains (x ∷ xs) a = equal x a || contains xs a

-- `strings.HasPrefix` and `strings.HasSuffix`
unfoldable pub has_prefix : Bytes → Bytes → Bool
has_prefix s [] = true
has_prefix [] (p ∷ ps) = false
has_prefix (c ∷ s) (p ∷ ps) = c == p && has_prefix s ps

-- `strings.Contains`
unfoldable pub contains_text : Bytes → Bytes → Bool
unfolding has_prefix
contains_text [] t = has_prefix [] t
contains_text (c ∷ s) t = has_prefix (c ∷ s) t || contains_text s t

unfoldable pub has_suffix : Bytes → Bytes → Bool
unfolding equal
has_suffix s t = if ltb (length s) (length t) then false else equal (drop (length s - length t) s) t

-- No byte of the text is `b`.
pub data Without (b : ℕ) : Bytes → Type 0 where
  nothing : Without b []
  also : {c : ℕ} {cs : Bytes} → c ≢ b → Without b cs → Without b (c ∷ cs)

module _ {ℓ} {A : Type ℓ} where
  abbrev pub found : Option A → Result A
  found none = panic out_of_range
  found (some a) = ok a

  -- `xs[i]`
  abbrev pub index : List A → ℤ → Result A
  index xs (negsuc _) = panic out_of_range
  index xs (pos i) = found (get_elem? xs i)
