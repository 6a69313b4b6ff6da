-- ===== src/Runtime/Strconv.antt =====
-- `strconv.FormatUint`, `FormatInt` and `Itoa` in base 10, and `ParseInt`.
use rdb_elasticache_migrator.Prelude.{
  ℕ, zero, suc, ◌+◌, ◌-◌, ◌*◌, ◌/◌, ◌%◌, ◌^◌, ◌<◌, ◌≤◌, ◌≡◌, [], ◌∷◌, ◌++◌, arith, Bool, true,
  false, ◌&&◌, Option, none, some, ltb, leb, lt→ltb, Bool-cases, inl, inr, refl, ap, ◌==◌,
  if◌then◌else◌,
}
use rdb_elasticache_migrator.Prelude.Int.{ℤ, pos, negsuc}
use rdb_elasticache_migrator.Runtime.Input.{Bytes}

-- The decimal digits of a number below 10 ^ fuel.
unfoldable pub digits : ℕ → ℕ → Bytes
digits zero n = []
digits (suc fuel) n =
    let front = digits fuel (n / 10) in
    if ltb n 10 then (n + 48) ∷ [] else front ++ (n % 10 + 48) ∷ []

-- A 64-bit number has at most twenty digits.
unfoldable pub format_uint : ℕ → Bytes
unfolding digits
format_uint n = digits 20 n

unfoldable pub format_int : ℤ → Bytes
unfolding format_uint
format_int (pos n) = format_uint n
format_int (negsuc n) = b'-' ∷ format_uint (suc n)

parse_onto : ℕ → Bytes → Option ℕ
parse_onto acc [] = some acc
parse_onto acc (c ∷ cs) =
    let rest = parse_onto (acc * 10 + (c - 48)) cs in if leb 48 c && leb c 57 then rest else none

-- The value of a non-empty run of decimal digits.
unfoldable pub parse_digits : Bytes → Option ℕ
unfolding parse_onto
parse_digits [] = none
parse_digits (c ∷ cs) = parse_onto 0 (c ∷ cs)

-- `none` is either error of `ParseInt(s, 10, 64)`: a syntax error, or a value out of range.
signed_value : Bool → Option ℕ → Option ℤ
signed_value negative none = none
signed_value false (some n) = if ltb n (2 ^ 63) then some (pos n) else none
signed_value true (some zero) = some (pos 0)
signed_value true (some (suc n)) = if ltb n (2 ^ 63) then some (negsuc n) else none

unfoldable pub parse_int : Bytes → Option ℤ
unfolding parse_digits signed_value
parse_int [] = none
parse_int (c ∷ cs) =
    if c == b'-'
    then signed_value true (parse_digits cs)
    else if c == b'+'
    then signed_value false (parse_digits cs)
    else signed_value false (parse_digits (c ∷ cs))

-- The first result of `ParseInt`, which the callers that drop its error use: 0 for a syntax error, and
-- the bound that was passed for a value out of range.
saturated : Bool → Option ℕ → ℤ
saturated negative none = pos 0
saturated false (some n) = if ltb n (2 ^ 63) then pos n else pos (2 ^ 63 - 1)
saturated true (some zero) = pos 0
saturated true (some (suc n)) = if ltb n (2 ^ 63) then negsuc n else negsuc (2 ^ 63 - 1)

unfoldable pub parse_int_value : Bytes → ℤ
unfolding parse_digits saturated
parse_int_value [] = pos 0
parse_int_value (c ∷ cs) =
    if c == b'-'
    then saturated true (parse_digits cs)
    else if c == b'+'
    then saturated false (parse_digits cs)
    else saturated false (parse_digits (c ∷ cs))

-- Where there is no error the value is the number.
saturated-signed_value :
    (negative : Bool) (o : Option ℕ) (z : ℤ)
    → signed_value negative o ≡ some z
    → saturated negative o ≡ z
unfolding saturated signed_value
saturated-signed_value negative none z h = ground arith
saturated-signed_value false (some n) z h = ground arith
saturated-signed_value true (some zero) z h = ground arith
saturated-signed_value true (some (suc n)) z h = ground arith

pub parse_int_value-parse_int : (s : Bytes) (z : ℤ) → parse_int s ≡ some z → parse_int_value s ≡ z
unfolding parse_int parse_int_value
parse_int_value-parse_int [] z h = ground arith
parse_int_value-parse_int (c ∷ cs) z h = ground (
  arith,
  saturated-signed_value true (parse_digits cs) z,
  saturated-signed_value false (parse_digits cs) z,
  saturated-signed_value false (parse_digits (c ∷ cs)) z,
)

parse_onto-append :
    (xs : Bytes) (acc c n : ℕ)
    → parse_onto acc xs ≡ some n
    → 48 ≤ c
    → c ≤ 57
    → parse_onto acc (xs ++ c ∷ []) ≡ some (n * 10 + (c - 48))
unfolding parse_onto
parse_onto-append [] acc c n h lo hi = ground arith
parse_onto-append (x ∷ xs) acc c n h lo hi =
    ground (arith, parse_onto-append xs (acc * 10 + (x - 48)) c n)

pow_ten : (fuel : ℕ) → 10 ^ suc (suc fuel) ≡ 10 * 10 ^ suc fuel
pow_ten fuel = grind arith

parse_onto-digits : (fuel n : ℕ) → n < 10 ^ suc fuel → parse_onto 0 (digits (suc fuel) n) ≡ some n
unfolding parse_onto digits
parse_onto-digits zero n h = ground arith
parse_onto-digits (suc fuel) n h = ground (
  arith,
  parse_onto-append (digits (suc fuel) (n / 10)) 0 (n % 10 + 48) (n / 10),
  parse_onto-digits fuel (n / 10) (omega (arith, pow_ten fuel)),
)

-- The first digit, and that there is one.
data Leads (xs : Bytes) : Type 0 where
  leads : (c : ℕ) (cs : Bytes) → xs ≡ c ∷ cs → 48 ≤ c → c ≤ 57 → Leads xs

Leads-append : {xs : Bytes} (ys : Bytes) → Leads xs → Leads (xs ++ ys)
Leads-append ys (leads c cs e lo hi) = leads c (cs ++ ys) (ap (λ l. l ++ ys) e) lo hi

digits-Leads : (fuel n : ℕ) → n < 10 ^ suc fuel → Leads (digits (suc fuel) n)
unfolding digits
digits-Leads zero n h = rw (lt→ltb n 10 h) (leads (n + 48) [] refl (omega arith) (omega arith))
digits-Leads (suc fuel) n h = elim (Bool-cases (ltb n 10)) [
  | inl small ↦ rw small (leads (n + 48) [] refl (omega arith) (ground arith))
  | inr big ↦
      rw big (
        Leads-append ((n % 10 + 48) ∷ [])
          (digits-Leads fuel (n / 10) (omega (arith, pow_ten fuel))))
]

parse_digits-digits : (n : ℕ) → n < 2 ^ 64 → parse_digits (digits 20 n) ≡ some n
unfolding parse_digits
parse_digits-digits n h = elim (digits-Leads 19 n (omega arith)) [
  | leads c cs e lo hi ↦ rw e (rw e at (parse_onto-digits 19 n (omega arith)))
]

-- The range of `int64`.
abbrev pub IsInt64 : ℤ → Type 0
IsInt64 (pos n) = n < 2 ^ 63
IsInt64 (negsuc n) = n < 2 ^ 63

parse_int-unsigned : (xs : Bytes) → Leads xs → parse_int xs ≡ signed_value false (parse_digits xs)
unfolding parse_int
parse_int-unsigned xs (leads c cs e lo hi) = rw e (ground arith)

-- `ParseInt` reads back every `int64` that `FormatInt` wrote.
pub parse_int-format_int : (z : ℤ) → IsInt64 z → parse_int (format_int z) ≡ some z
unfolding format_int
parse_int-format_int (pos n) h =
    rw (parse_int-unsigned (digits 20 n) (digits-Leads 19 n (omega arith)))
      (unfold signed_value in rw (parse_digits-digits n (omega arith), lt→ltb n (2 ^ 63) h))
parse_int-format_int (negsuc n) h =
    unfold parse_int in rw (parse_digits-digits (suc n) (omega arith), lt→ltb n (2 ^ 63) h)
