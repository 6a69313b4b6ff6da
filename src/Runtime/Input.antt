-- ===== src/Runtime/Input.antt =====
-- `io.Reader`.
use rdb_elasticache_migrator.Prelude.{
  ℕ, zero, suc, ◌≡◌, refl, inl, inr, List, [], ◌∷◌, ◌++◌, ap, arith, length,
}
use rdb_elasticache_migrator.Prelude.Int.{ℤ, pos, negsuc}
use rdb_elasticache_migrator.Runtime.Outcome.{
  Fault, eof, negative_length, Result, ok, panic, Result-cases,
}

-- A `[]byte` or a `string`: numbers below 256.
abbrev pub Bytes : Type 0
Bytes = List ℕ

-- The bytes that the reader has not delivered go from step to step.
abbrev pub Read : Type 0 → Type 0
Read A = Bytes → Result (A × Bytes)

abbrev pub continue : {A B : Type 0} → Result (A × Bytes) → (A → Read B) → Result (B × Bytes)
continue (ok (a, rest)) f = f a rest
continue (panic e) f = panic e

infixl 5 ◌>>=◌ ◌>>◌
abbrev pub ◌>>=◌ : {A B : Type 0} → Read A → (A → Read B) → Read B
◌>>=◌ m f bs = continue (m bs) f

abbrev pub ◌>>◌ : {A B : Type 0} → Read A → Read B → Read B
m >> k = m >>= λ _. k

abbrev pub pure : {A : Type 0} → A → Read A
pure a bs = ok (a, bs)

abbrev pub fail : {A : Type 0} → Fault → Read A
fail e bs = panic e

continue_assoc :
    {A B C : Type 0} (r : Result (A × Bytes)) (f : A → Read B) (g : B → Read C)
    → continue r (λ a. f a >>= g) ≡ continue (continue r f) g
continue_assoc (ok (a, rest)) f g = refl
continue_assoc (panic e) f g = refl

pub bind_assoc :
    {A B C : Type 0} (m : Read A) (f : A → Read B) (g : B → Read C) (bs : Bytes)
    → (m >>= λ a. f a >>= g) bs ≡ (m >>= f >>= g) bs
bind_assoc m f g bs = continue_assoc (m bs) f g

-- So many values in turn.
unfoldable pub collect : {A : Type 0} → ℕ → Read A → Read (List A)
collect zero m = pure []
collect (suc n) m = do a ← m; as' ← collect n m; pure (a ∷ as')

abbrev pub lift : {A : Type 0} → Result A → Read A
lift (ok a) bs = ok (a, bs)
lift (panic e) bs = panic e

-- `make([]byte, n)` panics on a negative length.
unfoldable pub make : ℤ → Read ℕ
make (pos n) bs = ok (n, bs)
make (negsuc n) bs = panic negative_length

abbrev put_front : ℕ → Result (Bytes × Bytes) → Result (Bytes × Bytes)
put_front b (ok (xs, rest)) = ok (b ∷ xs, rest)
put_front b (panic e) = panic e

-- `io.ReadFull` into a buffer of n bytes; every caller ends the run on its error.
unfoldable pub read_full : ℕ → Read Bytes
read_full zero bs = ok ([], bs)
read_full (suc n) [] = panic eof
read_full (suc n) (b ∷ bs) = put_front b (read_full n bs)

pub read_full-append :
    (xs rest : Bytes) (n : ℕ) → length xs ≡ n → read_full n (xs ++ rest) ≡ ok (xs, rest)
unfolding read_full
read_full-append [] rest zero h = refl
read_full-append [] rest (suc n) h = absurd (omega arith)
read_full-append (x ∷ xs) rest zero h = absurd (omega arith)
read_full-append (x ∷ xs) rest (suc n) h =
    ap (put_front x) (read_full-append xs rest n (omega arith))

-- What was read and what is left make up the input.
pub read_full-ok :
    (n : ℕ) (bs : Bytes) {xs rest : Bytes}
    → read_full n bs ≡ ok (xs, rest)
    → (bs ≡ xs ++ rest) × (length xs ≡ n)
unfolding read_full
read_full-ok zero bs h = ground arith
read_full-ok (suc n) [] h = cc
read_full-ok (suc n) (b ∷ bs) {xs} {rest} h = elim (Result-cases (read_full n bs)) [
  | inl ((ys, r), e) ↦ ground (arith, read_full-ok n bs {xs = ys} {rest = r} e)
  | inr (f, e) ↦ ground arith
]

abbrev pub value : {A : Type 0} → Result (A × Bytes) → Result A
value (ok (a, _)) = ok a
value (panic e) = panic e

-- A read from a `bufio.NewReader(strings.NewReader(s))` of its own; what it leaves is dropped.
abbrev pub inner : {A : Type 0} → Read A → Bytes → Read A
inner m s = lift (value (m s))
