-- ===== src/Aof/Split/Ends.antt =====
-- `SplitArgs` comes to an end on every line.
use rdb_elasticache_migrator.Prelude.{
  ℕ, zero, suc, ◌≤◌, ◌<◌, ◌≢◌, refl, Bool, true, false, Option, none, some, List, [], ◌∷◌, ◌++◌,
  ◌==◌, if◌then◌else◌, length, arith,
}
use mathlib.Core.Path.{subst}
use rdb_elasticache_migrator.Runtime.{Bytes, Result, ok, panic, out_of_range, out_of_fuel}
use rdb_elasticache_migrator.Aof.Split.{
  Mode, plain, in_quotes, in_single_quotes, Piece, more, last, refused, broken, is_space,
  is_hex_digit, low_digit, hex_escape, quote_escape, closed, single_escape, piece, Word, word,
  no_word, bad_word, next, read_word, skip_blanks, put_word, then_words, from_word, read_words,
  split_args, utf8, escaped, is_end,
}

-- What a round leaves has at most `n` bytes, and the fuel is no matter.
abbrev Shrinks : ℕ → Piece → Type 0
Shrinks n (more mode cur rest) = length rest ≤ n
Shrinks n (last cur rest) = length rest ≤ n
Shrinks n refused = Unit {0}
Shrinks n (broken e) = e ≢ out_of_fuel

Shrinks-if :
    (n : ℕ) (b : Bool) (p q : Piece) → Shrinks n p → Shrinks n q → Shrinks n (if b then p else q)
Shrinks-if n true p q x y = x
Shrinks-if n false p q x y = y

range_is_not_fuel : out_of_range ≢ out_of_fuel
range_is_not_fuel h = ground arith

closed-Shrinks : (cur rest : Bytes) → Shrinks (length rest) (closed cur rest)
closed-Shrinks cur [] = omega arith
closed-Shrinks cur (c ∷ rest) =
    Shrinks-if (suc (length rest)) (is_space c) (last cur (c ∷ rest)) refused (omega arith) tt

low_digit-Shrinks :
    (n : ℕ) (cur : Bytes) (high : ℕ) (rest : Bytes) (other : Piece)
    → length rest ≤ n
    → Shrinks n other
    → Shrinks n (low_digit cur high rest other)
low_digit-Shrinks n cur high [] other h q = range_is_not_fuel
low_digit-Shrinks n cur high (low ∷ rest) other h q =
    Shrinks-if n (is_hex_digit low) _ other (omega arith) q

hex_escape-Shrinks :
    (n : ℕ) (cur rest : Bytes) (other : Piece)
    → length rest ≤ n
    → Shrinks n other
    → Shrinks n (hex_escape cur rest other)
hex_escape-Shrinks n cur [] other h q = range_is_not_fuel
hex_escape-Shrinks n cur (high ∷ rest) other h q =
    Shrinks-if n (is_hex_digit high) (low_digit cur high rest other) other
      (low_digit-Shrinks n cur high rest other (omega arith) q) q

quote_escape-Shrinks : (cur rest : Bytes) → Shrinks (length rest) (quote_escape cur rest)
unfolding quote_escape
quote_escape-Shrinks cur [] = range_is_not_fuel
quote_escape-Shrinks cur (c ∷ rest) =
    let other = more in_quotes (cur ++ utf8 (escaped c)) rest in
    Shrinks-if (suc (length rest)) (c == b'x') (hex_escape cur rest other) other
      (hex_escape-Shrinks (suc (length rest)) cur rest other (omega arith) (omega arith))
      (omega arith)

single_escape-Shrinks : (cur rest : Bytes) → Shrinks (length rest) (single_escape cur rest)
single_escape-Shrinks cur [] = range_is_not_fuel
single_escape-Shrinks cur (c ∷ rest) =
    Shrinks-if (suc (length rest)) (c == b'\'') _ _ (omega arith) (omega arith)

piece-Shrinks :
    (mode : Mode) (cur : Bytes) (c : ℕ) (rest : Bytes)
    → Shrinks (length rest) (piece mode cur c rest)
unfolding piece
piece-Shrinks plain cur c rest =
    Shrinks-if (length rest) (is_end c) (last cur rest) _ (omega arith) (
      Shrinks-if (length rest) (c == b'"') (more in_quotes cur rest) _ (omega arith) (
        Shrinks-if (length rest) (c == b'\'') (more in_single_quotes cur rest)
          (more plain (cur ++ utf8 c) rest) (omega arith) (omega arith)))
piece-Shrinks in_quotes cur c rest =
    Shrinks-if (length rest) (c == b'\\') (quote_escape cur rest) _ (quote_escape-Shrinks cur rest)
      (Shrinks-if (length rest) (c == b'"') (closed cur rest) (more in_quotes (cur ++ utf8 c) rest)
        (closed-Shrinks cur rest) (omega arith))
piece-Shrinks in_single_quotes cur c rest =
    Shrinks-if (length rest) (c == b'\\') (single_escape cur rest) _
      (single_escape-Shrinks cur rest)
      (Shrinks-if (length rest) (c == b'\'') (closed cur rest)
        (more in_single_quotes (cur ++ utf8 c) rest) (closed-Shrinks cur rest) (omega arith))

-- The same of a word.
abbrev Leaves : ℕ → Word → Type 0
Leaves n (word w rest) = length rest ≤ n
Leaves n no_word = Unit {0}
Leaves n (bad_word e) = e ≢ out_of_fuel

next-Leaves :
    (m n : ℕ) (again : Mode → Bytes → Bytes → Word) (p : Piece)
    → m ≤ n
    → Shrinks m p
    → ((mode : Mode) (cur rest : Bytes) → length rest ≤ m → Leaves n (again mode cur rest))
    → Leaves n (next again p)
next-Leaves m n again (more mode cur rest) le h f = f mode cur rest h
next-Leaves m n again (last cur rest) le h f = omega arith
next-Leaves m n again refused le h f = tt
next-Leaves m n again (broken e) le h f = h

read_word-Leaves :
    (fuel n : ℕ) (mode : Mode) (cur bs : Bytes)
    → length bs ≤ fuel
    → length bs ≤ n
    → Leaves n (read_word fuel mode cur bs)
unfolding read_word
read_word-Leaves fuel n mode cur [] h k = omega arith
read_word-Leaves zero n mode cur (c ∷ rest) h k = absurd (omega arith)
read_word-Leaves (suc fuel) n mode cur (c ∷ rest) h k =
    next-Leaves (length rest) n (read_word fuel) (piece mode cur c rest) (omega arith)
      (piece-Shrinks mode cur c rest)
      (λ mode' cur' rest' le. read_word-Leaves fuel n mode' cur' rest' (omega arith) (omega arith))

-- A word takes a byte at least.
first_word-Leaves :
    (c : ℕ) (cs : Bytes) → Leaves (length cs) (read_word (suc (length cs)) plain [] (c ∷ cs))
unfolding read_word
first_word-Leaves c cs =
    next-Leaves (length cs) (length cs) (read_word (length cs)) (piece plain [] c cs) (omega arith)
      (piece-Shrinks plain [] c cs)
      (λ mode' cur' rest' le. read_word-Leaves (length cs) (length cs) mode' cur' rest' le le)

-- The fuel is no matter.
abbrev pub Ends : Result (Option (List Bytes)) → Type 0
Ends (ok _) = Unit {0}
Ends (panic e) = e ≢ out_of_fuel

put_word-Ends : (w : Bytes) (r : Result (Option (List Bytes))) → Ends r → Ends (put_word w r)
put_word-Ends w (panic e) h = h
put_word-Ends w (ok none) h = tt
put_word-Ends w (ok (some ws)) h = tt

then_words-Ends :
    (n : ℕ) (again : Bytes → Result (Option (List Bytes))) (w : Word)
    → Leaves n w
    → ((rest : Bytes) → length rest ≤ n → Ends (again rest))
    → Ends (then_words again w)
then_words-Ends n again (word w rest) h f = put_word-Ends w (again rest) (f rest h)
then_words-Ends n again no_word h f = tt
then_words-Ends n again (bad_word e) h f = h

length-skip_blanks : (bs : Bytes) → length (skip_blanks bs) ≤ length bs
unfolding skip_blanks
length-skip_blanks [] = omega arith
length-skip_blanks (c ∷ cs) = ground (arith, length-skip_blanks cs)

from_word-Ends :
    (n : ℕ) (again : Bytes → Result (Option (List Bytes))) (bs : Bytes)
    → length bs < suc n
    → ((rest : Bytes) → length rest < n → Ends (again rest))
    → Ends (from_word again bs)
from_word-Ends n again [] h f = tt
from_word-Ends n again (c ∷ cs) h f =
    then_words-Ends (length cs) again (read_word (suc (length cs)) plain [] (c ∷ cs))
      (first_word-Leaves c cs) (λ rest le. f rest (omega arith))

read_words-Ends : (fuel : ℕ) (bs : Bytes) → length bs < fuel → Ends (read_words fuel bs)
unfolding read_words
read_words-Ends zero bs h = absurd (omega arith)
read_words-Ends (suc fuel) bs h =
    from_word-Ends fuel (read_words fuel) (skip_blanks bs) (omega (arith, length-skip_blanks bs))
      (λ rest le. read_words-Ends fuel rest le)

-- The two loops end on every line: the number of bytes is always fuel enough.
pub split_args-ends : (line : Bytes) → split_args line ≢ panic out_of_fuel
unfolding split_args
split_args-ends line h = subst Ends h (read_words-Ends (suc (length line)) line (omega arith)) refl
