-- ===== src/Runtime/Bufio.antt =====
-- What the program uses of `bufio.Reader` over a file, with a buffer of `size` bytes.
use rdb_elasticache_migrator.Prelude.{
  ℕ, zero, suc, ◌-◌, ◌<◌, ◌≤◌, ◌≡◌, refl, ap, Option, none, some, [], ◌∷◌, ◌++◌, ◌==◌, ltb,
  if◌then◌else◌, length, take, drop, arith,
}
use rdb_elasticache_migrator.Runtime.Input.{Bytes}
use rdb_elasticache_migrator.Runtime.Strings.{Without, nothing, also}

abbrev pub put_front : ℕ → Option (Bytes × Bytes) → Option (Bytes × Bytes)
put_front c none = none
put_front c (some (l, rest)) = some (c ∷ l, rest)

-- What stands before the first newline among the first `n` bytes, and what stands behind it.
unfoldable pub split_newline : ℕ → Bytes → Option (Bytes × Bytes)
split_newline zero bs = none
split_newline (suc n) [] = none
split_newline (suc n) (c ∷ cs) =
    let more = put_front c (split_newline n cs) in if c == b'\n' then some ([], cs) else more

-- One carriage return at the end is dropped.
unfoldable pub strip_cr : Bytes → Bytes
strip_cr [] = []
strip_cr (c ∷ []) = if c == b'\r' then [] else c ∷ []
strip_cr (c ∷ d ∷ ds) = c ∷ strip_cr (d ∷ ds)

-- The answers of `ReadLine`: a line, with `isPrefix` false; a full buffer with no newline, with `isPrefix`
-- true; and `io.EOF`.
pub data Line : Type 0 where
  whole : Bytes → Bytes → Line
  part : Bytes → Bytes → Line
  end : Line

abbrev at_end : Bytes → Line
at_end [] = end
at_end (c ∷ cs) = whole (c ∷ cs) []

abbrev ends_in_cr : Bytes → ℕ → Bytes → Line
ends_in_cr chunk size bs =
    if length (strip_cr chunk) == length chunk
    then part chunk (drop size bs)
    else part (strip_cr chunk) (drop (size - 1) bs)

-- A carriage return at the end of a full buffer is put back.
abbrev pub line_of : ℕ → Bytes → Option (Bytes × Bytes) → Line
line_of size bs (some (l, rest)) = whole (strip_cr l) rest
line_of size bs none = if ltb (length bs) size then at_end bs else ends_in_cr (take size bs) size bs

unfoldable pub read_line : ℕ → Bytes → Line
unfolding split_newline strip_cr
read_line size bs = line_of size bs (split_newline size bs)

-- `ReadString('\n')`: the text with its newline, or what is left before `io.EOF`.
unfoldable pub read_until_newline : Bytes → Option (Bytes × Bytes)
read_until_newline [] = none
read_until_newline (c ∷ cs) =
    let more = put_front c (read_until_newline cs) in if c == b'\n' then some (c ∷ [], cs) else more

pub split_newline-append :
    (n : ℕ) {l : Bytes} (rest : Bytes)
    → Without b'\n' l
    → length l < n
    → split_newline n (l ++ b'\n' ∷ rest) ≡ some (l, rest)
unfolding split_newline
split_newline-append zero rest w h = absurd (omega arith)
split_newline-append (suc n) rest nothing h = refl
split_newline-append (suc n) rest (also p ps) h = ground (arith, split_newline-append n rest ps)

pub split_newline-Without :
    (n : ℕ) {l : Bytes} (rest : Bytes)
    → Without b'\n' l
    → n ≤ length l
    → split_newline n (l ++ rest) ≡ none
unfolding split_newline
split_newline-Without zero rest w h = refl
split_newline-Without (suc n) rest nothing h = absurd (omega arith)
split_newline-Without (suc n) rest (also p ps) h = ground (arith, split_newline-Without n rest ps)

pub strip_cr-append : (l : Bytes) → strip_cr (l ++ b'\r' ∷ []) ≡ l
unfolding strip_cr
strip_cr-append [] = refl
strip_cr-append (c ∷ []) = refl
strip_cr-append (c ∷ d ∷ ds) = ap (λ t. c ∷ t) (strip_cr-append (d ∷ ds))

pub read_until_newline-append :
    {l : Bytes} (rest : Bytes)
    → Without b'\n' l
    → read_until_newline (l ++ b'\n' ∷ rest) ≡ some (l ++ b'\n' ∷ [], rest)
unfolding read_until_newline
read_until_newline-append rest nothing = refl
read_until_newline-append rest (also p ps) = ground (arith, read_until_newline-append rest ps)
