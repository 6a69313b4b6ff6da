-- ===== src/Aof/Split.antt =====
-- `SplitArgs` of internal/reader/parsing_aof.go, over the rest of the line.
pub mod Ends
pub mod Words
use rdb_elasticache_migrator.Prelude.{
  ℕ, zero, suc, ◌+◌, ◌-◌, ◌*◌, ◌/◌, ◌%◌, Bool, true, false, ◌&&◌, ◌||◌, Option, none, some, List,
  [], ◌∷◌, ◌++◌, ◌==◌, ltb, leb, if◌then◌else◌, length,
}
use rdb_elasticache_migrator.Runtime.{Bytes, Fault, Result, ok, panic, out_of_range, out_of_fuel}
use rdb_elasticache_migrator.Runtime.Strconv.{format_uint}

-- `unicode.IsSpace` on the first 256 code points
abbrev pub is_space : ℕ → Bool
is_space c = (leb 9 c && leb c 13) || c == 32 || c == 0x85 || c == 0xa0

unfoldable pub is_hex_digit : ℕ → Bool
is_hex_digit c =
    (leb b'0' c && leb c b'9') || (leb b'a' c && leb c b'f') || (leb b'A' c && leb c b'F')

unfoldable pub hex_digit_to_int : ℕ → ℕ
hex_digit_to_int c =
    if leb b'0' c && leb c b'9'
    then c - b'0'
    else if leb b'a' c && leb c b'f'
    then c - b'a' + 10
    else if leb b'A' c && leb c b'F'
    then c - b'A' + 10
    else 0

-- `string(c)` of a byte: the UTF-8 form of the code point.
abbrev pub utf8 : ℕ → Bytes
utf8 c = if ltb c 128 then c ∷ [] else (192 + c / 64) ∷ (128 + c % 64) ∷ []

-- `inq`, `insq`, or neither.
pub data Mode : Type 0 where
  plain in_quotes in_single_quotes : Mode

-- What one round of the inner loop comes to: the mode, `Current` and the rest; the end of the word; the
-- return with nothing; or a panic.
pub data Piece : Type 0 where
  more : Mode → Bytes → Bytes → Piece
  last : Bytes → Bytes → Piece
  refused : Piece
  broken : Fault → Piece

-- `\n`, and `\r` and `\a` as the code has them.
abbrev pub escaped : ℕ → ℕ
escaped c = if c == b'n' then b'\n' else if c == b'r' then b'r' else if c == b'a' then 7 else c

-- Behind `\x`; `other` is the escape of `x`.
abbrev pub low_digit : Bytes → ℕ → Bytes → Piece → Piece
low_digit cur high [] other = broken out_of_range
low_digit cur high (low ∷ rest) other =
    if is_hex_digit low
    then more in_quotes (cur ++ format_uint (hex_digit_to_int high * 16 + hex_digit_to_int low))
        rest
    else other

abbrev pub hex_escape : Bytes → Bytes → Piece → Piece
hex_escape cur [] other = broken out_of_range
hex_escape cur (high ∷ rest) other =
    if is_hex_digit high then low_digit cur high rest other else other

-- Behind a backslash in quotes.
unfoldable pub quote_escape : Bytes → Bytes → Piece
unfolding is_hex_digit
quote_escape cur [] = broken out_of_range
quote_escape cur (c ∷ rest) =
    let other = more in_quotes (cur ++ utf8 (escaped c)) rest in
    if c == b'x' then hex_escape cur rest other else other

-- Behind a closing quote.
abbrev pub closed : Bytes → Bytes → Piece
closed cur [] = last cur []
closed cur (c ∷ rest) = if is_space c then last cur (c ∷ rest) else refused

-- Behind a backslash in single quotes.
abbrev pub single_escape : Bytes → Bytes → Piece
single_escape cur [] = broken out_of_range
single_escape cur (c ∷ rest) =
    if c == b'\''
    then more in_single_quotes (cur ++ b'\'' ∷ []) rest
    else more in_single_quotes (cur ++ b'\\' ∷ []) (c ∷ rest)

abbrev pub is_end : ℕ → Bool
is_end c = c == b' ' || c == b'\n' || c == b'\r' || c == b'\t' || c == 0

unfoldable pub piece : Mode → Bytes → ℕ → Bytes → Piece
unfolding quote_escape
piece in_quotes cur c rest =
    if c == b'\\'
    then quote_escape cur rest
    else if c == b'"'
    then closed cur rest
    else more in_quotes (cur ++ utf8 c) rest
piece in_single_quotes cur c rest =
    if c == b'\\'
    then single_escape cur rest
    else if c == b'\''
    then closed cur rest
    else more in_single_quotes (cur ++ utf8 c) rest
piece plain cur c rest =
    if is_end c
    then last cur rest
    else if c == b'"'
    then more in_quotes cur rest
    else if c == b'\''
    then more in_single_quotes cur rest
    else more plain (cur ++ utf8 c) rest

pub data Word : Type 0 where
  word : Bytes → Bytes → Word
  no_word : Word
  bad_word : Fault → Word

abbrev pub next : (Mode → Bytes → Bytes → Word) → Piece → Word
next again (more mode cur rest) = again mode cur rest
next again (last cur rest) = word cur rest
next again refused = no_word
next again (broken e) = bad_word e

-- `for !done`, on fuel
unfoldable pub read_word : ℕ → Mode → Bytes → Bytes → Word
unfolding piece
read_word fuel mode cur [] = word cur []
read_word zero mode cur (c ∷ rest) = bad_word out_of_fuel
read_word (suc fuel) mode cur (c ∷ rest) = next (read_word fuel) (piece mode cur c rest)

-- SKIP BLANKS
unfoldable pub skip_blanks : Bytes → Bytes
skip_blanks [] = []
skip_blanks (c ∷ cs) = let later = skip_blanks cs in if is_space c then later else c ∷ cs

abbrev pub put_word : Bytes → Result (Option (List Bytes)) → Result (Option (List Bytes))
put_word w (panic e) = panic e
put_word w (ok none) = ok none
put_word w (ok (some ws)) = ok (some (w ∷ ws))

abbrev pub then_words : (Bytes → Result (Option (List Bytes))) → Word → Result (Option (List Bytes))
then_words again (word w rest) = put_word w (again rest)
then_words again no_word = ok none
then_words again (bad_word e) = panic e

abbrev pub from_word : (Bytes → Result (Option (List Bytes))) → Bytes → Result (Option (List Bytes))
from_word again [] = ok (some [])
from_word again (c ∷ cs) = then_words again (read_word (suc (length cs)) plain [] (c ∷ cs))

unfoldable pub read_words : ℕ → Bytes → Result (Option (List Bytes))
unfolding read_word skip_blanks
read_words zero bs = panic out_of_fuel
read_words (suc fuel) bs = from_word (read_words fuel) (skip_blanks bs)

-- `none` is the result `nil, 0`. Each round of either loop takes a byte.
unfoldable pub split_args : Bytes → Result (Option (List Bytes))
unfolding read_words
split_args line = read_words (suc (length line)) line
