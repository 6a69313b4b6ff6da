-- ===== src/Aof/Manifest.antt =====
-- The manifest of internal/reader/parsing_aof.go: `AOFInfoFormat`, `GetAOFManifestAsString` and
-- `AOFLoadManifestFromFile`. `unicode.IsPrint` and `strings.EqualFold` are arguments.
pub mod Format
pub mod Quoted
use rdb_elasticache_migrator.Prelude.{
  ℕ, zero, suc, ◌+◌, ◌%◌, ◌/◌, Bool, true, false, not, ◌&&◌, ◌||◌, Option, none, some, List, [],
  ◌∷◌, ◌++◌, ◌==◌, ltb, leb, if◌then◌else◌, length, codes,
}
use rdb_elasticache_migrator.Prelude.Int.{ℤ, pos, eq_ℤ, leb_ℤ}
use rdb_elasticache_migrator.Runtime.{
  Bytes, Fault, Result, ok, panic, bad_format, out_of_range, out_of_fuel,
}
use rdb_elasticache_migrator.Runtime.Outcome.{◌>>=◌}
use rdb_elasticache_migrator.Runtime.Strconv.{format_int, parse_int_value}
use rdb_elasticache_migrator.Runtime.Strings.{equal, contains_text}
use rdb_elasticache_migrator.Runtime.Bufio.{read_until_newline}
use rdb_elasticache_migrator.Aof.Split.{is_space, utf8, split_args}

-- `AOFInfo` and `AOFManifest`; no code sets or reads `Dirty`.
pub record AofInfo : Type 0 where
  pub file_name : Bytes
  pub file_seq : ℤ
  pub aof_file_type : Bytes

pub record AofManifest : Type 0 where
  pub base_aof_info : Option AofInfo
  pub incr_aof_list : List AofInfo
  pub history_list : List AofInfo
  pub curr_base_file_seq : ℤ
  pub curr_incr_file_seq : ℤ

abbrev pub new_manifest : AofManifest
new_manifest = record {
  base_aof_info = none;
  incr_aof_list = [];
  history_list = [];
  curr_base_file_seq = pos 0;
  curr_incr_file_seq = pos 0;
}

-- "%s %s %s %d %s %s\n"
abbrev pub info_line : Bytes → AofInfo → Bytes
info_line name ai =
    codes "File "
    ++ (name
        ++ (codes " seq "
            ++ (format_int ai.file_seq ++ (codes " type " ++ (ai.aof_file_type ++ b'\n' ∷ [])))))

module _ (is_print : ℕ → Bool) where
  unfoldable pub string_needs_repr : Bytes → Bool
  string_needs_repr [] = false
  string_needs_repr (c ∷ s) =
      c == b'\\'
      || c == b'"'
      || c == b'\n'
      || c == b'\r'
      || c == b'\t'
      || c == 7
      || c == 8
      || not (is_print c)
      || is_space c
      || string_needs_repr s

  -- One byte in quotes. The code for a byte that is not printed stays as it stands in the source.
  unfoldable pub repr_byte : ℕ → Bytes
  repr_byte c =
      if c == b'\\' || c == b'"'
      then b'\\' ∷ utf8 c
      else if c == b'\n'
      then codes "\\n"
      else if c == b'\r'
      then codes "\\r"
      else if c == b'\t'
      then codes "\\t"
      else if c == 7
      then codes "\\a"
      else if c == 8
      then codes "\\b"
      else if is_print c
      then utf8 c
      else codes "\\x%02x"

  unfoldable pub repr_bytes : Bytes → Bytes
  unfolding repr_byte
  repr_bytes [] = []
  repr_bytes (c ∷ p) = repr_byte c ++ repr_bytes p

  unfoldable pub string_cat_repr : Bytes → Bytes → Bytes
  unfolding repr_bytes
  string_cat_repr s p = s ++ (b'"' ∷ repr_bytes p) ++ b'"' ∷ []

  unfoldable pub aof_info_format : Bytes → AofInfo → Bytes
  unfolding string_needs_repr string_cat_repr
  aof_info_format buf ai =
      buf
      ++ (if string_needs_repr ai.file_name
          then info_line (string_cat_repr [] ai.file_name) ai
          else info_line ai.file_name ai)

  unfoldable pub format_all : Bytes → List AofInfo → Bytes
  unfolding aof_info_format
  format_all buf [] = buf
  format_all buf (ai ∷ ais) = format_all (aof_info_format buf ai) ais

  abbrev pub format_base : Option AofInfo → Bytes
  format_base none = []
  format_base (some ai) = aof_info_format [] ai

  unfoldable pub manifest_as_string : AofManifest → Bytes
  unfolding format_all
  manifest_as_string am =
      format_all (format_all (format_base am.base_aof_info) am.history_list) am.incr_aof_list

abbrev in_cutset : ℕ → Bool
in_cutset c = c == b' ' || c == b'\t' || c == b'\r' || c == b'\n'

-- `strings.Trim(buf, " \t\r\n")`
unfoldable pub trim_left : Bytes → Bytes
trim_left [] = []
trim_left (c ∷ cs) = let later = trim_left cs in if in_cutset c then later else c ∷ cs

abbrev pub drop_blank : ℕ → Bytes → Bytes
drop_blank c [] = if in_cutset c then [] else c ∷ []
drop_blank c (d ∷ ds) = c ∷ d ∷ ds

unfoldable pub trim_right : Bytes → Bytes
trim_right [] = []
trim_right (c ∷ cs) = drop_blank c (trim_right cs)

unfoldable pub trim : Bytes → Bytes
unfolding trim_left trim_right
trim s = trim_right (trim_left s)

unfoldable pub path_is_base_name : Bytes → Bool
path_is_base_name [] = true
path_is_base_name (c ∷ s) = not (c == b'/') && not (c == b'\\') && path_is_base_name s

abbrev pub empty_info : AofInfo
empty_info = record { file_name = []; file_seq = pos 0; aof_file_type = [] }

abbrev pub set_type : Bytes → AofInfo → Result AofInfo
set_type [] ai = panic out_of_range
set_type (c ∷ _) ai = ok (record ai { aof_file_type = utf8 c })

abbrev set_name : Bytes → AofInfo → Result AofInfo
set_name value ai =
    if path_is_base_name value then ok (record ai { file_name = value }) else panic bad_format

-- What a line of the manifest comes to: nothing, the end with no manifest, or a file.
pub data Parsed : Type 0 where
  comment no_manifest : Parsed
  info : AofInfo → Parsed

abbrev pub is_empty_text : Bytes → Bool
is_empty_text [] = true
is_empty_text (_ ∷ _) = false

abbrev pub checked : AofInfo → Result Parsed
checked ai =
    if is_empty_text ai.file_name || eq_ℤ ai.file_seq (pos 0) || is_empty_text ai.aof_file_type
    then panic bad_format
    else ok (info ai)

-- The state of the loop over the lines; `max_seq` is the last sequence number of an incremental file.
pub record Loading : Type 0 where
  pub am : AofManifest
  pub max_seq : ℤ

abbrev add_base : AofInfo → Loading → Option AofInfo → Result Loading
add_base ai s (some _) = panic bad_format
add_base ai s none =
    ok (record s { am = record s.am { base_aof_info = some ai; curr_base_file_seq = ai.file_seq } })

unfoldable pub add_info : AofInfo → Loading → Result Loading
unfolding contains_text
add_info ai s =
    if equal ai.aof_file_type (codes "b")
    then add_base ai s s.am.base_aof_info
    else if equal ai.aof_file_type (codes "h")
    then (if contains_text ai.file_name (codes "base.rdb")
        then ok s
        else ok (record s { am = record s.am { history_list = s.am.history_list ++ ai ∷ [] } }))
    else if equal ai.aof_file_type (codes "i")
    then (if leb_ℤ ai.file_seq s.max_seq
        then panic bad_format
        else ok (record {
          am = record s.am {
            incr_aof_list = s.am.incr_aof_list ++ ai ∷ [];
            curr_incr_file_seq = ai.file_seq;
          };
          max_seq = ai.file_seq;
        }))
    else panic bad_format

abbrev pub after_line :
    Parsed → Loading → (Loading → Result (Option AofManifest)) → Result (Option AofManifest)
after_line comment s again = again s
after_line no_manifest s again = ok none
after_line (info ai) s again = add_info ai s >>= again

abbrev pub at_eof : Loading → ℕ → Result (Option AofManifest)
at_eof s zero = ok none
at_eof s (suc _) = ok (some s.am)

module _ (equal_fold : Bytes → Bytes → Bool) where
  -- One key with its value.
  unfoldable pub set_attribute : Bytes → Bytes → AofInfo → Result AofInfo
  unfolding path_is_base_name
  set_attribute key value ai =
      if equal_fold key (codes "File")
      then set_name value ai
      else if equal_fold key (codes "seq")
      then ok (record ai { file_seq = parse_int_value value })
      else if equal_fold key (codes "type")
      then set_type value ai
      else ok ai

  -- `for i := 0; i < argc; i += 2`
  unfoldable pub attributes : List Bytes → AofInfo → Result AofInfo
  unfolding set_attribute
  attributes [] ai = ok ai
  attributes (key ∷ []) ai = panic out_of_range
  attributes (key ∷ value ∷ argv) ai = set_attribute key value ai >>= attributes argv

  abbrev pub of_args : Option (List Bytes) → Result Parsed
  of_args none = ok no_manifest
  of_args (some argv) =
      if ltb (length argv) 6
      then ok no_manifest
      else if length argv % 2 == 0
      then (attributes argv empty_info >>= checked)
      else ok no_manifest

  abbrev pub of_line : Bytes → Result Parsed
  of_line [] = ok no_manifest
  of_line (c ∷ cs) = split_args (c ∷ cs) >>= of_args

  -- One line, with its newline.
  unfoldable pub parse_line : Bytes → Result Parsed
  unfolding trim attributes split_args
  parse_line [] = panic out_of_range
  parse_line (c ∷ buf) = if c == b'#' then ok comment else of_line (trim (c ∷ buf))

  abbrev pub with_buf :
      Loading
      → ℕ
      → Option (Bytes × Bytes)
      → (Loading → Bytes → Result (Option AofManifest))
      → Result (Option AofManifest)
  with_buf s line_num none again = at_eof s line_num
  with_buf s line_num (some (buf, rest)) again =
      parse_line buf >>= λ p. after_line p s (λ s'. again s' rest)

  -- The loop over the lines, on fuel: each takes a byte. What stands behind the last newline is left out.
  unfoldable pub load_manifest_lines : ℕ → ℕ → Loading → Bytes → Result (Option AofManifest)
  unfolding parse_line add_info read_until_newline
  load_manifest_lines zero line_num s bs = panic out_of_fuel
  load_manifest_lines (suc fuel) line_num s bs =
      with_buf s line_num (read_until_newline bs) (load_manifest_lines fuel (suc line_num))

  unfoldable pub load_manifest_from_file : Bytes → Result (Option AofManifest)
  unfolding load_manifest_lines
  load_manifest_from_file bs =
      load_manifest_lines (suc (length bs)) 0 (record { am = new_manifest; max_seq = pos 0 }) bs
