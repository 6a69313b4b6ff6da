-- ===== src/Aof/Manifest/Format/Line.antt =====
-- One line of the manifest.
use rdb_elasticache_migrator.Prelude.{
  ◌≤◌, ℕ, ◌<◌, ◌≡◌, refl, sym, ap, ◌∙◌, Bool, true, false, some, List, [], ◌∷◌, ◌++◌, length,
  length-append, append_assoc, arith, codes,
}
use rdb_elasticache_migrator.Prelude.Int.{ℤ, pos, eq_ℤ}
use rdb_elasticache_migrator.Runtime.{Bytes, ok}
use rdb_elasticache_migrator.Runtime.Outcome.{◌>>=◌}
use rdb_elasticache_migrator.Runtime.Strings.{Without, nothing, also}
use rdb_elasticache_migrator.Runtime.Emit.{Each}
use rdb_elasticache_migrator.Runtime.Strconv.{
  format_int, parse_int_value-parse_int, parse_int-format_int, IsInt64,
}
use rdb_elasticache_migrator.Runtime.Decimal.{
  format_int-Without, Without-append, format_int-Each, positive-format_int,
}
use rdb_elasticache_migrator.Runtime.Bufio.{read_until_newline, read_until_newline-append}
use rdb_elasticache_migrator.Aof.Split.Words.{IsSeen, IsWord, spaced}
use rdb_elasticache_migrator.Aof.Manifest.Quoted.{Quotable, written, split_args-written}
use rdb_elasticache_migrator.Aof.Manifest.{
  read_until_newline, set_type, is_empty_text, AofInfo, info_line, drop_blank, trim_left,
  trim_right, trim, path_is_base_name, empty_info, info, set_attribute, attributes, parse_line,
  checked,
}

-- The three types of files.
pub data IsType : Bytes → Type 0 where
  base : IsType (codes "b")
  history : IsType (codes "h")
  incr : IsType (codes "i")

-- A name with no directory that can be written as it is or in quotation marks, and a sequence number that is not 0.
pub record IsInfo (ai : AofInfo) : Type 0 where
  pub name_letters : Each Quotable ai.file_name
  pub name_full : 0 < length ai.file_name
  pub name_base : path_is_base_name ai.file_name ≡ true
  pub seq_int : IsInt64 ai.file_seq
  pub seq_set : eq_ℤ ai.file_seq (pos 0) ≡ false
  pub kind : IsType ai.aof_file_type

-- What stands behind the name.
abbrev pub words : AofInfo → List Bytes
words ai = codes "seq" ∷ format_int ai.file_seq ∷ codes "type" ∷ ai.aof_file_type ∷ []

trim_right-append :
    (xs ys zs : Bytes) → trim_right ys ≡ zs → 0 < length zs → trim_right (xs ++ ys) ≡ xs ++ zs
unfolding trim_right
trim_right-append [] ys zs e h = e
trim_right-append (x ∷ xs) ys zs e h =
    rw (trim_right-append xs ys zs e h)
      (keeps x (xs ++ zs) (omega (arith, length-append {0} xs zs)))
  where
    keeps : (x : ℕ) (ts : Bytes) → 0 < length ts → drop_blank x ts ≡ x ∷ ts
    keeps x [] h = absurd (omega arith)
    keeps x (t ∷ ts) h = refl

type_end :
    (t : Bytes) → IsType t → trim_right (codes " type " ++ (t ++ b'\n' ∷ [])) ≡ codes " type " ++ t
unfolding trim_right
type_end t base = refl
type_end t history = refl
type_end t incr = refl

trim-info_line :
    (name : Bytes) (ai : AofInfo)
    → IsType ai.aof_file_type
    → trim (info_line name ai) ≡ codes "File " ++ (name ++ b' ' ∷ spaced (words ai))
unfolding trim trim_left
trim-info_line name ai k =
    let types = codes " type " ++ ai.aof_file_type in
    let types' = codes " type " ++ (ai.aof_file_type ++ b'\n' ∷ []) in
    let seqs = codes " seq " ++ (format_int ai.file_seq ++ types) in
    let seqs' = codes " seq " ++ (format_int ai.file_seq ++ types') in
    let number =
      trim_right-append (format_int ai.file_seq) types' types (type_end ai.aof_file_type k)
        (omega arith) in
    let seq =
      trim_right-append (codes " seq ") (format_int ai.file_seq ++ types')
        (format_int ai.file_seq ++ types) number
        (omega (arith, length-append {0} (format_int ai.file_seq) types)) in
    let both = trim_right-append name seqs' seqs seq (omega arith) in
    trim_right-append (codes "File ") (name ++ seqs') (name ++ seqs) both
      (omega (arith, length-append {0} name seqs))

type-IsWord : (t : Bytes) → IsType t → IsWord t
type-IsWord t base = ((omega arith, tt), omega arith)
type-IsWord t history = ((omega arith, tt), omega arith)
type-IsWord t incr = ((omega arith, tt), omega arith)

words-IsWord : (ai : AofInfo) → IsInfo ai → Each IsWord (words ai)
words-IsWord ai h = (
  ((omega arith, (omega arith, (omega arith, tt))), omega arith),
  (
    number ai.file_seq,
    (
      ((omega arith, (omega arith, (omega arith, (omega arith, tt)))), omega arith),
      (type-IsWord ai.aof_file_type h.kind, tt),
    ),
  ),
)
  where
    number : (z : ℤ) → IsWord (format_int z)
    number z = (format_int-Each IsSeen z (omega arith) (λ d lt. omega arith), positive-format_int z)

abbrev body : Bytes → AofInfo → Bytes
body name ai =
    codes "File "
    ++ (name ++ (codes " seq " ++ (format_int ai.file_seq ++ (codes " type " ++ ai.aof_file_type))))

info_line-body : (name : Bytes) (ai : AofInfo) → info_line name ai ≡ body name ai ++ b'\n' ∷ []
info_line-body name ai = simp (append_assoc)

seen-Without : (w : Bytes) → Each IsSeen w → Without b'\n' w
seen-Without [] h = nothing
seen-Without (c ∷ w) ((lo, hi, q, a), hs) = also {c = c} (omega arith) (seen-Without w hs)

body-Without :
    {name : Bytes} (ai : AofInfo) → Without b'\n' name → IsInfo ai → Without b'\n' (body name ai)
body-Without ai w h = key-Without (
    Without-append w (
      seq-Without (
        Without-append (format_int-Without b'\n' ai.file_seq (omega arith)) (
          type-Without (seen-Without ai.aof_file_type ((type-IsWord ai.aof_file_type h.kind).0))))))
  where
    key-Without : {s : Bytes} → Without b'\n' s → Without b'\n' (codes "File " ++ s)
    key-Without w =
        also (omega arith)
          (also (omega arith) (also (omega arith) (also (omega arith) (also (omega arith) w))))

    seq-Without : {s : Bytes} → Without b'\n' s → Without b'\n' (codes " seq " ++ s)
    seq-Without w =
        also (omega arith)
          (also (omega arith) (also (omega arith) (also (omega arith) (also (omega arith) w))))

    type-Without : {s : Bytes} → Without b'\n' s → Without b'\n' (codes " type " ++ s)
    type-Without w = also (omega arith) (
        also (omega arith)
          (also (omega arith) (also (omega arith) (also (omega arith) (also (omega arith) w)))))

pub read_until_newline-info_line :
    (name : Bytes) (ai : AofInfo) (rest : Bytes)
    → Without b'\n' name
    → IsInfo ai
    → read_until_newline (info_line name ai ++ rest) ≡ some (info_line name ai, rest)
read_until_newline-info_line name ai rest w h =
    ap read_until_newline
      (ap (λ t. t ++ rest) (info_line-body name ai) ∙ append_assoc (body name ai) (b'\n' ∷ []) rest)
    ∙ read_until_newline-append rest (body-Without ai w h)
    ∙ ap (λ t. some (t, rest)) (sym (info_line-body name ai))

-- What the manifest relies on of `strings.EqualFold`: the three keys are told apart.
pub record TellsKeys (equal_fold : Bytes → Bytes → Bool) : Type 0 where
  pub file : equal_fold (codes "File") (codes "File") ≡ true
  pub seq : equal_fold (codes "seq") (codes "seq") ≡ true
  pub type : equal_fold (codes "type") (codes "type") ≡ true
  pub seq_file : equal_fold (codes "seq") (codes "File") ≡ false
  pub type_file : equal_fold (codes "type") (codes "File") ≡ false
  pub type_seq : equal_fold (codes "type") (codes "seq") ≡ false

module _ (equal_fold : Bytes → Bytes → Bool) (keys : TellsKeys equal_fold) where
  attributes-words :
      (ai : AofInfo)
      → IsInfo ai
      → attributes equal_fold (codes "File" ∷ ai.file_name ∷ words ai) empty_info ≡ ok ai
  unfolding attributes set_attribute
  attributes-words ai h =
      rw
        (
          keys.file,
          keys.seq_file,
          keys.seq,
          keys.type_file,
          keys.type_seq,
          keys.type,
          h.name_base,
          parse_int_value-parse_int (format_int ai.file_seq) ai.file_seq
              (parse_int-format_int ai.file_seq h.seq_int),
        )
        (typed ai.aof_file_type h.kind)
    where
      typed :
          (t : Bytes)
          → IsType t
          → (set_type t (record empty_info { file_name = ai.file_name; file_seq = ai.file_seq })
              >>= λ x. ok x)
            ≡ ok (record ai { aof_file_type = t })
      typed t base = refl
      typed t history = refl
      typed t incr = refl

  filled : (s : Bytes) → 0 < length s → is_empty_text s ≡ false
  filled [] h = absurd (omega arith)
  filled (c ∷ s) h = refl

  checked-IsInfo : (ai : AofInfo) → IsInfo ai → checked ai ≡ ok (info ai)
  checked-IsInfo ai h =
      rw
        (
          filled ai.file_name h.name_full,
          h.seq_set,
          filled ai.aof_file_type ((type-IsWord ai.aof_file_type h.kind).1),
        )
        refl

  module _ (is_print : ℕ → Bool) (prints : (c : ℕ) → 32 ≤ c → c < 127 → is_print c ≡ true) where
    -- A line that was written is read as the file it describes.
    pub parse_line-info_line :
        (ai : AofInfo)
        → IsInfo ai
        → parse_line equal_fold (info_line (written is_print prints ai.file_name) ai) ≡ ok (info ai)
    unfolding parse_line
    parse_line-info_line ai h =
        rw
          (
            trim-info_line (written is_print prints ai.file_name) ai h.kind,
            split_args-written is_print prints ai.file_name (words ai) h.name_letters h.name_full
                (words-IsWord ai h),
            attributes-words ai h,
            checked-IsInfo ai h,
          )
          refl
