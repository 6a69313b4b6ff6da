-- ===== src/Aof/Manifest/Quoted.antt =====
-- Words in quotation marks, as `StringCatRepr` writes them.
use rdb_elasticache_migrator.Prelude.{
  ℕ, zero, suc, ◌≤◌, ◌<◌, ◌≡◌, ◌≢◌, refl, ap, ◌∙◌, Bool, true, false, some, List, [], ◌∷◌, ◌++◌,
  length, length-append, append_assoc, append-nil, arith, Bool-cases, inl, inr, if◌then◌else◌,
}
use rdb_elasticache_migrator.Runtime.{Bytes, ok}
use rdb_elasticache_migrator.Runtime.Emit.{Each}
use rdb_elasticache_migrator.Runtime.Strings.{Without, nothing, also}
use rdb_elasticache_migrator.Runtime.Decimal.{Without-append}
use rdb_elasticache_migrator.Aof.Split.{
  in_quotes, more, piece, word, read_word, skip_blanks, read_words, split_args, put_word,
  quote_escape,
}
use rdb_elasticache_migrator.Aof.Split.Words.{
  IsSeen, IsWord, spaced, read_word-spaced, seen_stays, read_words-spaced, length-spaced,
}
use rdb_elasticache_migrator.Aof.Manifest.{
  codes, repr_byte, repr_bytes, string_cat_repr, string_needs_repr,
}

-- What can be written in quotation marks and read again: a quotation mark, a newline, a bell, and the other ASCII
-- that is printed, but for the backslash and the apostrophe.
pub data Quotable : ℕ → Type 0 where
  quote : Quotable 34
  newline : Quotable 10
  bell : Quotable 7
  printed : {c : ℕ} → 32 ≤ c → c < 127 → c ≢ 34 → c ≢ 39 → c ≢ 92 → Quotable c

module _ (is_print : ℕ → Bool) (prints : (c : ℕ) → 32 ≤ c → c < 127 → is_print c ≡ true) where
  -- The name as it stands in the line.
  abbrev pub written : Bytes → Bytes
  written s = if string_needs_repr is_print s then string_cat_repr is_print [] s else s

  -- What is not put in quotation marks is seen.
  IsSeen-unquoted :
      (s : Bytes) → Each Quotable s → string_needs_repr is_print s ≡ false → Each IsSeen s
  unfolding string_needs_repr
  IsSeen-unquoted [] h e = tt
  IsSeen-unquoted (c ∷ s) (quote, hs) e = ground arith
  IsSeen-unquoted (c ∷ s) (newline, hs) e = ground arith
  IsSeen-unquoted (c ∷ s) (bell, hs) e = ground arith
  IsSeen-unquoted (c ∷ s) (printed lo hi q a b, hs) e =
      (ground arith, IsSeen-unquoted s hs (ground arith))

  repr_printed : (c : ℕ) → 32 ≤ c → c < 127 → c ≢ 34 → c ≢ 92 → repr_byte is_print c ≡ c ∷ []
  unfolding repr_byte
  repr_printed c lo hi q b = ground (arith, prints c lo hi)

  piece_printed :
      (cur rest : Bytes) (c : ℕ)
      → 32 ≤ c
      → c < 127
      → c ≢ 34
      → c ≢ 92
      → piece in_quotes cur c rest ≡ more in_quotes (cur ++ c ∷ []) rest
  unfolding piece
  piece_printed cur rest c lo hi q b = ground arith

  -- Behind the opening quotation mark.
  read_word-repr_bytes :
      (fuel : ℕ) (cur w rest : Bytes)
      → Each Quotable w
      → length w < fuel
      → read_word fuel in_quotes cur (repr_bytes is_print w ++ b'"' ∷ b' ' ∷ rest)
        ≡ word (cur ++ w) (b' ' ∷ rest)
  unfolding read_word repr_bytes piece quote_escape repr_byte
  read_word-repr_bytes zero cur w rest h k = absurd (omega arith)
  read_word-repr_bytes (suc fuel) cur [] rest h k = rw (append-nil) refl
  read_word-repr_bytes (suc fuel) cur (c ∷ w) rest (quote, hs) k =
      read_word-repr_bytes fuel (cur ++ 34 ∷ []) w rest hs (omega arith)
      ∙ ap (λ t. word t (b' ' ∷ rest)) (append_assoc cur (34 ∷ []) w)
  read_word-repr_bytes (suc fuel) cur (c ∷ w) rest (newline, hs) k =
      read_word-repr_bytes fuel (cur ++ 10 ∷ []) w rest hs (omega arith)
      ∙ ap (λ t. word t (b' ' ∷ rest)) (append_assoc cur (10 ∷ []) w)
  read_word-repr_bytes (suc fuel) cur (c ∷ w) rest (bell, hs) k =
      read_word-repr_bytes fuel (cur ++ 7 ∷ []) w rest hs (omega arith)
      ∙ ap (λ t. word t (b' ' ∷ rest)) (append_assoc cur (7 ∷ []) w)
  read_word-repr_bytes (suc fuel) cur (c ∷ w) rest (printed lo hi q a b, hs) k =
      rw
        (
          repr_printed c lo hi q b,
          piece_printed cur (repr_bytes is_print w ++ b'"' ∷ b' ' ∷ rest) c lo hi q b,
        )
        (read_word-repr_bytes fuel (cur ++ c ∷ []) w rest hs (omega arith)
          ∙ ap (λ t. word t (b' ' ∷ rest)) (append_assoc cur (c ∷ []) w))

  -- A word as it is, and a space.
  read_words-seen :
      (fuel : ℕ) (w rest : Bytes)
      → IsWord w
      → read_words (suc fuel) (w ++ b' ' ∷ rest) ≡ put_word w (read_words fuel rest)
  unfolding read_words
  read_words-seen fuel [] rest (seen, full) = absurd (omega arith)
  read_words-seen fuel (c ∷ w) rest (seen, full) =
      rw
        (
          seen_stays c (w ++ b' ' ∷ rest) (seen.0),
          read_word-spaced (suc (length (w ++ b' ' ∷ rest))) [] (c ∷ w) rest seen
              (omega (arith, length-append {0} w (b' ' ∷ rest))),
        )
        refl

  space_first :
      (fuel : ℕ) (rest : Bytes) → read_words (suc fuel) (b' ' ∷ rest) ≡ read_words (suc fuel) rest
  unfolding read_words skip_blanks
  space_first fuel rest = refl

  length-repr_bytes : (w : Bytes) → Each Quotable w → length w ≤ length (repr_bytes is_print w)
  unfolding repr_bytes repr_byte
  length-repr_bytes [] h = omega arith
  length-repr_bytes (c ∷ w) (quote, hs) = omega (arith, length-repr_bytes w hs)
  length-repr_bytes (c ∷ w) (newline, hs) = omega (arith, length-repr_bytes w hs)
  length-repr_bytes (c ∷ w) (bell, hs) = omega (arith, length-repr_bytes w hs)
  length-repr_bytes (c ∷ w) (printed lo hi q a b, hs) =
      rw (repr_printed c lo hi q b) (omega (arith, length-repr_bytes w hs))

  read_words-quoted :
      (fuel : ℕ) (s rest : Bytes)
      → Each Quotable s
      → read_words (suc (suc fuel)) (b'"' ∷ (repr_bytes is_print s ++ b'"' ∷ b' ' ∷ rest))
        ≡ put_word s (read_words (suc fuel) rest)
  unfolding read_words read_word piece skip_blanks
  read_words-quoted fuel s rest h =
      rw
        (read_word-repr_bytes (length (repr_bytes is_print s ++ b'"' ∷ b' ' ∷ rest)) [] s rest h (
          omega (
            arith,
            length-repr_bytes s h,
            length-append {0} (repr_bytes is_print s) (b'"' ∷ b' ' ∷ rest),
          )))
        (ap (put_word s) (space_first fuel rest))

  read_words-written :
      (fuel : ℕ) (s rest : Bytes)
      → Each Quotable s
      → 0 < length s
      → read_words (suc (suc fuel)) (written s ++ b' ' ∷ rest)
        ≡ put_word s (read_words (suc fuel) rest)
  unfolding string_cat_repr
  read_words-written fuel s rest h full = elim (Bool-cases (string_needs_repr is_print s)) [
    | inl t ↦ rw (t, append_assoc) (read_words-quoted fuel s rest h)
    | inr t ↦ rw (t) (read_words-seen (suc fuel) s rest (IsSeen-unquoted s h t, full))
  ]

  -- A line of the manifest without its newline.
  pub split_args-written :
      (s : Bytes) (ws : List Bytes)
      → Each Quotable s
      → 0 < length s
      → Each IsWord ws
      → split_args (codes "File " ++ (written s ++ b' ' ∷ spaced ws))
        ≡ ok (some (codes "File" ∷ s ∷ ws))
  unfolding split_args
  split_args-written s ws h full all =
      let line = written s ++ b' ' ∷ spaced ws in
      read_words-seen (suc (suc (suc (suc (suc (length line)))))) (codes "File") line
        ((omega arith, (omega arith, (omega arith, (omega arith, tt)))), omega arith)
      ∙ ap (put_word (codes "File")) (
          read_words-written (suc (suc (suc (length line)))) s (spaced ws) h full
          ∙ ap (put_word s) (
              read_words-spaced (suc (suc (suc (suc (length line))))) ws
                (omega
                  (arith, length-spaced ws all, length-append {0} (written s) (b' ' ∷ spaced ws)))
                all))

  repr-Without : (s : Bytes) → Each Quotable s → Without b'\n' (repr_bytes is_print s)
  unfolding repr_bytes repr_byte
  repr-Without [] h = nothing
  repr-Without (c ∷ s) (quote, hs) = also (omega arith) (also (omega arith) (repr-Without s hs))
  repr-Without (c ∷ s) (newline, hs) = also (omega arith) (also (omega arith) (repr-Without s hs))
  repr-Without (c ∷ s) (bell, hs) = also (omega arith) (also (omega arith) (repr-Without s hs))
  repr-Without (c ∷ s) (printed lo hi q a b, hs) =
      rw (repr_printed c lo hi q b) (also (omega arith) (repr-Without s hs))

  seen-Without : (w : Bytes) → Each IsSeen w → Without b'\n' w
  seen-Without [] h = nothing
  seen-Without (c ∷ w) ((lo, hi, q, a), hs) = also {c = c} (omega arith) (seen-Without w hs)

  -- No newline stands in a name as it is written.
  pub written-Without : (s : Bytes) → Each Quotable s → Without b'\n' (written s)
  unfolding string_cat_repr
  written-Without s h = elim (Bool-cases (string_needs_repr is_print s)) [
    | inl t ↦
        rw (t) (also (omega arith) (Without-append (repr-Without s h) (also (omega arith) nothing)))
    | inr t ↦ rw (t) (seen-Without s (IsSeen-unquoted s h t))
  ]
