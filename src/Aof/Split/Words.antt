-- ===== src/Aof/Split/Words.antt =====
-- Lines of words with nothing between them that has a meaning of its own.
use rdb_elasticache_migrator.Prelude.{
  ℕ, zero, suc, ◌≤◌, ◌<◌, ◌≡◌, ◌≢◌, refl, ap, ◌∙◌, some, List, [], ◌∷◌, ◌++◌, length, length-append,
  append_assoc, append-nil, arith,
}
use rdb_elasticache_migrator.Runtime.{Bytes, ok}
use rdb_elasticache_migrator.Runtime.Emit.{Each}
use rdb_elasticache_migrator.Aof.Split.{
  plain, more, piece, word, read_word, skip_blanks, read_words, split_args,
}

-- ASCII that is seen, but no quotation mark and no apostrophe.
abbrev pub IsSeen : ℕ → Type 0
IsSeen c = (33 ≤ c) × (c < 127) × (c ≢ 34) × (c ≢ 39)

abbrev pub IsWord : Bytes → Type 0
IsWord w = Each IsSeen w × (0 < length w)

abbrev pub spaced : List Bytes → Bytes
spaced [] = []
spaced (w ∷ []) = w
spaced (w ∷ v ∷ ws) = w ++ b' ' ∷ spaced (v ∷ ws)

piece-seen :
    (cur rest : Bytes) (c : ℕ) → IsSeen c → piece plain cur c rest ≡ more plain (cur ++ c ∷ []) rest
unfolding piece
piece-seen cur rest c h = ground arith

pub read_word-spaced :
    (fuel : ℕ) (cur w rest : Bytes)
    → Each IsSeen w
    → length w < fuel
    → read_word fuel plain cur (w ++ b' ' ∷ rest) ≡ word (cur ++ w) rest
unfolding read_word
read_word-spaced zero cur w rest h k = absurd (omega arith)
read_word-spaced (suc fuel) cur [] rest h k = rw (append-nil) refl
read_word-spaced (suc fuel) cur (c ∷ w) rest (h, hs) k =
    rw (piece-seen cur (w ++ b' ' ∷ rest) c h) (
      read_word-spaced fuel (cur ++ c ∷ []) w rest hs (omega arith)
      ∙ ap (λ t. word t rest) (append_assoc cur (c ∷ []) w))

read_word-last :
    (fuel : ℕ) (cur w : Bytes)
    → Each IsSeen w
    → length w ≤ fuel
    → read_word fuel plain cur w ≡ word (cur ++ w) []
unfolding read_word
read_word-last fuel cur [] h k = rw (append-nil) refl
read_word-last zero cur (c ∷ w) h k = absurd (omega arith)
read_word-last (suc fuel) cur (c ∷ w) (h, hs) k = rw (piece-seen cur w c h) (
    read_word-last fuel (cur ++ c ∷ []) w hs (omega arith)
    ∙ ap (λ t. word t []) (append_assoc cur (c ∷ []) w))

pub seen_stays : (c : ℕ) (cs : Bytes) → IsSeen c → skip_blanks (c ∷ cs) ≡ c ∷ cs
unfolding skip_blanks
seen_stays c cs h = ground arith

pub read_words-spaced :
    (fuel : ℕ) (ws : List Bytes)
    → length ws < fuel
    → Each IsWord ws
    → read_words fuel (spaced ws) ≡ ok (some ws)
unfolding read_words
read_words-spaced zero ws h all = absurd (omega arith)
read_words-spaced (suc fuel) [] h all = unfold skip_blanks in refl
read_words-spaced (suc fuel) ([] ∷ ws) h ((seen, full), all) = absurd (omega arith)
read_words-spaced (suc fuel) ((c ∷ w) ∷ []) h ((seen, full), all) =
    rw
      (
        seen_stays c w (seen.0),
        read_word-last (suc (length w)) [] (c ∷ w) seen (omega arith),
        read_words-spaced fuel [] (omega arith) tt,
      )
      refl
read_words-spaced (suc fuel) ((c ∷ w) ∷ v ∷ ws) h ((seen, full), all) =
    rw
      (
        seen_stays c (w ++ b' ' ∷ spaced (v ∷ ws)) (seen.0),
        read_word-spaced (suc (length (w ++ b' ' ∷ spaced (v ∷ ws)))) [] (c ∷ w) (spaced (v ∷ ws))
            seen (omega (arith, length-append {0} w (b' ' ∷ spaced (v ∷ ws)))),
        read_words-spaced fuel (v ∷ ws) (omega arith) all,
      )
      refl

pub length-spaced : (ws : List Bytes) → Each IsWord ws → length ws ≤ length (spaced ws)
length-spaced [] all = omega arith
length-spaced (w ∷ []) ((seen, full), all) = omega arith
length-spaced (w ∷ v ∷ ws) ((seen, full), all) =
    omega (arith, length-spaced (v ∷ ws) all, length-append {0} w (b' ' ∷ spaced (v ∷ ws)))

-- Words of plain text with one space between them are the arguments.
pub split_args-spaced : (ws : List Bytes) → Each IsWord ws → split_args (spaced ws) ≡ ok (some ws)
unfolding split_args
split_args-spaced ws all =
    read_words-spaced (suc (length (spaced ws))) ws (omega (arith, length-spaced ws all)) all
