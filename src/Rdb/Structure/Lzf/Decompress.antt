-- ===== src/Rdb/Structure/Lzf/Decompress.antt =====
-- Decompression gives what the tokens mean.
use rdb_elasticache_migrator.Prelude.{
  ℕ, zero, suc, ◌+◌, ◌-◌, ◌*◌, ◌/◌, ◌%◌, ◌≤◌, ◌<◌, ◌≡◌, refl, ap, ◌∙◌, List, [], ◌∷◌, ◌++◌,
  append-nil, append_assoc, arith, length, get_or, drop, set-append, get_elem?-append,
  length-append, length-concat, ltb, lt→ltb, tests, true, false, Bool-cases, inl, inr, replicate,
  length-replicate, length-drop,
}
use rdb_elasticache_migrator.Prelude.Int.{pos, ◌-ℤ◌}
use rdb_elasticache_migrator.Prelude.Bits.{and_1f}
use rdb_elasticache_migrator.Runtime.{Bytes, ok}
use rdb_elasticache_migrator.Rdb.Structure.Lzf.{
  copy_literal, copy_back, back_reference, long_length, lzf_step, lzf_loop, lzf_decompress,
}
use rdb_elasticache_migrator.Rdb.Structure.Lzf.Tokens.{
  Token, literal, back, extend, expand_token, expand, encode_token, encode, Fits, AllFit,
}

inside : (w zs : Bytes) (z o : ℕ) → o ≡ length w → ltb o (length (w ++ z ∷ zs)) ≡ true
inside w zs z o h = lt→ltb o _ (omega (arith, length-append {0} w (z ∷ zs)))

-- `out` is what has been written, `w`, before the part that has not.
copy_literal-append :
    (xs src w zs : Bytes) (o : ℕ)
    → o ≡ length w
    → length xs ≤ length zs
    → copy_literal (length xs) (xs ++ src) (w ++ zs) o
      ≡ ok (src, (w ++ xs) ++ drop (length xs) zs, length (w ++ xs))
unfolding copy_literal
copy_literal-append [] src w zs o p h = rw (append-nil, p)
copy_literal-append (x ∷ xs) src w [] o p h = absurd (omega arith)
copy_literal-append (x ∷ xs) src w (z ∷ zs) o p h =
    rw (inside w zs z o p, set-append w zs z x o p)
      (copy_literal-append xs src (w ++ x ∷ []) zs (o + 1) (omega (arith, length-concat {0} w x))
          (omega arith)
        ∙ ap (λ (l : Bytes). ok (src, l ++ drop (length xs) zs, length l))
            (append_assoc w (x ∷ []) xs))

copy_back-extend :
    (n d ref o : ℕ) (w zs : Bytes)
    → 1 ≤ d
    → ref + d ≡ length w
    → o ≡ length w
    → n ≤ length zs
    → copy_back n (pos ref) (w ++ zs) o ≡ ok (extend n d w ++ drop n zs, length (extend n d w))
unfolding copy_back extend
copy_back-extend zero d ref o w zs p q r h = rw r
copy_back-extend (suc n) d ref o w [] p q r h = absurd (omega arith)
copy_back-extend (suc n) d ref o w (z ∷ zs) p q r h =
    rw
      (
        get_elem?-append w (z ∷ zs) ref 0 (omega arith),
        inside w zs z o r,
        set-append w zs z (get_or w ref 0) o r,
      )
      (rw (← ref_is) (
        copy_back-extend n d (suc ref) (o + 1) (w ++ get_or w ref 0 ∷ []) zs p
          (omega (arith, longer)) (omega (arith, longer)) (omega arith)))
  where
    ref_is : ref ≡ length w - d
    ref_is = omega arith

    longer : length (w ++ get_or w ref 0 ∷ []) ≡ suc (length w)
    longer = length-concat w (get_or w ref 0)

length-extend : (n d : ℕ) (w : Bytes) → length (extend n d w) ≡ length w + n
unfolding extend
length-extend zero d w = omega arith
length-extend (suc n) d w = omega (
  arith,
  length-extend n d (w ++ get_or w (length w - d) 0 ∷ []),
  length-concat w (get_or w (length w - d) 0),
)

abbrev size : Token → ℕ
size (literal xs) = length xs
size (back d n) = n

length-expand_token : (t : Token) (w : Bytes) → length (expand_token t w) ≡ length w + size t
unfolding expand_token
length-expand_token (literal xs) w = length-append w xs
length-expand_token (back d n) w = length-extend n d w

length-le-expand : (ts : List Token) (w : Bytes) → length w ≤ length (expand ts w)
unfolding expand
length-le-expand [] w = omega arith
length-le-expand (t ∷ ts) w =
    omega (arith, length-le-expand ts (expand_token t w), length-expand_token t w)

-- One round of the loop on one token.
abbrev Step : ℕ → Token → Bytes → Bytes → Bytes → Type 0
Step f t w zs src =
    lzf_loop (suc f) (encode_token t ++ src) (w ++ zs) (length w)
    ≡ lzf_loop f src (expand_token t w ++ drop (size t) zs) (length (expand_token t w))

ltb-ge : (ctrl : ℕ) → 32 ≤ ctrl → ltb ctrl 32 ≡ false
ltb-ge ctrl h = ground arith

literal-Step :
    (f : ℕ) (xs w zs src : Bytes)
    → Fits (literal xs) w
    → length xs ≤ length zs
    → Step f (literal xs) w zs src
unfolding lzf_loop lzf_step encode_token expand_token
literal-Step f xs w zs src (lo, hi) room =
    rw (small, count, copy_literal-append xs src w zs (length w) refl room)
  where
    small : ltb (length xs - 1) 32 ≡ true
    small = lt→ltb _ _ (omega arith)

    count : suc (length xs - 1) ≡ length xs
    count = omega arith

short_form : (q len : ℕ) (src : Bytes) → q ≡ len → len < 7 → long_length q src ≡ ok (len, src)
unfolding long_length
short_form q len src e h = ground arith

long_form :
    (q len b : ℕ) (src : Bytes) → q ≡ 7 → 7 + b ≡ len → long_length q (b ∷ src) ≡ ok (len, src)
unfolding long_length
long_form q len b src e h = ground arith

place :
    (o h low d : ℕ)
    → h * 256 + low + 1 ≡ d
    → d ≤ o
    → pos o -ℤ pos (h * 256) -ℤ pos low -ℤ pos 1 ≡ pos (o - d)
place o h low d e le = ground arith

module _ (d n : ℕ) (w zs src : Bytes) (fits : Fits (back d n) w) (room : n ≤ length zs) where
  -- The lengths and distances are those of the token.
  reference :
      (ctrl : ℕ) (lengths : Bytes)
      → ctrl < 256
      → ctrl % 32 ≡ (d - 1) / 256
      → long_length (ctrl / 32) lengths ≡ ok (n - 2, (d - 1) % 256 ∷ src)
      → back_reference ctrl lengths (w ++ zs) (length w)
        ≡ ok (src, extend n d w ++ drop n zs, length (extend n d w))
  unfolding back_reference
  reference ctrl lengths byte high e = rw (
    e,
    and_1f ctrl byte,
    high,
    place (length w) ((d - 1) / 256) ((d - 1) % 256) d (omega arith) (omega arith),
    count,
    copy_back-extend n d (length w - d) (length w) w zs (omega arith) (omega arith) refl room,
  )
    where
      count : suc (suc (n - 2)) ≡ n
      count = omega arith

  back-Step : (f : ℕ) → Step f (back d n) w zs src
  unfolding lzf_loop lzf_step encode_token expand_token
  back-Step f = elim (Bool-cases (ltb n 9)) [
    | inl short ↦ rw (
      short,
      ltb-ge ((n - 2) * 32 + (d - 1) / 256) (omega arith),
      reference ((n - 2) * 32 + (d - 1) / 256) _ (omega (tests, short)) (omega arith)
          (short_form _ (n - 2) _ (omega arith) (omega (tests, short))),
    )
    | inr long ↦ rw (
      long,
      ltb-ge (224 + (d - 1) / 256) (omega arith),
      reference (224 + (d - 1) / 256) _ (omega arith) (omega arith)
          (long_form _ (n - 2) (n - 9) _ (omega arith) (ground arith)),
    )
  ]

token-Step :
    (f : ℕ) (t : Token) (w zs src : Bytes) → Fits t w → size t ≤ length zs → Step f t w zs src
token-Step f (literal xs) w zs src fits room = literal-Step f xs w zs src fits room
token-Step f (back d n) w zs src fits room = back-Step d n w zs src fits room f

longer : (t : Token) (src : Bytes) → suc (length src) ≤ length (encode_token t ++ src)
unfolding encode_token
longer (literal xs) src = omega (arith, length-append {0} xs src)
longer (back d n) src = ground arith

lzf_loop-encode :
    (ts : List Token) (w zs : Bytes) (fuel : ℕ)
    → AllFit ts w
    → length w + length zs ≡ length (expand ts w)
    → length (encode ts) ≤ fuel
    → lzf_loop fuel (encode ts) (w ++ zs) (length w) ≡ ok (expand ts w, length (expand ts w))
unfolding expand encode
lzf_loop-encode [] w [] fuel fits room enough = unfold lzf_loop in rw append-nil
lzf_loop-encode [] w (z ∷ zs) fuel fits room enough = absurd (omega arith)
lzf_loop-encode (t ∷ ts) w zs zero fits room enough = absurd (omega (arith, longer t (encode ts)))
lzf_loop-encode (t ∷ ts) w zs (suc fuel) (fit, fits) room enough =
    token-Step fuel t w zs (encode ts) fit (omega (arith, sizes, mono))
    ∙ lzf_loop-encode ts (expand_token t w) (drop (size t) zs) fuel fits
        (omega (arith, sizes, mono, length-drop (size t) zs)) (omega (arith, longer t (encode ts)))
  where
    sizes : length (expand_token t w) ≡ length w + size t
    sizes = length-expand_token t w

    mono : length (expand_token t w) ≤ length (expand ts (expand_token t w))
    mono = length-le-expand ts (expand_token t w)

-- Decompressing the bytes of any token sequence that the format allows, with the length that the
-- tokens expand to, returns their expansion.
pub lzf_decompress-encode :
    (ts : List Token)
    → AllFit ts []
    → lzf_decompress (encode ts) (pos (length (expand ts []))) ≡ ok (expand ts [])
unfolding lzf_decompress
lzf_decompress-encode ts fits =
    rw
      (lzf_loop-encode ts [] (replicate (length (expand ts [])) 0) (length (encode ts)) fits
        (omega (arith, length-replicate {A = ℕ} (length (expand ts [])) 0)) (omega arith))
      (ground arith)
