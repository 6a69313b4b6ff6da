-- ===== src/Reader/Receive/Marked.antt =====
-- The file behind a mark (internal/reader/sync_standalone_reader.go): all that comes before the mark is written,
-- however the reads divide what comes.
use mathlib.Core.Path.{subst}
use rdb_elasticache_migrator.Prelude.{
  ℕ, zero, suc, ◌+◌, ◌-◌, ◌<◌, ◌≤◌, ◌≡◌, inl, inr, refl, sym, ap, ◌∙◌, arith, leb, leb→le, ◌==◌,
  Bool, true, false, ◌&&◌, Bool-cases, [], ◌∷◌, ◌++◌, length, length-append, length-take,
  length-drop, take, drop, take-append, drop-append, take-append-drop, split_front, append_assoc,
  append-nil,
}
use rdb_elasticache_migrator.Runtime.{Bytes, ok}
use rdb_elasticache_migrator.Runtime.Strings.{equal, equal_refl}
use rdb_elasticache_migrator.Reader.Receive.{
  Received, with_buffer, buf_size, marker_len, receive_marked,
}
use rdb_elasticache_migrator.Reader.Receive.Counted.{read_some-Brings}

-- The mark does not stand earlier in what comes.
abbrev pub FirstAtEnd : Bytes → Bytes → Type 0
FirstAtEnd marker rdb = (p q : Bytes) → rdb ++ marker ≡ p ++ (marker ++ q) → q ≡ []

-- Nor in what is left behind a front that was written.
FirstAtEnd-behind :
    (marker front rdb : Bytes) → FirstAtEnd marker (front ++ rdb) → FirstAtEnd marker rdb
FirstAtEnd-behind marker front rdb h p q e = h (front ++ p) q (
    append_assoc front rdb marker
    ∙ (ap (λ t. front ++ t) e ∙ sym (append_assoc front p (marker ++ q))))

-- The end of the file as the texts have it.
abbrev pub Ends : Received → Bytes → Type 0
Ends r rdb = (r.written ≡ rdb) × (r.outcome ≡ ok [])

-- Two fronts of the same list before ends of the same length.
same_front : (a b x y : Bytes) → a ++ x ≡ b ++ y → length x ≡ length y → (a ≡ b) × (x ≡ y)
same_front a b x y e h =
    let n =
      same_length (length a) (length b) (length x) (length y)
        (sym (length-append a x) ∙ (ap length e ∙ length-append b y)) h in
    (
      sym (take-append a x (length a) refl)
          ∙ (ap (take (length a)) e ∙ take-append b y (length a) n),
      sym (drop-append a x (length a) refl)
          ∙ (ap (drop (length a)) e ∙ drop-append b y (length a) n),
    )
  where
    same_length : (a b x y : ℕ) → a + x ≡ b + y → x ≡ y → b ≡ a
    same_length a b x y e h = omega arith

and_true : (a b : Bool) → (a && b) ≡ true → (a ≡ true) × (b ≡ true)
and_true true b h = (refl, h)
and_true false b h = absurd (cc)

==→≡ : (x y : ℕ) → (x == y) ≡ true → x ≡ y
==→≡ x y h = ground arith

equal→≡ : (a b : Bytes) → equal a b ≡ true → a ≡ b
unfolding equal
equal→≡ [] [] h = refl
equal→≡ [] (y ∷ ys) h = absurd (cc)
equal→≡ (x ∷ xs) [] h = absurd (cc)
equal→≡ (x ∷ xs) (y ∷ ys) h =
    let (head, tail) = and_true (x == y) (equal xs ys) h in
    ap (λ c. c ∷ xs) (==→≡ x y head) ∙ ap (λ t. y ∷ t) (equal→≡ xs ys tail)

not_both : false ≡ true → ⊥
not_both e = cc

-- Not all has come while the mark has not.
more_comes :
    (marker buf rest rdb : Bytes)
    → length marker ≡ marker_len
    → marker_len ≤ length buf
    → buf ++ rest ≡ rdb ++ marker
    → equal (drop (length buf - marker_len) buf) marker ≡ false
    → 0 < length rest
more_comes marker buf (b ∷ rest) rdb size long e differ = omega arith
more_comes marker buf [] rdb size long e differ =
    let cut = length buf - marker_len in
    let (front, mark) =
      same_front (take cut buf) rdb (drop cut buf) marker
        (take-append-drop cut buf ∙ (sym (append-nil buf) ∙ e))
        (omega (arith, length-drop {0} cut buf)) in
    absurd (not_both (sym differ ∙ (ap (λ t. equal t marker) mark ∙ equal_refl marker)))

total :
    (buf rest rdb marker : Bytes)
    → buf ++ rest ≡ rdb ++ marker
    → length buf + length rest ≡ length rdb + length marker
total buf rest rdb marker e =
    sym (length-append buf rest) ∙ (ap length e ∙ length-append rdb marker)

-- The round that meets the mark.
at_mark :
    (marker front rest rdb : Bytes)
    → (front ++ marker) ++ rest ≡ rdb ++ marker
    → FirstAtEnd marker rdb
    → (front ≡ rdb) × (rest ≡ [])
at_mark marker front rest rdb e first =
    let whole = sym e ∙ append_assoc front marker rest in
    let none_left = first front rest whole in
    let (same, x) =
      same_front rdb front marker (marker ++ rest) whole
        (sym (ap (λ r. length (marker ++ r)) none_left ∙ ap length (append-nil marker))) in
    (sym same, none_left)

fits : (b r d t : ℕ) → 40 ≤ b → b + r ≡ d + 40 → t ≤ b - 40 → t ≤ d
fits b r d t long sum taken = omega arith

-- A round.
with_buffer-Ends :
    (marker buf rest rdb : Bytes) (next : Bytes → Bytes → Received)
    → length marker ≡ marker_len
    → buf ++ rest ≡ rdb ++ marker
    → FirstAtEnd marker rdb
    → ((last rdb' : Bytes)
        → last ++ rest ≡ rdb' ++ marker
        → length last ≤ marker_len
        → 0 < length rest
        → FirstAtEnd marker rdb'
        → Ends (next last rest) rdb')
    → Ends (with_buffer marker buf rest next) rdb
with_buffer-Ends marker buf rest rdb next size e first h =
    let cut = length buf - marker_len in
    let sum = total buf rest rdb marker e in
    elim (Bool-cases (leb marker_len (length buf))) [
      | inr short ↦ rw (short) (h buf rdb e (ground arith) (ground arith) first)
      | inl long ↦ elim (Bool-cases (equal (drop cut buf) marker)) [
        | inl same ↦
            let (front, none_left) =
              at_mark marker (take cut buf) rest rdb
                (ap (λ b. b ++ rest)
                    (ap (λ m. take cut buf ++ m) (sym (equal→≡ (drop cut buf) marker same))
                      ∙ take-append-drop cut buf)
                  ∙ e)
                first in
            rw (long, same) (front, ap ok none_left)
        | inr differ ↦
            let (front, back) =
              split_front rdb marker (take cut buf) (drop cut buf ++ rest)
                (sym e
                  ∙ (ap (λ b. b ++ rest) (sym (take-append-drop cut buf))
                      ∙ append_assoc (take cut buf) (drop cut buf) rest))
                (fits (length buf) (length rest) (length rdb) (length (take cut buf))
                  (leb→le marker_len (length buf) long) (omega (arith, sum, size))
                  (omega (arith, length-take {0} cut buf))) in
            let left = drop (length (take cut buf)) rdb in
            let (written, ended) =
              h (drop cut buf) left back (omega (arith, length-drop {0} cut buf))
                (more_comes marker buf rest rdb size (leb→le marker_len (length buf) long) e differ)
                (FirstAtEnd-behind marker (take cut buf) left
                  (subst (FirstAtEnd marker) front first)) in
            rw (long, differ) (ap (λ t. take cut buf ++ t) written ∙ sym front, ended)
      ]
    ]

-- Whatever each read brings, all that comes before the mark is written and the run ends with nothing left
-- over. The mark has 40 bytes and does not stand earlier in what comes.
pub receive_marked-Ends :
    (sizes : ℕ → ℕ) (marker : Bytes) (fuel i : ℕ) (last bs rdb : Bytes)
    → length marker ≡ marker_len
    → last ++ bs ≡ rdb ++ marker
    → length last ≤ marker_len
    → 0 < length bs
    → length bs < fuel
    → FirstAtEnd marker rdb
    → Ends (receive_marked sizes marker fuel i last bs) rdb
unfolding receive_marked
receive_marked-Ends sizes marker zero i last bs rdb size e few some f first = absurd (omega arith)
receive_marked-Ends sizes marker (suc fuel) i last bs rdb size e few some f first =
    let (chunk, rest, r, whole, not_none, fits_in) =
      read_some-Brings (sizes i) (buf_size - length last) bs some (omega arith) in
    let sum = ap length whole ∙ length-append chunk rest in
    rw (r) (
      with_buffer-Ends marker (last ++ chunk) rest rdb (receive_marked sizes marker fuel (suc i))
        size (append_assoc last chunk rest ∙ (ap (λ t. last ++ t) (sym whole) ∙ e)) first
        (λ last' rdb' e' few' some' first'.
          receive_marked-Ends sizes marker fuel (suc i) last' rest rdb' size e' few' some'
            (omega (arith, sum)) first'))
