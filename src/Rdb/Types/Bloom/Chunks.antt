-- ===== src/Rdb/Types/Bloom/Chunks.antt =====
-- The chunks of a Bloom filter of internal/rdb/types/mbbloom.go cover its bytes.
use mathlib.Core.Path.{subst}
use rdb_elasticache_migrator.Prelude.{
  ◌∙◌, ◌⊎◌, lt→ltb, ℕ, zero, suc, ◌+◌, ◌-◌, ◌%◌, ◌^◌, ◌<◌, ◌≤◌, ◌≡◌, refl, ap, sym, arith, ltb,
  if◌then◌else◌, Bool-cases, inl, inr, false, Option, none, some, List, [], ◌∷◌, ◌++◌, length,
  length-append, length-take, length-drop, take, drop, take-append-drop, append_assoc, drop-append,
  drop-append_past, drop-append_within, suc_add, flat_map, map,
}
use rdb_elasticache_migrator.Runtime.{Bytes, ok}
use rdb_elasticache_migrator.Runtime.Emit.{Emit, Run}
use rdb_elasticache_migrator.Rdb.Structure.Float.{Floats}
use rdb_elasticache_migrator.Rdb.Types.Bloom.{
  Link, bytes_of, chunk_of, unless_empty, find_link, get_link_pos, get_encoded_chunk, send_chunks,
  load_chunk, max_scandump_size,
}

zero_add : (n : ℕ) → 0 + n ≡ n
zero_add n = omega arith

drop_end : (xs : Bytes) (n : ℕ) → length xs ≤ n → drop n xs ≡ []
drop_end [] zero h = refl
drop_end [] (suc n) h = refl
drop_end (x ∷ xs) zero h = absurd (omega arith)
drop_end (x ∷ xs) (suc n) h = drop_end xs n (omega arith)

drop_none : (m : ℕ) → drop {A = ℕ} m [] ≡ []
drop_none zero = refl
drop_none (suc m) = refl

drop-drop : (xs : Bytes) (n m : ℕ) → drop m (drop n xs) ≡ drop (n + m) xs
drop-drop xs zero m = rw (zero_add m) refl
drop-drop [] (suc n) m = rw (suc_add n m) (drop_none m)
drop-drop (x ∷ xs) (suc n) m = rw (suc_add n m) (drop-drop xs n m)

no_wrap : (n : ℕ) → n < 2 ^ 64 → n % 2 ^ 64 ≡ n
no_wrap n h = omega arith

difference : (p seek : ℕ) → p < 2 ^ 64 → (seek + p + 2 ^ 64 - seek) % 2 ^ 64 ≡ p
difference p seek h = omega arith

first : (p : ℕ) → p < 2 ^ 64 → (suc p + 2 ^ 64 - 1) % 2 ^ 64 ≡ 0 + p
first p h = omega arith

left_over : (n off : ℕ) → off < n → n - off < 2 ^ 64 → (n + 2 ^ 64 - off) % 2 ^ 64 ≡ n - off
left_over n off h w = omega arith

-- The length of a chunk.
abbrev shorter : ℕ → ℕ
shorter left = if ltb left max_scandump_size then left else max_scandump_size

shorter-bounds :
    (left : ℕ)
    → 0 < left
    → (0 < shorter left) × (shorter left ≤ max_scandump_size) × (shorter left ≤ left)
shorter-bounds left h = (ground arith, ground arith, ground arith)

not_before : (n q : ℕ) → ltb (n + q) n ≡ false
not_before n q = ground arith

add_assoc : (a b c : ℕ) → a + (b + c) ≡ a + b + c
add_assoc a b c = omega arith

before_or_behind : (p n : ℕ) → (p < n) ⊎ ((q : ℕ) × (p ≡ n + q))
before_or_behind p n = elim (Bool-cases (ltb p n)) [
  | inl e ↦ inl (ground arith)
  | inr e ↦ inr (p - n, ground arith)
]

-- A chunk starts where the last one ended; it is not empty and no longer than a chunk may be.
abbrev pub Contiguous : ℕ → List (ℕ × Bytes) → Type 0
Contiguous at [] = Unit {0}
Contiguous at ((iter, c) ∷ cs) =
    (0 < length c) × (length c ≤ max_scandump_size) × (iter ≡ at + length c) × Contiguous iter cs

-- The chunk at the byte `p`.
abbrev Cut : ℕ → ℕ × Bytes → Bytes → Type 0
Cut p (iter, c) bs =
    (0 < length c)
    × (length c ≤ max_scandump_size)
    × (iter ≡ suc p + length c)
    × (after : Bytes) × (bs ≡ c ++ after)

-- The chunks that a run has sent from the byte `p` on.
abbrev Covered : Bytes → Run → Bytes → ℕ → Bytes → Type 0
Covered key run rest at bs =
    (cs : List (ℕ × Bytes)) × (run ≡ record { sent = map (load_chunk key) cs; outcome = ok rest })
    × Contiguous at cs
    × (flat_map (λ c. c.1) cs ≡ bs)

unless_empty-Covered :
    (key rest bs : Bytes) (p : ℕ) (x : ℕ × Bytes) (k : ℕ → Emit)
    → Cut p x bs
    → ((n : ℕ)
        → 0 < n
        → n ≤ length bs
        → Covered key (k (suc p + n) rest) rest (suc p + n) (drop n bs))
    → Covered key (unless_empty key x k rest) rest (suc p) bs
unfolding flat_map
unless_empty-Covered key rest bs p (iter, []) k (a, c, d, e, f) h = absurd (omega arith)
unless_empty-Covered key rest bs p (iter, x ∷ xs) k (some_bytes, few, e, after, cut) h =
    let (cs, sent, contiguous, whole) =
      h (suc (length xs)) (omega arith)
        (omega (arith, ap length cut, length-append {0} (x ∷ xs) after)) in
    (
      (iter, x ∷ xs) ∷ cs,
      ap (λ r. record { sent = load_chunk key (iter, x ∷ xs) ∷ r.sent; outcome = r.outcome })
          (ap (λ i. k i rest) e ∙ sent),
      (some_bytes, few, e, subst (λ i. Contiguous i cs) (sym e) contiguous),
      ap (λ r. (x ∷ xs) ++ r)
            (whole
              ∙ (ap (drop (suc (length xs))) cut
                  ∙ drop-append (x ∷ xs) after (suc (length xs)) refl))
          ∙ sym cut,
    )

module _ {F : Floats} where
  -- The filter that holds the byte `p`, and what follows the byte in it and behind it.
  abbrev Located : Option (Link F × ℕ) → Bytes → Type 0
  Located found bs =
      (l : Link F) × (off : ℕ) × (after : Bytes) × (found ≡ some (l, off))
      × (off < length l.inner.bf)
      × (bs ≡ drop off l.inner.bf ++ after)

  find_link-here :
      (l : Link F) (ls : List (Link F)) (seek p : ℕ)
      → p < length l.inner.bf
      → seek + length l.inner.bf < 2 ^ 64
      → find_link F seek (l ∷ ls) (seek + p) ≡ some (l, p)
  unfolding find_link
  find_link-here l ls seek p h w =
      rw
        (
          no_wrap (seek + length l.inner.bf) w,
          lt→ltb (seek + p) (seek + length l.inner.bf) (omega arith),
          difference p seek (omega arith),
        )
        refl

  find_link-next :
      (l : Link F) (ls : List (Link F)) (seek q : ℕ)
      → seek + length l.inner.bf + q < 2 ^ 64
      → find_link F seek (l ∷ ls) (seek + (length l.inner.bf + q))
        ≡ find_link F (seek + length l.inner.bf) ls (seek + length l.inner.bf + q)
  unfolding find_link
  find_link-next l ls seek q w =
      rw
        (
          no_wrap (seek + length l.inner.bf) (omega arith),
          add_assoc seek (length l.inner.bf) q,
          not_before (seek + length l.inner.bf) q,
        )
        refl

  find_link-Located :
      (ls : List (Link F)) (seek p : ℕ)
      → p < length (bytes_of ls)
      → seek + length (bytes_of ls) < 2 ^ 64
      → Located (find_link F seek ls (seek + p)) (drop p (bytes_of ls))
  unfolding flat_map
  find_link-Located [] seek p h w = absurd (omega arith)
  find_link-Located (l ∷ ls) seek p h w =
      let total = length-append {0} l.inner.bf (bytes_of ls) in
      elim (before_or_behind p (length l.inner.bf)) [
        | inl lt ↦ (
          l,
          p,
          bytes_of ls,
          find_link-here l ls seek p lt (omega (arith, total)),
          lt,
          drop-append_within l.inner.bf (bytes_of ls) p (omega arith),
        )
        | inr (q, e) ↦
            rw
              (
                e,
                find_link-next l ls seek q (omega (arith, total)),
                drop-append_past l.inner.bf (bytes_of ls) q,
              )
              (find_link-Located ls (seek + length l.inner.bf) q (omega (arith, total))
                (omega (arith, total)))
      ]

  find_link-past :
      (ls : List (Link F)) (seek p : ℕ)
      → length (bytes_of ls) ≤ p
      → seek + p < 2 ^ 64
      → find_link F seek ls (seek + p) ≡ none
  unfolding find_link flat_map
  find_link-past [] seek p h w = refl
  find_link-past (l ∷ ls) seek p h w =
      let total = length-append {0} l.inner.bf (bytes_of ls) in
      elim (before_or_behind p (length l.inner.bf)) [
        | inl lt ↦ absurd (omega (arith, total))
        | inr (q, e) ↦
            rw (e, find_link-next l ls seek q (omega (arith, total)))
              (find_link-past ls (seek + length l.inner.bf) q (omega (arith, total))
                (omega (arith, total)))
      ]

  get_encoded_chunk-past :
      (ls : List (Link F)) (p : ℕ)
      → length (bytes_of ls) ≤ p
      → p + 1 < 2 ^ 64
      → get_encoded_chunk F ls (suc p) max_scandump_size ≡ (0, [])
  unfolding get_encoded_chunk get_link_pos
  get_encoded_chunk-past ls p h w =
      rw (first p (omega arith), find_link-past ls 0 p h (omega arith)) refl

  chunk_of-Cut :
      (l : Link F) (off p : ℕ) (after bs : Bytes)
      → off < length l.inner.bf
      → bs ≡ drop off l.inner.bf ++ after
      → suc p + length bs < 2 ^ 64
      → Cut p (chunk_of F (suc p) max_scandump_size (some (l, off))) bs
  chunk_of-Cut l off p after bs h e w =
      let left = length l.inner.bf - off in
      let c = take (shorter left) (drop off l.inner.bf) in
      let (a, b, s) = shorter-bounds left (omega arith) in
      let size = length-take {0} (shorter left) (drop off l.inner.bf) in
      let all = length-drop {0} off l.inner.bf in
      let whole = length-append {0} (drop off l.inner.bf) after in
      rw (left_over (length l.inner.bf) off h (omega (arith, whole, all, ap length e))) (
        omega (arith, size, all, a, s),
        omega (arith, size, all, b, s),
        omega (arith, size, all, whole, ap length e, a, s),
        drop (shorter left) (drop off l.inner.bf) ++ after,
        e
            ∙ (ap (λ r. r ++ after) (sym (take-append-drop (shorter left) (drop off l.inner.bf)))
                ∙ append_assoc c (drop (shorter left) (drop off l.inner.bf)) after),
      )

  get_encoded_chunk-Cut :
      (ls : List (Link F)) (p : ℕ)
      → p < length (bytes_of ls)
      → suc (length (bytes_of ls)) < 2 ^ 64
      → Cut p (get_encoded_chunk F ls (suc p) max_scandump_size) (drop p (bytes_of ls))
  unfolding get_encoded_chunk get_link_pos
  get_encoded_chunk-Cut ls p h w =
      let (l, off, after, e, lt, d) = find_link-Located ls 0 p h (omega arith) in
      rw (first p (omega arith), e)
        (chunk_of-Cut l off p after (drop p (bytes_of ls)) lt d
          (omega (arith, length-drop {0} p (bytes_of ls))))

  send_chunks-Covered :
      (key rest : Bytes) (ls : List (Link F)) (fuel p : ℕ)
      → p ≤ length (bytes_of ls)
      → length (bytes_of ls) < fuel + p
      → suc (length (bytes_of ls)) < 2 ^ 64
      → Covered key (send_chunks F key ls fuel (suc p) rest) rest (suc p) (drop p (bytes_of ls))
  unfolding send_chunks flat_map
  send_chunks-Covered key rest ls zero p h f w = absurd (omega arith)
  send_chunks-Covered key rest ls (suc fuel) p h f w =
      elim (before_or_behind p (length (bytes_of ls))) [
        | inl lt ↦
            unless_empty-Covered key rest (drop p (bytes_of ls)) p
              (get_encoded_chunk F ls (suc p) max_scandump_size) (send_chunks F key ls fuel)
              (get_encoded_chunk-Cut ls p lt w)
              (λ n some le.
                rw (drop-drop (bytes_of ls) p n, suc_add p n)
                  (send_chunks-Covered key rest ls fuel (p + n)
                    (omega (arith, length-drop {0} p (bytes_of ls))) (omega arith) w))
        | inr (q, e) ↦
            rw (get_encoded_chunk-past ls p (omega arith) (omega arith))
              ([], refl, tt, sym (drop_end (bytes_of ls) p (omega arith)))
      ]

  -- The chunks start at 1, each is sent under the number where the next one starts, none is empty or longer
  -- than 10 MB, and together they are the bytes of the filters.
  pub send_chunks-Contiguous :
      (key rest : Bytes) (ls : List (Link F))
      → suc (length (bytes_of ls)) < 2 ^ 64
      → (cs : List (ℕ × Bytes)) × (send_chunks F key ls (suc (length (bytes_of ls))) 1 rest
          ≡ record { sent = map (load_chunk key) cs; outcome = ok rest })
        × Contiguous 1 cs
        × (flat_map (λ c. c.1) cs ≡ bytes_of ls)
  send_chunks-Contiguous key rest ls w =
      send_chunks-Covered key rest ls (suc (length (bytes_of ls))) 0 (omega arith) (omega arith) w
