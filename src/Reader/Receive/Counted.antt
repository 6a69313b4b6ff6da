-- ===== src/Reader/Receive/Counted.antt =====
-- The file with its length in front of it (internal/reader/sync_standalone_reader.go).
use rdb_elasticache_migrator.Prelude.{
  ℕ, zero, suc, ◌+◌, ◌%◌, ◌^◌, ◌<◌, ◌≤◌, ◌≡◌, refl, sym, ap, arith, ltb, ◌==◌, false, if◌then◌else◌,
  [], ◌∷◌, ◌++◌, length, length-append, length-take, length-drop, take, drop, take-append-drop,
  split_front,
}
use rdb_elasticache_migrator.Runtime.{Bytes, Result, ok}
use rdb_elasticache_migrator.Reader.Receive.{read_some, buf_size, receive_counted}

-- A read of `bs` that brings a part of it.
abbrev pub Brings : ℕ → Bytes → Result (Bytes × Bytes) → Type 0
Brings asked bs r =
    (chunk : Bytes) × (rest : Bytes) × (r ≡ ok (chunk, rest))
    × (bs ≡ chunk ++ rest)
    × (0 < length chunk)
    × (length chunk ≤ asked)

pub read_some-Brings :
    (size asked : ℕ) (bs : Bytes)
    → 0 < length bs
    → 0 < asked
    → Brings asked bs (read_some size asked bs)
unfolding read_some
read_some-Brings size asked [] h a = absurd (omega arith)
read_some-Brings size asked (b ∷ bs) h a =
    let n = if ltb (suc size) asked then suc size else asked in
    (
      take n (b ∷ bs),
      drop n (b ∷ bs),
      refl,
      sym (take-append-drop n (b ∷ bs)),
      ground (arith, length-take {0} n (b ∷ bs)),
      ground (arith, length-take {0} n (b ∷ bs)),
    )

added_up : (a b : ℕ) → (a + b % 2 ^ 64) % 2 ^ 64 ≡ (a + b) % 2 ^ 64
added_up a b = omega arith

fits : (n c : ℕ) → c ≤ (if ltb n buf_size then n else buf_size) → c ≤ n
fits n c h = ground arith

not_zero : (n : ℕ) → (suc n == 0) ≡ false
not_zero n = ground arith

-- The file of `length rdb` bytes is written and counted, and what follows it is left unread.
pub receive_counted-append :
    (sizes : ℕ → ℕ) (fuel i : ℕ) (rdb more : Bytes)
    → length rdb < fuel
    → receive_counted sizes fuel i (length rdb) (rdb ++ more)
      ≡ record { written = rdb; counted = length rdb % 2 ^ 64; outcome = ok more }
unfolding receive_counted
receive_counted-append sizes zero i rdb more h = absurd (omega arith)
receive_counted-append sizes (suc fuel) i [] more h = refl
receive_counted-append sizes (suc fuel) i (b ∷ bs) more h =
    let asked = if ltb (length (b ∷ bs)) buf_size then length (b ∷ bs) else buf_size in
    let (chunk, rest, e, whole, some, few) =
      read_some-Brings (sizes i) asked ((b ∷ bs) ++ more) (omega arith) (ground arith) in
    let (front, back) =
      split_front (b ∷ bs) more chunk rest whole (fits (length (b ∷ bs)) (length chunk) few) in
    let left = drop (length chunk) (b ∷ bs) in
    rw
      (
        not_zero (length bs),
        e,
        back,
        ← length-drop (length chunk) (b ∷ bs),
        receive_counted-append sizes fuel (suc i) left more
            (omega (arith, length-drop {0} (length chunk) (b ∷ bs))),
        added_up (length chunk) (length left),
        ← length-append chunk left,
      )
      (ap (λ xs. record { written = xs; counted = length xs % 2 ^ 64; outcome = ok more })
        (sym front))
