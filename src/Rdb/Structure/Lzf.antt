-- ===== src/Rdb/Structure/Lzf.antt =====
-- `lzfDecompress` of internal/rdb/structure/string.go. The index `i` is the input that is left;
-- `out` is the array, written at `o`.
pub mod Tokens
pub mod Decompress
use rdb_elasticache_migrator.Prelude.{
  ℕ, zero, suc, ◌+◌, ◌*◌, ◌/◌, bit_and, [], ◌∷◌, none, some, Option, ltb, ◌==◌, if◌then◌else◌,
  length, get_elem?, set, replicate,
}
use rdb_elasticache_migrator.Prelude.Int.{ℤ, pos, negsuc, ◌-ℤ◌}
use rdb_elasticache_migrator.Runtime.Outcome.{
  Result, ok, panic, out_of_range, negative_length, bad_size, out_of_fuel, ◌>>=◌,
}
use rdb_elasticache_migrator.Runtime.{Bytes}

-- `in[i]; i++`
unfoldable pub next_byte : Bytes → Result (ℕ × Bytes)
next_byte [] = panic out_of_range
next_byte (b ∷ src) = ok (b, src)

-- `out[o] = in[i]; i++; o++`, so many times.
unfoldable pub copy_literal : ℕ → Bytes → Bytes → ℕ → Result (Bytes × Bytes × ℕ)
copy_literal zero src out o = ok (src, out, o)
copy_literal (suc n) [] out o = panic out_of_range
copy_literal (suc n) (b ∷ src) out o =
    let rest = copy_literal n src (set out o b) (o + 1) in
    if ltb o (length out) then rest else panic out_of_range

-- `out[o] = b`, with the bounds checks of the read that gave `b` and of the write.
abbrev store : {A : Type 0} → Option ℕ → Bytes → ℕ → (Bytes → Result A) → Result A
store none out o k = panic out_of_range
store (some b) out o k = if ltb o (length out) then k (set out o b) else panic out_of_range

-- `out[o] = out[ref]; ref++; o++`, so many times.
unfoldable pub copy_back : ℕ → ℤ → Bytes → ℕ → Result (Bytes × ℕ)
copy_back zero ref out o = ok (out, o)
copy_back (suc n) (negsuc _) out o = panic out_of_range
copy_back (suc n) (pos ref) out o =
    store (get_elem? out ref) out o (λ out'. copy_back n (pos (suc ref)) out' (o + 1))

-- `if length == 7 { length = length + int(in[i]); i++ }`
unfoldable pub long_length : ℕ → Bytes → Result (ℕ × Bytes)
unfolding next_byte
long_length len src =
    if len == 7 then (do (b, src') ← next_byte src; ok (len + b, src')) else ok (len, src)

unfoldable pub back_reference : ℕ → Bytes → Bytes → ℕ → Result (Bytes × Bytes × ℕ)
unfolding next_byte long_length
back_reference ctrl src out o = do
  (len, src₁) ← long_length (ctrl / 32) src
  (low, src₂) ← next_byte src₁
  let ref = pos o -ℤ pos (bit_and ctrl 0x1f * 256) -ℤ pos low -ℤ pos 1
  (out', o') ← copy_back (suc (suc len)) ref out o
  ok (src₂, out', o')

unfoldable pub lzf_step : ℕ → Bytes → Bytes → ℕ → Result (Bytes × Bytes × ℕ)
lzf_step ctrl src out o =
    if ltb ctrl 32 then copy_literal (suc ctrl) src out o else back_reference ctrl src out o

unfoldable pub lzf_loop : ℕ → Bytes → Bytes → ℕ → Result (Bytes × ℕ)
lzf_loop fuel [] out o = ok (out, o)
lzf_loop zero (ctrl ∷ src) out o = panic out_of_fuel
lzf_loop (suc fuel) (ctrl ∷ src) out o = do
  (src', out', o') ← lzf_step ctrl src out o
  lzf_loop fuel src' out' o'

unfoldable pub lzf_decompress : Bytes → ℤ → Result Bytes
lzf_decompress src (negsuc _) = panic negative_length
lzf_decompress src (pos out_len) = do
  (out, o) ← lzf_loop (length src) src (replicate out_len 0) 0
  if o == out_len then ok out else panic bad_size
