-- ===== src/Rdb/Types/Bloom/Rewritten.antt =====
-- The commands that write a Bloom filter again: `Rewrite` of internal/rdb/types/mbbloom.go.
use rdb_elasticache_migrator.Prelude.{
  ℕ, suc, ◌<◌, ◌^◌, ◌≡◌, ap, List, [], ◌∷◌, length, map, flat_map, codes,
}
use rdb_elasticache_migrator.Prelude.Int.{ℤ}
use rdb_elasticache_migrator.Runtime.{Bytes, ok}
use rdb_elasticache_migrator.Rdb.Structure.Float.{Floats}
use rdb_elasticache_migrator.Rdb.Types.Bloom.{Chain, bytes_of, load_chunk}
use rdb_elasticache_migrator.Rdb.Types.Bloom.Header.{header_for, write_chain}
use rdb_elasticache_migrator.Rdb.Types.Bloom.Chunks.{Contiguous, send_chunks-Contiguous}

-- A Bloom filter whose filters hold less than 2 ^ 64 - 1 bytes is written again as a `del`, the header under
-- the number 1, and the bytes of its filters in chunks that start at 1: each chunk is sent under the number
-- where the next one starts, none is empty or longer than 10 MB, and together they are the bytes.
pub write_chain-Contiguous :
    (F : Floats) (to_bits : F.Float64 → ℕ) (ver : ℤ) (key : Bytes) (encver : ℕ) (sb : Chain F)
    (rest : Bytes)
    → suc (length (bytes_of sb.filters)) < 2 ^ 64
    → (cs : List (ℕ × Bytes)) × (write_chain F to_bits ver key encver sb rest ≡ record {
      sent =
          (codes "del" ∷ key ∷ [])
          ∷ (codes "BF.LOADCHUNK" ∷ key ∷ codes "1" ∷ header_for F to_bits ver encver sb ∷ [])
          ∷ map (load_chunk key) cs;
      outcome = ok rest;
    })
      × Contiguous 1 cs
      × (flat_map (λ c. c.1) cs ≡ bytes_of sb.filters)
unfolding write_chain
write_chain-Contiguous F to_bits ver key encver sb rest w =
    let (cs, sent, contiguous, whole) = send_chunks-Contiguous key rest sb.filters w in
    (
      cs,
      ap
          (λ r. record {
            sent =
                (codes "del" ∷ key ∷ [])
                ∷ (codes "BF.LOADCHUNK" ∷ key ∷ codes "1" ∷ header_for F to_bits ver encver sb ∷ [])
                ∷ r.sent;
            outcome = r.outcome;
          })
          sent,
      contiguous,
      whole,
    )
