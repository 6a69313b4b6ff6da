-- ===== src/Rdb/Types/Bloom/Header.antt =====
-- `getEncodedHeader` and `Rewrite` of internal/rdb/types/mbbloom.go. A number is written through a pointer, the
-- lowest byte first.
use rdb_elasticache_migrator.Prelude.{
  ℕ, suc, Bool, true, false, not, ltb, if◌then◌else◌, [], ◌∷◌, ◌++◌, length, flat_map, codes,
}
use rdb_elasticache_migrator.Prelude.Int.{ℤ, pos, ltb_ℤ, eq_ℤ}
use rdb_elasticache_migrator.Runtime.{Bytes}
use rdb_elasticache_migrator.Runtime.Words.{to_little}
use rdb_elasticache_migrator.Runtime.Emit.{Emit, send, reading}
use rdb_elasticache_migrator.Rdb.Structure.Float.{Floats}
use rdb_elasticache_migrator.Rdb.Types.Bloom.{Link, Chain, bytes_of, read_chain, send_chunks}

module _ (F : Floats) (to_bits : F.Float64 → ℕ) where
  -- `*pl`: the 53 bytes of a link, or 49 with entries of 4 bytes.
  unfoldable pub encode_link : Bool → Link F → Bytes
  unfolding to_little
  encode_link big_entries sl =
      to_little 8 (length sl.inner.bf)
      ++ (to_little 8 sl.inner.bits
          ++ (to_little 8 sl.size
              ++ (to_little 8 (to_bits sl.inner.err)
                  ++ (to_little 8 (to_bits sl.inner.bpe)
                      ++ (to_little 4 sl.inner.hashes
                          ++ (to_little (if big_entries then 8 else 4) sl.inner.entries
                              ++ to_little 1 sl.inner.n2))))))

  unfoldable pub get_encoded_header : Chain F → Bool → Bool → Bytes
  unfolding to_little encode_link flat_map
  get_encoded_header sb with_growth big_entries =
      to_little 8 sb.size
      ++ (to_little 4 sb.nfilters
          ++ (to_little 4 sb.options
              ++ ((if with_growth then to_little 4 sb.growth else [])
                  ++ flat_map (encode_link big_entries) sb.filters)))

  unfoldable pub header_for : ℤ → ℕ → Chain F → Bytes
  unfolding get_encoded_header
  header_for ver encver sb =
      if ltb_ℤ (pos 20200) ver
      then get_encoded_header sb true true
      else if eq_ℤ ver (pos 20200)
      then get_encoded_header sb true false
      else if not (ltb_ℤ ver (pos 10000))
      then get_encoded_header sb false false
      else if ltb encver 4
      then get_encoded_header sb false false
      else get_encoded_header sb true true

  -- The fuel is a round for each byte and one for the end.
  unfoldable pub write_chain : ℤ → Bytes → ℕ → Chain F → Emit
  unfolding header_for send_chunks flat_map
  write_chain ver key encver sb = send (codes "del" ∷ key ∷ []) (
      send (codes "BF.LOADCHUNK" ∷ key ∷ codes "1" ∷ header_for ver encver sb ∷ [])
        (send_chunks F key sb.filters (suc (length (bytes_of sb.filters))) 1))

module _ (F : Floats) (format_f format_15f : F.Float64 → Bytes) (bits_of : ℕ → F.Float64 → ℕ)
    (to_bits : F.Float64 → ℕ) where
  unfoldable pub rewrite_bloom : ℤ → Bytes → ℕ → Emit
  unfolding read_chain write_chain
  rewrite_bloom ver key encver =
      reading (read_chain F format_f format_15f bits_of encver)
        (write_chain F to_bits ver key encver)
