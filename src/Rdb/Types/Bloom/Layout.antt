-- ===== src/Rdb/Types/Bloom/Layout.antt =====
-- The structs `dumpedChainHeader` and `dumpedChainLink` of internal/rdb/types/mbbloom.go in the header: each field at
-- its offset in memory, and the links one after the other.
use rdb_elasticache_migrator.Prelude.{
  drop-append_past, ℕ, ◌+◌, ◌*◌, ◌≡◌, refl, arith, Bool, true, false, if◌then◌else◌, List, [], ◌∷◌,
  ◌++◌, length, flat_map, take, drop,
}
use rdb_elasticache_migrator.Runtime.{Bytes}
use rdb_elasticache_migrator.Runtime.Words.{to_little}
use rdb_elasticache_migrator.Rdb.Structure.Float.{Floats}
use rdb_elasticache_migrator.Rdb.Types.Bloom.{Link, Chain}
use rdb_elasticache_migrator.Rdb.Types.Bloom.Header.{encode_link, get_encoded_header}

-- `DUMPED_CHAIN_HEADER_SIZE`, `DUMPED_CHAIN_LINK_SIZE` and those of version 3.
abbrev pub header_size : Bool → ℕ
header_size with_growth = if with_growth then 20 else 16

abbrev pub link_size : Bool → ℕ
link_size big_entries = if big_entries then 53 else 49

-- The number v stands in w bytes at an offset.
abbrev pub Stands : ℕ → ℕ → ℕ → Bytes → Type 0
Stands w v offset h = take w (drop offset h) ≡ to_little w v

Stands-past :
    (w v : ℕ) (xs h : Bytes) (n m : ℕ) → m ≡ length xs + n → Stands w v n h → Stands w v m (xs ++ h)
Stands-past w v xs h n m e s = rw (e, drop-append_past xs h n) s

module _ {F : Floats} (to_bits : F.Float64 → ℕ) where
  -- A `dumpedChainLink` at an offset; the entries take the place of `enthigh` too, or `n2` does.
  pub record LinkAt (offset : ℕ) (big : Bool) (sl : Link F) (h : Bytes) : Type 0 where
    pub bytes_at : Stands 8 (length sl.inner.bf) offset h
    pub bits_at : Stands 8 sl.inner.bits (offset + 8) h
    pub size_at : Stands 8 sl.size (offset + 16) h
    pub err_at : Stands 8 (to_bits sl.inner.err) (offset + 24) h
    pub bpe_at : Stands 8 (to_bits sl.inner.bpe) (offset + 32) h
    pub hashes_at : Stands 4 sl.inner.hashes (offset + 40) h
    pub entries_at : Stands (if big then 8 else 4) sl.inner.entries (offset + 44) h
    pub n2_at : Stands 1 sl.inner.n2 (offset + (if big then 52 else 48)) h

  pub record HeaderAt (with_growth : Bool) (sb : Chain F) (h : Bytes) : Type 0 where
    pub size_at : Stands 8 sb.size 0 h
    pub nfilters_at : Stands 4 sb.nfilters 8 h
    pub options_at : Stands 4 sb.options 12 h
    pub growth_at : Stands (if with_growth then 4 else 0) sb.growth 16 h

  LinkAt-past :
      (xs h : Bytes) (n m : ℕ) (big : Bool) (sl : Link F)
      → m ≡ length xs + n
      → LinkAt n big sl h
      → LinkAt m big sl (xs ++ h)
  LinkAt-past xs h n m big sl e l = record {
    bytes_at = Stands-past 8 (length sl.inner.bf) xs h n m e l.bytes_at;
    bits_at = Stands-past 8 sl.inner.bits xs h (n + 8) (m + 8) (omega arith) l.bits_at;
    size_at = Stands-past 8 sl.size xs h (n + 16) (m + 16) (omega arith) l.size_at;
    err_at = Stands-past 8 (to_bits sl.inner.err) xs h (n + 24) (m + 24) (omega arith) l.err_at;
    bpe_at = Stands-past 8 (to_bits sl.inner.bpe) xs h (n + 32) (m + 32) (omega arith) l.bpe_at;
    hashes_at = Stands-past 4 sl.inner.hashes xs h (n + 40) (m + 40) (omega arith) l.hashes_at;
    entries_at =
        Stands-past (if big then 8 else 4) sl.inner.entries xs h (n + 44) (m + 44) (omega arith)
          l.entries_at;
    n2_at =
        Stands-past 1 sl.inner.n2 xs h (n + (if big then 52 else 48)) (m + (if big then 52 else 48))
          (omega arith) l.n2_at;
  }

  first_link :
      (big : Bool) (sl : Link F) (rest : Bytes)
      → LinkAt 0 big sl (encode_link F to_bits big sl ++ rest)
  unfolding encode_link to_little
  first_link true sl rest = record {
    bytes_at = refl;
    bits_at = refl;
    size_at = refl;
    err_at = refl;
    bpe_at = refl;
    hashes_at = refl;
    entries_at = refl;
    n2_at = refl;
  }
  first_link false sl rest = record {
    bytes_at = refl;
    bits_at = refl;
    size_at = refl;
    err_at = refl;
    bpe_at = refl;
    hashes_at = refl;
    entries_at = refl;
    n2_at = refl;
  }

  encode_link-size :
      (big : Bool) (sl : Link F) → length (encode_link F to_bits big sl) ≡ link_size big
  unfolding encode_link to_little
  encode_link-size true sl = refl
  encode_link-size false sl = refl

  links_layout :
      (big : Bool) (before : List (Link F)) (sl : Link F) (after : List (Link F))
      → LinkAt
          (link_size big * length before)
          big
          sl
          (flat_map (encode_link F to_bits big) (before ++ sl ∷ after))
  unfolding flat_map
  links_layout true [] sl after = first_link true sl (flat_map (encode_link F to_bits true) after)
  links_layout false [] sl after =
      first_link false sl (flat_map (encode_link F to_bits false) after)
  links_layout big (l ∷ ls) sl after =
      LinkAt-past (encode_link F to_bits big l)
        (flat_map (encode_link F to_bits big) (ls ++ sl ∷ after)) (link_size big * length ls)
        (link_size big * length (l ∷ ls)) big sl (ground (arith, encode_link-size big l))
        (links_layout big ls sl after)

  -- In the header of a chain of filters the size, the number of filters, the options and, where it is asked for, the
  -- growth stand at the offsets of `dumpedChainHeader`. The link of each filter stands behind that and as many links
  -- as there are filters before it, with each of its fields at the offset of `dumpedChainLink`: err at 24, bpe
  -- at 32, hashes at 40, entries at 44 in 8 or 4 bytes, and n2 behind them.
  pub get_encoded_header-layout :
      (sb : Chain F) (with_growth big : Bool) (before : List (Link F)) (sl : Link F)
      (after : List (Link F))
      → sb.filters ≡ before ++ sl ∷ after
      → HeaderAt with_growth sb (get_encoded_header F to_bits sb with_growth big)
        × LinkAt
            (header_size with_growth + link_size big * length before)
            big
            sl
            (get_encoded_header F to_bits sb with_growth big)
  unfolding get_encoded_header to_little
  get_encoded_header-layout sb true big before sl after e = rw (e) (
    record { size_at = refl; nfilters_at = refl; options_at = refl; growth_at = refl },
    LinkAt-past
        (to_little 8 sb.size
          ++ (to_little 4 sb.nfilters ++ (to_little 4 sb.options ++ to_little 4 sb.growth)))
        (flat_map (encode_link F to_bits big) (before ++ sl ∷ after))
        (link_size big * length before) (20 + link_size big * length before) big sl refl
        (links_layout big before sl after),
  )
  get_encoded_header-layout sb false big before sl after e = rw (e) (
    record { size_at = refl; nfilters_at = refl; options_at = refl; growth_at = refl },
    LinkAt-past (to_little 8 sb.size ++ (to_little 4 sb.nfilters ++ to_little 4 sb.options))
        (flat_map (encode_link F to_bits big) (before ++ sl ∷ after))
        (link_size big * length before) (16 + link_size big * length before) big sl refl
        (links_layout big before sl after),
  )
