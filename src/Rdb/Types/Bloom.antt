-- ===== src/Rdb/Types/Bloom.antt =====
-- internal/rdb/types/mbbloom.go. `math.Float64bits`, the conversion `uint64(float64(entries) * bpe)` and the
-- verbs are arguments.
pub mod Chunks
pub mod Header
pub mod Layout
pub mod Rewritten
use rdb_elasticache_migrator.Prelude.{
  ℕ, zero, suc, ◌+◌, ◌-◌, ◌%◌, ◌^◌, ◌==◌, ltb, if◌then◌else◌, Option, none, some, List, [], ◌∷◌,
  length, take, drop, codes, flat_map,
}
use rdb_elasticache_migrator.Runtime.{
  Bytes, Read, ◌>>=◌, pure, fail, collect, bad_number, out_of_fuel,
}
use rdb_elasticache_migrator.Runtime.Strconv.{format_uint, parse_digits}
use rdb_elasticache_migrator.Runtime.Emit.{Command, Emit, done, stop, send}
use rdb_elasticache_migrator.Rdb.Structure.Float.{Floats, parsed}
use rdb_elasticache_migrator.Rdb.Structure.Module.{
  read_module_unsigned, read_module_double, read_module_string, read_module_eof,
}

-- The loops over `nfilters` are over the filters: `read_chain` reads that many.
module _ (F : Floats) where
  pub record Bloom : Type 0 where
    pub hashes : ℕ
    pub n2 : ℕ
    pub entries : ℕ
    pub err : F.Float64
    pub bpe : F.Float64
    pub bf : Bytes
    pub bits : ℕ

  pub record Link : Type 0 where
    pub inner : Bloom
    pub size : ℕ

  pub record Chain : Type 0 where
    pub filters : List Link
    pub size : ℕ
    pub nfilters : ℕ
    pub options : ℕ
    pub growth : ℕ

-- The bytes of the filters, one after the other.
abbrev pub bytes_of : {F : Floats} → List (Link F) → Bytes
bytes_of ls = flat_map (λ l. l.inner.bf) ls

abbrev unsigned_of : Option ℕ → Read ℕ
unsigned_of none = fail bad_number
unsigned_of (some n) = if ltb n (2 ^ 64) then pure n else fail bad_number

-- `readUnsigned`
unfoldable pub read_unsigned : Read ℕ
unfolding read_module_unsigned parse_digits
read_unsigned = do v ← read_module_unsigned; unsigned_of (parse_digits v)

module _ (F : Floats) (format_f format_15f : F.Float64 → Bytes) (bits_of : ℕ → F.Float64 → ℕ) where
  -- `readDouble`
  unfoldable pub read_number : Read F.Float64
  unfolding read_module_double
  read_number = do v ← read_module_double F format_f format_15f; parsed F (F.parse_float v)

  -- The body of the loop over the filters.
  unfoldable pub read_link : ℕ → Read (Link F)
  unfolding read_unsigned read_number read_module_string
  read_link encver = do
    entries ← read_unsigned
    err ← read_number
    hashes ← read_unsigned
    bpe ← read_number
    (bits, n2) ←
        (if encver == 0
          then pure (bits_of entries bpe, 0)
          else do bits ← read_unsigned; n2 ← read_unsigned; pure (bits, n2))
    bf ← read_module_string
    size ← read_unsigned
    pure (record {
      inner = record {
        hashes = hashes;
        n2 = n2;
        entries = entries;
        err = err;
        bpe = bpe;
        bf = bf;
        bits = bits;
      };
      size = size;
    })

  -- `LoadFromBuffer`
  unfoldable pub read_chain : ℕ → Read (Chain F)
  unfolding read_unsigned read_link collect read_module_eof
  read_chain encver = do
    size ← read_unsigned
    nfilters ← read_unsigned
    options ← if ltb encver 2 then pure 0 else read_unsigned
    growth ← if ltb encver 4 then pure 2 else read_unsigned
    filters ← collect nfilters (read_link encver)
    _ ← read_module_eof
    pure (record {
      filters = filters;
      size = size;
      nfilters = nfilters;
      options = options;
      growth = growth;
    })

module _ (F : Floats) where
  -- `getLinkPos` behind its `curIter--`.
  unfoldable pub find_link : ℕ → List (Link F) → ℕ → Option (Link F × ℕ)
  find_link seek_pos [] at = none
  find_link seek_pos (l ∷ ls) at =
      let next = (seek_pos + length l.inner.bf) % 2 ^ 64 in
      let later = find_link next ls at in
      if ltb at next then some (l, (at + 2 ^ 64 - seek_pos) % 2 ^ 64) else later

  unfoldable pub get_link_pos : List (Link F) → ℕ → Option (Link F × ℕ)
  unfolding find_link
  get_link_pos filters cur_iter = find_link 0 filters ((cur_iter + 2 ^ 64 - 1) % 2 ^ 64)

  abbrev pub chunk_of : ℕ → ℕ → Option (Link F × ℕ) → ℕ × Bytes
  chunk_of cur_iter max none = (0, [])
  chunk_of cur_iter max (some (pl, off)) =
      let left = (length pl.inner.bf + 2 ^ 64 - off) % 2 ^ 64 in
      let l = if ltb left max then left else max in
      ((cur_iter + l) % 2 ^ 64, take l (drop off pl.inner.bf))

  -- What `curIter` is afterwards, and the chunk.
  unfoldable pub get_encoded_chunk : List (Link F) → ℕ → ℕ → ℕ × Bytes
  unfolding get_link_pos
  get_encoded_chunk filters cur_iter max = chunk_of cur_iter max (get_link_pos filters cur_iter)

abbrev pub load_chunk : Bytes → ℕ × Bytes → Command
load_chunk key (iter, c) = codes "BF.LOADCHUNK" ∷ key ∷ format_uint iter ∷ c ∷ []

-- `MAX_SCANDUMP_SIZE`
abbrev pub max_scandump_size : ℕ
max_scandump_size = 10485760

-- `if c == "" { break }`, and the command.
abbrev pub unless_empty : Bytes → ℕ × Bytes → (ℕ → Emit) → Emit
unless_empty key (iter, []) k = done
unless_empty key (iter, c ∷ cs) k = send (load_chunk key (iter, c ∷ cs)) (k iter)

module _ (F : Floats) where
  -- `for { ... }` over the chunks, on fuel: a chunk has a byte at least.
  unfoldable pub send_chunks : Bytes → List (Link F) → ℕ → ℕ → Emit
  unfolding get_encoded_chunk
  send_chunks key filters zero cur_iter = stop out_of_fuel
  send_chunks key filters (suc fuel) cur_iter =
      unless_empty key (get_encoded_chunk F filters cur_iter max_scandump_size)
        λ iter. send_chunks key filters fuel iter
