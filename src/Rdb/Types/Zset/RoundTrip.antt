-- ===== src/Rdb/Types/Zset/RoundTrip.antt =====
-- The commands of a saved sorted set.
use rdb_elasticache_migrator.Prelude.{
  ℕ, ◌%◌, ◌<◌, ◌^◌, ◌≡◌, refl, ap, false, ◌==◌, ltb, some, List, [], ◌∷◌, ◌++◌, map, flat_map,
  length, length-append, arith, append_assoc, codes,
}
use rdb_elasticache_migrator.Runtime.{Bytes, ok, read_full-append}
use rdb_elasticache_migrator.Runtime.Words.{to_little, little_endian-to_little}
use rdb_elasticache_migrator.Runtime.Emit.{Command, Each}
use rdb_elasticache_migrator.Rdb.Structure.Int.{read_uint8}
use rdb_elasticache_migrator.Rdb.Structure.Float.{Floats, read_text, read_float, read_double}
use rdb_elasticache_migrator.Rdb.Structure.Strings.RoundTrip.{
  Stored, IsStored, save, content, read_string-save,
}
use rdb_elasticache_migrator.Rdb.Types.Saved.{
  ZipNode, PackNode, IsZipNode, IsPackNode, zip_elements, pack_elements, read_ziplist-node,
  read_listpack-node, save_all, times-save_all,
}
use rdb_elasticache_migrator.Rdb.Types.Zset.{
  zadd, send_scores, even_scores, read_zset_ziplist, read_zset_listpack, zset_element,
  zset_element_2, read_zset, read_zset_2, rewrite_zset,
}

-- A member and its score, as texts.
pub record Scored : Type 0 where
  pub member : Bytes
  pub score : Bytes

abbrev pub flatten : List Scored → List Bytes
flatten [] = []
flatten (p ∷ ps) = p.member ∷ p.score ∷ flatten ps

abbrev pub add_scored : Bytes → Scored → Command
add_scored key p = zadd key p.score p.member

even-flatten : (ps : List Scored) → length (flatten ps) % 2 ≡ 0
even-flatten [] = refl
even-flatten (p ∷ ps) = omega (arith, even-flatten ps)

send_scores-flatten :
    (key : Bytes) (ps : List Scored) (rest : Bytes)
    → send_scores key (flatten ps) rest
      ≡ record { sent = map (add_scored key) ps; outcome = ok rest }
unfolding send_scores
send_scores-flatten key [] rest = refl
send_scores-flatten key (p ∷ ps) rest =
    ap (λ r. record { sent = add_scored key p ∷ r.sent; outcome = r.outcome })
      (send_scores-flatten key ps rest)

even_scores-flatten :
    (key : Bytes) (ps : List Scored) (rest : Bytes)
    → even_scores key (flatten ps) rest
      ≡ record { sent = map (add_scored key) ps; outcome = ok rest }
unfolding even_scores
even_scores-flatten key ps rest = rw (even-flatten ps) (send_scores-flatten key ps rest)

module _ (F : Floats) where
  -- `rdbSaveDoubleValue`: three values have a byte of their own, the others are texts.
  pub data SavedFloat : Type 0 where
    nan positive_inf negative_inf : SavedFloat
    text : Bytes → F.Float64 → SavedFloat

  abbrev pub IsSavedFloat : SavedFloat → Type 0
  IsSavedFloat (text s v) = (length s < 253) × (F.parse_float s ≡ some v)
  IsSavedFloat _ = Unit {0}

  abbrev pub save_float : SavedFloat → Bytes
  save_float nan = 253 ∷ []
  save_float positive_inf = 254 ∷ []
  save_float negative_inf = 255 ∷ []
  save_float (text s v) = length s ∷ s

  abbrev pub float_of : SavedFloat → F.Float64
  float_of nan = F.nan
  float_of positive_inf = F.positive_inf
  float_of negative_inf = F.negative_inf
  float_of (text s v) = v

  read_text-parse :
      (s rest : Bytes) (v : F.Float64)
      → F.parse_float s ≡ some v
      → read_text F (length s) (s ++ rest) ≡ ok (v, rest)
  unfolding read_text
  read_text-parse s rest v e =
      rw (long_enough s rest, read_full-append s rest (length s) refl, e) refl
    where
      long_enough : (s rest : Bytes) → ltb (length (s ++ rest)) (length s) ≡ false
      long_enough s rest = ground (arith, length-append s rest)

  short_text :
      (n : ℕ) → n < 253 → ((n == 253) ≡ false) × ((n == 254) ≡ false) × ((n == 255) ≡ false)
  short_text n h = (ground arith, ground arith, ground arith)

  -- The text, or the value of its own byte, is read back.
  pub read_float-save_float :
      (f : SavedFloat) (rest : Bytes)
      → IsSavedFloat f
      → read_float F (save_float f ++ rest) ≡ ok (float_of f, rest)
  unfolding read_float read_uint8
  read_float-save_float nan rest h = refl
  read_float-save_float positive_inf rest h = refl
  read_float-save_float negative_inf rest h = refl
  read_float-save_float (text s v) rest (few, e) =
      let (a, b, c) = short_text (length s) few in rw (a, b, c, read_text-parse s rest v e) refl

  -- A member with its score: as a text, and as the 64 bits of the float.
  pub record Member : Type 0 where
    pub member : Stored
    pub score : SavedFloat

  pub record Member2 : Type 0 where
    pub member : Stored
    pub bits : ℕ

  -- The four forms of a sorted set in the file.
  pub data SavedZset : Type 0 where
    zset : List Member → SavedZset
    zset_2 : List Member2 → SavedZset
    one_ziplist : ZipNode → List Scored → SavedZset
    one_listpack : PackNode → List Scored → SavedZset

  abbrev pub IsMember : Member → Type 0
  IsMember m = IsStored m.member × IsSavedFloat m.score

  abbrev pub IsMember2 : Member2 → Type 0
  IsMember2 m = IsStored m.member × (m.bits < 2 ^ 64)

  abbrev pub IsSavedZset : SavedZset → Type 0
  IsSavedZset (zset ms) = Each IsMember ms × (length ms < 2 ^ 63)
  IsSavedZset (zset_2 ms) = Each IsMember2 ms × (length ms < 2 ^ 63)
  IsSavedZset (one_ziplist n ps) = IsZipNode n × (zip_elements n ≡ flatten ps)
  IsSavedZset (one_listpack n ps) = IsPackNode n × (pack_elements n ≡ flatten ps)

  abbrev pub type_byte : SavedZset → ℕ
  type_byte (zset _) = 3
  type_byte (zset_2 _) = 5
  type_byte (one_ziplist _ _) = 12
  type_byte (one_listpack _ _) = 17

  abbrev pub save_member : Member → Bytes
  save_member m = save m.member ++ save_float m.score

  abbrev pub save_member_2 : Member2 → Bytes
  save_member_2 m = save m.member ++ to_little 8 m.bits

  abbrev pub save_zset : SavedZset → Bytes
  save_zset (zset ms) = save_all save_member ms
  save_zset (zset_2 ms) = save_all save_member_2 ms
  save_zset (one_ziplist n ps) = save n.text
  save_zset (one_listpack n ps) = save n.text

  abbrev pub add_member : Bytes → Member → Command
  add_member key m = zadd key (F.format_17g (float_of m.score)) (content m.member)

  abbrev pub add_member_2 : Bytes → Member2 → Command
  add_member_2 key m = zadd key (F.format_17g (F.from_bits m.bits)) (content m.member)

  abbrev pub commands : Bytes → SavedZset → List Command
  commands key (zset ms) = flat_map (λ m. add_member key m ∷ []) ms
  commands key (zset_2 ms) = flat_map (λ m. add_member_2 key m ∷ []) ms
  commands key (one_ziplist n ps) = map (add_scored key) ps
  commands key (one_listpack n ps) = map (add_scored key) ps

  zset_element-save :
      (key : Bytes) (m : Member) (rest : Bytes)
      → IsMember m
      → zset_element F key (save_member m ++ rest)
        ≡ record { sent = add_member key m ∷ []; outcome = ok rest }
  unfolding zset_element
  zset_element-save key m rest (s, f) =
      rw
        (
          append_assoc,
          read_string-save m.member (save_float m.score ++ rest) s,
          read_float-save_float m.score rest f,
        )
        refl

  pub double-read :
      (bits : ℕ) (rest : Bytes)
      → bits < 2 ^ 64
      → read_double F (to_little 8 bits ++ rest) ≡ ok (F.from_bits bits, rest)
  unfolding read_double to_little
  double-read bits rest h = rw (little_endian-to_little 8 bits h) refl

  zset_element_2-save :
      (key : Bytes) (m : Member2) (rest : Bytes)
      → IsMember2 m
      → zset_element_2 F key (save_member_2 m ++ rest)
        ≡ record { sent = add_member_2 key m ∷ []; outcome = ok rest }
  unfolding zset_element_2
  zset_element_2-save key m rest (s, f) =
      rw
        (
          append_assoc,
          read_string-save m.member (to_little 8 m.bits ++ rest) s,
          double-read m.bits rest f,
        )
        refl

  -- A sorted set in any of the four forms of the file is written again as a `del` of the key and one
  -- `zadd` for each member, in the order of the file, with the text of its score. What follows it in the
  -- file is left unread.
  pub rewrite_zset-save :
      (key : Bytes) (v : SavedZset) (rest : Bytes)
      → IsSavedZset v
      → rewrite_zset F key (type_byte v) (save_zset v ++ rest)
        ≡ record { sent = (codes "del" ∷ key ∷ []) ∷ commands key v; outcome = ok rest }
  unfolding rewrite_zset read_zset read_zset_2 read_zset_ziplist read_zset_listpack
  rewrite_zset-save key (zset ms) rest (all, few) =
      rw
        (times-save_all IsMember save_member (λ m. add_member key m ∷ []) (zset_element F key) ms
          rest all few (zset_element-save key))
        refl
  rewrite_zset-save key (zset_2 ms) rest (all, few) =
      rw
        (times-save_all IsMember2 save_member_2 (λ m. add_member_2 key m ∷ [])
          (zset_element_2 F key) ms rest all few (zset_element_2-save key))
        refl
  rewrite_zset-save key (one_ziplist n ps) rest (h, e) =
      rw (read_ziplist-node n rest h, e, even_scores-flatten key ps rest) refl
  rewrite_zset-save key (one_listpack n ps) rest (h, e) =
      rw (read_listpack-node n rest h, e, even_scores-flatten key ps rest) refl
