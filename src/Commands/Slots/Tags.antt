-- ===== src/Commands/Slots/Tags.antt =====
-- The slot of a key against the rule of the Redis Cluster specification.
use rdb_elasticache_migrator.Prelude.{
  ℕ, ◌%◌, ◌≡◌, refl, ◌∙◌, ap, some, none, [], ◌∷◌, ◌++◌, arith, length, lt→ltb,
}
use rdb_elasticache_migrator.Prelude.Digits.{mask_14}
use rdb_elasticache_migrator.Runtime.{Bytes}
use rdb_elasticache_migrator.Runtime.Strings.{Without, nothing, also}
use rdb_elasticache_migrator.Commands.Slots.{crc16, up_to_close, find_hash_tag, key_hash, or_later}

-- What is hashed of a key, by the specification: what stands between the first `{` and the first `}`
-- behind it, when that is not empty, and else the whole key.
pub data HashPart : Bytes → Bytes → Type 0 where
  tagged :
      {before : Bytes} {b : ℕ} {tag : Bytes} (after : Bytes)
      → Without b'{' before
      → Without b'}' (b ∷ tag)
      → HashPart (before ++ (b'{' ∷ ((b ∷ tag) ++ (b'}' ∷ after)))) (b ∷ tag)
  empty_tag :
      {before : Bytes} (after : Bytes)
      → Without b'{' before
      → HashPart (before ++ b'{' ∷ b'}' ∷ after) (before ++ b'{' ∷ b'}' ∷ after)
  unclosed :
      {before rest : Bytes}
      → Without b'{' before
      → Without b'}' rest
      → HashPart (before ++ b'{' ∷ rest) (before ++ b'{' ∷ rest)
  plain : {key : Bytes} → Without b'{' key → HashPart key key

up_to_close-append :
    {tag : Bytes} (after : Bytes) → Without b'}' tag → up_to_close (tag ++ b'}' ∷ after) ≡ some tag
unfolding up_to_close
up_to_close-append after nothing = refl
up_to_close-append after (also p ps) = ground (arith, up_to_close-append after ps)

up_to_close-Without : {rest : Bytes} → Without b'}' rest → up_to_close rest ≡ none
unfolding up_to_close
up_to_close-Without nothing = refl
up_to_close-Without (also p ps) = ground (arith, up_to_close-Without ps)

find_hash_tag-append :
    {before : Bytes} (key : Bytes)
    → Without b'{' before
    → find_hash_tag (before ++ key) ≡ find_hash_tag key
unfolding find_hash_tag
find_hash_tag-append key nothing = refl
find_hash_tag-append key (also p ps) = ground (arith, find_hash_tag-append key ps)

find_hash_tag-Without : {key : Bytes} → Without b'{' key → find_hash_tag key ≡ []
unfolding find_hash_tag
find_hash_tag-Without nothing = refl
find_hash_tag-Without (also p ps) = ground (arith, find_hash_tag-Without ps)

-- Without a `}` no `{` opens a tag.
find_hash_tag-unclosed : {key : Bytes} → Without b'}' key → find_hash_tag key ≡ []
unfolding find_hash_tag
find_hash_tag-unclosed nothing = refl
find_hash_tag-unclosed (also p ps) =
    ground (arith, find_hash_tag-unclosed ps, up_to_close-Without ps)

-- At the first `{`.
find_hash_tag-open :
    (rest : Bytes) → find_hash_tag (b'{' ∷ rest) ≡ or_later (up_to_close rest) (find_hash_tag rest)
unfolding find_hash_tag
find_hash_tag-open rest = refl

key_hash-tag :
    (key : Bytes) (b : ℕ) (tag : Bytes)
    → find_hash_tag key ≡ b ∷ tag
    → key_hash key ≡ crc16 (b ∷ tag) % 16384
unfolding key_hash
key_hash-tag key b tag h =
    rw (h, lt→ltb 0 (length (b ∷ tag)) (omega arith)) (mask_14 (crc16 (b ∷ tag)))

key_hash-no_tag : (key : Bytes) → find_hash_tag key ≡ [] → key_hash key ≡ crc16 key % 16384
unfolding key_hash
key_hash-no_tag key h = rw (h) (mask_14 (crc16 key))

-- The slot of a key is the CRC16 of the part of it that the Redis Cluster specification names, modulo
-- 16384: the text between the first `{` and the first `}` behind it when that text is not empty, and
-- the whole key when there is no `{`, no `}` behind the first `{`, or nothing between the two.
pub key_hash-HashPart : (key part : Bytes) → HashPart key part → key_hash key ≡ crc16 part % 16384
key_hash-HashPart key part (tagged {before} {b} {tag} after w v) = key_hash-tag key b tag (
    find_hash_tag-append (b'{' ∷ ((b ∷ tag) ++ (b'}' ∷ after))) w
    ∙ find_hash_tag-open ((b ∷ tag) ++ b'}' ∷ after)
    ∙ ap (λ t. or_later t (find_hash_tag ((b ∷ tag) ++ b'}' ∷ after))) (up_to_close-append after v))
key_hash-HashPart key part (empty_tag after w) = key_hash-no_tag key (
    find_hash_tag-append (b'{' ∷ b'}' ∷ after) w
    ∙ find_hash_tag-open (b'}' ∷ after)
    ∙ ap (λ t. or_later t (find_hash_tag (b'}' ∷ after))) (up_to_close-append after nothing))
key_hash-HashPart key part (unclosed {before} {rest} w v) = key_hash-no_tag key (
    find_hash_tag-append (b'{' ∷ rest) w
    ∙ find_hash_tag-open rest
    ∙ rw (up_to_close-Without v, find_hash_tag-unclosed v) refl)
key_hash-HashPart key part (plain w) = key_hash-no_tag key (find_hash_tag-Without w)
