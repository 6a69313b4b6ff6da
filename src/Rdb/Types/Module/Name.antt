-- ===== src/Rdb/Types/Module/Name.antt =====
-- The name in the id of a module type (internal/rdb/types/interface.go).
use mathlib.Core.Path.{subst}
use rdb_elasticache_migrator.Prelude.{
  ℕ, suc, ◌+◌, ◌*◌, ◌/◌, ◌<◌, ◌≡◌, ◌∙◌, append-nil, refl, arith, List, [], ◌∷◌, ◌++◌, map, length,
  bit_and,
}
use rdb_elasticache_migrator.Prelude.Digits.{mask_6, mask_10}
use rdb_elasticache_migrator.Runtime.{Bytes}
use rdb_elasticache_migrator.Runtime.Emit.{Each}
use rdb_elasticache_migrator.Rdb.Types.Module.{char_of, name_chars, module_type_name_by_id}

-- The places of the characters, six bits each with the first the highest, and ten bits of the version.
abbrev pub pack : ℕ → List ℕ → ℕ
pack acc [] = acc
pack acc (p ∷ ps) = pack (acc * 64 + p) ps

abbrev pub encode_id : List ℕ → ℕ → ℕ
encode_id places version = pack 0 places * 1024 + version

last_place : (a p : ℕ) → p < 64 → bit_and (a * 64 + p) 63 ≡ p
last_place a p h = omega (arith, mask_6 (a * 64 + p))

before_last : (a p : ℕ) → p < 64 → (a * 64 + p) / 64 ≡ a
before_last a p h = omega arith

nothing_later : (k : ℕ) → 0 + k ≡ k
nothing_later k = omega arith

suc_later : (n k : ℕ) → suc n + k ≡ n + suc k
suc_later n k = omega arith

name_chars-pack :
    (ps : List ℕ) (k a : ℕ) (name : Bytes)
    → Each (λ p. p < 64) ps
    → name_chars (length ps + k) (pack a ps) name ≡ name_chars k a (map char_of ps ++ name)
unfolding name_chars
name_chars-pack [] k a name h = rw (nothing_later k) refl
name_chars-pack (p ∷ ps) k a name (h, hs) =
    rw
      (
        suc_later (length ps) k,
        name_chars-pack ps (suc k) (a * 64 + p) name hs,
        before_last a p h,
        last_place a p h,
      )
      refl

nine_in_all : (n : ℕ) → n ≡ 9 → n + 0 ≡ 9
nine_in_all n h = omega arith

name_of_id : (a version : ℕ) → version < 1024 → (a * 1024 + version) / 1024 ≡ a
name_of_id a version h = omega arith

-- The id of nine characters and a version below 1024 gives the characters and the version back.
pub module_type_name_by_id-encode_id :
    (places : List ℕ) (version : ℕ)
    → length places ≡ 9
    → Each (λ p. p < 64) places
    → version < 1024
    → (module_type_name_by_id (encode_id places version) ≡ map char_of places)
      × (bit_and (encode_id places version) 1023 ≡ version)
unfolding module_type_name_by_id name_chars
module_type_name_by_id-encode_id places version nine all h = (
  rw (name_of_id (pack 0 places) version h) (
      subst (λ n. name_chars n (pack 0 places) [] ≡ map char_of places)
        (nine_in_all (length places) nine)
        (name_chars-pack places 0 0 [] all ∙ append-nil (map char_of places))),
  omega (arith, mask_10 (encode_id places version)),
)
