-- ===== src/Rdb/Types/Saved.antt =====
-- Values as Redis saves them, in front of what is left of the file.
use rdb_elasticache_migrator.Prelude.{
  ℕ, ◌<◌, ◌^◌, ◌≡◌, refl, List, [], ◌∷◌, ◌++◌, map, flat_map, length, arith, append_assoc,
}
use rdb_elasticache_migrator.Prelude.Int.{signed}
use rdb_elasticache_migrator.Runtime.{Bytes, ok}
use rdb_elasticache_migrator.Runtime.Emit.{
  Command, Emit, reading, times, rounds, Each, times-flat_map,
}
use rdb_elasticache_migrator.Rdb.Structure.Length.{read_length}
use rdb_elasticache_migrator.Rdb.Structure.Length.RoundTrip.{
  encode_length, read_length-encode_length,
}
use rdb_elasticache_migrator.Rdb.Structure.Strings.RoundTrip.{Stored, IsStored, save, content}
use rdb_elasticache_migrator.Rdb.Structure.Listpack
use rdb_elasticache_migrator.Rdb.Structure.Listpack.{read_listpack}
use rdb_elasticache_migrator.Rdb.Structure.Listpack.RoundTrip.{listpack, read_listpack-listpack}
use rdb_elasticache_migrator.Rdb.Structure.Ziplist
use rdb_elasticache_migrator.Rdb.Structure.Ziplist.{read_ziplist}
use rdb_elasticache_migrator.Rdb.Structure.Ziplist.RoundTrip.{ziplist, read_ziplist-ziplist}

-- A ziplist and a listpack in a string.
pub record ZipNode : Type 0 where
  pub text : Stored
  pub bytes : ℕ
  pub last : ℕ
  pub values : List Ziplist.Entry.Value

pub record PackNode : Type 0 where
  pub text : Stored
  pub bytes : ℕ
  pub entries : List Listpack.Entry.Entry

abbrev pub IsZipNode : ZipNode → Type 0
IsZipNode n =
    IsStored n.text
    × Ziplist.RoundTrip.AllEntries 0 n.values
    × (length n.values < 65535)
    × (content n.text ≡ ziplist n.bytes n.last (length n.values) n.values)

abbrev pub IsPackNode : PackNode → Type 0
IsPackNode n =
    IsStored n.text
    × Listpack.RoundTrip.AllEntries n.entries
    × (length n.entries < 65535)
    × (content n.text ≡ listpack n.bytes (length n.entries) n.entries)

abbrev pub zip_elements : ZipNode → List Bytes
zip_elements n = map Ziplist.Entry.render n.values

abbrev pub pack_elements : PackNode → List Bytes
pack_elements n = map Listpack.Entry.render n.entries

pub read_ziplist-node :
    (n : ZipNode) (rest : Bytes)
    → IsZipNode n
    → read_ziplist (save n.text ++ rest) ≡ ok (zip_elements n, rest)
read_ziplist-node n rest (a, b, c, e) =
    read_ziplist-ziplist n.text n.bytes n.last n.values rest a b c e

pub read_listpack-node :
    (n : PackNode) (rest : Bytes)
    → IsPackNode n
    → read_listpack (save n.text ++ rest) ≡ ok (pack_elements n, rest)
read_listpack-node n rest (a, b, c, e) =
    read_listpack-listpack n.text n.bytes n.entries rest a b c e

-- A count and as many values.
unfoldable pub save_all {ℓ} : {A : Type ℓ} → (A → Bytes) → List A → Bytes
save_all encode xs = encode_length (length xs) ++ flat_map encode xs

pub rounds-signed : (n : ℕ) → n < 2 ^ 63 → rounds (signed 64 n) ≡ n
rounds-signed n h = ground arith

pub times-save_all {ℓ} :
    {A : Type ℓ} (P : A → Type 0) (encode : A → Bytes) (cmds : A → List Command) (body : Emit)
    (xs : List A) (rest : Bytes)
    → Each P xs
    → length xs < 2 ^ 63
    → ((x : A) (more : Bytes)
        → P x
        → body (encode x ++ more) ≡ record { sent = cmds x; outcome = ok more })
    → reading read_length
        (λ size. times (rounds (signed 64 size)) body)
        (save_all encode xs ++ rest)
      ≡ record { sent = flat_map cmds xs; outcome = ok rest }
unfolding save_all
times-save_all P encode cmds body xs rest q few h =
    rw
      (
        append_assoc,
        read_length-encode_length (length xs) (flat_map encode xs ++ rest) (omega arith),
        rounds-signed (length xs) few,
      )
      (times-flat_map P encode cmds body xs rest q h)

map-append : (f : Bytes → Command) (xs ys : List Bytes) → map f (xs ++ ys) ≡ map f xs ++ map f ys
map-append f [] ys = refl
map-append f (x ∷ xs) ys = rw (map-append f xs ys) refl

pub flat_map-map :
    {A : Type 0} (f : Bytes → Command) (g : A → List Bytes) (xs : List A)
    → flat_map (λ x. map f (g x)) xs ≡ map f (flat_map g xs)
unfolding flat_map
flat_map-map f g [] = refl
flat_map-map f g (x ∷ xs) = rw (map-append f (g x) (flat_map g xs), flat_map-map f g xs) refl
