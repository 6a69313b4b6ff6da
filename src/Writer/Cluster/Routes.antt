-- ===== src/Writer/Cluster/Routes.antt =====
-- Where an entry goes in a cluster.
use rdb_elasticache_migrator.Prelude.{
  ℕ, ◌+◌, ◌%◌, ◌<◌, ◌≡◌, refl, ap, ◌∙◌, Bool, true, false, ◌&&◌, some, List, [], ◌∷◌, map, ◌==◌,
  lt→ltb, arith, if◌then◌else◌,
}
use rdb_elasticache_migrator.Prelude.Int.{ℤ, pos}
use rdb_elasticache_migrator.Runtime.{Bytes, ok, panic, bad_format}
use rdb_elasticache_migrator.Runtime.Emit.{Each}
use rdb_elasticache_migrator.Commands.Slots.{crc16, calc_slots}
use rdb_elasticache_migrator.Commands.Slots.Tags.{HashPart, key_hash-HashPart}
use rdb_elasticache_migrator.Writer.Cluster.{
  key_slots, Router, load_cluster_nodes, last_slot, write,
}
use rdb_elasticache_migrator.Writer.Cluster.Owner.{Owns, load_cluster_nodes-Owns}

-- Whether all the slots are `n`.
pub all_equal : ℕ → List ℕ → Bool
all_equal n [] = true
all_equal n (m ∷ ms) = m == n && all_equal n ms

last_slot-map :
    (n : ℕ) (ms : List ℕ)
    → last_slot (pos n) (map pos ms) ≡ (if all_equal n ms then ok (pos n) else panic bad_format)
unfolding last_slot all_equal
last_slot-map n [] = refl
last_slot-map n (m ∷ ms) = ground (arith, last_slot-map n ms)

equal_to_self : (n : ℕ) → ((n + 0) == (n + 0)) ≡ true
equal_to_self n = ground arith

-- In a cluster that has started, an entry with keys is written to one writer, that of the node which owns
-- the slot of its first key, if all its keys have this slot; else the run ends.
pub write-Owns :
    (addrs : List Bytes) (slots : List (List ℤ)) (router : Router)
    → load_cluster_nodes addrs slots ≡ ok router
    → (n : ℕ) (ms : List ℕ) → n < key_slots
    → (k : ℕ) × Owns n k 0 addrs slots
      × (write addrs router (map pos (n ∷ ms))
          ≡ (if all_equal n ms then ok (k ∷ []) else panic bad_format))
unfolding write last_slot
write-Owns addrs slots router h n ms lt =
    let (k, e, own, only) = load_cluster_nodes-Owns addrs slots router h n lt in
    (k, own, routed k e (all_equal n ms) (last_slot-map n ms))
  where
    routed :
        (k : ℕ)
        → router n ≡ some k
        → (t : Bool) → last_slot (pos n) (map pos ms) ≡ (if t then ok (pos n) else panic bad_format)
        → write addrs router (map pos (n ∷ ms)) ≡ (if t then ok (k ∷ []) else panic bad_format)
    routed k e true f = rw (equal_to_self n, f, lt→ltb n key_slots lt, e) refl
    routed k e false f = rw (equal_to_self n, f) refl

all_equal-same :
    (n : ℕ) (keys : List Bytes) (part : Bytes)
    → n ≡ crc16 part % 16384
    → Each (λ key. HashPart key part) keys
    → all_equal n (calc_slots keys) ≡ true
unfolding all_equal calc_slots
all_equal-same n [] part e all = refl
all_equal-same n (key ∷ keys) part e (p, all) =
    ground (arith, key_hash-HashPart key part p, all_equal-same n keys part e all)

-- In a cluster that has started, the keys of an entry that share their hash tag bring the entry to one
-- writer, that of the node which owns the slot of the tag.
pub write-HashPart :
    (addrs : List Bytes) (slots : List (List ℤ)) (router : Router)
    → load_cluster_nodes addrs slots ≡ ok router
    → (key : Bytes) (keys : List Bytes) (part : Bytes) → Each (λ k. HashPart k part) (key ∷ keys)
    → (w : ℕ) × Owns (crc16 part % 16384) w 0 addrs slots
      × (write addrs router (map pos (calc_slots (key ∷ keys))) ≡ ok (w ∷ []))
unfolding calc_slots
write-HashPart addrs slots router h key keys part (p, all) =
    let slot = crc16 part % 16384 in
    let (w, own, e) = write-Owns addrs slots router h slot (calc_slots keys) (omega arith) in
    (
      w,
      own,
      ap (λ s. write addrs router (pos s ∷ map pos (calc_slots keys)))
            (key_hash-HashPart key part p)
          ∙ e
          ∙ ap (λ t. if t then ok (w ∷ []) else panic bad_format)
              (all_equal-same slot keys part refl all),
    )
