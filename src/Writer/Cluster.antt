-- ===== src/Writer/Cluster.antt =====
-- `RedisClusterWriter` of internal/writer/redis_cluster_writer.go. A writer is its position in the list
-- of the addresses; the addresses and the slots that `GetRedisClusterNodes` gives are arguments.
pub mod Owner
pub mod Routes
use rdb_elasticache_migrator.Prelude.{
  ℕ, zero, suc, ◌+◌, Bool, true, false, ◌&&◌, Option, none, some, List, [], ◌∷◌, ◌==◌, ltb,
  if◌then◌else◌, length,
}
use rdb_elasticache_migrator.Prelude.Int.{ℤ, pos, negsuc, eq_ℤ}
use rdb_elasticache_migrator.Runtime.{Bytes, Result, ok, panic, out_of_range, bad_format}
use rdb_elasticache_migrator.Runtime.Outcome.{◌>>=◌}

abbrev pub key_slots : ℕ
key_slots = 16384

-- The array of the writers by slot, `none` for nil.
abbrev pub Router : Type 0
Router = ℕ → Option ℕ

abbrev pub update : Router → ℕ → ℕ → Router
update router s writer = λ n. if n == s then some writer else router n

abbrev pub place : ℕ → ℕ → Router → Option ℕ → Result Router
place writer s router (some _) = panic bad_format
place writer s router none = ok (update router s writer)

-- `r.router[s] = redisWriter`
unfoldable pub occupy_slot : ℕ → ℤ → Router → Result Router
occupy_slot writer (negsuc _) router = panic out_of_range
occupy_slot writer (pos s) router =
    if ltb s key_slots then place writer s router (router s) else panic out_of_range

-- `for _, s := range slots[i]`
unfoldable pub occupy : ℕ → List ℤ → Router → Result Router
unfolding occupy_slot
occupy writer [] router = ok router
occupy writer (s ∷ slots) router = occupy_slot writer s router >>= occupy writer slots

-- `for i, address := range addresses`
unfoldable pub connect : ℕ → List Bytes → List (List ℤ) → Router → Result Router
unfolding occupy
connect i [] slots router = ok router
connect i (address ∷ addresses) [] router = panic out_of_range
connect i (address ∷ addresses) (own ∷ slots) router =
    occupy i own router >>= connect (suc i) addresses slots

abbrev pub is_some : Option ℕ → Bool
is_some none = false
is_some (some _) = true

-- Whether the first `n` slots have a writer.
unfoldable pub all_occupied : ℕ → Router → Bool
all_occupied zero router = true
all_occupied (suc n) router = is_some (router n) && all_occupied n router

abbrev pub checked : Router → Result Router
checked router = if all_occupied key_slots router then ok router else panic bad_format

unfoldable pub load_cluster_nodes : List Bytes → List (List ℤ) → Result Router
unfolding connect all_occupied
load_cluster_nodes addresses slots = connect 0 addresses slots (λ n. none) >>= checked

abbrev pub writers_from : ℕ → List Bytes → List ℕ
writers_from i [] = []
writers_from i (address ∷ addresses) = i ∷ writers_from (suc i) addresses

-- `for _, slot := range entry.Slots`, where -1 is no slot yet.
unfoldable pub last_slot : ℤ → List ℤ → Result ℤ
last_slot last [] = ok last
last_slot last (slot ∷ slots) =
    let last' = if eq_ℤ last (negsuc 0) then slot else last in
    let later = last_slot last' slots in if eq_ℤ slot last' then later else panic bad_format

abbrev pub found_writer : Option ℕ → Result (List ℕ)
found_writer none = panic out_of_range
found_writer (some writer) = ok (writer ∷ [])

-- `r.router[lastSlot].Write(entry)`
abbrev pub route : Router → ℤ → Result (List ℕ)
route router (negsuc _) = panic out_of_range
route router (pos s) = if ltb s key_slots then found_writer (router s) else panic out_of_range

-- The writers that an entry with these slots is written to.
unfoldable pub write : List Bytes → Router → List ℤ → Result (List ℕ)
unfolding last_slot
write addresses router [] = ok (writers_from 0 addresses)
write addresses router (slot ∷ slots) = last_slot (negsuc 0) (slot ∷ slots) >>= route router
