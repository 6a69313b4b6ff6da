-- ===== src/Tests/Writer.antt =====
-- internal/writer.
use rdb_elasticache_migrator.Prelude.{
  ℕ, zero, suc, ◌+◌, ◌%◌, ◌≤◌, ◌<◌, ◌≡◌, ◌↔◌, refl, true, false, none, some, List, [], ◌∷◌, ◌++◌,
  ◌==◌, map, lt→ltb, Bool-cases, inl, inr, arith, codes,
}
use rdb_elasticache_migrator.Prelude.Int.{ℤ, pos}
use rdb_elasticache_migrator.Runtime.{ok}
use rdb_elasticache_migrator.Runtime.Emit.{Each}
use rdb_elasticache_migrator.Runtime.Strings.{equal, equal_refl, nothing, also}
use rdb_elasticache_migrator.Commands.Slots.{crc16, calc_slots}
use rdb_elasticache_migrator.Commands.Slots.Tags.{plain}
use rdb_elasticache_migrator.Writer.Standalone.{
  Entry, select, entry, Options, ready, idle, fine, Writer, new_writer, Event, comes, write_on,
  takes, answers, step, Run, begin, next, status_consistent,
}
use rdb_elasticache_migrator.Writer.Standalone.Counts.{count, weight}
use rdb_elasticache_migrator.Writer.Standalone.Accounts.{
  Proper, unanswered-outstanding, unanswered-bounded, status_consistent-answered,
}
use rdb_elasticache_migrator.Writer.Standalone.Databases.{behind, served, served-came}
use rdb_elasticache_migrator.Writer.Standalone.Selects.{
  one_by_one, still_counted, still_counted-Run,
}
use rdb_elasticache_migrator.Writer.Cluster.{
  Router, update, occupy_slot, occupy, connect, all_occupied, load_cluster_nodes, write,
}
use rdb_elasticache_migrator.Writer.Cluster.Owner.{Owns, load_cluster_nodes-Owns}
use rdb_elasticache_migrator.Writer.Cluster.Routes.{write-HashPart}

abbrev ping : Entry
ping = record { db_id = pos 3; argv = codes "PING" ∷ []; cmd_name = codes "PING" }

abbrev opt : Options
opt = record { off_reply = false; capacity = 4; max_querybuf_len = 100; behavior = codes "panic" }

abbrev size : Entry → ℕ
size e = 14

-- An entry of another database is sent with a select and counted; its reply has not come.
abbrev sent_events : List Event
sent_events =
    comes ping
    ∷ write_on
    ∷ write_on
    ∷ write_on
    ∷ write_on
    ∷ write_on
    ∷ write_on
    ∷ takes
    ∷ answers fine
    ∷ []

abbrev sent_writer : Writer
sent_writer = record {
  write = ready;
  reply = idle;
  shared = record {
    db_id = pos 3;
    unanswered_bytes = pos 14;
    unanswered_entries = pos 1;
    wait_reply = ping ∷ [];
    sent = select (pos 3) ∷ entry ping ∷ [];
    replies = 1;
  };
}

sent_Run : Run equal size opt new_writer sent_events sent_writer
unfolding step equal
sent_Run = next refl (
    next refl
      (next refl (next refl (next refl (next refl (next refl (next refl (next refl begin))))))))

sent_Proper : Each (Proper equal size opt) sent_events
unfolding equal
sent_Proper = (refl, (tt, (tt, (tt, (tt, (tt, (tt, (tt, (tt, tt)))))))))

unanswered-outstanding_example :
    (b : ℕ) × (n : ℕ) × (pos 14 ≡ pos b)
    × (pos 1 ≡ pos n)
    × (b + 0 ≡ weight equal size opt (ping ∷ []) + 0)
    × (n + 0 ≡ count equal size opt (ping ∷ []) + 0)
unanswered-outstanding_example =
    unanswered-outstanding equal size opt refl (equal_refl (codes "select")) sent_events sent_writer
      sent_Proper sent_Run

unanswered-bounded_example : (b : ℕ) × (pos 14 ≡ pos b) × (b ≤ 100)
unanswered-bounded_example =
    unanswered-bounded equal size opt refl (equal_refl (codes "select")) sent_events sent_writer
      sent_Proper sent_Run

status_consistent-answered_example :
    (status_consistent sent_writer ≡ true) ↔ (count equal size opt (ping ∷ []) ≡ 0)
status_consistent-answered_example =
    status_consistent-answered equal size opt refl (equal_refl (codes "select")) (λ e. omega arith)
      sent_events sent_writer sent_Proper sent_Run refl refl

served-came_example :
    served (behind equal size opt (λ argv. pos 0)) (pos 0) (select (pos 3) ∷ entry ping ∷ []) ++ []
    ≡ (pos 3, codes "PING" ∷ []) ∷ []
served-came_example =
    served-came equal size opt (λ argv. pos 0) sent_events sent_writer sent_Proper sent_Run

abbrev select_0 : Entry
select_0 = record {
  db_id = pos 0;
  argv = codes "SELECT" ∷ codes "0" ∷ [];
  cmd_name = codes "select";
}

still_counted-Run_example :
    Run equal size opt new_writer (one_by_one select_0) (still_counted equal size opt select_0)
still_counted-Run_example =
    still_counted-Run equal size opt select_0 (equal_refl (codes "select")) refl (omega arith) refl
      (omega arith)

-- A cluster of one node with every slot.
down : ℕ → List ℤ
down zero = []
down (suc m) = pos m ∷ down m

fill : ℕ → Router → Router
fill zero router = router
fill (suc m) router = fill m (update router m 0)

occupy-down :
    (m : ℕ) (router : Router)
    → m ≤ 16384
    → ((n : ℕ) → n < m → router n ≡ none)
    → occupy 0 (down m) router ≡ ok (fill m router)
unfolding occupy_slot occupy down fill
occupy-down zero router h free = refl
occupy-down (suc m) router h free =
    rw (lt→ltb m 16384 (omega arith), free m (omega arith))
      (occupy-down m (update router m 0) (omega arith)
        (λ n lt. rw (other n m lt) (free n (omega arith))))
  where
    other : (n m : ℕ) → n < m → (n == m) ≡ false
    other n m lt = ground arith

fill_keeps : (m : ℕ) (router : Router) (n : ℕ) → router n ≡ some 0 → fill m router n ≡ some 0
unfolding fill
fill_keeps zero router n e = e
fill_keeps (suc m) router n e = fill_keeps m (update router m 0) n (ground arith)

fill-some : (m : ℕ) (router : Router) (n : ℕ) → n < m → fill m router n ≡ some 0
unfolding fill
fill-some zero router n lt = absurd (omega arith)
fill-some (suc m) router n lt = elim (Bool-cases (n == m)) [
  | inl t ↦ fill_keeps m (update router m 0) n (rw (t) refl)
  | inr t ↦ fill-some m (update router m 0) n (ground arith)
]

all_occupied-fill : (j m : ℕ) (router : Router) → j ≤ m → all_occupied j (fill m router) ≡ true
unfolding all_occupied
all_occupied-fill zero m router h = refl
all_occupied-fill (suc j) m router h =
    rw (fill-some m router j (omega arith), all_occupied-fill j m router (omega arith)) refl

abbrev one_router : Router
one_router = fill 16384 (λ n. none)

one_node_loads : load_cluster_nodes (codes "a:1" ∷ []) (down 16384 ∷ []) ≡ ok one_router
unfolding load_cluster_nodes connect
one_node_loads =
    rw
      (
        occupy-down 16384 (λ n. none) (omega arith) (λ n lt. refl),
        all_occupied-fill 16384 16384 (λ n. none) (omega arith),
      )
      refl

load_cluster_nodes-Owns_example :
    (k : ℕ) × (one_router 5 ≡ some k)
    × Owns 5 k 0 (codes "a:1" ∷ []) (down 16384 ∷ [])
    × ((j : ℕ) → Owns 5 j 0 (codes "a:1" ∷ []) (down 16384 ∷ []) → j ≡ k)
load_cluster_nodes-Owns_example =
    load_cluster_nodes-Owns (codes "a:1" ∷ []) (down 16384 ∷ []) one_router one_node_loads 5
      (omega arith)

write-HashPart_example :
    (w : ℕ) × Owns (crc16 (codes "k") % 16384) w 0 (codes "a:1" ∷ []) (down 16384 ∷ [])
    × (write (codes "a:1" ∷ []) one_router (map pos (calc_slots (codes "k" ∷ []))) ≡ ok (w ∷ []))
write-HashPart_example =
    write-HashPart (codes "a:1" ∷ []) (down 16384 ∷ []) one_router one_node_loads (codes "k") []
      (codes "k") (plain (also (omega arith) nothing), tt)
