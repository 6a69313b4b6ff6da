-- ===== src/Tests/Utils.antt =====
-- internal/utils/UniqueQueue.go.
use rdb_elasticache_migrator.Prelude.{◌≡◌, ◌≢◌, true, List, [], ◌∷◌}
use rdb_elasticache_migrator.Utils.Queue.{
  received, finished, UniqueQueue, new_queue, Event, puts, sends, forwards, run,
}
use rdb_elasticache_migrator.Utils.Queue.Unique.{All, run-All}
use rdb_elasticache_migrator.Utils.Queue.Drained.{forward_by, forward_by-drained}

-- 5 and 6 are put, 5 again before it has come out, and again behind that.
abbrev events : List Event
events =
    puts 5
    ∷ puts 6
    ∷ sends 1
    ∷ puts 5
    ∷ sends 0
    ∷ forwards
    ∷ forwards
    ∷ puts 5
    ∷ sends 0
    ∷ forwards
    ∷ []

run-All_example : All (run 2 events new_queue)
run-All_example = run-All 2 events

abbrev a_queue : UniqueQueue
a_queue = record new_queue { inner_channel = 6 ∷ 7 ∷ []; phase = received 5; set = λ x. true }

other_phase : received 5 ≢ finished
other_phase e = cc

forward_by-drained_example : (forward_by 8 a_queue).taken ≡ 5 ∷ 6 ∷ 7 ∷ []
unfolding new_queue
forward_by-drained_example = forward_by-drained a_queue other_phase
