-- ===== src/Utils/Queue.antt =====
-- internal/utils/UniqueQueue.go. A run is a list of events in any order: `Put` takes two of them, the section behind
-- its lock and the send to the inner channel, which waits while the channel is full. An item is a number: only
-- its equality is asked for.
pub mod Unique
pub mod Drained
use rdb_elasticache_migrator.Prelude.{
  ℕ, zero, suc, ◌==◌, ltb, Bool, true, false, not, if◌then◌else◌, Option, none, some, List, [], ◌∷◌,
  ◌++◌, length,
}
use rdb_elasticache_migrator.Runtime.{Fault, Result, ok, panic, closed_channel}

-- The goroutine: at its receive, in front of its `delete`, and at its send.
pub data Phase : Type 0 where
  idle : Phase
  received : ℕ → Phase
  deleted : ℕ → Phase
  finished : Phase

-- The callers of `Put` that wait to send, the two channels, the map and the goroutine. What was taken from
-- `Ch` is kept.
pub record UniqueQueue : Type 0 where
  pub putting : List ℕ
  pub inner_channel : List ℕ
  pub set : ℕ → Bool
  pub closed : Bool
  pub phase : Phase
  pub taken : List ℕ

unfoldable pub new_queue : UniqueQueue
new_queue = record {
  putting = [];
  inner_channel = [];
  set = λ x. false;
  closed = false;
  phase = idle;
  taken = [];
}

abbrev pub marked : ℕ → Bool → (ℕ → Bool) → ℕ → Bool
marked item b set x = if x == item then b else set x

-- `Put` behind its lock.
unfoldable pub put : ℕ → UniqueQueue → UniqueQueue
put item q =
    if q.set item then q else record q { set = marked item true q.set; putting = item ∷ q.putting }

-- One of those that wait, and the others.
abbrev pub with_front : ℕ → Option (ℕ × List ℕ) → Option (ℕ × List ℕ)
with_front x none = none
with_front x (some (y, ys)) = some (y, x ∷ ys)

unfoldable pub pick : ℕ → List ℕ → Option (ℕ × List ℕ)
pick i [] = none
pick zero (x ∷ xs) = some (x, xs)
pick (suc i) (x ∷ xs) = with_front x (pick i xs)

-- `mc.innerChannel <- item`
abbrev pub enqueue : ℕ → UniqueQueue → Option (ℕ × List ℕ) → Result UniqueQueue
enqueue size q none = ok q
enqueue size q (some (item, others)) =
    if q.closed
    then panic closed_channel
    else if ltb (length q.inner_channel) size
    then ok (record q { putting = others; inner_channel = q.inner_channel ++ item ∷ [] })
    else ok q

-- The next step of the goroutine, with a receiver of `Ch` at hand; it waits at an empty channel.
abbrev pub receive : UniqueQueue → List ℕ → UniqueQueue
receive q [] = if q.closed then record q { phase = finished } else q
receive q (item ∷ items) = record q { inner_channel = items; phase = received item }

abbrev pub in_phase : UniqueQueue → Phase → UniqueQueue
in_phase q idle = receive q q.inner_channel
in_phase q (received item) = record q { set = marked item false q.set; phase = deleted item }
in_phase q (deleted item) = record q { taken = q.taken ++ item ∷ []; phase = idle }
in_phase q finished = q

unfoldable pub forward : UniqueQueue → UniqueQueue
forward q = in_phase q q.phase

pub data Event : Type 0 where
  puts : ℕ → Event
  sends : ℕ → Event
  forwards : Event
  closes : Event

-- `NewUniqueQueue(size)` fixes `size`.
unfoldable pub step : ℕ → Event → UniqueQueue → Result UniqueQueue
step size (puts item) q = ok (put item q)
step size (sends i) q = enqueue size q (pick i q.putting)
step size forwards q = ok (forward q)
step size closes q = if q.closed then panic closed_channel else ok (record q { closed = true })

abbrev pub then_run : Result UniqueQueue → (UniqueQueue → Result UniqueQueue) → Result UniqueQueue
then_run (ok q) k = k q
then_run (panic e) k = panic e

unfoldable pub run : ℕ → List Event → UniqueQueue → Result UniqueQueue
run size [] q = ok q
run size (e ∷ es) q = then_run (step size e q) (run size es)
