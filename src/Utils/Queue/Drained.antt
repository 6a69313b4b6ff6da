-- ===== src/Utils/Queue/Drained.antt =====
-- All that is in the queue comes out, in its order (internal/utils/UniqueQueue.go).
use rdb_elasticache_migrator.Prelude.{
  false, ℕ, zero, suc, ◌+◌, ◌*◌, ◌≡◌, ◌≢◌, false, refl, sym, ◌∙◌, arith, List, [], ◌∷◌, ◌++◌,
  length, append_assoc, append-nil,
}
use rdb_elasticache_migrator.Utils.Queue.{
  Phase, idle, received, deleted, finished, UniqueQueue, marked, forward,
}

-- That many steps of the goroutine, with a receiver at hand each time.
abbrev pub forward_by : ℕ → UniqueQueue → UniqueQueue
forward_by zero q = q
forward_by (suc n) q = forward_by n (forward q)

abbrev pub in_hand : Phase → List ℕ
in_hand idle = []
in_hand (received item) = item ∷ []
in_hand (deleted item) = item ∷ []
in_hand finished = []

abbrev pub steps_left : Phase → ℕ
steps_left idle = 0
steps_left (received _) = 2
steps_left (deleted _) = 1
steps_left finished = 0

three : (n : ℕ) → suc n * 3 ≡ suc (suc (suc (n * 3)))
three n = omega arith

zero_more : (n : ℕ) → 0 + n ≡ n
zero_more n = omega arith

one_more : (n : ℕ) → 1 + n ≡ suc n
one_more n = omega arith

two_more : (n : ℕ) → 2 + n ≡ suc (suc n)
two_more n = omega arith

from_idle :
    (items : List ℕ) (q : UniqueQueue)
    → q.inner_channel ≡ items
    → q.phase ≡ idle
    → (forward_by (length items * 3) q).taken ≡ q.taken ++ items
unfolding forward
from_idle [] q e p = sym (append-nil q.taken)
from_idle (item ∷ items) q e p =
    rw (three (length items), p, e)
      (from_idle items
          (record q {
            inner_channel = items;
            set = marked item false q.set;
            phase = idle;
            taken = q.taken ++ item ∷ [];
          })
          refl refl
        ∙ append_assoc q.taken (item ∷ []) items)

by_phase :
    (q : UniqueQueue) (p : Phase)
    → q.phase ≡ p
    → p ≢ finished
    → (forward_by (steps_left p + length q.inner_channel * 3) q).taken
      ≡ q.taken ++ (in_hand p ++ q.inner_channel)
unfolding forward
by_phase q idle e n =
    rw (zero_more (length q.inner_channel * 3)) (from_idle q.inner_channel q refl e)
by_phase q (received item) e n =
    rw (two_more (length q.inner_channel * 3), e)
      (from_idle q.inner_channel
          (record q { set = marked item false q.set; phase = idle; taken = q.taken ++ item ∷ [] })
          refl refl
        ∙ append_assoc q.taken (item ∷ []) q.inner_channel)
by_phase q (deleted item) e n =
    rw (one_more (length q.inner_channel * 3), e)
      (from_idle q.inner_channel (record q { phase = idle; taken = q.taken ++ item ∷ [] }) refl refl
        ∙ append_assoc q.taken (item ∷ []) q.inner_channel)
by_phase q finished e n = absurd (n refl)

-- While the goroutine has not ended, two steps of it for an item that it has received, one for an item that it has
-- taken off the map and three for each item of the channel, with a receiver at hand, bring out all of them, in the
-- order of the channel, whatever else the queue holds.
pub forward_by-drained :
    (q : UniqueQueue)
    → q.phase ≢ finished
    → (forward_by (steps_left q.phase + length q.inner_channel * 3) q).taken
      ≡ q.taken ++ (in_hand q.phase ++ q.inner_channel)
forward_by-drained q n = by_phase q q.phase refl n
