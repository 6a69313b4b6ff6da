-- ===== src/Utils/Queue/Unique.antt =====
-- No item stands twice in the queue (internal/utils/UniqueQueue.go).
use rdb_elasticache_migrator.Prelude.{
  ℕ, zero, suc, ◌+◌, ◌==◌, ◌≤◌, ltb, ◌≡◌, refl, ap, ◌∙◌, arith, Bool, true, false, Bool-cases, inl,
  inr, if◌then◌else◌, Option, none, some, List, [], ◌∷◌, ◌++◌, length,
}
use rdb_elasticache_migrator.Runtime.{Result, ok, panic, closed_channel}
use rdb_elasticache_migrator.Utils.Queue.{
  Phase, idle, received, deleted, finished, UniqueQueue, new_queue, marked, put, with_front, pick,
  enqueue, receive, in_phase, forward, Event, puts, sends, forwards, closes, step, then_run, run,
}

abbrev pub one_if : Bool → ℕ
one_if true = 1
one_if false = 0

-- How often an item stands in a list, and in the hand of the goroutine in front of its `delete`.
abbrev pub count : ℕ → List ℕ → ℕ
count x [] = 0
count x (y ∷ ys) = one_if (x == y) + count x ys

abbrev pub held : ℕ → Phase → ℕ
held x idle = 0
held x (received item) = one_if (x == item)
held x (deleted item) = 0
held x finished = 0

-- The map has the items that wait, that are in the channel or that the goroutine has received, each of them once.
abbrev pub Unique : UniqueQueue → Type 0
Unique q = (x : ℕ) → count x q.putting + count x q.inner_channel + held x q.phase ≡ one_if (q.set x)

-- Of a run: a panic is that of a closed channel.
abbrev pub All : Result UniqueQueue → Type 0
All (ok q) = Unique q
All (panic e) = e ≡ closed_channel

count-append : (x : ℕ) (xs : List ℕ) (y : ℕ) → count x (xs ++ y ∷ []) ≡ count x xs + one_if (x == y)
count-append x [] y = omega arith
count-append x (z ∷ zs) y = omega (arith, count-append x zs y)

same_number : (x y : ℕ) → (x == y) ≡ true → x ≡ y
same_number x y h = ground arith

flag_le : (b : Bool) → one_if b ≤ 1
flag_le true = omega arith
flag_le false = omega arith

-- The mark of an item goes on, and comes off, with its place in the queue.
mark_on :
    (x item a b c : ℕ) (set : ℕ → Bool)
    → set item ≡ false
    → a + b + c ≡ one_if (set x)
    → one_if (x == item) + a + b + c ≡ one_if (marked item true set x)
mark_on x item a b c set free h = elim (Bool-cases (x == item)) [
  | inl e ↦ rw (e) (omega (arith, h, ap one_if (ap set (same_number x item e) ∙ free)))
  | inr e ↦ rw (e) (omega (arith, h))
]

mark_off :
    (x item a b : ℕ) (set : ℕ → Bool)
    → a + b + one_if (x == item) ≡ one_if (set x)
    → a + b + 0 ≡ one_if (marked item false set x)
mark_off x item a b set h = by_equality (x == item) h
  where
    by_equality :
        (t : Bool)
        → a + b + one_if t ≡ one_if (set x)
        → a + b + 0 ≡ one_if (if t then false else set x)
    by_equality true h = omega (arith, h, flag_le (set x))
    by_equality false h = h

put-Unique : (item : ℕ) (q : UniqueQueue) → Unique q → Unique (put item q)
unfolding put
put-Unique item q h = elim (Bool-cases (q.set item)) [
  | inl is ↦ rw (is) h
  | inr free ↦ rw (free) (λ x.
      mark_on x item (count x q.putting) (count x q.inner_channel) (held x q.phase) q.set free
        (h x))
]

-- What is picked is one of the items.
abbrev Picked : ℕ → List ℕ → Option (ℕ × List ℕ) → Type 0
Picked x xs none = Unit {0}
Picked x xs (some (y, ys)) = count x xs ≡ one_if (x == y) + count x ys

with_front-Picked :
    (x z : ℕ) (xs : List ℕ) (o : Option (ℕ × List ℕ))
    → Picked x xs o
    → Picked x (z ∷ xs) (with_front z o)
with_front-Picked x z xs none h = tt
with_front-Picked x z xs (some (y, ys)) h = omega (arith, h)

pick-Picked : (i x : ℕ) (xs : List ℕ) → Picked x xs (pick i xs)
unfolding pick
pick-Picked i x [] = tt
pick-Picked zero x (y ∷ ys) = refl
pick-Picked (suc i) x (y ∷ ys) = with_front-Picked x y ys (pick i ys) (pick-Picked i x ys)

enqueue-All :
    (size : ℕ) (q : UniqueQueue) (o : Option (ℕ × List ℕ))
    → ((x : ℕ) → Picked x q.putting o)
    → Unique q
    → All (enqueue size q o)
enqueue-All size q none c h = h
enqueue-All size q (some (item, others)) c h = by_tests q.closed (ltb (length q.inner_channel) size)
  where
    by_tests :
        (shut room : Bool)
        → All (
            if shut
            then panic closed_channel
            else if room
            then ok (record q { putting = others; inner_channel = q.inner_channel ++ item ∷ [] })
            else ok q)
    by_tests true room = refl
    by_tests false true = λ x. omega (arith, h x, c x, count-append x q.inner_channel item)
    by_tests false false = h

receive-Unique :
    (q : UniqueQueue) (items : List ℕ)
    → q.inner_channel ≡ items
    → q.phase ≡ idle
    → Unique q
    → Unique (receive q items)
receive-Unique q [] e p h = elim (Bool-cases q.closed) [
  | inl shut ↦ rw (shut) (λ x. omega (arith, h x, ap (held x) p))
  | inr going ↦ rw (going) h
]
receive-Unique q (item ∷ items) e p h = λ x. omega (arith, h x, ap (held x) p, ap (count x) e)

in_phase-Unique : (q : UniqueQueue) (p : Phase) → q.phase ≡ p → Unique q → Unique (in_phase q p)
in_phase-Unique q idle e h = receive-Unique q q.inner_channel refl e h
in_phase-Unique q (received item) e h = λ x.
    mark_off x item (count x q.putting) (count x q.inner_channel) q.set
      (omega (arith, h x, ap (held x) e))
in_phase-Unique q (deleted item) e h = λ x. omega (arith, h x, ap (held x) e)
in_phase-Unique q finished e h = h

step-All : (size : ℕ) (e : Event) (q : UniqueQueue) → Unique q → All (step size e q)
unfolding step forward
step-All size (puts item) q h = put-Unique item q h
step-All size (sends i) q h =
    enqueue-All size q (pick i q.putting) (λ x. pick-Picked i x q.putting) h
step-All size forwards q h = in_phase-Unique q q.phase refl h
step-All size closes q h = elim (Bool-cases q.closed) [
  | inl shut ↦ rw (shut) refl
  | inr going ↦ rw (going) h
]

onward :
    (r : Result UniqueQueue) (k : UniqueQueue → Result UniqueQueue)
    → All r
    → ((q : UniqueQueue) → Unique q → All (k q))
    → All (then_run r k)
onward (ok q) k h f = f q h
onward (panic e) k h f = h

run-All_from : (size : ℕ) (es : List Event) (q : UniqueQueue) → Unique q → All (run size es q)
unfolding run
run-All_from size [] q h = h
run-All_from size (e ∷ es) q h =
    onward (step size e q) (run size es) (step-All size e q h) (run-All_from size es)

-- In every run from a new queue the map has just the items that wait at `Put`, that are in the channel or that
-- the goroutine has received and not yet taken off the map, and each of them stands there once; a run that
-- ends by a panic has used the queue behind its `Close`.
pub run-All : (size : ℕ) (es : List Event) → All (run size es new_queue)
unfolding new_queue
run-All size es = run-All_from size es new_queue (λ x. omega arith)
