-- ===== src/Writer/Cluster/Owner.antt =====
-- The writer of each slot is the one whose node owns it.
use mathlib.Core.Path.{subst}
use rdb_elasticache_migrator.Prelude.{
  ℕ, zero, suc, ◌<◌, ◌≡◌, ◌⊎◌, inl, inr, refl, sym, ap, ◌∙◌, Bool, true, false, Bool-cases, Option,
  none, some, List, [], ◌∷◌, ◌==◌, ltb, arith, if◌then◌else◌,
}
use rdb_elasticache_migrator.Prelude.Int.{ℤ, pos, negsuc}
use rdb_elasticache_migrator.Runtime.{Bytes, Result, ok, panic, out_of_range, bad_format}
use rdb_elasticache_migrator.Runtime.Outcome.{◌>>=◌}
use rdb_elasticache_migrator.Writer.Cluster.{
  key_slots, Router, update, place, occupy_slot, occupy, connect, all_occupied, is_some, checked,
  load_cluster_nodes,
}

same_slot : {n m : ℕ} → pos n ≡ pos m → n ≡ m
same_slot h = cc

-- A slot in the list of a node.
pub data HasSlot (n : ℕ) : List ℤ → Type 0 where
  here : {ss : List ℤ} → HasSlot n (pos n ∷ ss)
  there : {s : ℤ} {ss : List ℤ} → HasSlot n ss → HasSlot n (s ∷ ss)

-- The node `k` owns the slot, where the first node of the lists is `i`.
pub data Owns (n k : ℕ) : ℕ → List Bytes → List (List ℤ) → Type 0 where
  first :
      {a : Bytes} {addrs : List Bytes} {own : List ℤ} {slots : List (List ℤ)}
      → HasSlot n own
      → Owns n k k (a ∷ addrs) (own ∷ slots)
  later :
      {i : ℕ} {a : Bytes} {addrs : List Bytes} {own : List ℤ} {slots : List (List ℤ)}
      → Owns n k (suc i) addrs slots
      → Owns n k i (a ∷ addrs) (own ∷ slots)

unpack : Result Router → Router
unpack (ok router) = router
unpack (panic e) = λ n. none

same_router : {router router' : Router} → ok router ≡ ok router' → (n : ℕ) → router n ≡ router' n
unfolding unpack
same_router h n = ap (λ r. unpack r n) h

update_other :
    (router : Router) (m writer n k : ℕ)
    → router m ≡ none
    → router n ≡ some k
    → update router m writer n ≡ some k
update_other router m writer n k free e = ground arith

update_self : (router : Router) (m writer : ℕ) → update router m writer m ≡ some writer
update_self router m writer = ground arith

update_from :
    (router : Router) (m writer n k : ℕ)
    → update router m writer n ≡ some k
    → (router n ≡ some k) ⊎ ((k ≡ writer) × (n ≡ m))
update_from router m writer n k e = elim (Bool-cases (n == m)) [
  | inl t ↦ inr (ground arith, ground arith)
  | inr t ↦ inl (ground arith)
]

-- What one assignment does: the slot was free, and is the only one that changes.
Assigned : ℕ → ℤ → Router → Router → Type 0
Assigned writer s router router' =
    (n : ℕ) × (s ≡ pos n) × (router n ≡ none) × (router' ≡ update router n writer)

Assigned-occupy_slot :
    (writer : ℕ) (s : ℤ) (router router' : Router)
    → occupy_slot writer s router ≡ ok router'
    → Assigned writer s router router'
unfolding occupy_slot Assigned
Assigned-occupy_slot writer (negsuc k) router router' h = cc
Assigned-occupy_slot writer (pos k) router router' h = within (ltb k key_slots) (router k) refl h
  where
    within :
        (t : Bool) (o : Option ℕ)
        → router k ≡ o
        → (if t then place writer k router o else panic out_of_range) ≡ ok router'
        → (n : ℕ) × (pos k ≡ pos n) × (router n ≡ none) × (router' ≡ update router n writer)
    within true none e h = (k, refl, e, cc)
    within true (some x) e h = cc
    within false o e h = cc

occupy_cons :
    (writer : ℕ) (s : ℤ) (ss : List ℤ) (router router' : Router)
    → occupy writer (s ∷ ss) router ≡ ok router'
    → (mid : Router) × Assigned writer s router mid × (occupy writer ss mid ≡ ok router')
unfolding occupy
occupy_cons writer s ss router router' h = split (occupy_slot writer s router) refl h
  where
    split :
        (r : Result Router)
        → occupy_slot writer s router ≡ r
        → (r >>= occupy writer ss) ≡ ok router'
        → (mid : Router) × Assigned writer s router mid × (occupy writer ss mid ≡ ok router')
    split (ok mid) e h = (mid, Assigned-occupy_slot writer s router mid e, h)
    split (panic f) e h = cc

occupy_keeps :
    (writer : ℕ) (ss : List ℤ) (router router' : Router) (n k : ℕ)
    → occupy writer ss router ≡ ok router'
    → router n ≡ some k
    → router' n ≡ some k
unfolding occupy Assigned
occupy_keeps writer [] router router' n k h e = sym (same_router h n) ∙ e
occupy_keeps writer (s ∷ ss) router router' n k h e =
    let (mid, (m, p, free, set), rest) = occupy_cons writer s ss router router' h in
    occupy_keeps writer ss mid router' n k rest
      (ap (λ f. f n) set ∙ update_other router m writer n k free e)

occupy_sets :
    (writer : ℕ) (ss : List ℤ) (router router' : Router) (n : ℕ)
    → occupy writer ss router ≡ ok router'
    → HasSlot n ss
    → router' n ≡ some writer
unfolding Assigned
occupy_sets writer [] router router' n h q = elim q [ ]
occupy_sets writer (_ ∷ ss) router router' n h here =
    let (mid, (m, p, free, set), rest) = occupy_cons writer (pos n) ss router router' h in
    occupy_keeps writer ss mid router' n writer rest (
      ap (λ f. f n) set
      ∙ subst (λ x. update router x writer n ≡ some writer) (same_slot p)
          (update_self router n writer))
occupy_sets writer (s ∷ ss) router router' n h (there q) =
    let (mid, (m, p, free, set), rest) = occupy_cons writer s ss router router' h in
    occupy_sets writer ss mid router' n rest q

occupy_from :
    (writer : ℕ) (ss : List ℤ) (router router' : Router) (n k : ℕ)
    → occupy writer ss router ≡ ok router'
    → router' n ≡ some k
    → (router n ≡ some k) ⊎ ((k ≡ writer) × HasSlot n ss)
unfolding occupy Assigned
occupy_from writer [] router router' n k h e = inl (same_router h n ∙ e)
occupy_from writer (s ∷ ss) router router' n k h e =
    let (mid, (m, p, free, set), rest) = occupy_cons writer s ss router router' h in
    before mid m p set (occupy_from writer ss mid router' n k rest e)
  where
    before :
        (mid : Router) (m : ℕ)
        → s ≡ pos m
        → mid ≡ update router m writer
        → (mid n ≡ some k) ⊎ ((k ≡ writer) × HasSlot n ss)
        → (router n ≡ some k) ⊎ ((k ≡ writer) × HasSlot n (s ∷ ss))
    before mid m p set (inr (w, q)) = inr (w, there q)
    before mid m p set (inl f) =
        settle (update_from router m writer n k (ap (λ f. f n) (sym set) ∙ f))
      where
        settle :
            (router n ≡ some k) ⊎ ((k ≡ writer) × (n ≡ m))
            → (router n ≡ some k) ⊎ ((k ≡ writer) × HasSlot n (s ∷ ss))
        settle (inl g) = inl g
        settle (inr (w, q)) = inr (w, subst (λ t. HasSlot n (t ∷ ss)) (ap pos q ∙ sym p) here)

connect_cons :
    (i : ℕ) (a : Bytes) (addrs : List Bytes) (own : List ℤ) (slots : List (List ℤ))
    (router router' : Router)
    → connect i (a ∷ addrs) (own ∷ slots) router ≡ ok router'
    → (mid : Router) × (occupy i own router ≡ ok mid)
      × (connect (suc i) addrs slots mid ≡ ok router')
unfolding connect
connect_cons i a addrs own slots router router' h = split (occupy i own router) refl h
  where
    split :
        (r : Result Router)
        → occupy i own router ≡ r
        → (r >>= connect (suc i) addrs slots) ≡ ok router'
        → (mid : Router) × (occupy i own router ≡ ok mid)
          × (connect (suc i) addrs slots mid ≡ ok router')
    split (ok mid) e h = (mid, e, h)
    split (panic f) e h = cc

connect_keeps :
    (i : ℕ) (addrs : List Bytes) (slots : List (List ℤ)) (router router' : Router) (n k : ℕ)
    → connect i addrs slots router ≡ ok router'
    → router n ≡ some k
    → router' n ≡ some k
unfolding connect
connect_keeps i [] slots router router' n k h e = sym (same_router h n) ∙ e
connect_keeps i (a ∷ addrs) [] router router' n k h e = cc
connect_keeps i (a ∷ addrs) (own ∷ slots) router router' n k h e =
    let (mid, o, rest) = connect_cons i a addrs own slots router router' h in
    connect_keeps (suc i) addrs slots mid router' n k rest (occupy_keeps i own router mid n k o e)

connect_sets :
    (i : ℕ) (addrs : List Bytes) (slots : List (List ℤ)) (router router' : Router) (n k : ℕ)
    → connect i addrs slots router ≡ ok router'
    → Owns n k i addrs slots
    → router' n ≡ some k
unfolding connect
connect_sets i [] slots router router' n k h q = elim q [ ]
connect_sets i (a ∷ addrs) [] router router' n k h q = elim q [ ]
connect_sets i (a ∷ addrs) (own ∷ slots) router router' n k h (first q) =
    let (mid, o, rest) = connect_cons i a addrs own slots router router' h in
    connect_keeps (suc i) addrs slots mid router' n i rest (occupy_sets i own router mid n o q)
connect_sets i (a ∷ addrs) (own ∷ slots) router router' n k h (later q) =
    let (mid, o, rest) = connect_cons i a addrs own slots router router' h in
    connect_sets (suc i) addrs slots mid router' n k rest q

connect_from :
    (i : ℕ) (addrs : List Bytes) (slots : List (List ℤ)) (router router' : Router) (n k : ℕ)
    → connect i addrs slots router ≡ ok router'
    → router' n ≡ some k
    → (router n ≡ some k) ⊎ Owns n k i addrs slots
unfolding connect
connect_from i [] slots router router' n k h e = inl (same_router h n ∙ e)
connect_from i (a ∷ addrs) [] router router' n k h e = cc
connect_from i (a ∷ addrs) (own ∷ slots) router router' n k h e =
    let (mid, o, rest) = connect_cons i a addrs own slots router router' h in
    owner mid o (connect_from (suc i) addrs slots mid router' n k rest e)
  where
    owner :
        (mid : Router)
        → occupy i own router ≡ ok mid
        → (mid n ≡ some k) ⊎ Owns n k (suc i) addrs slots
        → (router n ≡ some k) ⊎ Owns n k i (a ∷ addrs) (own ∷ slots)
    owner mid o (inr q) = inr (later q)
    owner mid o (inl f) = settle (occupy_from i own router mid n k o f)
      where
        settle :
            (router n ≡ some k) ⊎ ((k ≡ i) × HasSlot n own)
            → (router n ≡ some k) ⊎ Owns n k i (a ∷ addrs) (own ∷ slots)
        settle (inl g) = inl g
        settle (inr (w, q)) = inr (subst (λ j. Owns n k j (a ∷ addrs) (own ∷ slots)) w (first q))

all_occupied-some :
    (m n : ℕ) (router : Router)
    → all_occupied m router ≡ true
    → n < m
    → (k : ℕ) × (router n ≡ some k)
unfolding all_occupied
all_occupied-some zero n router h lt = absurd (omega arith)
all_occupied-some (suc m) n router h lt = elim (Bool-cases (n == m)) [
  | inl t ↦ occupied n (ground arith)
  | inr t ↦ all_occupied-some m n router (ground arith) (ground arith)
]
  where
    there_is : (o : Option ℕ) → router n ≡ o → is_some o ≡ true → (k : ℕ) × (router n ≡ some k)
    there_is none e h = cc
    there_is (some k) e h = (k, e)

    occupied : (x : ℕ) → is_some (router n) ≡ true → (k : ℕ) × (router n ≡ some k)
    occupied x h = there_is (router n) refl h

loaded :
    (addrs : List Bytes) (slots : List (List ℤ)) (router : Router)
    → load_cluster_nodes addrs slots ≡ ok router
    → (connect 0 addrs slots (λ n. none) ≡ ok router) × (all_occupied key_slots router ≡ true)
unfolding load_cluster_nodes unpack
loaded addrs slots router h = split (connect 0 addrs slots (λ n. none)) refl h
  where
    split :
        (r : Result Router)
        → connect 0 addrs slots (λ n. none) ≡ r
        → (r >>= checked) ≡ ok router
        → (connect 0 addrs slots (λ n. none) ≡ ok router) × (all_occupied key_slots router ≡ true)
    split (panic f) e h = cc
    split (ok mid) e h = tested (all_occupied key_slots mid) refl h
      where
        tested :
            (t : Bool)
            → all_occupied key_slots mid ≡ t
            → (if t then ok mid else panic bad_format) ≡ ok router
            → (connect 0 addrs slots (λ n. none) ≡ ok router)
              × (all_occupied key_slots router ≡ true)
        tested true g h = (e ∙ h, subst (λ r. all_occupied key_slots (unpack r) ≡ true) h g)
        tested false g h = cc

-- When the writer of a cluster has started, each of the 16384 slots has a writer, which is that of a node
-- with the slot, and no other node has it.
pub load_cluster_nodes-Owns :
    (addrs : List Bytes) (slots : List (List ℤ)) (router : Router)
    → load_cluster_nodes addrs slots ≡ ok router
    → (n : ℕ) → n < key_slots
    → (k : ℕ) × (router n ≡ some k)
      × Owns n k 0 addrs slots
      × ((j : ℕ) → Owns n j 0 addrs slots → j ≡ k)
load_cluster_nodes-Owns addrs slots router h n lt =
    let (c, all) = loaded addrs slots router h in
    let (k, e) = all_occupied-some key_slots n router all lt in
    (
      k,
      e,
      from_nothing k (connect_from 0 addrs slots (λ x. none) router n k c e),
      λ j q. some_inj (sym (connect_sets 0 addrs slots (λ x. none) router n j c q) ∙ e),
    )
  where
    from_nothing : (k : ℕ) → (none ≡ some k) ⊎ Owns n k 0 addrs slots → Owns n k 0 addrs slots
    from_nothing k (inl f) = cc
    from_nothing k (inr q) = q

    some_inj : {x y : ℕ} → some x ≡ some y → x ≡ y
    some_inj e = cc
