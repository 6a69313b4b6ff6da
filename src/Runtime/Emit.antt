-- ===== src/Runtime/Emit.antt =====
-- A goroutine that reads from the file and sends commands over a channel. What it has sent before its
-- run ends by a panic stays sent.
use rdb_elasticache_migrator.Prelude.{
  ℕ, zero, suc, List, [], ◌∷◌, ◌++◌, ◌≡◌, refl, ap, map, flat_map, append_assoc, length,
}
use rdb_elasticache_migrator.Prelude.Int.{ℤ, pos, negsuc}
use rdb_elasticache_migrator.Runtime.Input.{Bytes, Read}
use rdb_elasticache_migrator.Runtime.Outcome.{Fault, Result, ok, panic}

-- `RedisCmd`
abbrev pub Command : Type 0
Command = List Bytes

-- What was sent, and the unread input or the panic.
pub record Run : Type 0 where
  pub sent : List Command
  pub outcome : Result Bytes

abbrev pub Emit : Type 0
Emit = Bytes → Run

abbrev pub done : Emit
done bs = record { sent = []; outcome = ok bs }

abbrev pub stop : Fault → Emit
stop e bs = record { sent = []; outcome = panic e }

-- `ch <- cmd` and what follows
abbrev pub send : Command → Emit → Emit
send cmd k bs = record { sent = cmd ∷ (k bs).sent; outcome = (k bs).outcome }

abbrev go_on : {A : Type 0} → Result (A × Bytes) → (A → Emit) → Run
go_on (ok (a, rest)) f = f a rest
go_on (panic e) f = record { sent = []; outcome = panic e }

-- A read and what follows.
abbrev pub reading : {A : Type 0} → Read A → (A → Emit) → Emit
reading m f bs = go_on (m bs) f

abbrev after_run : List Command → Result Bytes → Emit → Run
after_run cmds (panic e) k = record { sent = cmds; outcome = panic e }
after_run cmds (ok rest) k = record { sent = cmds ++ (k rest).sent; outcome = (k rest).outcome }

-- `m; k`
abbrev pub in_turn : Emit → Emit → Emit
in_turn m k bs = after_run (m bs).sent (m bs).outcome k

-- `for _, x := range xs { ch <- cmd(x) }`
unfoldable pub send_all {ℓ} : {A : Type ℓ} → (A → Command) → List A → Emit
send_all cmd [] = done
send_all cmd (x ∷ xs) = send (cmd x) (send_all cmd xs)

pub send_all-map {ℓ} :
    {A : Type ℓ} (cmd : A → Command) (xs : List A) (bs : Bytes)
    → send_all cmd xs bs ≡ record { sent = map cmd xs; outcome = ok bs }
unfolding send_all
send_all-map cmd [] bs = refl
send_all-map cmd (x ∷ xs) bs =
    ap (λ r. record { sent = cmd x ∷ r.sent; outcome = r.outcome }) (send_all-map cmd xs bs)

-- `for i := 0; i < size; i++` over one body
unfoldable pub times : ℕ → Emit → Emit
times zero body = done
times (suc n) body = in_turn body (times n body)

-- The rounds of such a loop for an `int`.
abbrev pub rounds : ℤ → ℕ
rounds (pos n) = n
rounds (negsuc _) = 0

-- Of every element.
abbrev pub Each {ℓ} : {A : Type ℓ} → (A → Type 0) → List A → Type 0
Each P [] = Unit {0}
Each P (x ∷ xs) = P x × Each P xs

-- A loop over values that stand one after the other in the file.
pub times-flat_map {ℓ} :
    {A : Type ℓ} (P : A → Type 0) (encode : A → Bytes) (cmds : A → List Command) (body : Emit)
    (xs : List A) (rest : Bytes)
    → Each P xs
    → ((x : A) (more : Bytes)
        → P x
        → body (encode x ++ more) ≡ record { sent = cmds x; outcome = ok more })
    → times (length xs) body (flat_map encode xs ++ rest)
      ≡ record { sent = flat_map cmds xs; outcome = ok rest }
unfolding times flat_map
times-flat_map P encode cmds body [] rest q h = refl
times-flat_map P encode cmds body (x ∷ xs) rest (p, q) h =
    rw
      (
        append_assoc,
        h x (flat_map encode xs ++ rest) p,
        times-flat_map P encode cmds body xs rest q h,
      )
      refl
