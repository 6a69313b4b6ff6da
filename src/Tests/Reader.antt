-- ===== src/Tests/Reader.antt =====
-- internal/reader/sync_standalone_reader.go.
use rdb_elasticache_migrator.Prelude.{
  ℕ, zero, suc, ◌+◌, ◌<◌, ◌-◌, ◌≡◌, ◌≢◌, refl, ap, arith, [], ◌∷◌, ◌++◌, length, length-append,
  take, replicate, get_or, codes,
}
use rdb_elasticache_migrator.Runtime.{Bytes, ok}
use rdb_elasticache_migrator.Runtime.Strconv.{parse_int}
use rdb_elasticache_migrator.Runtime.Strings.{Without, nothing, also, has_prefix}
use rdb_elasticache_migrator.Reader.Receive.{receive_rdb}
use rdb_elasticache_migrator.Reader.Receive.Marked.{FirstAtEnd, Ends}
use rdb_elasticache_migrator.Reader.Receive.Whole.{
  sent_file, receive_rdb-marked, receive_rdb-counted,
}

abbrev marker : Bytes
marker = replicate 40 b'm'

abbrev file : Bytes
file = codes "ab"

-- The end of a line is taken off.
abbrev without_end : Bytes → Bytes
without_end s = take (length s - 2) s

all_m : (b n : ℕ) → b'm' ≢ b → Without b (replicate n b'm')
all_m b zero h = nothing
all_m b (suc n) h = also h (all_m b n h)

all_used : (p q : Bytes) → 42 ≡ suc (suc (length p + (40 + length q))) → q ≡ []
all_used p [] h = refl
all_used p (x ∷ q) h = absurd (omega arith)

-- The first two bytes of the file are none of the mark.
not_first : (c d : ℕ) → c < d → c ≢ d
not_first c d h e = omega arith

marker-FirstAtEnd : FirstAtEnd marker file
marker-FirstAtEnd [] q e = absurd (not_first b'a' b'm' (omega arith) (ap (λ l. get_or l 0 0) e))
marker-FirstAtEnd (x ∷ []) q e =
    absurd (not_first b'b' b'm' (omega arith) (ap (λ l. get_or l 1 0) e))
marker-FirstAtEnd (x ∷ y ∷ p) q e =
    all_used p q
      (omega (arith, ap length e, length-append {0} p (marker ++ q), length-append {0} marker q))

receive_rdb-marked_example :
    Ends
      (receive_rdb (λ i. i) without_end (sent_file 2 (codes "EOF:" ++ marker) (file ++ marker)))
      file
receive_rdb-marked_example =
    receive_rdb-marked (λ i. i) without_end 2 marker file refl (all_m b':' 40 (λ e. omega arith))
      (all_m b'\n' 40 (λ e. omega arith)) marker-FirstAtEnd refl

receive_rdb-counted_example :
    receive_rdb (λ i. 0) without_end (sent_file 1 (codes "2") (file ++ codes "more"))
    ≡ record { written = file; counted = 2; outcome = ok (codes "more") }
unfolding parse_int has_prefix
receive_rdb-counted_example =
    receive_rdb-counted (λ i. 0) without_end 1 (codes "2") file (codes "more") refl refl
      (also (λ e. omega arith) nothing) refl
