-- ===== src/Reader/Receive/Whole.antt =====
-- Both kinds of transfer with their header (internal/reader/sync_standalone_reader.go).
use rdb_elasticache_migrator.Prelude.{
  ℕ, zero, suc, ◌%◌, ◌^◌, ◌≡◌, refl, arith, false, some, [], ◌∷◌, ◌++◌, length, length-append,
  replicate, codes,
}
use rdb_elasticache_migrator.Prelude.Int.{pos}
use rdb_elasticache_migrator.Runtime.{Bytes, ok}
use rdb_elasticache_migrator.Runtime.Bufio.{read_until_newline-append}
use rdb_elasticache_migrator.Runtime.Strconv.{parse_int}
use rdb_elasticache_migrator.Runtime.Strings.{Without, nothing, also, has_prefix}
use rdb_elasticache_migrator.Reader.Receive.{
  await_dollar, before_colon, second_part, with_marker, with_length, with_header, receive_rdb,
  marker_len,
}
use rdb_elasticache_migrator.Reader.Receive.Marked.{FirstAtEnd, Ends, receive_marked-Ends}
use rdb_elasticache_migrator.Reader.Receive.Counted.{receive_counted-append}

-- What the source sends: heartbeats, the header behind its `$`, and the rest.
abbrev pub sent_file : ℕ → Bytes → Bytes → Bytes
sent_file heartbeats header body =
    replicate heartbeats b'\n' ++ (b'$' ∷ ((header ++ b'\r' ∷ []) ++ (b'\n' ∷ body)))

await_dollar-replicate :
    (n : ℕ) (bs : Bytes) → await_dollar (replicate n b'\n' ++ (b'$' ∷ bs)) ≡ ok bs
unfolding await_dollar
await_dollar-replicate zero bs = refl
await_dollar-replicate (suc n) bs = await_dollar-replicate n bs

with_return : {s : Bytes} → Without b'\n' s → Without b'\n' (s ++ b'\r' ∷ [])
with_return nothing = also (λ e. omega arith) nothing
with_return (also p ps) = also p (with_return ps)

before_colon-Without : {s : Bytes} → Without b':' s → before_colon s ≡ s
unfolding before_colon
before_colon-Without nothing = refl
before_colon-Without (also p ps) = ground (arith, before_colon-Without ps)

in_header : {s : Bytes} → Without b'\n' s → Without b'\n' (codes "EOF:" ++ s)
in_header w =
    also (λ e. omega arith)
      (also (λ e. omega arith) (also (λ e. omega arith) (also (λ e. omega arith) w)))

module _ (sizes : ℕ → ℕ) (trim_space : Bytes → Bytes) where
  header_read :
      (n : ℕ) (header body : Bytes)
      → Without b'\n' header
      → trim_space ((header ++ b'\r' ∷ []) ++ b'\n' ∷ []) ≡ header
      → receive_rdb sizes trim_space (sent_file n header body) ≡ with_header sizes header body
  unfolding receive_rdb
  header_read n header body w t =
      rw
        (
          await_dollar-replicate n ((header ++ b'\r' ∷ []) ++ (b'\n' ∷ body)),
          read_until_newline-append body (with_return w),
          t,
        )
        refl

  -- A file that is sent behind a mark of 40 bytes is written as it is, whatever each read brings, and nothing is
  -- left over. The mark holds no colon and no newline and does not stand earlier in what comes, and `TrimSpace`
  -- takes the end of the line off.
  pub receive_rdb-marked :
      (n : ℕ) (marker rdb : Bytes)
      → length marker ≡ marker_len
      → Without b':' marker
      → Without b'\n' marker
      → FirstAtEnd marker rdb
      → trim_space (((codes "EOF:" ++ marker) ++ b'\r' ∷ []) ++ b'\n' ∷ []) ≡ codes "EOF:" ++ marker
      → Ends
          (receive_rdb sizes trim_space (sent_file n (codes "EOF:" ++ marker) (rdb ++ marker)))
          rdb
  unfolding with_header with_marker second_part has_prefix
  receive_rdb-marked n marker rdb size colon newline first t =
      rw
        (
          header_read n (codes "EOF:" ++ marker) (rdb ++ marker) (in_header newline) t,
          before_colon-Without colon,
          size,
        )
        (receive_marked-Ends sizes marker (suc (length (rdb ++ marker))) 0 [] (rdb ++ marker) rdb
          size refl (omega arith) (omega (arith, length-append {0} rdb marker, size)) (omega arith)
          first)

  -- A file that is sent behind its length is written and counted as it is, whatever each read brings, and what
  -- follows it is left unread. The length is a decimal text, and `TrimSpace` takes the end of the line off.
  pub receive_rdb-counted :
      (n : ℕ) (text rdb more : Bytes)
      → parse_int text ≡ some (pos (length rdb))
      → has_prefix text (codes "EOF") ≡ false
      → Without b'\n' text
      → trim_space ((text ++ b'\r' ∷ []) ++ b'\n' ∷ []) ≡ text
      → receive_rdb sizes trim_space (sent_file n text (rdb ++ more))
        ≡ record { written = rdb; counted = length rdb % 2 ^ 64; outcome = ok more }
  unfolding with_header with_length
  receive_rdb-counted n text rdb more value plain newline t =
      rw (header_read n text (rdb ++ more) newline t, plain, value)
        (receive_counted-append sizes (suc (length (rdb ++ more))) 0 rdb more
          (omega (arith, length-append {0} rdb more)))
