-- ===== src/Rdb/Types/Stream/RoundTrip.antt =====
-- A whole stream, as Redis writes it.
use mathlib.Core.Path.{subst}
use rdb_elasticache_migrator.Prelude.{
  ℕ, suc, ◌^◌, ◌<◌, ◌≡◌, refl, ap, Bool, true, false, List, [], ◌∷◌, ◌++◌, leb, if◌then◌else◌,
  length, length-append, take-append, drop-append, map, flat_map, append_assoc, arith, codes,
}
use rdb_elasticache_migrator.Prelude.Int.{pos, signed, eq_ℤ}
use rdb_elasticache_migrator.Runtime.{collect, Bytes, ok, make, read_full-append}
use rdb_elasticache_migrator.Runtime.Words.{
  to_big, to_little, big_endian-to_big, length-to_big, little_endian-to_little,
}
use rdb_elasticache_migrator.Runtime.Emit.{Emit, Each, rounds, send, times-flat_map}
use rdb_elasticache_migrator.Rdb.Structure.Int.{read_bytes, read_uint64}
use rdb_elasticache_migrator.Rdb.Structure.Length.{read_length}
use rdb_elasticache_migrator.Rdb.Structure.Length.RoundTrip.{
  encode_length, read_length-encode_length,
}
use rdb_elasticache_migrator.Rdb.Structure.Strings.RoundTrip.{save, content, read_string-save}
use rdb_elasticache_migrator.Rdb.Types.Saved.{save_all, times-save_all, rounds-signed}
use rdb_elasticache_migrator.Rdb.Types.Stream.{stream_node}
use rdb_elasticache_migrator.Rdb.Types.Stream.Items.{added}
use rdb_elasticache_migrator.Rdb.Types.Stream.Nodes.{
  StreamNode, IsStreamNode, save_node, stream_node-save,
}
use rdb_elasticache_migrator.Rdb.Types.Stream.Groups.{
  id_of, read_pending, claim, read_if, stream_consumer, stream_group, empty_stream, xsetid,
  stream_groups, stream_tail, read_stream, rewrite_stream,
}
use rdb_elasticache_migrator.Rdb.Types.Stream.Saved.{
  StreamId, Delivery, Consumer, Group, IsId, IsDelivery, IsConsumer, IsGroup, save_id,
  save_delivery, save_if, save_consumer, save_group, id_name, as_pending, claimed,
  consumer_commands, group_commands, SavedStream, IsSavedStream, save_groups, save_stream,
  when_empty, stream_commands, StreamType,
}
use rdb_elasticache_migrator.Rdb.Types.Stream.Saved.StreamType.{listpacks, listpacks_2, listpacks_3}

read_id :
    (i : StreamId) (rest : Bytes)
    → IsId i
    → read_bytes (pos 16) (save_id i ++ rest) ≡ ok (save_id i, rest)
read_id i rest h =
    unfold read_bytes make in
    read_full-append (save_id i) rest 16 (
      omega (
        arith,
        length-append {0} (to_big 8 i.ms) (to_big 8 i.seq),
        length-to_big 8 i.ms,
        length-to_big 8 i.seq,
      ))

id_of-save_id : (i : StreamId) → IsId i → id_of (save_id i) ≡ id_name i
id_of-save_id i (a, b) =
    rw
      (
        take-append (to_big 8 i.ms) (to_big 8 i.seq) 8 (length-to_big 8 i.ms),
        drop-append (to_big 8 i.ms) (to_big 8 i.seq) 8 (length-to_big 8 i.ms),
        big_endian-to_big 8 i.ms (omega arith),
        big_endian-to_big 8 i.seq (omega arith),
      )
      refl

read_uint64-to_little :
    (n : ℕ) (rest : Bytes) → n < 2 ^ 64 → read_uint64 (to_little 8 n ++ rest) ≡ ok (n, rest)
unfolding read_uint64 to_little
read_uint64-to_little n rest h = rw (little_endian-to_little 8 n (omega arith)) refl

read_pending-save :
    (d : Delivery) (rest : Bytes)
    → IsDelivery d
    → read_pending (save_delivery d ++ rest) ≡ ok (as_pending d, rest)
unfolding read_pending
read_pending-save d rest (i, t, n) =
    rw
      (
        append_assoc (save_id d.id) (to_little 8 d.time ++ encode_length d.delivered) rest,
        append_assoc (to_little 8 d.time) (encode_length d.delivered) rest,
        read_id d.id (to_little 8 d.time ++ (encode_length d.delivered ++ rest)) i,
        read_uint64-to_little d.time (encode_length d.delivered ++ rest) t,
        read_length-encode_length d.delivered rest n,
        id_of-save_id d.id i,
      )
      refl

collect-flat_map :
    (ds : List Delivery) (rest : Bytes)
    → Each IsDelivery ds
    → collect (length ds) read_pending (flat_map save_delivery ds ++ rest)
      ≡ ok (map as_pending ds, rest)
unfolding collect flat_map
collect-flat_map [] rest h = refl
collect-flat_map (d ∷ ds) rest (h, hs) =
    rw
      (
        append_assoc (save_delivery d) (flat_map save_delivery ds) rest,
        read_pending-save d (flat_map save_delivery ds ++ rest) h,
        collect-flat_map ds rest hs,
      )
      refl

claim-save :
    (key : Bytes) (g : Group) (c : Consumer) (i : StreamId) (rest : Bytes)
    → IsId i
    → claim key (content g.name) (content c.name) (map as_pending g.pending) (save_id i ++ rest)
      ≡ record { sent = claimed key g c i ∷ []; outcome = ok rest }
unfolding claim
claim-save key g c i rest h = rw (read_id i rest h, id_of-save_id i h) refl

read_if-uint64 :
    (t : Bool) (n : ℕ) (rest : Bytes)
    → n < 2 ^ 64
    → read_if t read_uint64 (save_if t (to_little 8 n) ++ rest) ≡ ok (tt, rest)
read_if-uint64 true n rest h = rw (read_uint64-to_little n rest h) refl
read_if-uint64 false n rest h = refl

read_if-length :
    (t : Bool) (n : ℕ) (rest : Bytes)
    → n < 2 ^ 64
    → read_if t read_length (save_if t (encode_length n) ++ rest) ≡ ok (tt, rest)
read_if-length true n rest h = rw (read_length-encode_length n rest h) refl
read_if-length false n rest h = refl

stream_consumer-save :
    (key : Bytes) (type_byte : ℕ) (g : Group) (c : Consumer) (rest : Bytes)
    → IsConsumer c
    → stream_consumer key type_byte
        (content g.name)
        (map as_pending g.pending)
        (save_consumer type_byte c ++ rest)
      ≡ record { sent = consumer_commands key g c; outcome = ok rest }
unfolding stream_consumer
stream_consumer-save key type_byte g c rest (n, s, a, all, few) =
    let ids = save_all save_id c.pending in
    let active = save_if (leb 21 type_byte) (to_little 8 c.active) in
    rw
      (
        append_assoc (save c.name) (to_little 8 c.seen ++ (active ++ ids)) rest,
        append_assoc (to_little 8 c.seen) (active ++ ids) rest,
        append_assoc active ids rest,
        read_string-save c.name (to_little 8 c.seen ++ (active ++ (ids ++ rest))) n,
        read_uint64-to_little c.seen (active ++ (ids ++ rest)) s,
        read_if-uint64 (leb 21 type_byte) c.active (ids ++ rest) a,
      )
      (times-save_all IsId save_id (λ i. claimed key g c i ∷ [])
        (claim key (content g.name) (content c.name) (map as_pending g.pending)) c.pending rest all
        few (claim-save key g c))

save_all_split {ℓ} :
    {A : Type ℓ} (encode : A → Bytes) (xs : List A) (rest : Bytes)
    → save_all encode xs ++ rest ≡ encode_length (length xs) ++ (flat_map encode xs ++ rest)
unfolding save_all
save_all_split encode xs rest = append_assoc (encode_length (length xs)) (flat_map encode xs) rest

deliveries-save :
    (ds : List Delivery) (rest : Bytes)
    → Each IsDelivery ds
    → length ds < 2 ^ 63
    → collect (rounds (signed 64 (length ds))) read_pending (flat_map save_delivery ds ++ rest)
      ≡ ok (map as_pending ds, rest)
deliveries-save ds rest all few = rw (rounds-signed (length ds) few) (collect-flat_map ds rest all)

stream_group-save :
    (key : Bytes) (type_byte : ℕ) (g : Group) (rest : Bytes)
    → IsGroup g
    → stream_group key type_byte (save_group type_byte g ++ rest)
      ≡ record { sent = group_commands key g; outcome = ok rest }
unfolding stream_group
stream_group-save key type_byte g rest (n, (lm, ls), o, ds, fd, cs, fc) =
    let consumers = save_all (save_consumer type_byte) g.consumers in
    let deliveries = flat_map save_delivery g.pending in
    let offset = save_if (leb 19 type_byte) (encode_length g.offset) in
    let behind = offset ++ (save_all save_delivery g.pending ++ consumers) in
    rw
      (
        append_assoc (save g.name) (encode_length g.last.ms ++ (encode_length g.last.seq ++ behind))
            rest,
        append_assoc (encode_length g.last.ms) (encode_length g.last.seq ++ behind) rest,
        append_assoc (encode_length g.last.seq) behind rest,
        append_assoc offset (save_all save_delivery g.pending ++ consumers) rest,
        append_assoc (save_all save_delivery g.pending) consumers rest,
        read_string-save g.name
            (encode_length g.last.ms
              ++ (encode_length g.last.seq
                  ++ (offset ++ (save_all save_delivery g.pending ++ (consumers ++ rest)))))
            n,
        read_length-encode_length g.last.ms
            (encode_length g.last.seq
              ++ (offset ++ (save_all save_delivery g.pending ++ (consumers ++ rest))))
            lm,
        read_length-encode_length g.last.seq
            (offset ++ (save_all save_delivery g.pending ++ (consumers ++ rest))) ls,
        read_if-length (leb 19 type_byte) g.offset
            (save_all save_delivery g.pending ++ (consumers ++ rest)) o,
        save_all_split save_delivery g.pending (consumers ++ rest),
        read_length-encode_length (length g.pending) (deliveries ++ (consumers ++ rest))
            (omega arith),
        deliveries-save g.pending (consumers ++ rest) ds fd,
        times-save_all IsConsumer (save_consumer type_byte) (consumer_commands key g)
            (stream_consumer key type_byte (content g.name) (map as_pending g.pending)) g.consumers
            rest cs fc (stream_consumer-save key type_byte g),
      )
      refl

collect_lengths :
    (ns : List ℕ) (rest : Bytes)
    → Each (λ n. n < 2 ^ 64) ns
    → collect (length ns) read_length (flat_map encode_length ns ++ rest) ≡ ok (ns, rest)
unfolding collect flat_map
collect_lengths [] rest h = refl
collect_lengths (n ∷ ns) rest (h, hs) =
    rw
      (
        append_assoc (encode_length n) (flat_map encode_length ns) rest,
        read_length-encode_length n (flat_map encode_length ns ++ rest) h,
        collect_lengths ns rest hs,
      )
      refl

read_if-more :
    (t : Bool) (ns : List ℕ) (rest : Bytes)
    → length ns ≡ 5
    → Each (λ n. n < 2 ^ 64) ns
    → read_if t (collect 5 read_length) (save_if t (flat_map encode_length ns) ++ rest)
      ≡ ok (tt, rest)
read_if-more true ns rest e h =
    rw
      (subst (λ k. collect k read_length (flat_map encode_length ns ++ rest) ≡ ok (ns, rest)) e
        (collect_lengths ns rest h))
      refl
read_if-more false ns rest e h = refl

stream_groups-save :
    (key : Bytes) (type_byte : ℕ) (v : SavedStream) (rest : Bytes)
    → IsSavedStream v
    → stream_groups key type_byte (save_groups type_byte v ++ rest)
      ≡ record { sent = flat_map (group_commands key) v.groups; outcome = ok rest }
unfolding stream_groups
stream_groups-save key type_byte v rest h =
    rw
      (
        append_assoc (save_if (leb 19 type_byte) (flat_map encode_length v.more))
            (save_all (save_group type_byte) v.groups) rest,
        read_if-more (leb 19 type_byte) v.more (save_all (save_group type_byte) v.groups ++ rest)
            h.five h.more_fit,
      )
      (times-save_all IsGroup (save_group type_byte) (group_commands key)
        (stream_group key type_byte) v.groups rest h.all_groups h.few_groups
        (stream_group-save key type_byte))

no_nodes :
    (key : Bytes) (ns : List StreamNode) (run : Emit) (rest : Bytes)
    → length ns < 2 ^ 63
    → (if eq_ℤ (signed 64 (length ns)) (pos 0) then send (empty_stream key) run else run) rest
      ≡ record { sent = when_empty key ns ++ (run rest).sent; outcome = (run rest).outcome }
no_nodes key [] run rest h = refl
no_nodes key (n ∷ ns) run rest h = rw (some_nodes (length ns) h) refl
  where
    some_nodes : (n : ℕ) → suc n < 2 ^ 63 → eq_ℤ (signed 64 (suc n)) (pos 0) ≡ false
    some_nodes n h = ground arith

stream_tail-save :
    (key : Bytes) (type_byte : ℕ) (v : SavedStream) (rest : Bytes)
    → IsSavedStream v
    → stream_tail key type_byte (signed 64 (length v.nodes)) (
        encode_length v.number
        ++ (encode_length v.last.ms
            ++ (encode_length v.last.seq ++ (save_groups type_byte v ++ rest))))
      ≡ record {
        sent =
            when_empty key v.nodes
            ++ (xsetid key v.last.ms v.last.seq ∷ flat_map (group_commands key) v.groups);
        outcome = ok rest;
      }
unfolding stream_tail
stream_tail-save key type_byte v rest h =
    rw
      (
        read_length-encode_length v.number
            (encode_length v.last.ms
              ++ (encode_length v.last.seq ++ (save_groups type_byte v ++ rest)))
            h.number_fits,
        read_length-encode_length v.last.ms
            (encode_length v.last.seq ++ (save_groups type_byte v ++ rest)) (h.last_fits.0),
        read_length-encode_length v.last.seq (save_groups type_byte v ++ rest) (h.last_fits.1),
        no_nodes key v.nodes (send (xsetid key v.last.ms v.last.seq) (stream_groups key type_byte))
            (save_groups type_byte v ++ rest) h.few_nodes,
        stream_groups-save key type_byte v rest h,
      )
      refl

read_stream-save :
    (key : Bytes) (type_byte : ℕ) (v : SavedStream) (rest : Bytes)
    → IsSavedStream v
    → read_stream key type_byte (save_stream type_byte v ++ rest)
      ≡ record { sent = stream_commands key v; outcome = ok rest }
unfolding read_stream
read_stream-save key type_byte v rest h =
    let tail =
      encode_length v.number
      ++ (encode_length v.last.ms ++ (encode_length v.last.seq ++ save_groups type_byte v)) in
    rw
      (
        append_assoc (save_all save_node v.nodes) tail rest,
        save_all_split save_node v.nodes (tail ++ rest),
        read_length-encode_length (length v.nodes) (flat_map save_node v.nodes ++ (tail ++ rest))
            (omega (arith, h.few_nodes)),
        rounds-signed (length v.nodes) h.few_nodes,
        times-flat_map IsStreamNode save_node (λ n. flat_map (added key) n.items) (stream_node key)
            v.nodes (tail ++ rest) h.all_nodes (stream_node-save key),
        append_assoc (encode_length v.number)
            (encode_length v.last.ms ++ (encode_length v.last.seq ++ save_groups type_byte v)) rest,
        append_assoc (encode_length v.last.ms) (encode_length v.last.seq ++ save_groups type_byte v)
            rest,
        append_assoc (encode_length v.last.seq) (save_groups type_byte v) rest,
      )
      (ap
        (λ r. record {
          sent = flat_map (λ n. flat_map (added key) n.items) v.nodes ++ r.sent;
          outcome = r.outcome;
        })
        (stream_tail-save key type_byte v rest h))

-- A stream of any of the three types is written again as a `del` of the key; one `xadd` for each entry that
-- is not deleted, in order, with its own id, fields and values; where there are no listpacks an `xadd` that
-- leaves an empty stream; `xsetid` with the last id; and for each group its `XGROUP CREATE` and one
-- `xclaim` for each entry that a consumer has pending, with the time and the count that the group has for
-- the id. What follows the stream in the file is left unread. The ids of the entries are below 2^63.
pub rewrite_stream-save :
    (key : Bytes) (type_byte : ℕ) (v : SavedStream) (rest : Bytes)
    → StreamType type_byte
    → IsSavedStream v
    → rewrite_stream key type_byte (save_stream type_byte v ++ rest)
      ≡ record { sent = (codes "del" ∷ key ∷ []) ∷ stream_commands key v; outcome = ok rest }
unfolding rewrite_stream
rewrite_stream-save key type_byte v rest listpacks h = rw (read_stream-save key 15 v rest h) refl
rewrite_stream-save key type_byte v rest listpacks_2 h = rw (read_stream-save key 19 v rest h) refl
rewrite_stream-save key type_byte v rest listpacks_3 h = rw (read_stream-save key 21 v rest h) refl
