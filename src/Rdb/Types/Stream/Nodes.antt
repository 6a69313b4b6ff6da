-- ===== src/Rdb/Types/Stream/Nodes.antt =====
-- The listpacks of a stream, as Redis writes them.
use rdb_elasticache_migrator.Prelude.{
  take-append, drop-append, ℕ, suc, ◌^◌, ◌<◌, ◌≤◌, ◌≡◌, refl, false, List, [], ◌∷◌, ◌++◌, ltb,
  length, length-append, take, drop, flat_map, append_assoc, append-nil, arith, codes,
}
use rdb_elasticache_migrator.Prelude.Int.{pos, signed}
use rdb_elasticache_migrator.Runtime.{Bytes, ok}
use rdb_elasticache_migrator.Runtime.Words.{to_big, big_endian, big_endian-to_big, length-to_big}
use rdb_elasticache_migrator.Runtime.Strings.{equal}
use rdb_elasticache_migrator.Runtime.Strconv.{format_int}
use rdb_elasticache_migrator.Runtime.Emit.{Each}
use rdb_elasticache_migrator.Rdb.Structure.Strings.RoundTrip.{
  Stored, IsStored, save, content, read_string-save,
}
use rdb_elasticache_migrator.Rdb.Types.Saved.{
  PackNode, IsPackNode, pack_elements, read_listpack-node,
}
use rdb_elasticache_migrator.Rdb.Types.Stream.{next_string, read_master, node_entries, stream_node}
use rdb_elasticache_migrator.Rdb.Types.Stream.Items.{
  Item, item_texts, IsItem, next_integer-format_int, slice-front, alive, dead, added, alive-le,
  dead-le, send_entries-items,
}

-- A listpack of a stream with the id of its master entry.
pub record StreamNode : Type 0 where
  pub id : Stored
  pub ms : ℕ
  pub seq : ℕ
  pub fields : List Bytes
  pub items : List Item
  pub pack : PackNode

abbrev pub node_texts : StreamNode → List Bytes
node_texts n =
    format_int (pos (alive n.items))
    ∷ format_int (pos (dead n.items))
    ∷ format_int (pos (length n.fields))
    ∷ (n.fields ++ codes "0" ∷ flat_map (item_texts n.ms n.seq) n.items)

pub record IsStreamNode (n : StreamNode) : Type 0 where
  pub ms_fits : n.ms < 2 ^ 63
  pub seq_fits : n.seq < 2 ^ 63
  pub id_stored : IsStored n.id
  pub id_bytes : content n.id ≡ to_big 8 n.ms ++ to_big 8 n.seq
  pub all_items : Each (IsItem n.fields) n.items
  pub few_items : length n.items < 2 ^ 63
  pub few_fields : length n.fields < 2 ^ 63
  pub packed : IsPackNode n.pack
  pub texts : pack_elements n.pack ≡ node_texts n

abbrev pub save_node : StreamNode → Bytes
save_node n = save n.id ++ save n.pack.text

read_master-texts :
    (n : StreamNode)
    → IsStreamNode n
    → read_master (node_texts n)
      ≡ ok (
        record { count = pos (alive n.items); deleted = pos (dead n.items); fields = n.fields },
        flat_map (item_texts n.ms n.seq) n.items,
      )
unfolding read_master next_string
read_master-texts n h =
    let tail = codes "0" ∷ flat_map (item_texts n.ms n.seq) n.items in
    rw
      (
        next_integer-format_int (pos (alive n.items))
            (format_int (pos (dead n.items))
              ∷ format_int (pos (length n.fields))
              ∷ (n.fields ++ tail))
            (omega (arith, alive-le n.items, h.few_items)),
        next_integer-format_int (pos (dead n.items))
            (format_int (pos (length n.fields)) ∷ (n.fields ++ tail))
            (omega (arith, dead-le n.items, h.few_items)),
        next_integer-format_int (pos (length n.fields)) (n.fields ++ tail) h.few_fields,
        slice-front n.fields tail,
      )
      (unfold equal in refl)

length-item_texts :
    (mm ms : ℕ) (is : List Item) → length is ≤ length (flat_map (item_texts mm ms) is)
unfolding flat_map
length-item_texts mm ms [] = omega arith
length-item_texts mm ms (i ∷ is) = omega (
  arith,
  length-item_texts mm ms is,
  length-append {0} (item_texts mm ms i) (flat_map (item_texts mm ms) is),
)

id_halves :
    (ms seq : ℕ)
    → ms < 2 ^ 63
    → seq < 2 ^ 63
    → (signed 64 (big_endian (take 8 (to_big 8 ms ++ to_big 8 seq))) ≡ pos ms)
      × (signed 64 (big_endian (take 8 (drop 8 (to_big 8 ms ++ to_big 8 seq)))) ≡ pos seq)
id_halves ms seq a b = (
  rw
      (
        take-append (to_big 8 ms) (to_big 8 seq) 8 (length-to_big 8 ms),
        big_endian-to_big 8 ms (omega arith),
      )
      (small ms a),
  rw
      (
        drop-append (to_big 8 ms) (to_big 8 seq) 8 (length-to_big 8 ms),
        ← append-nil (to_big 8 seq),
        take-append (to_big 8 seq) [] 8 (length-to_big 8 seq),
        big_endian-to_big 8 seq (omega arith),
      )
      (small seq b),
)
  where
    small : (n : ℕ) → n < 2 ^ 63 → signed 64 n ≡ pos n
    small n h = ground arith

node_entries-texts :
    (key : Bytes) (n : StreamNode) (bs : Bytes)
    → IsStreamNode n
    → node_entries key (to_big 8 n.ms ++ to_big 8 n.seq) (node_texts n) bs
      ≡ record { sent = flat_map (added key) n.items; outcome = ok bs }
unfolding node_entries
node_entries-texts key n bs h =
    let (a, b) = id_halves n.ms n.seq h.ms_fits h.seq_fits in
    rw (a, b, read_master-texts n h)
      (send_entries-items key n.ms n.seq n.fields
        (suc (length (flat_map (item_texts n.ms n.seq) n.items))) n.items bs h.ms_fits h.seq_fits
        h.all_items (omega (arith, length-item_texts n.ms n.seq n.items)) h.few_items)

-- A listpack of a stream gives the entries that are not deleted.
pub stream_node-save :
    (key : Bytes) (n : StreamNode) (rest : Bytes)
    → IsStreamNode n
    → stream_node key (save_node n ++ rest)
      ≡ record { sent = flat_map (added key) n.items; outcome = ok rest }
unfolding stream_node
stream_node-save key n rest h =
    rw
      (
        append_assoc (save n.id) (save n.pack.text) rest,
        read_string-save n.id (save n.pack.text ++ rest) h.id_stored,
        h.id_bytes,
        long_enough n.ms n.seq,
        read_listpack-node n.pack rest h.packed,
        h.texts,
      )
      (node_entries-texts key n rest h)
  where
    long_enough : (ms seq : ℕ) → ltb (length (to_big 8 ms ++ to_big 8 seq)) 16 ≡ false
    long_enough ms seq = ground (
      arith,
      length-append {0} (to_big 8 ms) (to_big 8 seq),
      length-to_big 8 ms,
      length-to_big 8 seq,
    )
