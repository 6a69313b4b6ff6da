-- ===== src/Rdb/Types/Stream/Saved.antt =====
-- A stream as Redis writes it, and the commands that write it again.
use rdb_elasticache_migrator.Prelude.{
  ℕ, ◌^◌, ◌<◌, ◌≡◌, Bool, true, false, List, [], ◌∷◌, ◌++◌, leb, length, map, flat_map,
}
use rdb_elasticache_migrator.Runtime.{Bytes}
use rdb_elasticache_migrator.Runtime.Words.{to_big, to_little}
use rdb_elasticache_migrator.Runtime.Emit.{Command, Each}
use rdb_elasticache_migrator.Rdb.Structure.Length.RoundTrip.{encode_length}
use rdb_elasticache_migrator.Rdb.Structure.Strings.RoundTrip.{Stored, IsStored, save, content}
use rdb_elasticache_migrator.Rdb.Types.Saved.{save_all}
use rdb_elasticache_migrator.Rdb.Types.Stream.Items.{added}
use rdb_elasticache_migrator.Rdb.Types.Stream.Nodes.{StreamNode, IsStreamNode, save_node}
use rdb_elasticache_migrator.Rdb.Types.Stream.Groups.{
  uint_id, Pending, find_pending, xclaim, xgroup, empty_stream, xsetid,
}

-- An id, and an entry that is pending in a group.
pub record StreamId : Type 0 where
  pub ms : ℕ
  pub seq : ℕ

pub record Delivery : Type 0 where
  pub id : StreamId
  pub time : ℕ
  pub delivered : ℕ

pub record Consumer : Type 0 where
  pub name : Stored
  pub seen : ℕ
  pub active : ℕ
  pub pending : List StreamId

pub record Group : Type 0 where
  pub name : Stored
  pub last : StreamId
  pub offset : ℕ
  pub pending : List Delivery
  pub consumers : List Consumer

abbrev pub IsId : StreamId → Type 0
IsId i = (i.ms < 2 ^ 64) × (i.seq < 2 ^ 64)

abbrev pub IsDelivery : Delivery → Type 0
IsDelivery d = IsId d.id × (d.time < 2 ^ 64) × (d.delivered < 2 ^ 64)

abbrev pub IsConsumer : Consumer → Type 0
IsConsumer c =
    IsStored c.name
    × (c.seen < 2 ^ 64)
    × (c.active < 2 ^ 64)
    × Each IsId c.pending
    × (length c.pending < 2 ^ 63)

abbrev pub IsGroup : Group → Type 0
IsGroup g =
    IsStored g.name
    × IsId g.last
    × (g.offset < 2 ^ 64)
    × Each IsDelivery g.pending
    × (length g.pending < 2 ^ 63)
    × Each IsConsumer g.consumers
    × (length g.consumers < 2 ^ 63)

abbrev pub save_id : StreamId → Bytes
save_id i = to_big 8 i.ms ++ to_big 8 i.seq

abbrev pub save_delivery : Delivery → Bytes
save_delivery d = save_id d.id ++ (to_little 8 d.time ++ encode_length d.delivered)

-- A field that only the newer types have.
abbrev pub save_if : Bool → Bytes → Bytes
save_if true s = s
save_if false s = []

abbrev pub save_consumer : ℕ → Consumer → Bytes
save_consumer type_byte c =
    save c.name
    ++ (to_little 8 c.seen
        ++ (save_if (leb 21 type_byte) (to_little 8 c.active) ++ save_all save_id c.pending))

abbrev pub save_group : ℕ → Group → Bytes
save_group type_byte g =
    save g.name
    ++ (encode_length g.last.ms
        ++ (encode_length g.last.seq
            ++ (save_if (leb 19 type_byte) (encode_length g.offset)
                ++ (save_all save_delivery g.pending
                    ++ save_all (save_consumer type_byte) g.consumers))))

abbrev pub id_name : StreamId → Bytes
id_name i = uint_id i.ms i.seq

abbrev pub as_pending : Delivery → Pending
as_pending d = record { stream_id = id_name d.id; time = d.time; delivered = d.delivered }

-- One XCLAIM, with the time and the count that the group has for the id.
abbrev pub claimed : Bytes → Group → Consumer → StreamId → Command
claimed key g c i =
    xclaim key (content g.name) (content c.name) (id_name i)
      (find_pending (id_name i) (map as_pending g.pending))

abbrev pub consumer_commands : Bytes → Group → Consumer → List Command
consumer_commands key g c = flat_map (λ i. claimed key g c i ∷ []) c.pending

abbrev pub group_commands : Bytes → Group → List Command
group_commands key g =
    xgroup key (content g.name) g.last.ms g.last.seq
    ∷ flat_map (consumer_commands key g) g.consumers

-- A stream: its listpacks, the number of its entries, its last id, five numbers that the newer types have,
-- and its groups.
pub record SavedStream : Type 0 where
  pub nodes : List StreamNode
  pub number : ℕ
  pub last : StreamId
  pub more : List ℕ
  pub groups : List Group

pub record IsSavedStream (v : SavedStream) : Type 0 where
  pub all_nodes : Each IsStreamNode v.nodes
  pub few_nodes : length v.nodes < 2 ^ 63
  pub number_fits : v.number < 2 ^ 64
  pub last_fits : IsId v.last
  pub five : length v.more ≡ 5
  pub more_fit : Each (λ n. n < 2 ^ 64) v.more
  pub all_groups : Each IsGroup v.groups
  pub few_groups : length v.groups < 2 ^ 63

abbrev pub save_groups : ℕ → SavedStream → Bytes
save_groups type_byte v =
    save_if (leb 19 type_byte) (flat_map encode_length v.more)
    ++ save_all (save_group type_byte) v.groups

abbrev pub save_stream : ℕ → SavedStream → Bytes
save_stream type_byte v =
    save_all save_node v.nodes
    ++ (encode_length v.number
        ++ (encode_length v.last.ms ++ (encode_length v.last.seq ++ save_groups type_byte v)))

abbrev pub when_empty : Bytes → List StreamNode → List Command
when_empty key [] = empty_stream key ∷ []
when_empty key (n ∷ ns) = []

abbrev pub stream_commands : Bytes → SavedStream → List Command
stream_commands key v =
    flat_map (λ n. flat_map (added key) n.items) v.nodes
    ++ (when_empty key v.nodes
        ++ (xsetid key v.last.ms v.last.seq ∷ flat_map (group_commands key) v.groups))

-- The three types of streams.
pub data StreamType : ℕ → Type 0 where
  listpacks : StreamType 15
  listpacks_2 : StreamType 19
  listpacks_3 : StreamType 21
