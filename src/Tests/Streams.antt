-- ===== src/Tests/Streams.antt =====
-- stream.go, module2.go, mbbloom.go and tairhash.go of internal/rdb/types.
use rdb_elasticache_migrator.Prelude.{
  ℕ, ◌≡◌, ◌≢◌, refl, true, false, arith, List, [], ◌∷◌, ◌++◌, map, flat_map, length, codes, bit_and,
}
use rdb_elasticache_migrator.Prelude.Int.{pos}
use rdb_elasticache_migrator.Runtime.{Bytes, ok, panic, out_of_fuel}
use rdb_elasticache_migrator.Runtime.Strconv.{format_int}
use rdb_elasticache_migrator.Runtime.Words.{to_big}
use rdb_elasticache_migrator.Rdb.Structure.Listpack
use rdb_elasticache_migrator.Rdb.Structure.Listpack.RoundTrip.{listpack}
use rdb_elasticache_migrator.Rdb.Structure.Length.RoundTrip.{encode_length}
use rdb_elasticache_migrator.Rdb.Structure.Strings.RoundTrip.{plain, content}
use rdb_elasticache_migrator.Rdb.Types.Stream.{node_entries}
use rdb_elasticache_migrator.Rdb.Types.Stream.Nodes.{StreamNode, IsStreamNode}
use rdb_elasticache_migrator.Rdb.Types.Stream.Groups.{rewrite_stream}
use rdb_elasticache_migrator.Rdb.Types.Stream.Saved.StreamType.{listpacks_3}
use rdb_elasticache_migrator.Rdb.Types.Stream.RoundTrip.{rewrite_stream-save}
use rdb_elasticache_migrator.Rdb.Types.Stream.Saved.{
  Group, SavedStream, save_stream, stream_commands, IsSavedStream,
}
use rdb_elasticache_migrator.Rdb.Types.Stream.Ends.{node_entries-ends}
use rdb_elasticache_migrator.Rdb.Types.Tair.RoundTrip.{Field, field_command, save_tair_hash}
use rdb_elasticache_migrator.Rdb.Types.Module.{module_type_name_by_id, rewrite_module}
use rdb_elasticache_migrator.Rdb.Types.Module.Name.{encode_id, module_type_name_by_id-encode_id}
use rdb_elasticache_migrator.Rdb.Types.Module.Dispatch.{tairhash, rewrite_module-tair_hash}
use rdb_elasticache_migrator.Rdb.Types.Bloom.{Link, Chain, load_chunk}
use rdb_elasticache_migrator.Rdb.Types.Bloom.Layout.{HeaderAt, LinkAt, get_encoded_header-layout}
use rdb_elasticache_migrator.Rdb.Types.Bloom.Header.{header_for, write_chain, get_encoded_header}
use rdb_elasticache_migrator.Rdb.Types.Bloom.Chunks.{Contiguous}
use rdb_elasticache_migrator.Rdb.Types.Bloom.Rewritten.{write_chain-Contiguous}
use rdb_elasticache_migrator.Tests.Types.{texts, key}

-- One listpack with one entry, which has the field of the master entry.
abbrev node_bytes : List Listpack.Entry.Entry
node_bytes =
    Listpack.Entry.uint7 1
    ∷ Listpack.Entry.uint7 0
    ∷ Listpack.Entry.uint7 1
    ∷ Listpack.Entry.str6 (codes "f")
    ∷ Listpack.Entry.uint7 0
    ∷ Listpack.Entry.uint7 2
    ∷ Listpack.Entry.uint7 0
    ∷ Listpack.Entry.uint7 1
    ∷ Listpack.Entry.str6 (codes "v")
    ∷ Listpack.Entry.uint7 4
    ∷ []

abbrev a_node : StreamNode
a_node = record {
  id = plain (to_big 8 5 ++ to_big 8 0);
  ms = 5;
  seq = 0;
  fields = codes "f" ∷ [];
  items =
      record {
        is_deleted = false;
        same = true;
        ms = 5;
        seq = 1;
        pairs = (codes "f", codes "v") ∷ [];
        lp_count = codes "4";
      }
      ∷ [];
  pack = record { text = plain (listpack 29 10 node_bytes); bytes = 29; entries = node_bytes };
}

-- A group with one entry that is pending at its consumer.
abbrev a_group : Group
a_group = record {
  name = plain (codes "g");
  last = record { ms = 5; seq = 1 };
  offset = 1;
  pending = record { id = record { ms = 5; seq = 1 }; time = 7; delivered = 2 } ∷ [];
  consumers =
      record {
        name = plain (codes "c");
        seen = 9;
        active = 9;
        pending = record { ms = 5; seq = 1 } ∷ [];
      }
      ∷ [];
}

abbrev pub a_stream : SavedStream
a_stream = record {
  nodes = a_node ∷ [];
  number = 1;
  last = record { ms = 5; seq = 1 };
  more = 5 ∷ 1 ∷ 0 ∷ 0 ∷ 1 ∷ [];
  groups = a_group ∷ [];
}

a_node-IsStreamNode : IsStreamNode a_node
unfolding listpack Listpack.Entry.encode_entries Listpack.Entry.encode_entry Listpack.Entry.payload
    Listpack.Entry.backlen content Listpack.Entry.render format_int to_big flat_map
a_node-IsStreamNode = record {
  ms_fits = omega arith;
  seq_fits = omega arith;
  id_stored = omega arith;
  id_bytes = refl;
  all_items = ((omega arith, omega arith, refl), tt);
  few_items = omega arith;
  few_fields = omega arith;
  packed = (
    omega arith,
    (
      omega arith,
      (
        omega arith,
        (
          omega arith,
          (
            omega arith,
            (
              omega arith,
              (omega arith, (omega arith, (omega arith, (omega arith, (omega arith, tt))))),
            ),
          ),
        ),
      ),
    ),
    omega arith,
    refl,
  );
  texts = refl;
}

pub a_stream-IsSavedStream : IsSavedStream a_stream
a_stream-IsSavedStream = record {
  all_nodes = (a_node-IsStreamNode, tt);
  few_nodes = omega arith;
  number_fits = omega arith;
  last_fits = (omega arith, omega arith);
  five = refl;
  more_fit = (omega arith, (omega arith, (omega arith, (omega arith, (omega arith, tt)))));
  all_groups = (
    (
      omega arith,
      (omega arith, omega arith),
      omega arith,
      (((omega arith, omega arith), omega arith, omega arith), tt),
      omega arith,
      ((omega arith, omega arith, omega arith, ((omega arith, omega arith), tt), omega arith), tt),
      omega arith,
    ),
    tt,
  );
  few_groups = omega arith;
}

rewrite_stream-save_example : rewrite_stream key 21 (save_stream 21 a_stream ++ 7 ∷ []) ≡ record {
  sent = (codes "del" ∷ key ∷ []) ∷ stream_commands key a_stream;
  outcome = ok (7 ∷ []);
}
rewrite_stream-save_example =
    rewrite_stream-save key 21 a_stream (7 ∷ []) listpacks_3 a_stream-IsSavedStream

node_entries-ends_example :
    (node_entries key
      (to_big 8 5 ++ to_big 8 0)
      (codes "9" ∷ codes "0" ∷ codes "0" ∷ codes "0" ∷ codes "2" ∷ [])
      (7 ∷ [])).outcome
    ≢ panic out_of_fuel
node_entries-ends_example =
    node_entries-ends key (to_big 8 5 ++ to_big 8 0)
      (codes "9" ∷ codes "0" ∷ codes "0" ∷ codes "0" ∷ codes "2" ∷ []) (7 ∷ [])

abbrev pub fields : List Field
fields =
    record { name = plain (codes "f"); version = 1; expire = 0; value = plain (codes "v") }
    ∷ record { name = plain (codes "g"); version = 2; expire = 90; value = plain (codes "w") }
    ∷ []

rewrite_module-tair_hash_example :
    rewrite_module texts
      (λ t. t)
      (λ t. t)
      (λ n t. n)
      length
      (pos 0)
      7
      key
      (encode_length (encode_id tairhash 1) ++ (save_tair_hash (plain key) fields ++ 7 ∷ []))
    ≡ record {
      sent =
          (codes "del" ∷ content (plain key) ∷ [])
          ∷ flat_map (λ f. field_command (content (plain key)) f ∷ []) fields;
      outcome = ok (7 ∷ []);
    }
rewrite_module-tair_hash_example =
    rewrite_module-tair_hash texts (λ t. t) (λ t. t) (λ n t. n) length (pos 0) key 1 (plain key)
      fields (7 ∷ []) (omega arith) (omega arith)
      (
        (omega arith, omega arith, omega arith, omega arith),
        ((omega arith, omega arith, omega arith, omega arith), tt),
      )
      (omega arith)

module_type_name_by_id-encode_id_example :
    (module_type_name_by_id (encode_id (12 ∷ 1 ∷ 27 ∷ 37 ∷ 40 ∷ 40 ∷ 38 ∷ 62 ∷ 62 ∷ []) 4)
      ≡ codes "MBbloom--")
    × (bit_and (encode_id (12 ∷ 1 ∷ 27 ∷ 37 ∷ 40 ∷ 40 ∷ 38 ∷ 62 ∷ 62 ∷ []) 4) 1023 ≡ 4)
module_type_name_by_id-encode_id_example =
    module_type_name_by_id-encode_id (12 ∷ 1 ∷ 27 ∷ 37 ∷ 40 ∷ 40 ∷ 38 ∷ 62 ∷ 62 ∷ []) 4 refl
      (
        omega arith,
        (
          omega arith,
          (
            omega arith,
            (
              omega arith,
              (omega arith, (omega arith, (omega arith, (omega arith, (omega arith, tt))))),
            ),
          ),
        ),
      )
      (omega arith)

abbrev a_link : Link texts
a_link = record {
  inner = record {
    hashes = 7;
    n2 = 3;
    entries = 2;
    err = codes "0.01";
    bpe = codes "9";
    bf = codes "abc";
    bits = 24;
  };
  size = 1;
}

abbrev a_chain : Chain texts
a_chain = record { filters = a_link ∷ []; size = 1; nfilters = 1; options = 0; growth = 2 }

write_chain-Contiguous_example :
    (cs : List (ℕ × Bytes)) × (write_chain texts length (pos 20200) key 4 a_chain (7 ∷ [])
      ≡ record {
        sent =
            (codes "del" ∷ key ∷ [])
            ∷ (codes "BF.LOADCHUNK"
                ∷ key
                ∷ codes "1"
                ∷ header_for texts length (pos 20200) 4 a_chain
                ∷ [])
            ∷ map (load_chunk key) cs;
        outcome = ok (7 ∷ []);
      })
    × Contiguous 1 cs
    × (flat_map (λ c. c.1) cs ≡ codes "abc")
unfolding flat_map
write_chain-Contiguous_example =
    write_chain-Contiguous texts length (pos 20200) key 4 a_chain (7 ∷ []) (omega arith)

get_encoded_header-layout_example :
    HeaderAt length true a_chain (get_encoded_header texts length a_chain true false)
    × LinkAt length 20 false a_link (get_encoded_header texts length a_chain true false)
get_encoded_header-layout_example =
    get_encoded_header-layout length a_chain true false [] a_link [] refl
