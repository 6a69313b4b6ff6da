-- ===== src/Lib.antt =====
-- RedisShake (redisshake/), the Go program that moves data between Redis servers: the parts that decide
-- what is written to the target. A reader gets an RDB file from the source, the loader turns it into
-- entries (one command each), `CalcKeys` and `CalcSlots` find the keys of a command and their slots, the
-- filter drops entries, and a writer sends the rest.
--
-- The files and the code:
--   Prelude, Runtime     what the modules share: integers and machine words, the bytes of a reader, runs
--                        that end by a panic, strconv, strings, a goroutine that sends commands
--   Rdb/Structure        redisshake/internal/rdb/structure: lengths, integers, floats, strings and LZF,
--                        listpack, ziplist, intset, the values of modules; with the form that Redis
--                        writes
--   Rdb/Types            redisshake/internal/rdb/types: list.go, set.go, string.go, zset.go, hash.go,
--                        stream.go (Stream), tairstring.go, tairhash.go, tairzset.go (Tair), mbbloom.go
--                        (Bloom), module2.go (Module) and the choice of interface.go (Object)
--   Rdb/Loader           redisshake/internal/rdb/rdb.go: the loop over the entries of the file, the
--                        header in front of it (Rdb/Loader/File), the records that a file holds
--                        (Rdb/Loader/Items, Rounds, ModuleAux), and the whole of a file with its values
--                        (Rdb/Loader/Whole)
--   Commands/Slots       redisshake/internal/commands/keys.go (CalcSlots, keyHash), utils/crc16.go
--   Commands/Keys        redisshake/internal/commands/keys.go (CalcKeys), types.go
--   Filter               redisshake/internal/filter/filter.go, filter_keys_pattern.go
--   Aof/Line, Aof/Single redisshake/internal/aof/aof.go: ReadCompleteLine, LoadSingleAppendOnlyFile
--   Aof/Split            redisshake/internal/reader/parsing_aof.go: SplitArgs
--   Aof/Manifest         the same file: the manifest, its text and its reading
--   Aof/Files            the same file: LoadAppendOnlyFile over the files of a manifest
--   Aof/Reader           redisshake/internal/reader/aof_reader.go: StartRead
--   Reader/Receive       redisshake/internal/reader/sync_standalone_reader.go: receiveRDB with its two
--                        kinds of transfer
--   Utils/Queue          redisshake/internal/utils/UniqueQueue.go
--   Writer/Standalone    redisshake/internal/writer/redis_standalone_writer.go: processWrite, processReply
--   Writer/Cluster       redisshake/internal/writer/redis_cluster_writer.go: loadClusterNodes, Write
--
-- How the code is modelled. A function of the source keeps its name in the spelling of this library. A
-- read takes the bytes that are left and returns its value with the bytes behind it, or ends the run: a
-- panic of the run time and `log.Panicf`, which exits, are the same `panic`. A value of the file is
-- written again by an `Emit`: what it has sent before a panic stays sent. Machine words are natural
-- numbers with the wrap-around written out; `int64` and the like are read from them. The filter carries
-- its two lists of compiled patterns as a state.
--
-- The writer is two goroutines over shared state, and the queue one besides its callers: each is a phase
-- and a function that takes its next step or waits, and a run is a list of events in any order, so each
-- interleaving of the steps is a run.
--
-- Loops whose end depends on the data run on fuel: LZF (the length of the input), ziplists of unknown
-- count, the module fields of the loader, the keyword search (the number of arguments and two), the
-- entries of a listpack of a stream (the number of its elements and one), the chunks of a Bloom filter
-- (the number of its bytes and one), the reads of a file from the source (the number of the bytes that
-- come and one), the loop of the loader, which has one round for each type byte, and the loops over the
-- lines of an append-only file and of a manifest and over the words of a line, each round of which takes
-- a byte at least.
--
-- What stands outside: Go's floats and the verbs that print them, package regexp, `strings.ToUpper`,
-- `strings.TrimSpace`, `strings.EqualFold`, `IsPrint`, the clock and `ctx.Done()` are arguments, and so is
-- the generated table of commands. A bufio.Reader is modelled by its documentation (Runtime/Bufio); what its
-- memory gives through a slice that is still held behind the next read, or that goes beyond the end of a
-- line, is an argument. The number of bytes of an entry on the
-- wire, the reply to CLUSTER NODES and the number of bytes that each read of a connection brings are
-- arguments. Connections, the handshake and the other readers, configuration, status and logging are not
-- modelled.
pub mod Prelude
pub mod Runtime
pub mod Rdb
pub mod Commands
pub mod Filter
pub mod Aof
pub mod Reader
pub mod Utils
pub mod Writer
mod Tests
