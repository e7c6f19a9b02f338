-- ===== src/Lib.antt =====
-- The kafkrs broker: the write-ahead log of a partition, the actor that owns it, the actor that moves
-- sealed segments to the object store, recovery, the topics with their deletion, and the protocol
-- that clients speak, from a connection's first frame to its last answer.
--
-- A client's produce request reaches the partition's writer, which numbers its records, commits
-- them in groups to a WAL file with an fsync, acknowledges them, and seals its batch when it is
-- large enough. The uploader writes a sealed batch as one object, registers it in the partition's
-- manifest, and tells the writer, which then unlinks the WAL. Retention evicts the oldest segments
-- from the manifest. A restart reads the manifest and the WALs that are left.
--
-- A connection hands each command to a task of its own. The commands on topics go through the topic
-- registry, which keeps topics.json, and bring partitions up or shut them down; a deleted topic's
-- data is put on a list on disk and swept from the store, at once and at every start until it is
-- done. The start of the broker brings up every partition of topics.json and resumes the sweeps.
--
-- The parts, and the code that they model:
--   Prelude: lists, integers with the i64 wrap-around, and bytes; no code of the broker.
--   Models.Record, Models.Config, Models.Topic: kafkrs-models/src/record.rs, config.rs, topic.rs:
--     a record, the group-commit profiles, per-topic overrides, resolve and validate.
--   Models.Wal: kafkrs-models/src/wal.rs: encode_record, decode_record, scan_wal.
--   Models.Manifest: kafkrs-models/src/manifest.rs: the segment list and its lookups.
--   Server.WalFiles: kafkrs-server/src/wal_writer.rs: the WAL files of a partition by base offset;
--     open_wal, append_and_sync and recover_wal_file are the functions of the file.
--   Server.InFlight, Server.PartitionWriter: kafkrs-server/src/partition_writer.rs. State has the
--     actor's fields and messages, Ops and Actor one function for each method (accept, commit,
--     seal_if_full are the parts of on_produce and flush_commit), Actor.run its loop. Log has the
--     records that were committed, those handed off for upload first.
--   Server.Retention: kafkrs-server/src/retention.rs: evaluate_eviction.
--   Server.ObjectStore: kafkrs-server/src/object_store.rs: keys, and whole-object calls.
--   Server.Uploader: kafkrs-server/src/uploader.rs: upload_once, its retry loop, retention_pass;
--     Actor.run is the loop of the actor.
--   Server.Recovery: kafkrs-server/src/recovery.rs: recover_partition.
--   Server.TopicRegistry: kafkrs-server/src/topic_registry.rs: the map of topics and topics.json;
--     handle is one turn of the actor's loop.
--   Server.Partitions: kafkrs-server/src/startup.rs and retention_sweeper.rs: spawn_partition and the
--     map of the partitions that are up; a handle has what its actors
--     were started with and were sent.
--   Server.PendingDeletes, Server.Deletion: kafkrs-server/src/pending_deletes.rs and deletion.rs: the
--     list of pending deletions on disk, and sweep_deletion.
--   Server.Startup: kafkrs-server/src/main.rs: boot, from topics.json to the state that the
--     connections share.
--   Server.BrokerIdentity: kafkrs-server/src/broker_identity.rs: resolve_identity.
--   Server.Fetcher: kafkrs-server/src/fetcher.rs: fetch, its second look after the wait, and the
--     read of the object store.
--   Server.Wire.Frame, Server.Wire.Produce: kafkrs-server/src/wire/frame.rs and
--     wire/dispatch/produce.rs: frames, and the produce handler behind the partition lookup.
--   Server.Wire.Command, Errors, Overrides: kafkrs-models/proto/wire/v1.proto,
--     kafkrs-server/src/wire/errors.rs and wire/dispatch/mod.rs: the commands and their codes.
--   Server.Wire.Connection: kafkrs-server/src/wire/connection.rs: the dispatcher of a connection;
--     receive is one turn of its loop, track, respond and retire are turns of what it spawns.
--   Server.Wire.Dispatch, TopicAdmin, DeleteTopic, Resolve, FetchHandler, Metadata: dispatch_one of
--     the same file, and kafkrs-server/src/wire/dispatch/topic_admin.rs, produce.rs, fetch.rs,
--     metadata.rs and lifecycle.rs: a handler is one step over the state the connections share.
--   Tests: the theorems at concrete values.
--
-- Bytes are numbers, i64 values are integers whose arithmetic wraps, and unsigned lengths are
-- cut to their field's width where the code casts them. The outcome of each call of a disk or an
-- object store is an argument: a group commit reaches the disk whole or up to any byte, and a write
-- to the object store is done, refused, or done with an error for an answer. What the actor sends
-- is kept in its state. The scan of a WAL runs on fuel, one round for each byte and one more;
-- a decoded record takes bytes, so this is always enough. The retries of an upload run over a list
-- of outcomes, and a list without a success is an upload that still retries.
--
-- Parameters stand for code outside the repository: the CRC-32C, the Parquet writer and reader,
-- the JSON forms of the manifest and of the pending deletions, the Protobuf form of a command. Not
-- modelled: metrics and log lines, paths, the tokio channels and the sockets themselves with the
-- reader and writer tasks of a connection, the Parquet and Arrow conversions, the listeners,
-- and handlers that interleave at their awaits: each of them is one step here.
pub mod Prelude
pub mod Models
pub mod Server
mod Tests
