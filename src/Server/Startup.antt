-- ===== src/Server/Startup.antt =====
-- kafkrs-server/src/main.rs: the start of the broker, from the files of a run before it to the state
-- that its connections share. The identity, the metrics and the listeners are not part of it.
pub mod Up
pub mod Serves
use kafkrs.Prelude.{ℕ, Bool, true, false, Option, none, some, List, [], ◌∷◌, if◌then◌else◌}
use kafkrs.Models.Config.{DiskType}
use kafkrs.Models.Manifest.{Text}
use kafkrs.Models.Topic.{TopicEntry, ResolvedTopicConfig}
use kafkrs.Server.ObjectStore.{Store}
use kafkrs.Server.PendingDeletes.{PendingDelete, Files, load_all}
use kafkrs.Server.TopicRegistry.{Registry, load, snapshot}
use kafkrs.Server.Partitions.{Partitions, SpawnIo, spawn_range}
use kafkrs.Server.Wire.TopicAdmin.{SharedState}

-- What the bring-up of each topic's partitions meets, and whether pending_deletes.json is read.
pub record BootIo : Type 0 where
  pub spawn_io : Text → SpawnIo
  pub reads_pending : Bool

-- The bring-up of the known topics; `false` is a panic.
unfoldable pub spawn_known :
    (Text → SpawnIo) → List (Text × Text × ℕ × ResolvedTopicConfig) → Partitions → Partitions × Bool
spawn_known io [] partitions = (partitions, true)
spawn_known io ((topic, topic_uuid, count, cfg) ∷ known) partitions =
    let up = spawn_range (io topic) topic topic_uuid cfg 0 count partitions in
    let rest = spawn_known io known up.0 in if up.1 then rest else up

-- What the run before left: topics.json, the store, the WAL directories, and the deletions.
pub record Disk : Type 0 where
  pub topics_file : List TopicEntry
  pub store : Store
  pub wal_dirs : List Text
  pub pending : Files

module _ (to_vec : List PendingDelete → List ℕ)
    (from_str : List ℕ → Option (List PendingDelete)) where
  -- The state behind the bring-up, with a sweep for each pending deletion; `none` is an `expect`.
  abbrev pub resumed :
      Text
      → DiskType
      → Registry
      → Partitions × Bool
      → Option (List PendingDelete)
      → Disk
      → Option SharedState
  resumed prefix disk_type registry (partitions, false) pending disk = none
  resumed prefix disk_type registry (partitions, true) none disk = none
  resumed prefix disk_type registry (partitions, true) (some pending) disk = some (record {
    registry = registry;
    partitions = partitions;
    store = disk.store;
    prefix = prefix;
    disk_type = disk_type;
    wal_dirs = disk.wal_dirs;
    pending = disk.pending;
    closed = [];
    sweeps = pending;
  })

  -- `main`, up to its listeners; `none` is a panic.
  unfoldable pub boot : BootIo → Text → DiskType → Disk → Option SharedState
  boot io prefix disk_type disk = elim (load disk.topics_file) [
    | none ↦ none
    | some registry ↦
        resumed prefix disk_type registry (spawn_known io.spawn_io (snapshot disk_type registry) [])
          (load_all to_vec from_str io.reads_pending disk.pending) disk
  ]
