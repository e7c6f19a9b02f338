-- ===== src/Server/Partitions.antt =====
-- kafkrs-server/src/startup.rs and retention_sweeper.rs: the map of the partitions that are up.
-- A handle has what was put into the channels of its two actors, oldest first. What recovery makes
-- of a partition, and whether its WAL opens, are arguments; `none` stands for a panic. The lock of
-- a partition makes its bring-up one step.
pub mod Entries
use kafkrs.Prelude.{
  ℕ, zero, suc, ◌==◌, Bool, true, false, not, ◌&&◌, Option, none, some, List, [], ◌∷◌, ◌++◌, map,
  if◌then◌else◌, filter, head?, get_last?,
}
use kafkrs.Prelude.Int.{ℤ}
use kafkrs.Models.Record.{Record}
use kafkrs.Models.Manifest.{Text}
use kafkrs.Models.Topic.{ResolvedTopicConfig}
use kafkrs.Server.ObjectStore.{eqb_text}
use kafkrs.Server.PartitionWriter.State.{SealedBatch}
use kafkrs.Server.Recovery.{PartitionRecovery}

pub data Message : Type 0 where
  upload : SealedBatch → Message
  update_config : ResolvedTopicConfig → Message
  retention_kick shutdown : Message

-- `started_with` is the config that both actors were given at their start.
pub record PartitionHandle : Type 0 where
  pub cfg : ResolvedTopicConfig
  pub started_with : ResolvedTopicConfig
  pub uuid : Text
  pub to_writer : List Message
  pub to_uploader : List Message

abbrev pub Key : Type 0
Key = Text × ℕ

abbrev pub Partitions : Type 0
Partitions = List (Key × PartitionHandle)

abbrev pub eqb_key : Key → Key → Bool
eqb_key a b = eqb_text a.0 b.0 && (a.1 == b.1)

unfoldable pub get_handle : Key → Partitions → Option PartitionHandle
get_handle key [] = none
get_handle key (x ∷ xs) = let rest = get_handle key xs in if eqb_key x.0 key then some x.1 else rest

-- `HashMap::remove`
unfoldable pub remove_handle : Key → Partitions → Partitions
remove_handle key partitions = filter (λ x. not (eqb_key x.0 key)) partitions

-- The batch of an orphan segment; `none` is the `unwrap` of an empty one.
abbrev pub orphan_batch : ℤ × List Record → Option SealedBatch
orphan_batch (base, records) = elim (head? records) [
  | none ↦ none
  | some first ↦ elim (get_last? records) [
    | none ↦ none
    | some last ↦ some (record {
      records = records;
      base_offset = base;
      last_offset = last.offset;
      base_timestamp_ns = first.timestamp_ns;
      last_timestamp_ns = last.timestamp_ns;
    })
  ]
]

unfoldable pub orphan_uploads : List (ℤ × List Record) → Option (List Message)
orphan_uploads [] = some []
orphan_uploads (o ∷ os) = elim (orphan_batch o) [
  | none ↦ none
  | some batch ↦ elim (orphan_uploads os) [ none ↦ none | some rest ↦ some (upload batch ∷ rest) ]
]

-- What the bring-up of each partition meets: its recovery, and whether the writer's WAL opens.
pub record SpawnIo : Type 0 where
  pub recovers : ℕ → Option PartitionRecovery
  pub opens : ℕ → Bool

abbrev pub recovered : SpawnIo → ℕ → Option (List Message)
recovered io p = elim (io.recovers p) [
  | none ↦ none
  | some rec ↦ elim (io.opens p) [ true ↦ orphan_uploads rec.orphan_segments | false ↦ none ]
]

-- The entry for a partition that was not up.
abbrev pub bring_up :
    Option (List Message) → Key → Text → ResolvedTopicConfig → Partitions → Option Partitions
bring_up none key topic_uuid cfg partitions = none
bring_up (some uploads) key topic_uuid cfg partitions = some (
    (
      key,
      record {
        cfg = cfg;
        started_with = cfg;
        uuid = topic_uuid;
        to_writer = [];
        to_uploader = uploads;
      },
    )
    ∷ partitions)

abbrev pub unless_present :
    Option PartitionHandle → Option Partitions → Partitions → Option Partitions
unless_present (some handle) new partitions = some partitions
unless_present none new partitions = new

unfoldable pub spawn_partition :
    SpawnIo → Text → Text → ℕ → ResolvedTopicConfig → Partitions → Option Partitions
spawn_partition io topic topic_uuid partition cfg partitions =
    let key : Key = (topic, partition) in
    unless_present (get_handle key partitions)
      (bring_up (recovered io partition) key topic_uuid cfg partitions) partitions

-- The loops `for p in 0..partition_count` of the callers, from `p` on; `false` is a panic.
unfoldable pub spawn_range :
    SpawnIo → Text → Text → ResolvedTopicConfig → ℕ → ℕ → Partitions → Partitions × Bool
spawn_range io topic topic_uuid cfg p zero partitions = (partitions, true)
spawn_range io topic topic_uuid cfg p (suc n) partitions =
    elim (spawn_partition io topic topic_uuid p cfg partitions) [
      | none ↦ (partitions, false)
      | some partitions' ↦ spawn_range io topic topic_uuid cfg (suc p) n partitions'
    ]

-- One tick of the retention sweeper; `has_room` says which uploader's channel takes the kick.
unfoldable pub kick_all : (Key → Bool) → Partitions → Partitions
kick_all has_room partitions =
    map
      (λ (x : Key × PartitionHandle).
        let h = x.1 in
        if has_room x.0
        then (x.0, record h { to_uploader = h.to_uploader ++ retention_kick ∷ [] })
        else x)
      partitions
