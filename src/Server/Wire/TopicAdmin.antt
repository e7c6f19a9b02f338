-- ===== src/Server/Wire/TopicAdmin.antt =====
-- kafkrs-server/src/wire/dispatch/topic_admin.rs: the handlers of the topics' life, over the state
-- that the connections share. A handler runs as one step, against a registry that answers or does
-- not; `none` for a frame is a panic while a partition is brought up. The JSON functions of the
-- pending deletions and of the manifest are parameters.
pub mod Served
pub mod Keep
pub mod Configure
use kafkrs.Prelude.{
  ℕ, zero, suc, Bool, true, false, not, Option, none, some, List, [], ◌∷◌, ◌++◌, map, if◌then◌else◌,
  filter,
}
use kafkrs.Prelude.Int.{ℤ}
use kafkrs.Models.Config.{DiskType}
use kafkrs.Models.Manifest.{Text, Manifest, empty}
use kafkrs.Models.Topic.{TopicConfigOverrides, TopicEntry, ResolvedTopicConfig, resolve, unwrap_or}
use kafkrs.Server.ObjectStore.{Store, get, manifest_key, eqb_text}
use kafkrs.Server.PendingDeletes.{PendingDelete, Files, Stage, append}
use kafkrs.Server.TopicRegistry
use kafkrs.Server.TopicRegistry.{Registry, RegistryIo, Reply, create, alter, find}
use kafkrs.Server.Partitions.{
  Message, update_config, Key, PartitionHandle, Partitions, SpawnIo, get_handle, remove_handle,
  spawn_range,
}
use kafkrs.Server.Wire.Frame.{Frame}
use kafkrs.Server.Wire.Command.{
  Body, Command, WireOverrides, CreateTopicRequest, DeleteTopicRequest, AlterTopicConfigRequest,
  err_broker_not_ready, err_unknown_topic, err_internal, bare, error_frame,
}
use kafkrs.Server.Wire.Errors.{registry_error_code}
use kafkrs.Server.Wire.Overrides.{wire_overrides_to_model, model_overrides_to_wire}

-- `wal_dirs` has the topics with a WAL directory and `store` the manifests that a handler reads; the
-- directories and manifests that the registry makes for a new topic are outcomes of its own calls
-- and are not put into them. `closed` has the handles whose actors were shut down, and `sweeps` the
-- deletions that were started.
pub record SharedState : Type 0 where
  pub registry : Registry
  pub partitions : Partitions
  pub store : Store
  pub prefix : Text
  pub disk_type : DiskType
  pub wal_dirs : List Text
  pub pending : Files
  pub closed : List PartitionHandle
  pub sweeps : List PendingDelete

-- Whether the registry answers, the outcomes of its calls and of the bring-ups, the uuid and the
-- time that are drawn, and the outcomes of the calls of a deletion.
pub record AdminIo : Type 0 where
  pub answers : Bool
  pub registry_io : RegistryIo
  pub spawn_io : SpawnIo
  pub uuid : Text
  pub now : ℤ
  pub removes_wal : Bool
  pub gets : ℕ → Bool
  pub reads_pending : Bool
  pub writes_pending : Stage

abbrev pub Answer : Type 0
Answer = SharedState × Option (Frame Command)

-- `unwrap_or_default` of the wire's overrides.
abbrev no_wire_overrides : WireOverrides
no_wire_overrides = record {
  segment_size_bytes = none;
  segment_seal_time_ms = none;
  max_key_size_bytes = none;
  max_value_size_bytes = none;
  group_commit_time_ms = none;
  group_commit_size_bytes = none;
  group_commit_record_count = none;
  max_fetch_wait_ms = none;
  retention_ms = none;
  retention_bytes = none;
}

abbrev pub overrides_of : Option WireOverrides → TopicConfigOverrides
overrides_of w = wire_overrides_to_model (unwrap_or w no_wire_overrides)

-- Behind a creation, the partitions of the new topic are brought up.
abbrev pub spawned : ℕ → Partitions × Bool → SharedState → Answer
spawned cid up s =
    (record s { partitions = up.0 }, if up.1 then some (bare cid Body.create_topic_resp) else none)

abbrev pub created :
    AdminIo → ℕ → Text → ℕ → ResolvedTopicConfig → Reply Text → SharedState → Answer
created io cid topic count cfg (Reply.ok uuid) s =
    spawned cid (spawn_range io.spawn_io topic uuid cfg 0 count s.partitions) s
created io cid topic count cfg (Reply.err e) s = (s, some (error_frame cid (registry_error_code e)))

abbrev pub entry_of : AdminIo → CreateTopicRequest → TopicEntry
entry_of io req = record {
  name = req.topic;
  uuid = io.uuid;
  partition_count = req.partition_count;
  created_at_ns = io.now;
  config = overrides_of req.overrides;
}

unfoldable pub handle_create_topic : AdminIo → ℕ → CreateTopicRequest → SharedState → Answer
handle_create_topic io cid req s =
    let cfg = resolve (overrides_of req.overrides) s.disk_type in
    let (registry, reply) = create io.registry_io (entry_of io req) s.registry in
    let after = record s { registry = registry } in
    if io.answers
    then created io cid req.topic req.partition_count cfg reply after
    else (s, some (error_frame cid err_broker_not_ready))

abbrev pub described : ℕ → Option TopicEntry → Frame Command
described cid none = error_frame cid err_unknown_topic
described cid (some entry) = bare cid (
    Body.describe_topic_resp (record {
      topic = entry.name;
      partition_count = entry.partition_count;
      created_at_ns = entry.created_at_ns;
      config = some (model_overrides_to_wire entry.config);
    }))

unfoldable pub handle_describe_topic : Bool → ℕ → Text → SharedState → Frame Command
handle_describe_topic answers cid topic s =
    if answers
    then described cid (find topic s.registry.topics)
    else error_frame cid err_broker_not_ready

-- A registry that dies before its reply gives an empty list.
unfoldable pub handle_list_topics : Bool → Bool → ℕ → SharedState → Frame Command
handle_list_topics takes replies cid s =
    if not takes
    then error_frame cid err_broker_not_ready
    else bare cid
        (Body.list_topics_resp (if replies then map (λ t. t.name) s.registry.topics else []))

-- The handles that are taken out for partitions from `p` on, in order, and the map without them.
unfoldable pub take_handles : Text → ℕ → ℕ → Partitions → List PartitionHandle × Partitions
take_handles topic p zero partitions = ([], partitions)
take_handles topic p (suc n) partitions =
    let (taken, rest) = take_handles topic (suc p) n (remove_handle (topic, p) partitions) in
    (elim (get_handle (topic, p) partitions) [ none ↦ taken | some h ↦ h ∷ taken ], rest)

abbrev pub shut_down : PartitionHandle → PartitionHandle
shut_down h = record h {
  to_writer = h.to_writer ++ Message.shutdown ∷ [];
  to_uploader = h.to_uploader ++ Message.shutdown ∷ [];
}

-- `cfg` of every handle of the topic, and the message to both of its actors.
abbrev pub configure : Text → ResolvedTopicConfig → Key × PartitionHandle → Key × PartitionHandle
configure topic cfg (key, h) =
    if eqb_text key.0 topic
    then (
      key,
      record h {
        cfg = cfg;
        to_writer = h.to_writer ++ update_config cfg ∷ [];
        to_uploader = h.to_uploader ++ update_config cfg ∷ [];
      },
    )
    else (key, h)

abbrev pub altered : ℕ → Text → Reply TopicConfigOverrides → SharedState → Answer
altered cid topic (Reply.err e) s = (s, some (error_frame cid (registry_error_code e)))
altered cid topic (Reply.ok merged) s = (
  record s { partitions = map (configure topic (resolve merged s.disk_type)) s.partitions },
  some (bare cid (Body.alter_topic_config_resp (some (model_overrides_to_wire merged)))),
)

unfoldable pub handle_alter_topic_config :
    AdminIo → ℕ → AlterTopicConfigRequest → SharedState → Answer
handle_alter_topic_config io cid req s =
    let (registry, reply) =
      alter io.registry_io req.topic (overrides_of req.overrides) s.registry in
    let after = record s { registry = registry } in
    if io.answers
    then altered cid req.topic reply after
    else (s, some (error_frame cid err_broker_not_ready))
