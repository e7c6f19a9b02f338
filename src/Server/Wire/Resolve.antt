-- ===== src/Server/Wire/Resolve.antt =====
-- kafkrs-server/src/wire/dispatch/produce.rs: the partition of a `Produce`, whose topic is created
-- when the broker is told to.
pub mod Current
pub mod Found
use kafkrs.Prelude.{ℕ, Bool, true, false, Option, none, some, if◌then◌else◌}
use kafkrs.Models.Manifest.{Text}
use kafkrs.Models.Topic.{TopicEntry, ResolvedTopicConfig, default_overrides, resolve}
use kafkrs.Server.TopicRegistry.{
  Registry, RegistryError, RegistryIo, Reply, ok, err, ensure_exists, contains_key, create, handle,
}
use kafkrs.Server.Partitions.{Key, PartitionHandle, Partitions, get_handle, spawn_range}
use kafkrs.Server.Wire.Command.{ErrorCode, err_broker_not_ready, err_unknown_topic, err_internal}
use kafkrs.Server.Wire.TopicAdmin.{SharedState, AdminIo}

-- A handle, an error frame, or a panic while a partition is brought up.
pub data Resolved : Type 0 where
  found : PartitionHandle → Resolved
  refused : ErrorCode → Resolved
  panicked : Resolved

abbrev pub looked_up : Option PartitionHandle → Resolved
looked_up none = refused err_unknown_topic
looked_up (some h) = found h

abbrev pub look_up : Key → SharedState → SharedState × Resolved
look_up key s = (s, looked_up (get_handle key s.partitions))

abbrev pub auto_entry : AdminIo → Text → ℕ → TopicEntry
auto_entry io topic default_partition_count = record {
  name = topic;
  uuid = io.uuid;
  partition_count = default_partition_count;
  created_at_ns = io.now;
  config = default_overrides;
}

-- The reply to `EnsureExists`.
unfoldable pub ensure_reply : RegistryIo → TopicEntry → Registry → Reply Text
ensure_reply io entry r =
    if contains_key entry.name r.topics
    then err RegistryError.already_exists
    else (create io entry r).1

abbrev pub look_up_if : Bool → Key → SharedState → SharedState × Resolved
look_up_if true key s = look_up key s
look_up_if false key s = (s, panicked)

abbrev pub ensured : AdminIo → Key → ℕ → Reply Text → SharedState → SharedState × Resolved
ensured io key count (Reply.ok uuid) s =
    let cfg = resolve default_overrides s.disk_type in
    let up = spawn_range io.spawn_io key.0 uuid cfg 0 count s.partitions in
    look_up_if up.1 key (record s { partitions = up.0 })
ensured io key count (Reply.err RegistryError.already_exists) s = look_up key s
ensured io key count (Reply.err RegistryError.unknown_topic) s = (s, refused err_internal)
ensured io key count (Reply.err (RegistryError.invalid_config e)) s = (s, refused err_internal)
ensured io key count (Reply.err RegistryError.io_error) s = (s, refused err_internal)

-- `auto_create` is `none` when the broker creates no topics, and else the partition count.
unfoldable pub resolve_or_ensure_partition :
    AdminIo → Option ℕ → Key → SharedState → SharedState × Resolved
resolve_or_ensure_partition io none key s = look_up key s
resolve_or_ensure_partition io (some count) key s =
    let entry = auto_entry io key.0 count in
    let reply = ensure_reply io.registry_io entry s.registry in
    let after = record s { registry = handle io.registry_io (ensure_exists entry) s.registry } in
    if io.answers then ensured io key count reply after else (s, refused err_broker_not_ready)
