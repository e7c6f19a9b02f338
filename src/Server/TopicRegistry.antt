-- ===== src/Server/TopicRegistry.antt =====
-- kafkrs-server/src/topic_registry.rs: the actor that owns topics.json.
-- `topics` is the map by name, as a list in which each name stands at most once, and `file` what
-- topics.json has. Each call that can fail has its outcome as an argument.
pub mod Loadable
pub mod Find
pub mod Agree
pub mod Replies
use kafkrs.Prelude.{
  ℕ, Bool, true, false, not, Option, none, some, List, [], ◌∷◌, ◌++◌, if◌then◌else◌, filter, any,
  map,
}
use kafkrs.Prelude.Int.{ℤ}
use kafkrs.Models.Config.{DiskType}
use kafkrs.Models.Manifest.{Text}
use kafkrs.Models.Topic.{
  TopicConfigOverrides, TopicEntry, ResolvedTopicConfig, ConfigValidationError, default_overrides,
  resolve, validate,
}
use kafkrs.Server.ObjectStore.{eqb_text}

pub data RegistryError : Type 0 where
  already_exists io_error unknown_topic : RegistryError
  invalid_config : ConfigValidationError → RegistryError

pub record Registry : Type 0 where
  pub topics : List TopicEntry
  pub file : List TopicEntry

pub data Reply (A : Type 0) : Type 0 where
  ok : A → Reply A
  err : RegistryError → Reply A

-- The outcomes of the rewrite of topics.json, of the WAL directories, and of the empty manifests.
pub record RegistryIo : Type 0 where
  pub writes : Bool
  pub makes_dirs : Bool
  pub puts_manifests : Bool

unfoldable pub find : Text → List TopicEntry → Option TopicEntry
find name [] = none
find name (t ∷ ts) = let rest = find name ts in if eqb_text t.name name then some t else rest

abbrev pub contains_key : Text → List TopicEntry → Bool
contains_key name topics = any (λ t. eqb_text t.name name) topics

unfoldable pub remove_topic : Text → List TopicEntry → List TopicEntry
remove_topic name topics = filter (λ t. not (eqb_text t.name name)) topics

-- `insert`, which replaces an entry of the same name.
unfoldable pub insert_topic : TopicEntry → List TopicEntry → List TopicEntry
insert_topic e topics = e ∷ remove_topic e.name topics

-- `get_mut(name)` and the assignment of its config.
unfoldable pub set_config : Text → TopicConfigOverrides → List TopicEntry → List TopicEntry
set_config name config [] = []
set_config name config (t ∷ ts) =
    let rest = set_config name config ts in
    (if eqb_text t.name name then record t { config = config } else t) ∷ rest

abbrev pub or_else {ℓ} : {A : Type ℓ} → Option A → Option A → Option A
or_else none b = b
or_else (some a) b = some a

-- The patch of `alter`, field by field.
unfoldable pub merge : TopicConfigOverrides → TopicConfigOverrides → TopicConfigOverrides
merge patch current = record {
  segment_size_bytes = or_else patch.segment_size_bytes current.segment_size_bytes;
  segment_seal_time_ms = or_else patch.segment_seal_time_ms current.segment_seal_time_ms;
  max_key_size_bytes = or_else patch.max_key_size_bytes current.max_key_size_bytes;
  max_value_size_bytes = or_else patch.max_value_size_bytes current.max_value_size_bytes;
  group_commit_time_ms = or_else patch.group_commit_time_ms current.group_commit_time_ms;
  group_commit_size_bytes = or_else patch.group_commit_size_bytes current.group_commit_size_bytes;
  group_commit_record_count =
      or_else patch.group_commit_record_count current.group_commit_record_count;
  max_fetch_wait_ms = or_else patch.max_fetch_wait_ms current.max_fetch_wait_ms;
  retention_ms = or_else patch.retention_ms current.retention_ms;
  retention_bytes = or_else patch.retention_bytes current.retention_bytes;
}

-- `load`, over what topics.json has: `none` is the panic on an invalid config.
unfoldable pub load : List TopicEntry → Option Registry
load file =
    if any (λ t. elim (validate t.config) [ none ↦ false | some e ↦ true ]) file
    then none
    else some (record { topics = file; file = file })

-- `create` behind the validation: the file, the directories, the manifests, then the map.
abbrev pub create_valid : RegistryIo → TopicEntry → Registry → Registry × Reply Text
create_valid io entry r =
    let written : Registry = record r { file = r.topics ++ entry ∷ [] } in
    if contains_key entry.name r.topics
    then (r, err already_exists)
    else if not io.writes
    then (r, err io_error)
    else if not io.makes_dirs
    then (written, err io_error)
    else if not io.puts_manifests
    then (written, err io_error)
    else (record written { topics = insert_topic entry r.topics }, ok entry.uuid)

-- `create`, of an entry with the uuid and the time that it draws.
unfoldable pub create : RegistryIo → TopicEntry → Registry → Registry × Reply Text
create io entry r = elim (validate entry.config) [
  | some e ↦ (r, err (invalid_config e))
  | none ↦ create_valid io entry r
]

-- `delete` of a known topic; a failed write puts the entry back.
abbrev pub delete_known : RegistryIo → TopicEntry → Text → Registry → Registry × Reply (Text × ℕ)
delete_known io entry name r =
    let rest = remove_topic name r.topics in
    if io.writes
    then (record { topics = rest; file = rest }, ok (entry.uuid, entry.partition_count))
    else (record r { topics = insert_topic entry rest }, err io_error)

unfoldable pub delete : RegistryIo → Text → Registry → Registry × Reply (Text × ℕ)
delete io name r = elim (find name r.topics) [
  | none ↦ (r, err unknown_topic)
  | some entry ↦ delete_known io entry name r
]

-- `alter` of a known topic to the merged config.
abbrev pub alter_valid :
    RegistryIo
    → TopicEntry
    → TopicConfigOverrides
    → Registry
    → Registry × Reply TopicConfigOverrides
alter_valid io entry merged r =
    let topics = insert_topic (record entry { config = merged }) r.topics in
    if io.writes
    then (record { topics = topics; file = topics }, ok merged)
    else (record r { topics = set_config entry.name entry.config topics }, err io_error)

unfoldable pub alter :
    RegistryIo → Text → TopicConfigOverrides → Registry → Registry × Reply TopicConfigOverrides
alter io name patch r = elim (find name r.topics) [
  | none ↦ (r, err unknown_topic)
  | some entry ↦ elim (validate (merge patch entry.config)) [
    | some e ↦ (r, err (invalid_config e))
    | none ↦ alter_valid io entry (merge patch entry.config) r
  ]
]

-- The messages that change the registry, with the entry that a creation would add.
pub data RegistryMsg : Type 0 where
  create_topic ensure_exists : TopicEntry → RegistryMsg
  delete_topic : Text → RegistryMsg
  alter_topic : Text → TopicConfigOverrides → RegistryMsg

-- One turn of the loop of `run`, without its reply.
unfoldable pub handle : RegistryIo → RegistryMsg → Registry → Registry
handle io (create_topic entry) r = (create io entry r).0
handle io (ensure_exists entry) r =
    let created = create io (record entry { config = default_overrides }) r in
    if contains_key entry.name r.topics then r else created.0
handle io (delete_topic name) r = (delete io name r).0
handle io (alter_topic name patch) r = (alter io name patch r).0

unfoldable pub handle_all : List (RegistryIo × RegistryMsg) → Registry → Registry
handle_all [] r = r
handle_all ((io, msg) ∷ msgs) r = handle_all msgs (handle io msg r)

-- `resolved`
unfoldable pub resolved : DiskType → Text → Registry → Option ResolvedTopicConfig
resolved disk name r = elim (find name r.topics) [
  | none ↦ none
  | some t ↦ some (resolve t.config disk)
]

-- `snapshot`
unfoldable pub snapshot : DiskType → Registry → List (Text × Text × ℕ × ResolvedTopicConfig)
snapshot disk r = map (λ t. (t.name, t.uuid, t.partition_count, resolve t.config disk)) r.topics
