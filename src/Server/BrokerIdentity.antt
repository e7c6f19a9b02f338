-- ===== src/Server/BrokerIdentity.antt =====
-- kafkrs-server/src/broker_identity.rs: who the broker is, by its config and its broker_id file.
-- The file is written to a temporary one that is renamed; a write stops at the stage that its
-- argument names. The bytes of the UUID that an id is drawn from are an argument. A text is the
-- list of its characters' codes; an io error's message is not modelled.
pub mod Stable
use kafkrs.Prelude.{
  ℕ, zero, suc, ◌+◌, ◌/◌, ◌%◌, ltb, leb, ◌==◌, Bool, true, false, not, ◌&&◌, ◌||◌, Option, none,
  some, List, [], ◌∷◌, ◌++◌, if◌then◌else◌, take,
}
use kafkrs.Models.Config.{DiskType, nvme}
use kafkrs.Models.Manifest.{Text}
use kafkrs.Models.Topic.{unwrap_or}
use kafkrs.Server.PendingDeletes.{Stage, at_create, at_write, at_fsync, at_rename, finished}

-- kafkrs-models/src/config.rs
pub record BrokerConfig : Type 0 where
  pub disk_type : DiskType
  pub auto_create_topics : Bool
  pub default_partition_count : ℕ
  pub retention_sweep_interval_ms : Option ℕ
  pub metrics_high_cardinality : Bool
  pub cluster_id : Option Text
  pub id : Option Text
  pub advertised_address : Option Text
  pub advertised_port : Option ℕ

abbrev pub default_broker_config : BrokerConfig
default_broker_config = record {
  disk_type = nvme;
  auto_create_topics = false;
  default_partition_count = 1;
  retention_sweep_interval_ms = none;
  metrics_high_cardinality = false;
  cluster_id = none;
  id = none;
  advertised_address = none;
  advertised_port = none;
}

pub record BrokerIdentity : Type 0 where
  pub broker_id : Text
  pub cluster_id : Text
  pub advertised_host : Text
  pub advertised_port : ℕ

pub data IdentityError : Type 0 where
  missing_cluster_id io_error : IdentityError

pub data Result (A : Type 0) : Type 0 where
  ok : A → Result A
  err : IdentityError → Result A

-- `broker_id` and `broker_id.tmp`, where they exist.
pub record IdFiles : Type 0 where
  pub target : Option Text
  pub tmp : Option Text

-- `char::is_whitespace`
abbrev pub is_whitespace : ℕ → Bool
is_whitespace c =
    (leb 9 c && leb c 13)
    || (c == 32)
    || (c == 133)
    || (c == 160)
    || (c == 5760)
    || (leb 8192 c && leb c 8202)
    || (c == 8232)
    || (c == 8233)
    || (c == 8239)
    || (c == 8287)
    || (c == 12288)

unfoldable pub trim_start : Text → Text
trim_start [] = []
trim_start (c ∷ cs) = let rest = trim_start cs in if is_whitespace c then rest else c ∷ cs

unfoldable pub trim_end : Text → Text
trim_end [] = []
trim_end (c ∷ cs) = elim (trim_end cs) [
  | [] ↦ if is_whitespace c then [] else c ∷ []
  | d ∷ ds ↦ c ∷ d ∷ ds
]

abbrev pub trim : Text → Text
trim t = trim_end (trim_start t)

abbrev pub is_ascii_graphic : ℕ → Bool
is_ascii_graphic c = leb 33 c && leb c 126

unfoldable pub all_graphic : Text → Bool
all_graphic [] = true
all_graphic (c ∷ cs) = is_ascii_graphic c && all_graphic cs

-- Whether `validate_persisted_broker_id` accepts the text.
unfoldable pub validate_persisted_broker_id : Text → Bool
validate_persisted_broker_id [] = false
validate_persisted_broker_id (c ∷ cs) = all_graphic (c ∷ cs)

unfoldable pub atomic_write_broker_id : Stage → Text → IdFiles → IdFiles × Bool
atomic_write_broker_id at_create id files = (files, false)
atomic_write_broker_id (at_write n) id files = (record files { tmp = some (take n id) }, false)
atomic_write_broker_id at_fsync id files = (record files { tmp = some id }, false)
atomic_write_broker_id at_rename id files = (record files { tmp = some id }, false)
atomic_write_broker_id finished id files = (record { target = some id; tmp = none }, true)

-- A digit of `{:02x}`.
abbrev pub hex_digit : ℕ → ℕ
hex_digit n = if ltb n 10 then 48 + n else 87 + n

abbrev pub hex_byte : ℕ → Text → Text
hex_byte b rest = hex_digit (b / 16) ∷ hex_digit (b % 16) ∷ rest

-- `brk-` and the last four bytes of a UUID.
unfoldable pub generate_broker_id : ℕ → ℕ → ℕ → ℕ → Text
generate_broker_id a b c d =
    98 ∷ 114 ∷ 107 ∷ 45 ∷ hex_byte a (hex_byte b (hex_byte c (hex_byte d [])))

-- Whether the file can be read, whether the data directory can be made, the stage that the write
-- gets to, and the last four bytes of the UUID.
pub record IdentityIo : Type 0 where
  pub reads : Bool
  pub makes_dir : Bool
  pub writes : Stage
  pub uuid_tail : ℕ × ℕ × ℕ × ℕ

abbrev pub persisted : Text → Result Text
persisted id = if validate_persisted_broker_id id then ok id else err io_error

abbrev pub drawn : IdentityIo → Text
drawn io = generate_broker_id io.uuid_tail.0 io.uuid_tail.1 io.uuid_tail.2 io.uuid_tail.3

abbrev pub written : Text → IdFiles × Bool → IdFiles × Result Text
written id (files, true) = (files, ok id)
written id (files, false) = (files, err io_error)

-- `resolve_broker_id` without an id in the config, by whether the file exists.
abbrev pub from_file : IdentityIo → Option Text → IdFiles → IdFiles × Result Text
from_file io (some raw) files = (files, if io.reads then persisted (trim raw) else err io_error)
from_file io none files =
    if io.makes_dir
    then written (drawn io) (atomic_write_broker_id io.writes (drawn io) files)
    else (files, err io_error)

unfoldable pub resolve_broker_id : IdentityIo → Option Text → IdFiles → IdFiles × Result Text
resolve_broker_id io (some id) files = (files, ok id)
resolve_broker_id io none files = from_file io files.target files

abbrev pub identified : BrokerConfig → Text → ℕ → Text → Result Text → Result BrokerIdentity
identified cfg address wire_port cluster_id (err e) = err e
identified cfg address wire_port cluster_id (ok broker_id) = ok (record {
  broker_id = broker_id;
  cluster_id = cluster_id;
  advertised_host = unwrap_or cfg.advertised_address address;
  advertised_port = unwrap_or cfg.advertised_port wire_port;
})

abbrev pub in_cluster :
    IdentityIo → BrokerConfig → Text → ℕ → Option Text → IdFiles → IdFiles × Result BrokerIdentity
in_cluster io cfg address wire_port none files = (files, err missing_cluster_id)
in_cluster io cfg address wire_port (some cluster_id) files =
    let (files', id) = resolve_broker_id io cfg.id files in
    (files', identified cfg address wire_port cluster_id id)

unfoldable pub resolve_identity :
    IdentityIo → BrokerConfig → Text → ℕ → IdFiles → IdFiles × Result BrokerIdentity
resolve_identity io cfg address wire_port files =
    in_cluster io cfg address wire_port cfg.cluster_id files
