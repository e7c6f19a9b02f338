-- ===== src/Tests/Dispatch.antt =====
-- The theorems on the broker's commands and identity, at concrete values.
use kafkrs.Prelude.{ℕ, ◌≡◌, refl, true, false, Option, none, some, List, [], ◌∷◌, arith}
use kafkrs.Prelude.Int.{pos}
use kafkrs.Models.Config.{nvme}
use kafkrs.Models.Record.{Record}
use kafkrs.Models.Topic.{TopicEntry, default_overrides, resolve}
use kafkrs.Server.PendingDeletes.{at_write, finished}
use kafkrs.Server.TopicRegistry.{
  Registry, RegistryIo, RegistryMsg, delete_topic, alter_topic, handle_all, find,
}
use kafkrs.Server.TopicRegistry.Agree.{Agrees, handle_all-Agrees}
use kafkrs.Server.Partitions.{PartitionHandle, get_handle}
use kafkrs.Server.Fetcher
use kafkrs.Server.Fetcher.{FetchResponse}
use kafkrs.Server.BrokerIdentity.{
  IdFiles, IdentityIo, ok, drawn, atomic_write_broker_id, resolve_broker_id,
}
use kafkrs.Server.BrokerIdentity.Stable.{starts, broker_id-stable}
use kafkrs.Server.Wire.Command.{Body, OutRecordMeta}
use kafkrs.Server.Wire.FetchHandler.{fetch_frame}
use kafkrs.Server.Wire.FetchHandler.Payload.{read_records, fetch_frame-read_records}
use kafkrs.Server.Wire.TopicAdmin.{SharedState, AdminIo}
use kafkrs.Server.Wire.TopicAdmin.Served.{Backed, IsServed}
use kafkrs.Server.Wire.Resolve.{resolve_or_ensure_partition}
use kafkrs.Server.Wire.Resolve.Found.{resolve-Backed}
use kafkrs.Server.Wire.Dispatch.{DispatchIo, dispatch_one}
use kafkrs.Server.Wire.Dispatch.Echo.{Echoed}
use kafkrs.Server.Wire.Dispatch.Keeps.{dispatch_one-Echoed, dispatch_all, dispatch_all-IsServed}
use kafkrs.Tests.PendingCodec.{to_vec, from_str}
use kafkrs.Tests.Codec.{read_back}
use kafkrs.Tests.Wal.{record_at}

abbrev pub orders : TopicEntry
orders = record {
  name = 111 ∷ [];
  uuid = 1 ∷ [];
  partition_count = 2;
  created_at_ns = pos 0;
  config = default_overrides;
}

abbrev known : Registry
known = record { topics = orders ∷ []; file = orders ∷ [] }

abbrev failing : RegistryIo
failing = record { writes = false; makes_dirs = true; puts_manifests = true }

-- A deletion whose write fails, then an alteration that succeeds.
abbrev registry_messages : List (RegistryIo × RegistryMsg)
registry_messages =
    (failing, delete_topic (111 ∷ []))
    ∷ (
      record failing { writes = true },
      alter_topic (111 ∷ []) (record default_overrides { retention_ms = some (pos 5) }),
    )
    ∷ []

handle_all-Agrees_example : Agrees (handle_all registry_messages known)
handle_all-Agrees_example =
    handle_all-Agrees registry_messages known ((refl, refl), ((refl, refl), tt)) (λ name. refl)

abbrev up_handle : PartitionHandle
up_handle = record {
  cfg = resolve default_overrides nvme;
  started_with = resolve default_overrides nvme;
  uuid = 1 ∷ [];
  to_writer = [];
  to_uploader = [];
}

abbrev state : SharedState
state = record {
  registry = known;
  partitions = ((111 ∷ [], 1), up_handle) ∷ [];
  store = λ key. none;
  prefix = [];
  disk_type = nvme;
  wal_dirs = [];
  pending = record { target = none; tmp = none };
  closed = [];
  sweeps = [];
}

state-IsServed : IsServed state
unfolding find
state-IsServed = ((orders, refl, omega arith, refl, (refl, refl, refl)), tt)

abbrev admin : AdminIo
admin = record {
  answers = true;
  registry_io = record failing { writes = true };
  spawn_io = record { recovers = λ p. none; opens = λ p. true };
  uuid = 2 ∷ [];
  now = pos 7;
  removes_wal = true;
  gets = λ p. true;
  reads_pending = true;
  writes_pending = finished;
}

resolve-Backed_example :
    let after = (resolve_or_ensure_partition admin none (111 ∷ [], 1) state).0 in
    Backed after.disk_type after.registry.topics ((111 ∷ [], 1), up_handle)
unfolding resolve_or_ensure_partition get_handle
resolve-Backed_example = resolve-Backed admin none (111 ∷ [], 1) state up_handle state-IsServed refl

abbrev dispatch_io : DispatchIo
dispatch_io = record {
  admin = admin;
  replies = true;
  auto_create = some 1;
  identity = record {
    broker_id = 98 ∷ [];
    cluster_id = 99 ∷ [];
    advertised_host = [];
    advertised_port = 5432;
  };
  writer = λ h records. none;
  scene = λ h. record {
    first = none;
    second = none;
    third = none;
    store = λ key. none;
    gets_manifest = true;
    gets_segment = true;
  };
}

abbrev no_segments : List ℕ → Option (List Record)
no_segments bytes = none

abbrev delete_orders : Body
delete_orders = Body.delete_topic (record { topic = 111 ∷ []; delete_data = none })

abbrev alter_orders : Body
alter_orders = Body.alter_topic_config (record { topic = 111 ∷ []; overrides = none })

dispatch_one-Echoed_example :
    Echoed 9
      (dispatch_one to_vec from_str read_back no_segments dispatch_io 9 delete_orders [] state).1
dispatch_one-Echoed_example =
    dispatch_one-Echoed to_vec from_str read_back no_segments dispatch_io 9 delete_orders [] state

dispatch_all-IsServed_example : IsServed (
    dispatch_all to_vec from_str read_back no_segments
      ((dispatch_io, 1, alter_orders, []) ∷ (dispatch_io, 2, delete_orders, []) ∷ [])
      state)
dispatch_all-IsServed_example =
    dispatch_all-IsServed to_vec from_str read_back no_segments
      ((dispatch_io, 1, alter_orders, []) ∷ (dispatch_io, 2, delete_orders, []) ∷ []) state
      state-IsServed

abbrev answer : FetchResponse
answer = record { records = record_at 5 ∷ record_at 6 ∷ []; hwm = pos 6 }

fetch_frame-read_records_example :
    (metas : List OutRecordMeta) × ((fetch_frame 3 (Fetcher.ok answer)).command.body
      ≡ some (Body.fetch_resp (record { records = metas; hwm = pos 6 })))
    × (read_records metas (fetch_frame 3 (Fetcher.ok answer)).payload ≡ answer.records)
fetch_frame-read_records_example =
    fetch_frame-read_records 3 answer ((omega arith, omega arith), ((omega arith, omega arith), tt))

-- A first start that draws an id, a second that would draw another, and a third that reads.
abbrev draws : IdentityIo
draws = record { reads = true; makes_dir = true; writes = finished; uuid_tail = (1, 2, 3, 255) }

abbrev fails : IdentityIo
fails = record draws { reads = false; writes = at_write 2; uuid_tail = (9, 9, 9, 9) }

abbrev absent : IdFiles
absent = record { target = none; tmp = none }

broker_id-stable_example :
    (resolve_broker_id draws none (starts (fails ∷ []) (resolve_broker_id draws none absent).0)).1
    ≡ ok (drawn draws)
unfolding resolve_broker_id atomic_write_broker_id
broker_id-stable_example =
    broker_id-stable draws draws (fails ∷ []) absent (drawn draws)
      (omega arith, omega arith, omega arith, omega arith) refl refl
