-- ===== src/Tests/Storage.antt =====
-- The theorems on the object store, the manifest and retention at concrete values.
use kafkrs.Prelude.{
  false, ℕ, suc, ◌<◌, ◌≤◌, ◌≡◌, ◌⊎◌, refl, inr, true, Option, none, some, List, [], ◌∷◌, ◌++◌,
  arith, length, if◌then◌else◌,
}
use kafkrs.Prelude.Int.{pos}
use kafkrs.Models.Record.{Record}
use kafkrs.Models.Config.{nvme}
use kafkrs.Models.Topic.{TopicEntry, validate, ResolvedTopicConfig, default_overrides, resolve}
use kafkrs.Models.Manifest.{SegmentEntry, Manifest, segment_for_offset}
use kafkrs.Models.Manifest.Lookup.{first_covering, segment_for_offset_lem}
use kafkrs.Server.ObjectStore.{
  Store, done, refused, unconfirmed, manifest_leaf, segment_leaf, eqb_text, eqb_text_refl,
}
use kafkrs.Server.PartitionWriter.State.{SealedBatch}
use kafkrs.Server.Retention.{evaluate_eviction, total_bytes}
use kafkrs.Server.Retention.Evict.{evict-prefix, evict-cap}
use kafkrs.Server.Uploader.{UploadIo, RetentionIo, upload, retention_pass}
use kafkrs.Server.Uploader.Sound.{IsSound, Placeable}
use kafkrs.Server.Uploader.Settle.{Settled, upload-Settled}
use kafkrs.Server.Uploader.Pass.{retention_pass-IsSound}
use kafkrs.Server.Uploader.Each.{IsSound-Each}
use kafkrs.Server.Uploader.Actor.{Turn, State, run}
use kafkrs.Server.Uploader.Drain.{queued, bases, Placed, Drained, run-Drained}
use kafkrs.Server.Partitions.{Message, retention_kick, shutdown}
use kafkrs.Server.TopicRegistry.{
  RegistryIo, RegistryMsg, create_topic, delete_topic, load, handle_all,
}
use kafkrs.Server.TopicRegistry.Loadable.{handle_all-load}
use kafkrs.Tests.Codec.{write_manifest, read_back, read-write}
use kafkrs.Tests.Wal.{record_at}

abbrev entry : ℕ → ℕ → SegmentEntry
entry base last = record {
  base_offset = pos base;
  last_offset = pos last;
  base_timestamp_ns = pos 0;
  last_timestamp_ns = pos 10;
  record_count = suc last;
  byte_size = 100;
  object_key = segment_leaf (pos base);
}

abbrev nothing_uploaded : Manifest
nothing_uploaded = record { topic = []; partition = 0; format_version = 1; segments = [] }

abbrev two_segments : Manifest
two_segments = record {
  topic = [];
  partition = 0;
  format_version = 1;
  segments = entry 0 4 ∷ entry 5 9 ∷ [];
}

abbrev start : Store
start k = if eqb_text k manifest_leaf then some (write_manifest nothing_uploaded) else none

abbrev to_parquet : List Record → Option (List ℕ)
to_parquet records = some (length records ∷ [])

start-IsSound : IsSound to_parquet write_manifest read_back read-write start
start-IsSound = record {
  manifest = nothing_uploaded;
  raw = write_manifest nothing_uploaded;
  raw_at = rw (eqb_text_refl manifest_leaf) refl;
  reads = read-write nothing_uploaded;
  ordered = tt;
  keyed = tt;
  backed = tt;
}

abbrev batch : SealedBatch
batch = record {
  records = record_at 5 ∷ [];
  base_offset = pos 5;
  last_offset = pos 5;
  base_timestamp_ns = pos 1000;
  last_timestamp_ns = pos 1000;
}

start-Placeable :
    Placeable to_parquet write_manifest read_back read-write batch start-IsSound.manifest
unfolding start-IsSound
start-Placeable = inr (omega arith, tt)

-- The first attempt's manifest is written, but the answer is lost; the second succeeds.
abbrev attempts : List UploadIo
attempts =
    record { put_segment = done; get_manifest = true; put_manifest = unconfirmed }
    ∷ record { put_segment = done; get_manifest = true; put_manifest = done }
    ∷ []

upload-Settled_example :
    Settled to_parquet write_manifest read_back read-write batch
      (upload to_parquet write_manifest read_back attempts batch start)
upload-Settled_example =
    upload-Settled to_parquet write_manifest read_back read-write attempts batch start start-IsSound
      start-Placeable

abbrev pass : RetentionIo
pass = record { get_manifest = true; put_manifest = done; delete_segment = λ s. refused }

abbrev capped : ResolvedTopicConfig
capped = record (resolve default_overrides nvme) { retention_bytes = pos 100 }

retention_pass-IsSound_example :
    IsSound to_parquet write_manifest read_back read-write
      (retention_pass to_parquet write_manifest read_back pass capped (pos 20) start).0
retention_pass-IsSound_example =
    retention_pass-IsSound to_parquet write_manifest read_back read-write pass capped (pos 20) start
      start-IsSound

abbrev turn : Turn
turn = record { attempts = attempts; pass = pass; now_ns = pos 20 }

abbrev up_and_down : List (Turn × Message)
up_and_down =
    (turn, Message.upload batch)
    ∷ (turn, retention_kick)
    ∷ (turn, shutdown)
    ∷ (turn, retention_kick)
    ∷ []

abbrev uploader : State
uploader = record { store = start; cfg = capped; durable = []; retrying = false; acked = false }

start-Placed :
    Placed to_parquet write_manifest read_back read-write uploader.store (queued up_and_down)
unfolding queued start-IsSound
start-Placed = (
  omega arith,
  IsSound-Each to_parquet write_manifest read_back read-write _ start start-IsSound tt,
  tt,
  tt,
)

run-Drained_example :
    Drained to_parquet write_manifest read_back read-write
      (run to_parquet write_manifest read_back up_and_down uploader)
      (bases (queued up_and_down))
run-Drained_example =
    run-Drained to_parquet write_manifest read_back read-write up_and_down uploader refl
      start-IsSound start-Placed

evict-prefix_example :
    (rest : List SegmentEntry) × (two_segments.segments
      ≡ evaluate_eviction two_segments capped (pos 20) ++ rest)
    × (0 < 2 → 0 < length rest)
evict-prefix_example = evict-prefix two_segments capped (pos 20)

evict-cap_example :
    (rest : List SegmentEntry) × (two_segments.segments
      ≡ evaluate_eviction two_segments capped (pos 20) ++ rest)
    × ((length rest ≤ 1) ⊎ (total_bytes rest ≤ 100))
evict-cap_example =
    evict-cap two_segments capped (pos 20) 100 refl (omega arith)
      (unfold total_bytes in omega arith)

segment_for_offset_lem_example :
    segment_for_offset two_segments (pos 7) ≡ first_covering two_segments.segments (pos 7)
segment_for_offset_lem_example =
    segment_for_offset_lem two_segments (pos 7)
      (omega arith, (omega arith, tt), (omega arith, tt, tt))

abbrev topic : TopicEntry
topic = record {
  name = 116 ∷ [];
  uuid = 117 ∷ [];
  partition_count = 1;
  created_at_ns = pos 0;
  config = default_overrides;
}

-- A creation whose manifest is not written, and a deletion whose write fails.
abbrev messages : List (RegistryIo × RegistryMsg)
messages =
    (
      record { writes = true; makes_dirs = true; puts_manifests = false },
      create_topic (record topic { name = 118 ∷ [] }),
    )
    ∷ (record { writes = false; makes_dirs = true; puts_manifests = true }, delete_topic (116 ∷ []))
    ∷ []

topic-IsValid : validate default_overrides ≡ none
unfolding validate
topic-IsValid = refl

handle_all-load_example :
    load (handle_all messages (record { topics = topic ∷ []; file = topic ∷ [] })).file
    ≡ some (record {
      topics = (handle_all messages (record { topics = topic ∷ []; file = topic ∷ [] })).file;
      file = (handle_all messages (record { topics = topic ∷ []; file = topic ∷ [] })).file;
    })
handle_all-load_example = handle_all-load messages (topic ∷ []) (topic-IsValid, tt)
