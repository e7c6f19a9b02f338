-- ===== src/Tests/Writer.antt =====
-- The writer's theorems, and those of recovery, at a writer that was restarted with one record.
use kafkrs.Server.Fetcher
use kafkrs.Prelude.{
  ◌^◌, ap, Option, List, All, any, ℕ, ◌+◌, ◌-◌, ◌<◌, ◌≤◌, ◌≡◌, ◌⊎◌, refl, true, false, none, some,
  [], ◌∷◌, ◌++◌, arith, length, take, drop, map, if◌then◌else◌,
}
use kafkrs.Prelude.Int.{leb_ℤ, pos_part, next_i64, ℤ, pos, eqb_ℤ}
use kafkrs.Models.Config.{nvme, group_commit_profile}
use kafkrs.Models.Record.{Record}
use kafkrs.Models.Topic.{ResolvedTopicConfig, default_overrides, resolve}
use kafkrs.Models.Manifest.{Manifest, last_uploaded_offset}
use kafkrs.Models.Wal.{encode_batch}
use kafkrs.Server.WalFiles.{Files, synced, append_and_sync}
use kafkrs.Server.InFlight.{values}
use kafkrs.Server.PartitionWriter.State.{
  IncomingRecord, Writer, running, Io, shutdown, hwm_at, in_active_batch, in_flight,
  below_in_flight, timer, Event, produce,
}
use kafkrs.Server.PartitionWriter.Ops.{
  new, accept, commit, push_incoming, read_active, locate, group_is_full, total_bytes, stamp,
  seal_if_full,
}
use kafkrs.Server.PartitionWriter.Actor.{run, step, on_produce, flush_commit}
use kafkrs.Server.PartitionWriter.Invariant.{IsConsistent}
use kafkrs.Server.PartitionWriter.New.{new_empty-IsConsistent, new_recovered-IsConsistent}
use kafkrs.Server.PartitionWriter.Assign.{IsStorable}
use kafkrs.Server.PartitionWriter.Accept.{accept-IsConsistent}
use kafkrs.Server.PartitionWriter.Step.{Scheduled}
use kafkrs.Server.PartitionWriter.Crash.{Recovers, run-Recovers}
use kafkrs.Server.PartitionWriter.Log.{IsLogged, begin-IsLogged, writer_of}
use kafkrs.Server.PartitionWriter.Reported.{all_reported}
use kafkrs.Server.PartitionWriter.Read.{locate_pending, next_of, locate_lem, read_active_lem}
use kafkrs.Server.Recovery.{recover_partition, sort_bases, insert_base, uploaded_end}
use kafkrs.Server.Uploader.{has_base}
use kafkrs.Server.Recovery.Restart.{recover_partition-consistent}
use kafkrs.Server.Fetcher.{Scene, FetchRequest, FetchResponse, fetch}
use kafkrs.Server.Fetcher.Bounds.{Answers, fetch-Answers, fetch-active}
use kafkrs.Server.Wire.Produce.{produce_response}
use kafkrs.Server.Wire.Produce.Group.{group-base_offsets}
use kafkrs.Tests.Wal.{zero_crc, zero_crc_u32, record_at, sound_at_5}

abbrev cfg : ResolvedTopicConfig
cfg = resolve default_overrides nvme

-- A WAL of one record at offset 5.
abbrev files : Files
files b = if eqb_ℤ b (pos 5) then some (encode_batch zero_crc (record_at 5 ∷ [])) else none

abbrev restarted : Writer
restarted = new cfg (pos 6) (record_at 5 ∷ []) files

no_other : (k : ℕ) → 5 < k → files (pos k) ≡ none
no_other k h = ground arith

restarted-IsConsistent : IsConsistent zero_crc restarted
restarted-IsConsistent =
    new_recovered-IsConsistent zero_crc cfg 5 (record_at 5) [] files (omega arith) (refl, tt)
      (sound_at_5, tt) refl no_other

new_recovered-IsConsistent_example : IsConsistent zero_crc restarted
new_recovered-IsConsistent_example =
    new_recovered-IsConsistent zero_crc cfg 5 (record_at 5) [] files (omega arith) (refl, tt)
      (sound_at_5, tt) refl no_other

abbrev incoming : IncomingRecord
incoming = record { schema_id = 7; key = 1 ∷ []; value = 2 ∷ 3 ∷ []; timestamp_ns = pos 0 }

abbrev clock : ℕ → ℤ
clock i = pos (2000 + i)

abbrev io : Io
io = record { sync = synced; opens = true; removes = true }

abbrev steady : ℕ → ℤ
steady i = pos 2000

storable : All IsStorable (incoming ∷ [])
storable = (
  record {
    key_fits = omega arith;
    body_fits = omega arith;
    schema_fits = omega arith;
    timestamp_fits = omega arith;
  },
  tt,
)

-- A record is taken in, the commit timer expires, and the writer shuts down.
abbrev events : List (Io × Event)
events = (io, produce steady 50 (incoming ∷ []) 1) ∷ (io, timer) ∷ (io, shutdown) ∷ []

scheduled : Scheduled zero_crc zero_crc_u32 events (running restarted)
unfolding step on_produce accept push_incoming group_is_full total_bytes new resolve next_i64 stamp
    flush_commit append_and_sync commit seal_if_full group_commit_profile
scheduled = (refl, (λ i. omega arith, storable, omega arith), (refl, tt, (refl, tt, tt)))

no_uploads : restarted.uploads ≡ []
unfolding new
no_uploads = refl

none_acked : restarted.acked ≡ []
unfolding new
none_acked = refl

restarted-IsLogged : IsLogged restarted-IsConsistent.base restarted.active [] restarted
restarted-IsLogged = begin-IsLogged zero_crc restarted restarted-IsConsistent no_uploads none_acked

run-Recovers_example :
    Recovers zero_crc zero_crc_u32 restarted-IsConsistent.base restarted.active
      (all_reported events [])
      (writer_of (run zero_crc events (running restarted)))
run-Recovers_example =
    run-Recovers zero_crc zero_crc_u32 events (running restarted) restarted-IsConsistent.base
      restarted.active [] scheduled restarted-IsConsistent restarted-IsLogged

some_active : 0 < length restarted.active
unfolding new
some_active = omega arith

no_acks : restarted.pending_acks ≡ []
unfolding new
no_acks = refl

next_at_6 : restarted.next_offset ≡ pos 6
unfolding new
next_at_6 = refl

listed : sort_bases (pos 5 ∷ []) ≡ map (λ s. s.0) restarted.sealed ++ restarted.wal ∷ []
unfolding new sort_bases insert_base
listed = refl

abbrev nothing_uploaded : Manifest
nothing_uploaded = record { topic = []; partition = 0; format_version = 1; segments = [] }

uploaded_none : uploaded_end nothing_uploaded ≡ pos 0
unfolding last_uploaded_offset
uploaded_none = refl

none_sealed : All (λ s. has_base s.0 [] ≡ false) restarted.sealed
unfolding new
none_sealed = tt

not_uploaded : has_base restarted.wal [] ≡ false
unfolding any
not_uploaded = refl

recover_partition-consistent_example :
    recover_partition zero_crc (λ b. true) nothing_uploaded (pos 5 ∷ []) restarted.files
    ≡ some (
      record {
        active_records = restarted.active;
        orphan_segments = restarted.sealed;
        next_offset = pos (restarted-IsConsistent.base + length restarted.active);
      },
      restarted.files,
    )
recover_partition-consistent_example =
    recover_partition-consistent zero_crc zero_crc_u32 (λ b. true) nothing_uploaded (pos 5 ∷ [])
      restarted 0 restarted-IsConsistent some_active listed uploaded_none
      restarted-IsConsistent.flights none_sealed not_uploaded

read_active_lem_example :
    read_active (pos (restarted-IsConsistent.base + 0)) 10 restarted
    ≡ take 10 (drop 0 restarted.active)
read_active_lem_example =
    read_active_lem zero_crc zero_crc_u32 restarted restarted-IsConsistent 0 10

locate_lem_example :
    (restarted-IsConsistent.base ≤ 5
      → 5 < next_of zero_crc zero_crc_u32 restarted restarted-IsConsistent
      → locate (pos 5) restarted ≡ in_active_batch)
    × (next_of zero_crc zero_crc_u32 restarted restarted-IsConsistent ≤ 5
        → locate (pos 5) restarted
          ≡ hwm_at (pos (next_of zero_crc zero_crc_u32 restarted restarted-IsConsistent - 1)))
    × (5 < restarted-IsConsistent.base
        → locate (pos 5) restarted ≡ (
            if any (λ r. leb_ℤ r.offset (pos 5)) (values restarted.sealed)
            then in_flight
            else below_in_flight))
locate_lem_example = locate_lem zero_crc zero_crc_u32 restarted restarted-IsConsistent 5 some_active

group-base_offsets_example :
    (h : ℤ) × ((commit files (
        accept clock 60
          (incoming ∷ incoming ∷ [])
          2
          (accept clock 50 (incoming ∷ []) 1 restarted))).acked
      ≡ restarted.acked ++ (1, h) ∷ (2, h) ∷ [])
    × ((produce_response 1 h).base_offset ≡ pos 8)
    × ((produce_response 2 h).base_offset ≡ pos 7)
group-base_offsets_example =
    group-base_offsets zero_crc zero_crc_u32 clock clock 50 60 (incoming ∷ [])
      (incoming ∷ incoming ∷ []) 1 2 files restarted 6 next_at_6 no_acks (omega arith) (omega arith)

abbrev no_manifest : List ℕ → Option Manifest
no_manifest bytes = none

abbrev no_segment : List ℕ → Option (List Record)
no_segment bytes = none

abbrev scene : Scene
scene = record {
  first = some restarted;
  second = some restarted;
  third = none;
  store = λ k. none;
  gets_manifest = true;
  gets_segment = true;
}

abbrev request : FetchRequest
request = record {
  from_offset = pos (restarted-IsConsistent.base + 0);
  max_records = 10;
  max_wait_ms = 0;
}

fetch-Answers_example : Answers request (fetch no_manifest no_segment scene request)
fetch-Answers_example = fetch-Answers no_manifest no_segment scene request

fetch-active_example :
    (resp : FetchResponse) × (fetch no_manifest no_segment scene request ≡ Fetcher.ok resp)
    × (resp.records ≡ take 10 (drop 0 restarted.active))
fetch-active_example =
    fetch-active zero_crc zero_crc_u32 no_manifest no_segment scene request restarted restarted
      restarted-IsConsistent restarted-IsConsistent 0 refl refl refl refl some_active

-- A new writer that has taken in one record and not committed it yet.
abbrev staging : Writer
staging = accept steady 50 (incoming ∷ []) 1 (new cfg (pos 0) [] (λ b. none))

room : pos_part (new cfg (pos 0) [] (λ b. none)).next_offset + 1 < 2 ^ 63
unfolding new
room = omega arith

staging-IsConsistent : IsConsistent zero_crc staging
staging-IsConsistent =
    accept-IsConsistent zero_crc zero_crc_u32 steady 50 (incoming ∷ []) 1
      (new cfg (pos 0) [] (λ b. none)) (λ i. omega arith, storable, room)
      (new_empty-IsConsistent zero_crc cfg 0 (λ b. none) (omega arith) refl (λ k h. refl))

none_active : staging.active ≡ []
unfolding accept new
none_active = refl

base_at_0 : staging-IsConsistent.base ≤ 0
unfolding accept new
base_at_0 = omega (arith, ap pos_part staging-IsConsistent.base_at)

one_next : 0 < next_of zero_crc zero_crc_u32 staging staging-IsConsistent
unfolding accept new push_incoming next_i64
one_next = omega (arith, ap pos_part staging-IsConsistent.next_at)

locate_pending_example :
    ((staging.sealed ≡ []) × (locate (pos 0) staging ≡ below_in_flight))
    ⊎ ((0 < length staging.sealed) × (locate (pos 0) staging ≡ in_flight))
locate_pending_example =
    locate_pending zero_crc zero_crc_u32 staging staging-IsConsistent 0 none_active base_at_0
      one_next
