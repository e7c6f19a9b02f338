-- ===== src/Server/Fetcher.antt =====
-- kafkrs-server/src/fetcher.rs: one fetch, over the writer of its partition and the object store.
-- The writer is given as it is when each message reaches it; `none` is a closed channel. The JSON
-- reader of the manifest and the Parquet reader of a segment are parameters.
pub mod Bounds
use kafkrs.Prelude.{
  ℕ, ◌==◌, Bool, Option, none, some, List, [], if◌then◌else◌, filter, take, get_last?,
}
use kafkrs.Prelude.Int.{ℤ, pos, negsuc, ltb_ℤ, leb_ℤ, prev_i64}
use kafkrs.Models.Record.{Record}
use kafkrs.Models.Manifest.{Manifest, SegmentEntry, segment_for_offset, last_uploaded_offset}
use kafkrs.Server.ObjectStore.{Store, get, segment_leaf, manifest_leaf}
use kafkrs.Server.PartitionWriter.State.{
  Writer, LocateResult, hwm_at, in_active_batch, in_flight, below_in_flight,
}
use kafkrs.Server.PartitionWriter.Ops
use kafkrs.Server.PartitionWriter.Ops.{locate}

pub data FetchError : Type 0 where
  unknown_topic unknown_partition offset_out_of_range broker_not_ready : FetchError

pub record FetchRequest : Type 0 where
  pub from_offset : ℤ
  pub max_records : ℕ
  pub max_wait_ms : ℕ

pub record FetchResponse : Type 0 where
  pub records : List Record
  pub hwm : ℤ

pub data Fetched : Type 0 where
  ok : FetchResponse → Fetched
  err : FetchError → Fetched

-- What the messages of a fetch meet: the writer at its first one, at the second and at the third,
-- and the outcomes of the two reads of the store.
pub record Scene : Type 0 where
  pub first : Option Writer
  pub second : Option Writer
  pub third : Option Writer
  pub store : Store
  pub gets_manifest : Bool
  pub gets_segment : Bool

-- `read_active`
unfoldable pub ask_active : Option Writer → FetchRequest → Fetched
ask_active none req = err broker_not_ready
ask_active (some w) req =
    let records = Ops.read_active req.from_offset req.max_records w in
    ok (record {
      records = records;
      hwm = elim (get_last? records) [ none ↦ prev_i64 req.from_offset | some r ↦ r.offset ];
    })

abbrev pub empty_at : ℤ → Fetched
empty_at hwm = ok (record { records = []; hwm = hwm })

-- What `read_object_store` makes of a segment's records.
abbrev pub select : FetchRequest → Manifest → List Record → Fetched
select req m out = ok (record {
  records = take req.max_records (filter (λ r. leb_ℤ req.from_offset r.offset) out);
  hwm = elim (last_uploaded_offset m) [ none ↦ negsuc 0 | some last ↦ last ];
})

module _ (from_slice : List ℕ → Option Manifest)
    (read_segment : List ℕ → Option (List Record)) where
  -- `read_object_store`, whose steps each go on with what the one before them found.
  abbrev pub of_records : FetchRequest → Manifest → Option (List Record) → Fetched
  of_records req m none = err broker_not_ready
  of_records req m (some out) = select req m out

  abbrev pub of_bytes : FetchRequest → Manifest → Option (List ℕ) → Fetched
  of_bytes req m none = err broker_not_ready
  of_bytes req m (some bytes) = of_records req m (read_segment bytes)

  abbrev pub of_segment : Scene → FetchRequest → Manifest → Option SegmentEntry → Fetched
  of_segment scene req m none = err offset_out_of_range
  of_segment scene req m (some seg) =
      of_bytes req m (get scene.gets_segment scene.store (segment_leaf seg.base_offset))

  abbrev pub of_manifest : Scene → FetchRequest → Option Manifest → Fetched
  of_manifest scene req none = err broker_not_ready
  of_manifest scene req (some m) = of_segment scene req m (segment_for_offset m req.from_offset)

  abbrev pub of_raw : Scene → FetchRequest → Option (List ℕ) → Fetched
  of_raw scene req none = err unknown_topic
  of_raw scene req (some raw) = of_manifest scene req (from_slice raw)

  unfoldable pub read_object_store : Scene → FetchRequest → Fetched
  read_object_store scene req = of_raw scene req (get scene.gets_manifest scene.store manifest_leaf)

  -- The second look, after the wait for the tail.
  abbrev pub after_wait : Scene → FetchRequest → LocateResult → Fetched
  after_wait scene req in_active_batch = ask_active scene.third req
  after_wait scene req (hwm_at h) = empty_at h
  after_wait scene req in_flight = read_object_store scene req
  after_wait scene req below_in_flight = read_object_store scene req

  abbrev pub look_again : Scene → FetchRequest → Option Writer → Fetched
  look_again scene req none = err broker_not_ready
  look_again scene req (some w) = after_wait scene req (locate req.from_offset w)

  -- An error of the store is an empty answer while the segment is being uploaded.
  abbrev pub or_empty : Fetched → Fetched
  or_empty (ok resp) = ok resp
  or_empty (err e) = empty_at (negsuc 0)

  abbrev pub serve : Scene → FetchRequest → LocateResult → Fetched
  serve scene req (hwm_at h) =
      if req.max_wait_ms == 0 then empty_at h else look_again scene req scene.second
  serve scene req in_active_batch = ask_active scene.second req
  serve scene req in_flight = or_empty (read_object_store scene req)
  serve scene req below_in_flight = read_object_store scene req

  abbrev pub look : Scene → FetchRequest → Option Writer → Fetched
  look scene req none = err broker_not_ready
  look scene req (some w) = serve scene req (locate req.from_offset w)

  unfoldable pub fetch : Scene → FetchRequest → Fetched
  fetch scene req =
      if ltb_ℤ req.from_offset (pos 0) then err offset_out_of_range else look scene req scene.first
