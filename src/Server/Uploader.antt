-- ===== src/Server/Uploader.antt =====
-- kafkrs-server/src/uploader.rs: the actor that moves sealed segments to the object store.
-- The Parquet writer, and the JSON reader and writer of the manifest, are parameters.
pub mod Order
pub mod Sound
pub mod Settle
pub mod Pass
pub mod Actor
pub mod Each
pub mod Drain
use kafkrs.Prelude.{
  ℕ, zero, suc, Bool, true, false, not, Option, none, some, List, [], ◌∷◌, ◌++◌, if◌then◌else◌, any,
  filter, length, map,
}
use kafkrs.Prelude.Int.{ℤ, leb_ℤ, eqb_ℤ}
use kafkrs.Models.Record.{Record}
use kafkrs.Models.Topic.{ResolvedTopicConfig}
use kafkrs.Models.Manifest.{Text, SegmentEntry, Manifest}
use kafkrs.Server.ObjectStore.{
  Store, Write, put, get, delete, eqb_text, segment_leaf, manifest_leaf,
}
use kafkrs.Server.Retention.{evaluate_eviction}
use kafkrs.Server.PartitionWriter.State.{SealedBatch}

-- `sort_by_key`, which is stable.
unfoldable pub insert_by_base : SegmentEntry → List SegmentEntry → List SegmentEntry
insert_by_base s [] = s ∷ []
insert_by_base s (t ∷ ts) =
    let rest = insert_by_base s ts in
    if leb_ℤ s.base_offset t.base_offset then s ∷ t ∷ ts else t ∷ rest

unfoldable pub sort_by_base : List SegmentEntry → List SegmentEntry
sort_by_base [] = []
sort_by_base (s ∷ ss) = insert_by_base s (sort_by_base ss)

unfoldable pub segment_entry : SealedBatch → ℕ → SegmentEntry
segment_entry batch byte_size = record {
  base_offset = batch.base_offset;
  last_offset = batch.last_offset;
  base_timestamp_ns = batch.base_timestamp_ns;
  last_timestamp_ns = batch.last_timestamp_ns;
  record_count = length batch.records;
  byte_size = byte_size;
  object_key = segment_leaf batch.base_offset;
}

unfoldable pub add_segment : SealedBatch → ℕ → Manifest → Manifest
add_segment batch byte_size m = record m {
  segments = sort_by_base (m.segments ++ segment_entry batch byte_size ∷ []);
}

abbrev pub has_base : ℤ → List SegmentEntry → Bool
has_base base segments = any (λ s. eqb_ℤ s.base_offset base) segments

-- The outcomes of the store calls of one attempt to upload, and of one retention pass.
pub record UploadIo : Type 0 where
  pub put_segment : Write
  pub get_manifest : Bool
  pub put_manifest : Write

pub record RetentionIo : Type 0 where
  pub get_manifest : Bool
  pub put_manifest : Write
  pub delete_segment : SegmentEntry → Write

-- `retain`: the segments whose object is not to be deleted.
unfoldable pub retain : List SegmentEntry → List SegmentEntry → List SegmentEntry
retain evict segments =
    filter (λ s. not (any (λ t. eqb_text t.object_key s.object_key) evict)) segments

unfoldable pub delete_segments : (SegmentEntry → Write) → List SegmentEntry → Store → Store
delete_segments io [] store = store
delete_segments io (s ∷ ss) store =
    let (store', deleted) = delete (io s) store (segment_leaf s.base_offset) in
    delete_segments io ss store'

module _ (write_segment : List Record → Option (List ℕ)) (to_vec : Manifest → List ℕ)
    (from_slice : List ℕ → Option Manifest) where
  -- `serde_json::from_slice(&get(..)?)?`
  unfoldable pub read_manifest : Bool → Store → Option Manifest
  read_manifest answers store = elim (get answers store manifest_leaf) [
    | none ↦ none
    | some raw ↦ from_slice raw
  ]

  -- `upload_once` behind the write of the segment.
  unfoldable pub register : UploadIo → SealedBatch → ℕ → Store → Store × Bool
  register io batch byte_size store = elim (read_manifest io.get_manifest store) [
    | none ↦ (store, false)
    | some m ↦
        if has_base batch.base_offset m.segments
        then (store, true)
        else put io.put_manifest store manifest_leaf (to_vec (add_segment batch byte_size m))
  ]

  -- The store, and whether the call returned `Ok`.
  unfoldable pub upload_once : UploadIo → SealedBatch → Store → Store × Bool
  upload_once io batch store = elim (write_segment batch.records) [
    | none ↦ (store, false)
    | some bytes ↦
        let (store', stored) = put io.put_segment store (segment_leaf batch.base_offset) bytes in
        if stored then register io batch (length bytes) store' else (store', false)
  ]

  unfoldable pub retention_pass : RetentionIo → ResolvedTopicConfig → ℤ → Store → Store × Bool
  retention_pass io cfg now_ns store = elim (read_manifest io.get_manifest store) [
    | none ↦ (store, false)
    | some m ↦ elim (evaluate_eviction m cfg now_ns) [
      | [] ↦ (store, true)
      | s ∷ ss ↦
          let (store', stored) =
            put io.put_manifest store manifest_leaf
              (to_vec (record m { segments = retain (s ∷ ss) m.segments })) in
          if stored
          then (delete_segments io.delete_segment (s ∷ ss) store', true)
          else (store', false)
    ]
  ]

  -- The retry loop of `UploaderMsg::Upload`, over the outcomes of its attempts. The flag says
  -- whether the loop was left, and `SegmentDurable` sent, within them.
  unfoldable pub upload : List UploadIo → SealedBatch → Store → Store × Bool
  upload [] batch store = (store, false)
  upload (io ∷ ios) batch store =
      let (store', uploaded) = upload_once io batch store in
      let later = upload ios batch store' in if uploaded then (store', true) else later
