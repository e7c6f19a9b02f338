-- ===== src/Server/Deletion.antt =====
-- kafkrs-server/src/deletion.rs: the sweep that removes a deleted topic's objects.
-- The store is by full keys here. Each call has its outcome as an argument, as has the stream
-- of `list`. A deletion that succeeds finds its object gone already when there is none. The `u64`
-- counters are for metrics; they are kept, without their bound.
pub mod Keys
pub mod Replay
pub mod Clean
pub mod Orphans
use kafkrs.Prelude.{
  ℕ, suc, ◌+◌, ◌==◌, Bool, true, false, not, ◌&&◌, Option, none, some, List, [], ◌∷◌, ◌++◌,
}
use kafkrs.Models.Manifest.{Text, SegmentEntry, Manifest}
use kafkrs.Server.ObjectStore.{
  Store, Write, done, refused, unconfirmed, set_object, segment_key, manifest_key, trim_end_slashes,
}
use kafkrs.Server.PendingDeletes.{PendingDelete, Files, Stage, remove}

-- `Ok(true)`, `Ok(false)` when the object was gone already, or an error.
pub data Lenient : Type 0 where
  removed gone failed : Lenient

abbrev pub lenient_of : Option (List ℕ) → Lenient
lenient_of none = gone
lenient_of (some bytes) = removed

unfoldable pub delete_lenient : Write → Store → Text → Store × Lenient
delete_lenient done store key = (set_object store key none, lenient_of (store key))
delete_lenient refused store key = (store, failed)
delete_lenient unconfirmed store key = (set_object store key none, failed)

unfoldable pub build_list_prefix : Text → Text → Text → Text
build_list_prefix prefix topic topic_uuid =
    let directory : Text = elim prefix [
      | [] ↦ []
      | c ∷ cs ↦ trim_end_slashes (c ∷ cs) ++ 47 ∷ []
    ] in
    directory ++ (topic ++ 47 ∷ 118 ∷ 61 ∷ topic_uuid ++ 47 ∷ [])

-- An item of the stream of `list`: an object's location, or an error.
pub data Listed : Type 0 where
  located : Text → Listed
  list_error : Listed

-- The outcomes of the deletions of the snapshot's keys and of the listed ones, of the rewrite of the
-- pending deletions, and what the stream of `list` yields.
pub record SweepIo : Type 0 where
  pub deletes : Text → Write
  pub deletes_listed : Text → Write
  pub reads_pending : Bool
  pub writes_pending : Stage
  pub list : Text → Store → List Listed

pub record Sweep : Type 0 where
  pub store : Store
  pub segments_removed : ℕ
  pub bytes_removed : ℕ

abbrev pub count : SegmentEntry → Store → Lenient → Sweep → Sweep × Bool
count seg store removed s = (
  record {
    store = store;
    segments_removed = suc s.segments_removed;
    bytes_removed = s.bytes_removed + seg.byte_size;
  },
  true,
)
count seg store gone s = (record s { store = store }, true)
count seg store failed s = (record s { store = store }, false)

abbrev pub is_error : Lenient → Bool
is_error removed = false
is_error gone = false
is_error failed = true

-- The early return of an error.
abbrev pub go_on : Bool → Sweep × Bool → Sweep → Sweep × Bool
go_on true rest s = rest
go_on false rest s = (s, false)

module _ (io : SweepIo) (prefix : Text) where
  -- The segments of one manifest; `false` is the early return with the error.
  unfoldable pub sweep_segments : PendingDelete → ℕ → List SegmentEntry → Sweep → Sweep × Bool
  sweep_segments r partition [] s = (s, true)
  sweep_segments r partition (seg ∷ segs) s =
      let key = segment_key prefix r.topic r.uuid partition seg.base_offset in
      let (store, answer) = delete_lenient (io.deletes key) s.store key in
      let (s', ok) = count seg store answer s in
      let rest = sweep_segments r partition segs s' in go_on ok rest s'

  -- The key of the manifest behind those of its segments.
  unfoldable pub sweep_manifest : PendingDelete → ℕ → Sweep → Sweep × Bool
  sweep_manifest r partition s =
      let key = manifest_key prefix r.topic r.uuid partition in
      let (store, answer) = delete_lenient (io.deletes key) s.store key in
      (record s { store = store }, not (is_error answer))

  unfoldable pub sweep_manifests : PendingDelete → List (ℕ × Manifest) → Sweep → Sweep × Bool
  sweep_manifests r [] s = (s, true)
  sweep_manifests r ((partition, m) ∷ ms) s =
      let (s', swept) = sweep_segments r partition m.segments s in
      let (s'', ok) = sweep_manifest r partition s' in
      let rest = sweep_manifests r ms s'' in go_on swept (go_on ok rest s'') s'

  -- The loop over the listing, where a failed deletion is only logged.
  unfoldable pub sweep_listed : List Listed → Store → Store × Bool
  sweep_listed [] store = (store, true)
  sweep_listed (list_error ∷ ls) store = (store, false)
  sweep_listed (located key ∷ ls) store =
      sweep_listed ls (delete_lenient (io.deletes_listed key) store key).0

-- The answer by what the snapshot's loop and the listing's loop returned.
abbrev pub finish_sweep : Bool → Bool → Store → Store → Files → Files × Bool → Store × Files × Bool
finish_sweep false listed swept store files removal = (swept, files, false)
finish_sweep true false swept store files removal = (store, files, false)
finish_sweep true true swept store files (files', ok) = (store, files', ok)

abbrev pub fresh : Store → Sweep
fresh store = record { store = store; segments_removed = 0; bytes_removed = 0 }

module _ (to_vec : List PendingDelete → List ℕ)
    (from_str : List ℕ → Option (List PendingDelete)) where
  -- `sweep_deletion`: the store and the pending deletions behind it, and whether it answers `Ok`.
  unfoldable pub sweep_deletion :
      SweepIo → Text → PendingDelete → Store → Files → Store × Files × Bool
  sweep_deletion io prefix r store files =
      let (s, swept) = sweep_manifests io prefix r r.manifests_by_partition (fresh store) in
      let list_prefix = build_list_prefix prefix r.topic r.uuid in
      let (store', listed) = sweep_listed io prefix (io.list list_prefix s.store) s.store in
      let (files', ok) = remove to_vec from_str io.reads_pending io.writes_pending r.uuid files in
      finish_sweep swept listed s.store store' files (files', ok)
