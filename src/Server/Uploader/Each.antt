-- ===== src/Server/Uploader/Each.antt =====
-- What holds of every segment of the manifest in the store, through uploads and retention passes.
use kafkrs.Prelude.{
  ℕ, ◌≡◌, ◌∙◌, sym, ap, Bool, true, false, inl, inr, Option, some, List, [], ◌∷◌, ◌++◌, arith,
  length, if◌then◌else◌, subst, List-cases, All, All-append, All-filter, All-of, Bool-cases,
  Option-cases,
}
use kafkrs.Prelude.Int.{ℤ}
use kafkrs.Models.Record.{Record}
use kafkrs.Models.Topic.{ResolvedTopicConfig}
use kafkrs.Models.Manifest.{SegmentEntry, Manifest}
use kafkrs.Server.ObjectStore.{
  Store, Write, done, refused, unconfirmed, put, get, set_object, segment_leaf, manifest_leaf,
}
use kafkrs.Server.Retention.{evaluate_eviction}
use kafkrs.Server.PartitionWriter.State.{SealedBatch}
use kafkrs.Server.Uploader.{
  segment_entry, add_segment, has_base, retain, UploadIo, RetentionIo, read_manifest,
  delete_segments, register, upload_once, upload, retention_pass,
}
use kafkrs.Server.Uploader.Order.{All-sort}
use kafkrs.Server.Uploader.Sound.{IsSound, set_object_self, set_object_ne, manifest_ne}
use kafkrs.Server.Uploader.Pass.{delete_segments_keeps}

module _ (write_segment : List Record → Option (List ℕ)) (to_vec : Manifest → List ℕ)
    (from_slice : List ℕ → Option Manifest)
    (from_slice-to_vec : (m : Manifest) → from_slice (to_vec m) ≡ some m)
    (P : SegmentEntry → Type 0) where
  abbrev pub Each : Store → Type 0
  Each store =
      (raw : List ℕ) (m : Manifest)
      → store manifest_leaf ≡ some raw
      → from_slice raw ≡ some m
      → All P m.segments

  -- A sound store has one manifest.
  pub IsSound-Each :
      (store : Store) (v : IsSound write_segment to_vec from_slice from_slice-to_vec store)
      → All P v.manifest.segments
      → Each store
  IsSound-Each store v h raw m at reads =
      let z : v.raw ≡ raw = ground (arith, sym v.raw_at ∙ at) in
      let w : v.manifest ≡ m = ground (arith, sym v.reads ∙ ap from_slice z ∙ reads) in
      subst (λ (x : Manifest). All P x.segments) w h

  -- A store with the same manifest.
  Each-same :
      (store store' : Store) → store' manifest_leaf ≡ store manifest_leaf → Each store → Each store'
  Each-same store store' same h raw m at reads = h raw m (sym same ∙ at) reads

  Each-set :
      (store : Store) (m : Manifest)
      → All P m.segments
      → Each (set_object store manifest_leaf (some (to_vec m)))
  Each-set store m h raw n at reads =
      let z : to_vec m ≡ raw =
        ground (arith, sym (set_object_self store manifest_leaf (some (to_vec m))) ∙ at) in
      let w : m ≡ n = ground (arith, sym (from_slice-to_vec m) ∙ ap from_slice z ∙ reads) in
      subst (λ (x : Manifest). All P x.segments) w h

  put-Each :
      (io : Write) (store : Store) (m : Manifest)
      → Each store
      → All P m.segments
      → Each (put io store manifest_leaf (to_vec m)).0
  unfolding put
  put-Each done store m h k = Each-set store m k
  put-Each refused store m h k = h
  put-Each unconfirmed store m h k = Each-set store m k

  put_segment-Each :
      (io : Write) (store : Store) (base : ℤ) (bytes : List ℕ)
      → Each store
      → Each (put io store (segment_leaf base) bytes).0
  unfolding put
  put_segment-Each done store base bytes h =
      Each-same store (set_object store (segment_leaf base) (some bytes))
        (set_object_ne store (segment_leaf base) manifest_leaf (some bytes) (manifest_ne base)) h
  put_segment-Each refused store base bytes h = h
  put_segment-Each unconfirmed store base bytes h =
      Each-same store (set_object store (segment_leaf base) (some bytes))
        (set_object_ne store (segment_leaf base) manifest_leaf (some bytes) (manifest_ne base)) h

  read-Each :
      (answers : Bool) (store : Store) (m : Manifest)
      → Each store
      → read_manifest write_segment to_vec from_slice answers store ≡ some m
      → All P m.segments
  unfolding read_manifest get
  read-Each true store m h e = elim (Option-cases (store manifest_leaf)) [
    | inl absent ↦ absurd (ground (arith, absent, e))
    | inr (raw, at) ↦ h raw m at (ground (arith, at, e))
  ]
  read-Each false store m h e = absurd (ground (arith, e))

  register-Each :
      (io : UploadIo) (batch : SealedBatch) (n : ℕ) (store : Store)
      → P (segment_entry batch n)
      → Each store
      → Each (register write_segment to_vec from_slice io batch n store).0
  unfolding register add_segment
  register-Each io batch n store p h =
      elim (Option-cases (read_manifest write_segment to_vec from_slice io.get_manifest store)) [
        | inl unread ↦ rw (unread, register) h
        | inr (m, reads) ↦
            let old = read-Each io.get_manifest store m h reads in
            let new = put-Each io.put_manifest store (add_segment batch n m) h (
              All-sort P (m.segments ++ segment_entry batch n ∷ [])
                (All-append P m.segments (segment_entry batch n ∷ []) old (p, tt))) in
            elim (Bool-cases (has_base batch.base_offset m.segments)) [
              | inl has ↦ simp (reads, has, register) h
              | inr adds ↦ simp (reads, adds, register) new
            ]
      ]

  upload_once-Each :
      (io : UploadIo) (batch : SealedBatch) (store : Store)
      → ((n : ℕ) → P (segment_entry batch n))
      → Each store
      → Each (upload_once write_segment to_vec from_slice io batch store).0
  unfolding upload_once
  upload_once-Each io batch store p h = elim (Option-cases (write_segment batch.records)) [
    | inl fails ↦ rw (fails, upload_once) h
    | inr (bytes, writes) ↦
        let out = put io.put_segment store (segment_leaf batch.base_offset) bytes in
        let stored = put_segment-Each io.put_segment store batch.base_offset bytes h in
        let registered = register-Each io batch (length bytes) out.0 (p (length bytes)) stored in
        elim (Bool-cases out.1) [
          | inl ok ↦ simp (writes, ok, upload_once) registered
          | inr failed ↦ simp (writes, failed, upload_once) stored
        ]
  ]

  pub upload-Each :
      (ios : List UploadIo) (batch : SealedBatch) (store : Store)
      → ((n : ℕ) → P (segment_entry batch n))
      → Each store
      → Each (upload write_segment to_vec from_slice ios batch store).0
  unfolding upload
  upload-Each [] batch store p h = h
  upload-Each (io ∷ ios) batch store p h =
      let next = upload_once write_segment to_vec from_slice io batch store in
      let once = upload_once-Each io batch store p h in
      let later = upload-Each ios batch next.0 p once in
      elim (Bool-cases next.1) [ inl left ↦ rw left once | inr again ↦ rw again later ]

  deleted-Each :
      (io : SegmentEntry → Write) (store : Store) (ds : List SegmentEntry)
      → Each store
      → Each (delete_segments io ds store)
  deleted-Each io store ds h =
      Each-same store (delete_segments io ds store)
        (delete_segments_keeps io ds store manifest_leaf
          (All-of _ ds (λ d. manifest_ne d.base_offset)))
        h

  evicted-Each :
      (io : RetentionIo) (store : Store) (m : Manifest) (d : SegmentEntry) (ds : List SegmentEntry)
      → All P m.segments
      → Each store
      → let put' : Store × Bool =
          put io.put_manifest store manifest_leaf
            (to_vec (record m { segments = retain (d ∷ ds) m.segments })) in
        let out : Store × Bool =
          if put'.1
          then (delete_segments io.delete_segment (d ∷ ds) put'.0, true)
          else (put'.0, false) in
        Each out.0
  unfolding retain
  evicted-Each io store m d ds old h =
      let kept = record m { segments = retain (d ∷ ds) m.segments } in
      let out = put io.put_manifest store manifest_leaf (to_vec kept) in
      let rewritten = put-Each io.put_manifest store kept h (All-filter P _ m.segments old) in
      elim (Bool-cases out.1) [
        | inl ok ↦ rw ok (deleted-Each io.delete_segment out.0 (d ∷ ds) rewritten)
        | inr failed ↦ rw failed rewritten
      ]

  pub retention_pass-Each :
      (io : RetentionIo) (cfg : ResolvedTopicConfig) (now_ns : ℤ) (store : Store)
      → Each store
      → Each (retention_pass write_segment to_vec from_slice io cfg now_ns store).0
  unfolding retention_pass
  retention_pass-Each io cfg now_ns store h =
      elim (Option-cases (read_manifest write_segment to_vec from_slice io.get_manifest store)) [
        | inl unread ↦ rw (unread, retention_pass) h
        | inr (m, reads) ↦
            let old = read-Each io.get_manifest store m h reads in
            elim (List-cases (evaluate_eviction m cfg now_ns)) [
              | inl nothing ↦ simp (reads, nothing, retention_pass) h
              | inr (d, ds, evicts) ↦
                  simp (reads, evicts, retention_pass) (evicted-Each io store m d ds old h)
            ]
      ]
