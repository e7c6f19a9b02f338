-- ===== src/Server/Uploader/Settle.antt =====
-- What an upload leaves when it returns, and when its retries end.
use kafkrs.Prelude.{
  ℕ, ◌≡◌, refl, ap, Bool, true, false, inl, inr, Option, none, some, List, [], ◌∷◌, ◌++◌, arith,
  if◌then◌else◌, length, All, Bool-cases,
}
use kafkrs.Prelude.Int.{◌≤ℤ◌}
use kafkrs.Models.Record.{Record}
use kafkrs.Models.Manifest.{Manifest}
use kafkrs.Server.ObjectStore.{
  Store, Write, done, refused, unconfirmed, put, get, set_object, segment_leaf, manifest_leaf,
}
use kafkrs.Server.PartitionWriter.State.{SealedBatch}
use kafkrs.Server.Uploader.{
  segment_entry, add_segment, sort_by_base, has_base, UploadIo, read_manifest, register,
  upload_once, upload,
}
use kafkrs.Server.Uploader.Order.{Disjoint, has_base-sort, has_base-append}
use kafkrs.Server.Uploader.Sound.{
  is_some, set_object_self, set_object_keeps, IsSound, Placeable, stored_segment-IsSound,
  added-IsSound, read_lem, stored_manifest-IsSound,
}

module _ (write_segment : List Record → Option (List ℕ)) (to_vec : Manifest → List ℕ)
    (from_slice : List ℕ → Option Manifest)
    (from_slice-to_vec : (m : Manifest) → from_slice (to_vec m) ≡ some m) where
  -- What a call that returned left: a sound store and, when it returned `Ok`, the batch's segment
  -- in the manifest and its object in the store.
  abbrev pub Settled : SealedBatch → Store × Bool → Type 0
  Settled batch (store, ok) =
      (v : IsSound write_segment to_vec from_slice from_slice-to_vec store) × Placeable
        write_segment to_vec from_slice from_slice-to_vec batch v.manifest
      × (ok ≡ true
          → (has_base batch.base_offset v.manifest.segments ≡ true)
            × (is_some (store (segment_leaf batch.base_offset)) ≡ true))

  failed :
      (batch : SealedBatch) (store : Store)
      (v : IsSound write_segment to_vec from_slice from_slice-to_vec store)
      → Placeable write_segment to_vec from_slice from_slice-to_vec batch v.manifest
      → Settled batch (store, false)
  failed batch store v place = (v, place, λ h. ground (arith, h))

  has_added :
      (batch : SealedBatch) (n : ℕ) (m : Manifest)
      → has_base batch.base_offset (add_segment batch n m).segments ≡ true
  unfolding add_segment segment_entry
  has_added batch n m =
      has_base-sort batch.base_offset (m.segments ++ segment_entry batch n ∷ [])
        (has_base-append batch.base_offset m.segments (segment_entry batch n) refl)

  put_added-Settled :
      (io : Write) (batch : SealedBatch) (n : ℕ) (store : Store)
      (v : IsSound write_segment to_vec from_slice from_slice-to_vec store)
      → batch.base_offset ≤ℤ batch.last_offset
      → All (Disjoint (segment_entry batch 0)) v.manifest.segments
      → is_some (store (segment_leaf batch.base_offset)) ≡ true
      → Settled batch (put io store manifest_leaf (to_vec (add_segment batch n v.manifest)))
  unfolding put add_segment added-IsSound sort_by_base stored_manifest-IsSound
  put_added-Settled refused batch n store v wide apart here =
      failed batch store v (inr (wide, apart))
  put_added-Settled unconfirmed batch n store v wide apart here =
      failed batch _
        (added-IsSound write_segment to_vec from_slice from_slice-to_vec store batch n v wide apart
          here)
        (inl (has_added batch n v.manifest))
  put_added-Settled done batch n store v wide apart here = (
    added-IsSound write_segment to_vec from_slice from_slice-to_vec store batch n v wide apart here,
    inl (has_added batch n v.manifest),
    λ h. (
      has_added batch n v.manifest,
      set_object_keeps store manifest_leaf (segment_leaf batch.base_offset) _ here,
    ),
  )

  abbrev register' : UploadIo → SealedBatch → ℕ → Store → Store × Bool
  register' = register write_segment to_vec from_slice

  register_known :
      (io : UploadIo) (batch : SealedBatch) (n : ℕ) (store : Store)
      (v : IsSound write_segment to_vec from_slice from_slice-to_vec store)
      → io.get_manifest ≡ true
      → has_base batch.base_offset v.manifest.segments ≡ true
      → register' io batch n store ≡ (store, true)
  unfolding register
  register_known io batch n store v g h = ground (
    arith,
    read_lem write_segment to_vec from_slice from_slice-to_vec io.get_manifest store v g,
    h,
  )

  register_new :
      (io : UploadIo) (batch : SealedBatch) (n : ℕ) (store : Store)
      (v : IsSound write_segment to_vec from_slice from_slice-to_vec store)
      → io.get_manifest ≡ true
      → has_base batch.base_offset v.manifest.segments ≡ false
      → register' io batch n store
        ≡ put io.put_manifest store manifest_leaf (to_vec (add_segment batch n v.manifest))
  unfolding register
  register_new io batch n store v g h = ground (
    arith,
    read_lem write_segment to_vec from_slice from_slice-to_vec io.get_manifest store v g,
    h,
  )

  register_silent :
      (io : UploadIo) (batch : SealedBatch) (n : ℕ) (store : Store)
      → io.get_manifest ≡ false
      → register' io batch n store ≡ (store, false)
  unfolding register read_manifest get
  register_silent io batch n store g = ground (arith, g)

  register-Settled :
      (io : UploadIo) (batch : SealedBatch) (n : ℕ) (store : Store)
      (v : IsSound write_segment to_vec from_slice from_slice-to_vec store)
      → Placeable write_segment to_vec from_slice from_slice-to_vec batch v.manifest
      → is_some (store (segment_leaf batch.base_offset)) ≡ true
      → Settled batch (register' io batch n store)
  register-Settled io batch n store v place here = elim (Bool-cases io.get_manifest) [
    | inr silent ↦ rw (register_silent io batch n store silent) (failed batch store v place)
    | inl g ↦ elim (Bool-cases (has_base batch.base_offset v.manifest.segments)) [
      | inl known ↦ rw (register_known io batch n store v g known) (v, place, λ h. (known, here))
      | inr new ↦ elim place [
        | inl known ↦ absurd (ground (arith, known, new))
        | inr (wide, apart) ↦
            rw (register_new io batch n store v g new)
              (put_added-Settled io.put_manifest batch n store v wide apart here)
      ]
    ]
  ]

  upload_stored :
      (write : Write) (io : UploadIo) (batch : SealedBatch) (store : Store) (bytes : List ℕ)
      (v : IsSound write_segment to_vec from_slice from_slice-to_vec store)
      → Placeable write_segment to_vec from_slice from_slice-to_vec batch v.manifest
      → Settled batch (
          let (store', stored) = put write store (segment_leaf batch.base_offset) bytes in
          if stored then register' io batch (length bytes) store' else (store', false))
  unfolding put stored_segment-IsSound
  upload_stored refused io batch store bytes v place = failed batch store v place
  upload_stored unconfirmed io batch store bytes v place =
      failed batch _
        (stored_segment-IsSound write_segment to_vec from_slice from_slice-to_vec store
          batch.base_offset bytes v)
        place
  upload_stored done io batch store bytes v place =
      let leaf = segment_leaf batch.base_offset in
      let here : is_some (set_object store leaf (some bytes) leaf) ≡ true =
        ap is_some (set_object_self store leaf (some bytes)) in
      register-Settled io batch (length bytes) (set_object store leaf (some bytes))
        (stored_segment-IsSound write_segment to_vec from_slice from_slice-to_vec store
          batch.base_offset bytes v)
        place here

  -- An attempt to upload a batch that the manifest has already, or that overlaps nothing in it,
  -- leaves the store sound whatever call of it fails, or fails to be confirmed; and when it
  -- returns `Ok`, so that the batch's WAL may go, the manifest has the segment and the store its
  -- object.
  pub upload_once-Settled :
      (io : UploadIo) (batch : SealedBatch) (store : Store)
      (v : IsSound write_segment to_vec from_slice from_slice-to_vec store)
      → Placeable write_segment to_vec from_slice from_slice-to_vec batch v.manifest
      → Settled batch (upload_once write_segment to_vec from_slice io batch store)
  unfolding upload_once
  upload_once-Settled io batch store v place =
      elim (write_segment batch.records)
        as (λ x. Settled batch (elim x [
          | none ↦ (store, false)
          | some bytes ↦
              let (store', stored) =
                put io.put_segment store (segment_leaf batch.base_offset) bytes in
              if stored then register' io batch (length bytes) store' else (store', false)
        ])) [
          | none ↦ failed batch store v place
          | some bytes ↦ upload_stored io.put_segment io batch store bytes v place
        ]

  -- From a sound store, and for a batch that the manifest has already or that overlaps nothing in
  -- it, the retry loop leaves the store sound whatever its attempts run into; and when it is left,
  -- so that `SegmentDurable` is sent and the WAL goes, the manifest has the batch's segment and the
  -- store its object.
  pub upload-Settled :
      (ios : List UploadIo) (batch : SealedBatch) (store : Store)
      (v : IsSound write_segment to_vec from_slice from_slice-to_vec store)
      → Placeable write_segment to_vec from_slice from_slice-to_vec batch v.manifest
      → Settled batch (upload write_segment to_vec from_slice ios batch store)
  unfolding upload
  upload-Settled [] batch store v place = failed batch store v place
  upload-Settled (io ∷ ios) batch store v place =
      let next = upload_once write_segment to_vec from_slice io batch store in
      let s : Settled batch next = upload_once-Settled io batch store v place in
      let ih = upload-Settled ios batch next.0 s.0 s.1 in
      elim (Bool-cases next.1) [
        | inl left ↦ rw left (s.0, s.1, λ h. s.2 left)
        | inr again ↦ rw again ih
      ]
