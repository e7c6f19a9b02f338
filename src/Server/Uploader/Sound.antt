-- ===== src/Server/Uploader/Sound.antt =====
-- The object store of a partition stays sound through uploads, whatever calls fail.
use kafkrs.Prelude.{
  ℕ, ◌≡◌, ◌⊎◌, ◌∙◌, refl, Bool, true, false, inl, inr, Option, none, some, List, [], ◌∷◌, ◌++◌,
  arith, All, All-mono, All-append, Bool-cases,
}
use kafkrs.Prelude.Int.{ℤ, ◌≤ℤ◌}
use kafkrs.Models.Record.{Record}
use kafkrs.Models.Manifest.{SegmentEntry, Manifest}
use kafkrs.Models.Manifest.Lookup.{Ascending}
use kafkrs.Server.ObjectStore.{
  Store, get, set_object, eqb_text, eqb_text_refl, segment_leaf, manifest_leaf,
}
use kafkrs.Server.PartitionWriter.State.{SealedBatch}
use kafkrs.Server.Uploader.{segment_entry, add_segment, has_base, read_manifest}
use kafkrs.Server.Uploader.Order.{Disjoint, All-sort, sort-Ascending, append-Separate}

abbrev pub is_some {ℓ} : {A : Type ℓ} → Option A → Bool
is_some none = false
is_some (some a) = true

abbrev pub Backed : Store → SegmentEntry → Type 0
Backed store s = is_some (store (segment_leaf s.base_offset)) ≡ true

pub set_object_self :
    (store : Store) (k : List ℕ) (o : Option (List ℕ)) → set_object store k o k ≡ o
unfolding set_object
set_object_self store k o = rw (eqb_text_refl k)

pub set_object_ne :
    (store : Store) (key k : List ℕ) (o : Option (List ℕ))
    → eqb_text k key ≡ false
    → set_object store key o k ≡ store k
unfolding set_object
set_object_ne store key k o h = rw h

pub set_object_keeps :
    (store : Store) (key k bytes : List ℕ)
    → is_some (store k) ≡ true
    → is_some (set_object store key (some bytes) k) ≡ true
unfolding set_object
set_object_keeps store key k bytes h = elim (Bool-cases (eqb_text k key)) [
  | inl same ↦ rw same refl
  | inr other ↦ rw other h
]

pub manifest_ne : (base : ℤ) → eqb_text manifest_leaf (segment_leaf base) ≡ false
unfolding manifest_leaf segment_leaf
manifest_ne base = refl

ne_manifest : (base : ℤ) → eqb_text (segment_leaf base) manifest_leaf ≡ false
unfolding manifest_leaf segment_leaf
ne_manifest base = refl

module _ (write_segment : List Record → Option (List ℕ)) (to_vec : Manifest → List ℕ)
    (from_slice : List ℕ → Option Manifest)
    (from_slice-to_vec : (m : Manifest) → from_slice (to_vec m) ≡ some m) where
  -- The manifest reads back, is in offset order without overlaps, names each segment's object by
  -- its key, and each of them is in the store.
  pub record IsSound (store : Store) : Type 0 where
    pub manifest : Manifest
    pub raw : List ℕ
    pub raw_at : store manifest_leaf ≡ some raw
    pub reads : from_slice raw ≡ some manifest
    pub ordered : Ascending manifest.segments
    pub keyed : All (λ s. s.object_key ≡ segment_leaf s.base_offset) manifest.segments
    pub backed : All (Backed store) manifest.segments

  -- A batch that the manifest already has, or that overlaps nothing in it.
  abbrev pub Placeable : SealedBatch → Manifest → Type 0
  Placeable batch m =
      (has_base batch.base_offset m.segments ≡ true)
      ⊎ ((batch.base_offset ≤ℤ batch.last_offset)
          × All (Disjoint (segment_entry batch 0)) m.segments)

  unfoldable pub stored_segment-IsSound :
      (store : Store) (base : ℤ) (bytes : List ℕ)
      → IsSound store
      → IsSound (set_object store (segment_leaf base) (some bytes))
  stored_segment-IsSound store base bytes v = record {
    manifest = v.manifest;
    raw = v.raw;
    raw_at = set_object_ne store (segment_leaf base) manifest_leaf _ (manifest_ne base) ∙ v.raw_at;
    reads = v.reads;
    ordered = v.ordered;
    keyed = v.keyed;
    backed =
        All-mono _ _ v.manifest.segments
          (λ s h. set_object_keeps store (segment_leaf base) (segment_leaf s.base_offset) bytes h)
          v.backed;
  }

  unfoldable pub stored_manifest-IsSound :
      (store : Store) (m : Manifest)
      → Ascending m.segments
      → All (λ s. s.object_key ≡ segment_leaf s.base_offset) m.segments
      → All (Backed store) m.segments
      → IsSound (set_object store manifest_leaf (some (to_vec m)))
  stored_manifest-IsSound store m ordered keyed backed = record {
    manifest = m;
    raw = to_vec m;
    raw_at = set_object_self store manifest_leaf (some (to_vec m));
    reads = from_slice-to_vec m;
    ordered = ordered;
    keyed = keyed;
    backed =
        All-mono _ _ m.segments
          (λ s h. set_object_keeps store manifest_leaf (segment_leaf s.base_offset) (to_vec m) h)
          backed;
  }

  unfoldable pub added-IsSound :
      (store : Store) (batch : SealedBatch) (n : ℕ) (v : IsSound store)
      → batch.base_offset ≤ℤ batch.last_offset
      → All (Disjoint (segment_entry batch 0)) v.manifest.segments
      → is_some (store (segment_leaf batch.base_offset)) ≡ true
      → IsSound (set_object store manifest_leaf (some (to_vec (add_segment batch n v.manifest))))
  unfolding add_segment segment_entry
  added-IsSound store batch n v wide apart here =
      let entry = segment_entry batch n in
      let added = v.manifest.segments ++ entry ∷ [] in
      stored_manifest-IsSound store (add_segment batch n v.manifest)
        (sort-Ascending added (append-Separate v.manifest.segments entry wide apart v.ordered))
        (All-sort _ added (All-append _ v.manifest.segments (entry ∷ []) v.keyed (refl, tt)))
        (All-sort _ added (All-append _ v.manifest.segments (entry ∷ []) v.backed (here, tt)))

  pub read_lem :
      (answers : Bool) (store : Store) (v : IsSound store)
      → answers ≡ true
      → read_manifest write_segment to_vec from_slice answers store ≡ some v.manifest
  unfolding read_manifest get
  read_lem answers store v g = ground (arith, g, v.raw_at, v.reads)
