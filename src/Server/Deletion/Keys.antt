-- ===== src/Server/Deletion/Keys.antt =====
-- Which keys a sweep deletes: those of its topic's incarnation.
use kafkrs.Prelude.{
  subst, Memᴰ, ℕ, ◌==◌, ==_refl, ◌≡◌, refl, Bool, true, false, ◌&&◌, List, [], ◌∷◌, ◌++◌,
  append_assoc, sym,
}
use kafkrs.Prelude.Int.{ℤ, pos}
use kafkrs.Models.Manifest.{Text, SegmentEntry, Manifest}
use kafkrs.Server.ObjectStore.{
  Store, Write, segment_key, manifest_key, join, decimal, segment_leaf, manifest_leaf,
}
use kafkrs.Server.PendingDeletes.{PendingDelete}
use kafkrs.Server.Deletion.{
  Lenient, removed, gone, failed, delete_lenient, build_list_prefix, Listed, located, list_error,
  SweepIo, Sweep, count, sweep_segments, sweep_manifest, sweep_manifests, sweep_listed, go_on,
}

abbrev pub starts_with : Text → Text → Bool
starts_with [] k = true
starts_with (c ∷ cs) [] = false
starts_with (c ∷ cs) (d ∷ ds) = (c == d) && starts_with cs ds

starts_with-append : (p rest : Text) → starts_with p (p ++ rest) ≡ true
starts_with-append [] rest = refl
starts_with-append (c ∷ cs) rest = rw (==_refl c, starts_with-append cs rest)

join_under :
    (prefix topic uuid : Text) (partition : ℕ) (leaf : Text)
    → (rest : Text) × (join prefix topic uuid partition leaf
        ≡ build_list_prefix prefix topic uuid ++ rest)
unfolding join build_list_prefix
join_under prefix topic uuid partition leaf = (
  112 ∷ 97 ∷ 114 ∷ 116 ∷ 105 ∷ 116 ∷ 105 ∷ 111 ∷ 110 ∷ 61 ∷ decimal partition ++ 47 ∷ leaf,
  simp append_assoc refl,
)

abbrev pub list_prefix_of : Text → PendingDelete → Text
list_prefix_of prefix r = build_list_prefix prefix r.topic r.uuid

join-starts_with :
    (prefix topic uuid : Text) (partition : ℕ) (leaf : Text)
    → starts_with (build_list_prefix prefix topic uuid) (join prefix topic uuid partition leaf)
      ≡ true
join-starts_with prefix topic uuid partition leaf =
    let (rest, e) = join_under prefix topic uuid partition leaf in
    rw e (starts_with-append (build_list_prefix prefix topic uuid) rest)

-- The keys of a topic's segments and manifests all lie under the prefix that the sweep lists, so
-- the listing of an incarnation's prefix finds all of its objects.
pub keys-starts_with :
    (prefix topic uuid : Text) (partition : ℕ) (base_offset : ℤ)
    → (starts_with
          (build_list_prefix prefix topic uuid)
          (segment_key prefix topic uuid partition base_offset)
        ≡ true)
      × (starts_with
            (build_list_prefix prefix topic uuid)
            (manifest_key prefix topic uuid partition)
          ≡ true)
unfolding segment_key manifest_key
keys-starts_with prefix topic uuid partition base_offset = (
  join-starts_with prefix topic uuid partition (segment_leaf base_offset),
  join-starts_with prefix topic uuid partition manifest_leaf,
)

-- What every deletion of a key under the prefix keeps, the whole sweep keeps.
abbrev pub Kept : Text → (Store → Type 0) → Type 0
Kept list_prefix P =
    (w : Write) (store : Store) (key : Text)
    → starts_with list_prefix key ≡ true
    → P store
    → P (delete_lenient w store key).0

count-store :
    (seg : SegmentEntry) (store : Store) (answer : Lenient) (s : Sweep)
    → (count seg store answer s).0.store ≡ store
count-store seg store removed s = refl
count-store seg store gone s = refl
count-store seg store failed s = refl

module _ (io : SweepIo) (prefix : Text) (r : PendingDelete) (P : Store → Type 0)
    (kept : Kept (list_prefix_of prefix r) P) where
  go_on-keeps :
      (ok : Bool) (rest : Sweep × Bool) (s : Sweep)
      → P rest.0.store
      → P s.store
      → P (go_on ok rest s).0.store
  go_on-keeps true rest s hr hs = hr
  go_on-keeps false rest s hr hs = hs

  sweep_segments-keeps :
      (partition : ℕ) (segs : List SegmentEntry) (s : Sweep)
      → P s.store
      → P (sweep_segments io prefix r partition segs s).0.store
  unfolding sweep_segments
  sweep_segments-keeps partition [] s h = h
  sweep_segments-keeps partition (seg ∷ segs) s h =
      let key = segment_key prefix r.topic r.uuid partition seg.base_offset in
      let deleted = delete_lenient (io.deletes key) s.store key in
      let counted = count seg deleted.0 deleted.1 s in
      let h' = subst P (sym (count-store seg deleted.0 deleted.1 s)) (
        kept (io.deletes key) s.store key
          (keys-starts_with prefix r.topic r.uuid partition seg.base_offset).0 h) in
      go_on-keeps counted.1 (sweep_segments io prefix r partition segs counted.0) counted.0
        (sweep_segments-keeps partition segs counted.0 h') h'

  pub sweep_manifests-keeps :
      (ms : List (ℕ × Manifest)) (s : Sweep)
      → P s.store
      → P (sweep_manifests io prefix r ms s).0.store
  unfolding sweep_manifests sweep_manifest
  sweep_manifests-keeps [] s h = h
  sweep_manifests-keeps ((partition, m) ∷ ms) s h =
      let swept = sweep_segments io prefix r partition m.segments s in
      let cleared = sweep_manifest io prefix r partition swept.0 in
      let h' = sweep_segments-keeps partition m.segments s h in
      let h'' =
        kept (io.deletes (manifest_key prefix r.topic r.uuid partition)) swept.0.store
          (manifest_key prefix r.topic r.uuid partition)
          (keys-starts_with prefix r.topic r.uuid partition (pos 0)).1 h' in
      go_on-keeps swept.1 (go_on cleared.1 (sweep_manifests io prefix r ms cleared.0) cleared.0)
        swept.0
        (go_on-keeps cleared.1 (sweep_manifests io prefix r ms cleared.0) cleared.0
          (sweep_manifests-keeps ms cleared.0 h'') h'')
        h'

  pub sweep_listed-keeps :
      (ls : List Listed) (store : Store)
      → ((key : Text) → Memᴰ (located key) ls → starts_with (list_prefix_of prefix r) key ≡ true)
      → P store
      → P (sweep_listed io prefix ls store).0
  unfolding sweep_listed
  sweep_listed-keeps [] store under h = h
  sweep_listed-keeps (list_error ∷ ls) store under h = h
  sweep_listed-keeps (located key ∷ ls) store under h =
      let h' = kept (io.deletes_listed key) store key (under key (Memᴰ.head refl)) h in
      sweep_listed-keeps ls (delete_lenient (io.deletes_listed key) store key).0
        (λ k m. under k (Memᴰ.tail m)) h'
