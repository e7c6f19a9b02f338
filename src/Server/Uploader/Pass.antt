-- ===== src/Server/Uploader/Pass.antt =====
-- A retention pass keeps the store sound: it rewrites the manifest before it deletes an object.
use kafkrs.Prelude.{
  ℕ, ◌≡◌, ◌∙◌, refl, sym, ap, ap₂, Bool, true, false, not, inl, inr, Option, none, some, List, [],
  ◌∷◌, arith, if◌then◌else◌, ◌==◌, any, filter, All, All-filter, All-left, All-of, All-zip,
  Bool-cases, subst,
}
use kafkrs.Prelude.Int.{ℤ}
use kafkrs.Models.Record.{Record}
use kafkrs.Models.Topic.{ResolvedTopicConfig}
use kafkrs.Models.Manifest.{Text, SegmentEntry, Manifest}
use kafkrs.Server.ObjectStore.{
  Store, Write, done, refused, unconfirmed, put, get, delete, set_object, eqb_text, segment_leaf,
  manifest_leaf,
}
use kafkrs.Server.Retention.{evaluate_eviction}
use kafkrs.Server.Retention.Evict.{evict-prefix}
use kafkrs.Server.Uploader.{RetentionIo, retain, delete_segments, read_manifest, retention_pass}
use kafkrs.Server.Uploader.Order.{Ascending-filter}
use kafkrs.Server.Uploader.Sound.{
  is_some, Backed, set_object_ne, manifest_ne, IsSound, stored_manifest-IsSound, read_lem,
}

==_comm : (a b : ℕ) → (a == b) ≡ (b == a)
==_comm a b = ground arith

eqb_text_comm : (s t : Text) → eqb_text s t ≡ eqb_text t s
eqb_text_comm [] [] = refl
eqb_text_comm [] (d ∷ ds) = refl
eqb_text_comm (c ∷ cs) [] = refl
eqb_text_comm (c ∷ cs) (d ∷ ds) = rw (==_comm c d, eqb_text_comm cs ds) refl

abbrev Keyed : SegmentEntry → Type 0
Keyed s = s.object_key ≡ segment_leaf s.base_offset

-- The object of `s` is not the one of `d`.
abbrev Apart : SegmentEntry → SegmentEntry → Type 0
Apart d s = eqb_text (segment_leaf s.base_offset) (segment_leaf d.base_offset) ≡ false

delete_keeps :
    (io : Write) (store : Store) (key k : Text)
    → eqb_text k key ≡ false
    → (delete io store key).0 k ≡ store k
unfolding delete
delete_keeps done store key k h = set_object_ne store key k none h
delete_keeps refused store key k h = refl
delete_keeps unconfirmed store key k h = set_object_ne store key k none h

pub delete_segments_keeps :
    (io : SegmentEntry → Write) (ds : List SegmentEntry) (store : Store) (k : Text)
    → All (λ d. eqb_text k (segment_leaf d.base_offset) ≡ false) ds
    → delete_segments io ds store k ≡ store k
unfolding delete_segments
delete_segments_keeps io [] store k h = refl
delete_segments_keeps io (d ∷ ds) store k (apart, rest) =
    delete_segments_keeps io ds (delete (io d) store (segment_leaf d.base_offset)).0 k rest
    ∙ delete_keeps (io d) store (segment_leaf d.base_offset) k apart

Apart-of :
    (ds : List SegmentEntry) (s : SegmentEntry)
    → All Keyed ds
    → Keyed s
    → not (any (λ t. eqb_text t.object_key s.object_key) ds) ≡ true
    → All (λ d. Apart d s) ds
unfolding any
Apart-of [] s keyed_ds keyed h = tt
Apart-of (d ∷ ds) s (keyed_d, rest) keyed h =
    elim (Bool-cases (eqb_text d.object_key s.object_key)) [
      | inl same ↦ absurd (ground (arith, same, h))
      | inr other ↦
          let apart : eqb_text (segment_leaf d.base_offset) (segment_leaf s.base_offset) ≡ false =
            ap₂ eqb_text (sym keyed_d) (sym keyed) ∙ other in
          (
            eqb_text_comm (segment_leaf s.base_offset) (segment_leaf d.base_offset) ∙ apart,
            Apart-of ds s rest keyed (rw other at h),
          )
    ]

retained-Apart :
    (ds ss : List SegmentEntry)
    → All Keyed ds
    → All Keyed ss
    → All (λ s. All (λ d. Apart d s) ds) (retain ds ss)
unfolding retain filter
retained-Apart ds [] keyed_ds keyed_ss = tt
retained-Apart ds (s ∷ ss) keyed_ds (keyed, rest) =
    elim (Bool-cases (not (any (λ t. eqb_text t.object_key s.object_key) ds))) [
      | inl stays ↦
          rw stays (Apart-of ds s keyed_ds keyed stays, retained-Apart ds ss keyed_ds rest)
      | inr goes ↦ rw goes (retained-Apart ds ss keyed_ds rest)
    ]

module _ (write_segment : List Record → Option (List ℕ)) (to_vec : Manifest → List ℕ)
    (from_slice : List ℕ → Option Manifest)
    (from_slice-to_vec : (m : Manifest) → from_slice (to_vec m) ≡ some m) where
  abbrev Sound : Store → Type 0
  Sound store = IsSound write_segment to_vec from_slice from_slice-to_vec store

  abbrev retained : List SegmentEntry → Manifest → Manifest
  retained ds m = record m { segments = retain ds m.segments }

  rewritten-IsSound :
      (store : Store) (ds : List SegmentEntry) (v : Sound store)
      → Sound (set_object store manifest_leaf (some (to_vec (retained ds v.manifest))))
  unfolding retain
  rewritten-IsSound store ds v =
      stored_manifest-IsSound write_segment to_vec from_slice from_slice-to_vec store
        (retained ds v.manifest) (Ascending-filter _ v.manifest.segments v.ordered)
        (All-filter _ _ v.manifest.segments v.keyed) (All-filter _ _ v.manifest.segments v.backed)

  deleted-IsSound :
      (io : SegmentEntry → Write) (store : Store) (ds : List SegmentEntry) (v : Sound store)
      → All (λ s. All (λ d. Apart d s) ds) v.manifest.segments
      → Sound (delete_segments io ds store)
  deleted-IsSound io store ds v apart = record {
    manifest = v.manifest;
    raw = v.raw;
    raw_at =
        delete_segments_keeps io ds store manifest_leaf
          (All-of _ ds (λ d. manifest_ne d.base_offset))
        ∙ v.raw_at;
    reads = v.reads;
    ordered = v.ordered;
    keyed = v.keyed;
    backed =
        All-zip _ _ (Backed (delete_segments io ds store)) v.manifest.segments
          (λ s away h.
            ap is_some (delete_segments_keeps io ds store (segment_leaf s.base_offset) away) ∙ h)
          apart v.backed;
  }

  -- What a pass does to a manifest from which it evicts `ds`.
  abbrev evicting :
      Write → (SegmentEntry → Write) → Store → Manifest → List SegmentEntry → Store × Bool
  evicting write deletes store m ds =
      let (store', stored) = put write store manifest_leaf (to_vec (retained ds m)) in
      if stored then (delete_segments deletes ds store', true) else (store', false)

  evicting-IsSound :
      (write : Write) (deletes : SegmentEntry → Write) (store : Store) (ds : List SegmentEntry)
      (v : Sound store)
      → All Keyed ds
      → Sound (evicting write deletes store v.manifest ds).0
  unfolding put rewritten-IsSound stored_manifest-IsSound
  evicting-IsSound refused deletes store ds v keyed = v
  evicting-IsSound unconfirmed deletes store ds v keyed = rewritten-IsSound store ds v
  evicting-IsSound done deletes store ds v keyed =
      deleted-IsSound deletes _ ds (rewritten-IsSound store ds v)
        (retained-Apart ds v.manifest.segments keyed v.keyed)

  abbrev branch : RetentionIo → Store → Manifest → List SegmentEntry → Store × Bool
  branch io store m [] = (store, true)
  branch io store m (s ∷ ss) = evicting io.put_manifest io.delete_segment store m (s ∷ ss)

  abbrev passing : RetentionIo → ResolvedTopicConfig → ℤ → Store → Option Manifest → Store × Bool
  passing io cfg now_ns store none = (store, false)
  passing io cfg now_ns store (some m) = branch io store m (evaluate_eviction m cfg now_ns)

  pass_lem :
      (io : RetentionIo) (cfg : ResolvedTopicConfig) (now_ns : ℤ) (store : Store)
      → retention_pass write_segment to_vec from_slice io cfg now_ns store
        ≡ passing io cfg now_ns store
            (read_manifest write_segment to_vec from_slice io.get_manifest store)
  unfolding retention_pass
  pass_lem io cfg now_ns store = refl

  passing-IsSound :
      (io : RetentionIo) (cfg : ResolvedTopicConfig) (now_ns : ℤ) (store : Store) (v : Sound store)
      → Sound (passing io cfg now_ns store (some v.manifest)).0
  passing-IsSound io cfg now_ns store v =
      let (rest, parts, _) = evict-prefix v.manifest cfg now_ns in
      let keyed : All Keyed (evaluate_eviction v.manifest cfg now_ns) =
        All-left Keyed (evaluate_eviction v.manifest cfg now_ns) rest
          (subst (λ (ss : List SegmentEntry). All Keyed ss) parts v.keyed) in
      let go : All Keyed (evaluate_eviction v.manifest cfg now_ns)
          → Sound (passing io cfg now_ns store (some v.manifest)).0 =
        elim (evaluate_eviction v.manifest cfg now_ns)
          as (λ x. All Keyed x → Sound (branch io store v.manifest x).0) [
            | [] ↦ λ h. v
            | s ∷ ss ↦ λ h. evicting-IsSound io.put_manifest io.delete_segment store (s ∷ ss) v h
          ] in
      go keyed

  silent_lem :
      (answers : Bool) (store : Store)
      → answers ≡ false
      → read_manifest write_segment to_vec from_slice answers store ≡ none
  unfolding read_manifest get
  silent_lem answers store g = ground (arith, g)

  -- A retention pass leaves a sound store sound whatever call of it fails: no segment of the
  -- manifest is ever without its object.
  pub retention_pass-IsSound :
      (io : RetentionIo) (cfg : ResolvedTopicConfig) (now_ns : ℤ) (store : Store)
      → Sound store
      → Sound (retention_pass write_segment to_vec from_slice io cfg now_ns store).0
  retention_pass-IsSound io cfg now_ns store v =
      rw (pass_lem io cfg now_ns store) (elim (Bool-cases io.get_manifest) [
        | inl g ↦
            subst (λ (o : Option Manifest). Sound (passing io cfg now_ns store o).0)
              (sym (
                read_lem write_segment to_vec from_slice from_slice-to_vec io.get_manifest store v
                  g))
              (passing-IsSound io cfg now_ns store v)
        | inr g ↦
            subst (λ (o : Option Manifest). Sound (passing io cfg now_ns store o).0)
              (sym (silent_lem io.get_manifest store g)) v
      ])
