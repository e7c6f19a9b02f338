-- ===== src/Server/Deletion/Clean.antt =====
-- A sweep of which no call fails.
use mathlib.Core.List.Memᴰ
use kafkrs.Prelude.{
  ℕ, ◌≡◌, ◌⊎◌, refl, inl, inr, true, false, not, Option, none, some, List, [], ◌∷◌, if◌then◌else◌,
  arith, Bool-cases, Memᴰ, All, filter,
}
use kafkrs.Models.Manifest.{Text, SegmentEntry, Manifest}
use kafkrs.Server.ObjectStore.{
  Store, Write, done, set_object, segment_key, manifest_key, eqb_text, eqb_text_refl,
}
use kafkrs.Server.PendingDeletes.{PendingDelete, Files, finished, load_all, write_all, remove}
use kafkrs.Server.PendingDeletes.Refine.{Holds}
use kafkrs.Server.Deletion.{
  delete_lenient, lenient_of, Listed, located, list_error, SweepIo, Sweep, count, fresh, is_error,
  sweep_segments, sweep_manifest, sweep_manifests, sweep_listed, sweep_deletion,
}
use kafkrs.Server.Deletion.Keys.{sweep_manifests-keeps, starts_with, list_prefix_of}
use kafkrs.Server.Deletion.Orphans.{listed-ok}
use kafkrs.Server.Deletion.Replay.{
  IsWithin, kept-IsWithin, IsUnder, IsClean, kept_outside, kept_none, sweep, replay, sweep-keeps,
  replay-keeps, Readable, replay-Readable,
}

located_eq : (k key : Text) → located k ≡ located key → k ≡ key
located_eq k key e = ground (arith, e)

own :
    (key k : Text) (store : Store) {w : Write}
    → w ≡ done
    → k ≡ key
    → (delete_lenient w store key).0 k ≡ none
unfolding delete_lenient set_object
own key k store h e = rw (h, e, eqb_text_refl key) refl

count_done :
    (seg : SegmentEntry) (store : Store) (o : Option (List ℕ)) (s : Sweep)
    → (count seg store (lenient_of o) s).1 ≡ true
count_done seg store none s = refl
count_done seg store (some bytes) s = refl

error_done : (o : Option (List ℕ)) → is_error (lenient_of o) ≡ false
error_done none = refl
error_done (some bytes) = refl

abbrev pub without : Text → List PendingDelete → List PendingDelete
without uuid ps = filter (λ q. not (eqb_text q.uuid uuid)) ps

clean_write :
    (to_vec : List PendingDelete → List ℕ) (from_str : List ℕ → Option (List PendingDelete))
    (from-to : (ps : List PendingDelete) → from_str (to_vec ps) ≡ some ps) (ps : List PendingDelete)
    (files : Files)
    → ((write_all to_vec from_str finished ps files).1 ≡ true)
      × Holds to_vec from_str from-to (write_all to_vec from_str finished ps files).0 ps
unfolding write_all load_all
clean_write to_vec from_str from-to ps files = (refl, from-to ps)

clean_remove :
    (to_vec : List PendingDelete → List ℕ) (from_str : List ℕ → Option (List PendingDelete))
    (from-to : (ps : List PendingDelete) → from_str (to_vec ps) ≡ some ps) (uuid : Text)
    (files : Files) (ps : List PendingDelete)
    → Holds to_vec from_str from-to files ps
    → ((remove to_vec from_str true finished uuid files).1 ≡ true)
      × Holds to_vec from_str from-to
          (remove to_vec from_str true finished uuid files).0
          (without uuid ps)
unfolding remove
clean_remove to_vec from_str from-to uuid files ps h =
    rw h (clean_write to_vec from_str from-to (without uuid ps) files)

module _ (prefix : Text) (r : PendingDelete) (base : Store) (io : SweepIo)
    (clean : IsClean (list_prefix_of prefix r) base io) where
  clean_segments :
      (partition : ℕ) (segs : List SegmentEntry) (s : Sweep)
      → (sweep_segments io prefix r partition segs s).1 ≡ true
  unfolding sweep_segments delete_lenient
  clean_segments partition [] s = refl
  clean_segments partition (seg ∷ segs) s =
      let key = segment_key prefix r.topic r.uuid partition seg.base_offset in
      let ok = count_done seg (set_object s.store key none) (s.store key) s in
      let rest =
        clean_segments partition segs
          (count seg (set_object s.store key none) (lenient_of (s.store key)) s).0 in
      rw (clean.deletes key, ok) rest

  clean_manifest : (partition : ℕ) (s : Sweep) → (sweep_manifest io prefix r partition s).1 ≡ true
  unfolding sweep_manifest delete_lenient
  clean_manifest partition s =
      let key = manifest_key prefix r.topic r.uuid partition in
      rw (clean.deletes key, error_done (s.store key)) refl

  clean_manifests :
      (ms : List (ℕ × Manifest)) (s : Sweep) → (sweep_manifests io prefix r ms s).1 ≡ true
  unfolding sweep_manifests
  clean_manifests [] s = refl
  clean_manifests ((partition, m) ∷ ms) s =
      let s' = (sweep_segments io prefix r partition m.segments s).0 in
      rw (clean_segments partition m.segments s, clean_manifest partition s')
        (clean_manifests ms (sweep_manifest io prefix r partition s').0)

  listed-gone :
      (ls : List Listed) (store : Store) (k : Text)
      → ¬ Memᴰ list_error ls
      → ((key : Text) → Memᴰ (located key) ls → starts_with (list_prefix_of prefix r) key ≡ true)
      → (store k ≡ none) ⊎ Memᴰ (located k) ls
      → (sweep_listed io prefix ls store).0 k ≡ none
  unfolding sweep_listed
  listed-gone [] store k h under (inl e) = e
  listed-gone [] store k h under (inr m) = absurd (Memᴰ.not-nil m)
  listed-gone (list_error ∷ ls) store k h under m = absurd (h (Memᴰ.head refl))
  listed-gone (located key ∷ ls) store k h under m =
      listed-gone ls (delete_lenient (io.deletes_listed key) store key).0 k (λ n. h (Memᴰ.tail n))
        (λ j n. under j (Memᴰ.tail n))
        (elim m [
          | inl e ↦ inl (
              kept_none (list_prefix_of prefix r) k (io.deletes_listed key) store key
                (under key (Memᴰ.head refl)) e)
          | inr n ↦ elim (Memᴰ.cases_cons n) [
            | inr left ↦ inr left
            | inl e ↦ inl (own key k store (clean.deletes_listed key) (located_eq k key e))
          ]
        ])

  clean_sweep :
      (to_vec : List PendingDelete → List ℕ) (from_str : List ℕ → Option (List PendingDelete))
      (from-to : (ps : List PendingDelete) → from_str (to_vec ps) ≡ some ps) (store : Store)
      (files : Files) (ps : List PendingDelete)
      → Holds to_vec from_str from-to files ps
      → ((sweep to_vec from_str from-to prefix r io store files).2 ≡ true)
        × Holds to_vec from_str from-to
            (sweep to_vec from_str from-to prefix r io store files).1
            (without r.uuid ps)
  unfolding sweep_deletion
  clean_sweep to_vec from_str from-to store files ps h =
      let swept = sweep_manifests io prefix r r.manifests_by_partition (fresh store) in
      let listing = io.list (list_prefix_of prefix r) swept.0.store in
      rw
        (
          clean_manifests r.manifests_by_partition (fresh store),
          listed-ok io prefix listing swept.0.store (clean.unbroken swept.0.store),
          clean.reads_pending,
          clean.writes_pending,
        )
        (clean_remove to_vec from_str from-to r.uuid files ps h)

  swept-gone :
      (to_vec : List PendingDelete → List ℕ) (from_str : List ℕ → Option (List PendingDelete))
      (from-to : (ps : List PendingDelete) → from_str (to_vec ps) ≡ some ps) (store : Store)
      (files : Files) (k : Text)
      → IsUnder (list_prefix_of prefix r) io
      → IsWithin base store
      → starts_with (list_prefix_of prefix r) k ≡ true
      → (sweep to_vec from_str from-to prefix r io store files).0 k ≡ none
  unfolding sweep_deletion
  swept-gone to_vec from_str from-to store files k under within h =
      let swept = sweep_manifests io prefix r r.manifests_by_partition (fresh store) in
      let listing = io.list (list_prefix_of prefix r) swept.0.store in
      let left =
        sweep_manifests-keeps io prefix r (IsWithin base)
          (kept-IsWithin (list_prefix_of prefix r) base) r.manifests_by_partition (fresh store)
          within in
      let unbroken = clean.unbroken swept.0.store in
      rw
        (
          clean_manifests r.manifests_by_partition (fresh store),
          listed-ok io prefix listing swept.0.store unbroken,
        )
        (listed-gone listing swept.0.store k unbroken (under swept.0.store)
          (clean.complete swept.0.store left k h))

-- However many tries of a sweep went before, and whichever of their calls failed, a try of which no
-- call fails answers `Ok`; behind it the store has no object under the topic's prefix, every other
-- object is as it was before the first try, and the pending deletions, which the JSON reader can
-- read, have no record of the topic's uuid. A listing is taken to have keys under
-- its prefix only, and the last one to have all of those that the store has of the first store's.
pub replay-clears :
    (to_vec : List PendingDelete → List ℕ) (from_str : List ℕ → Option (List PendingDelete))
    (from-to : (ps : List PendingDelete) → from_str (to_vec ps) ≡ some ps) (prefix : Text)
    (r : PendingDelete) (ios : List SweepIo) (io : SweepIo) (store : Store) (files : Files)
    → All (IsUnder (list_prefix_of prefix r)) ios
    → IsUnder (list_prefix_of prefix r) io
    → IsClean (list_prefix_of prefix r) store io
    → Readable to_vec from_str from-to prefix r files
    → let tried = replay to_vec from_str from-to prefix r ios store files in
      let last = sweep to_vec from_str from-to prefix r io tried.0 tried.1 in
      (last.2 ≡ true)
      × ((k : Text)
          → last.0 k ≡ (if starts_with (list_prefix_of prefix r) k then none else store k))
      × ((ps : List PendingDelete) × Holds to_vec from_str from-to last.1 (without r.uuid ps))
replay-clears to_vec from_str from-to prefix r ios io store files unders under clean readable =
    let tried = replay to_vec from_str from-to prefix r ios store files in
    let (ps, h) = replay-Readable to_vec from_str from-to prefix r ios store files readable in
    let (ok, holds) =
      clean_sweep prefix r store io clean to_vec from_str from-to tried.0 tried.1 ps h in
    let lp = list_prefix_of prefix r in
    let within =
      replay-keeps to_vec from_str from-to prefix r ios (IsWithin store) store files
        (kept-IsWithin lp store) unders (λ k e. e) in
    (
      ok,
      (λ k. elim (Bool-cases (starts_with lp k)) [
        | inl inside ↦ simp inside (
            swept-gone prefix r store io clean to_vec from_str from-to tried.0 tried.1 k under
              within inside)
        | inr out ↦
            let kept = kept_outside lp k (store k) out in
            simp out (
              sweep-keeps to_vec from_str from-to prefix r io (λ st. st k ≡ store k) tried.0 tried.1
                kept under
                (replay-keeps to_vec from_str from-to prefix r ios (λ st. st k ≡ store k) store
                  files kept unders refl))
      ]),
      (ps, holds),
    )
