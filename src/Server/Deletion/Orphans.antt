-- ===== src/Server/Deletion/Orphans.antt =====
-- What a sweep leaves: its record when it fails, and the listed objects that it could not delete.
use kafkrs.Prelude.{
  ℕ, ◌≡◌, ◌⊎◌, refl, inl, inr, Bool, true, false, Option, none, some, List, [], ◌∷◌, arith, ap, sym,
  ◌∙◌, Bool-cases, Memᴰ,
}
use kafkrs.Models.Manifest.{Text}
use kafkrs.Server.ObjectStore.{Store, Write, refused, set_object, eqb_text, eqb_text_sound}
use kafkrs.Server.PendingDeletes.{
  PendingDelete, Files, Stage, at_create, at_write, at_fsync, at_rename, finished, load_all,
  write_all, rewrite, remove,
}
use kafkrs.Server.Deletion.{
  delete_lenient, Listed, located, list_error, SweepIo, finish_sweep, fresh, sweep_manifests,
  sweep_listed, sweep_deletion, build_list_prefix,
}

write_all_failed :
    (to_vec : List PendingDelete → List ℕ) (from_str : List ℕ → Option (List PendingDelete))
    (stage : Stage) (ps : List PendingDelete) (files : Files)
    → (write_all to_vec from_str stage ps files).1 ≡ false
    → (write_all to_vec from_str stage ps files).0.target ≡ files.target
unfolding write_all
write_all_failed to_vec from_str at_create ps files h = refl
write_all_failed to_vec from_str (at_write n) ps files h = refl
write_all_failed to_vec from_str at_fsync ps files h = refl
write_all_failed to_vec from_str at_rename ps files h = refl
write_all_failed to_vec from_str finished ps files h = absurd (ground (arith, h))

rewrite_failed :
    (to_vec : List PendingDelete → List ℕ) (from_str : List ℕ → Option (List PendingDelete))
    (stage : Stage) (change : List PendingDelete → List PendingDelete)
    (loaded : Option (List PendingDelete)) (files : Files)
    → (rewrite to_vec from_str stage change loaded files).1 ≡ false
    → (rewrite to_vec from_str stage change loaded files).0.target ≡ files.target
rewrite_failed to_vec from_str stage change none files h = refl
rewrite_failed to_vec from_str stage change (some ps) files h =
    write_all_failed to_vec from_str stage (change ps) files h

finish_failed :
    (swept listed : Bool) (before after : Store) (files : Files) (removal : Files × Bool)
    → (removal.1 ≡ false → removal.0.target ≡ files.target)
    → (finish_sweep swept listed before after files removal).2 ≡ false
    → (finish_sweep swept listed before after files removal).1.target ≡ files.target
finish_failed false listed before after files removal h e = refl
finish_failed true false before after files removal h e = refl
finish_failed true true before after files removal h e = h e

-- A sweep that answers an error, at whichever of its calls, leaves pending_deletes.json as it was,
-- so that the next start of the broker finds its record there and tries it again.
pub failed_sweep-target :
    (to_vec : List PendingDelete → List ℕ) (from_str : List ℕ → Option (List PendingDelete))
    (io : SweepIo) (prefix : Text) (r : PendingDelete) (store : Store) (files : Files)
    → (sweep_deletion to_vec from_str io prefix r store files).2 ≡ false
    → (sweep_deletion to_vec from_str io prefix r store files).1.target ≡ files.target
unfolding sweep_deletion remove
failed_sweep-target to_vec from_str io prefix r store files h =
    let swept = sweep_manifests io prefix r r.manifests_by_partition (fresh store) in
    let listing = io.list (build_list_prefix prefix r.topic r.uuid) swept.0.store in
    let listed = sweep_listed io prefix listing swept.0.store in
    let loaded = load_all to_vec from_str io.reads_pending files in
    finish_failed swept.1 listed.1 swept.0.store listed.0 files
      (remove to_vec from_str io.reads_pending io.writes_pending r.uuid files)
      (rewrite_failed to_vec from_str io.writes_pending _ loaded files) h

delete-elsewhere :
    (w : Write) (store : Store) (key k : Text)
    → (eqb_text k key ≡ false) ⊎ (w ≡ refused)
    → (delete_lenient w store key).0 k ≡ store k
unfolding delete_lenient set_object
delete-elsewhere w store key k (inl other) = ground (arith, other)
delete-elsewhere w store key k (inr e) = ground (arith, e)

listed-stays :
    (io : SweepIo) (prefix : Text) (ls : List Listed) (store : Store) (k : Text)
    → io.deletes_listed k ≡ refused
    → (sweep_listed io prefix ls store).0 k ≡ store k
unfolding sweep_listed
listed-stays io prefix [] store k h = refl
listed-stays io prefix (list_error ∷ ls) store k h = refl
listed-stays io prefix (located key ∷ ls) store k h =
    let w = io.deletes_listed key in
    let rest = listed-stays io prefix ls (delete_lenient w store key).0 k h in
    elim (Bool-cases (eqb_text k key)) [
      | inl same ↦
          let e = sym (ap io.deletes_listed (eqb_text_sound k key same)) ∙ h in
          rest ∙ delete-elsewhere w store key k (inr e)
      | inr other ↦ rest ∙ delete-elsewhere w store key k (inl other)
    ]

pub listed-ok :
    (io : SweepIo) (prefix : Text) (ls : List Listed) (store : Store)
    → ¬ Memᴰ list_error ls
    → (sweep_listed io prefix ls store).1 ≡ true
unfolding sweep_listed
listed-ok io prefix [] store h = refl
listed-ok io prefix (list_error ∷ ls) store h = absurd (h (Memᴰ.head refl))
listed-ok io prefix (located key ∷ ls) store h =
    listed-ok io prefix ls (delete_lenient (io.deletes_listed key) store key).0
      (λ m. h (Memᴰ.tail m))

-- When the snapshot's keys are deleted and the listing does not break off, a listed object whose
-- deletion is refused is still there behind the sweep, and the sweep takes its record out of the
-- pending deletions and answers all the same: nothing deletes that object later.
pub orphan_stays :
    (to_vec : List PendingDelete → List ℕ) (from_str : List ℕ → Option (List PendingDelete))
    (io : SweepIo) (prefix : Text) (r : PendingDelete) (store : Store) (files : Files) (k : Text)
    → (sweep_manifests io prefix r r.manifests_by_partition (fresh store)).1 ≡ true
    → ((store' : Store) (list_prefix : Text) → ¬ Memᴰ list_error (io.list list_prefix store'))
    → io.deletes_listed k ≡ refused
    → let swept = sweep_manifests io prefix r r.manifests_by_partition (fresh store) in
      let after = sweep_deletion to_vec from_str io prefix r store files in
      (after.0 k ≡ swept.0.store k)
      × ((after.1, after.2)
          ≡ remove to_vec from_str io.reads_pending io.writes_pending r.uuid files)
unfolding sweep_deletion
orphan_stays to_vec from_str io prefix r store files k h unbroken e =
    let swept = sweep_manifests io prefix r r.manifests_by_partition (fresh store) in
    let lp = build_list_prefix prefix r.topic r.uuid in
    let listing = io.list lp swept.0.store in
    rw (h, listed-ok io prefix listing swept.0.store (unbroken swept.0.store lp))
      (listed-stays io prefix listing swept.0.store k e, refl)
