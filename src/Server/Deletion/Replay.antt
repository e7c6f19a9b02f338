-- ===== src/Server/Deletion/Replay.antt =====
-- What a sweep removes, however often it was tried before.
use kafkrs.Prelude.{
  ℕ, ◌≡◌, ◌⊎◌, inl, inr, Bool, true, false, Option, none, some, List, [], ◌∷◌, arith, ap, sym, ◌∙◌,
  Bool-cases, Memᴰ, All,
}
use kafkrs.Models.Manifest.{Text}
use kafkrs.Server.ObjectStore.{Store, done, set_object, eqb_text, eqb_text_sound}
use kafkrs.Server.PendingDeletes.{PendingDelete, Files, finished, remove}
use kafkrs.Server.PendingDeletes.Refine.{Holds, removing, exec-Holds}
use kafkrs.Server.Deletion.{
  delete_lenient, located, list_error, SweepIo, finish_sweep, fresh, sweep_manifests, sweep_listed,
  sweep_deletion,
}
use kafkrs.Server.Deletion.Keys.{
  starts_with, list_prefix_of, Kept, sweep_manifests-keeps, sweep_listed-keeps,
}

-- The listing of a prefix has keys under it only.
abbrev pub IsUnder : Text → SweepIo → Type 0
IsUnder list_prefix io =
    (store : Store) (key : Text)
    → Memᴰ (located key) (io.list list_prefix store)
    → starts_with list_prefix key ≡ true

-- The objects of a store that deletions have left of `base`.
abbrev pub IsWithin : Store → Store → Type 0
IsWithin base store = (k : Text) → base k ≡ none → store k ≡ none

-- No call fails, and the listing of what is left of `base` has every object under the prefix.
pub record IsClean (list_prefix : Text) (base : Store) (io : SweepIo) : Type 0 where
  pub deletes : (key : Text) → io.deletes key ≡ done
  pub deletes_listed : (key : Text) → io.deletes_listed key ≡ done
  pub reads_pending : io.reads_pending ≡ true
  pub writes_pending : io.writes_pending ≡ finished
  pub unbroken : (store : Store) → ¬ Memᴰ list_error (io.list list_prefix store)
  pub complete :
      (store : Store)
      → IsWithin base store
      → (key : Text) → starts_with list_prefix key ≡ true
      → (store key ≡ none) ⊎ Memᴰ (located key) (io.list list_prefix store)

pub kept_outside :
    (list_prefix k : Text) (object : Option (List ℕ))
    → starts_with list_prefix k ≡ false
    → Kept list_prefix (λ store. store k ≡ object)
unfolding delete_lenient set_object
kept_outside list_prefix k object out w store key under h = elim (Bool-cases (eqb_text k key)) [
  | inl same ↦
      let z = sym (ap (starts_with list_prefix) (eqb_text_sound k key same)) ∙ out in
      absurd (ground (arith, z, under))
  | inr other ↦ ground (arith, other, h)
]

pub kept_none : (list_prefix k : Text) → Kept list_prefix (λ store. store k ≡ none)
unfolding delete_lenient set_object
kept_none list_prefix k w store key under h = ground (arith, h)

pub kept-IsWithin : (list_prefix : Text) (base : Store) → Kept list_prefix (IsWithin base)
kept-IsWithin list_prefix base w store key under h k e =
    kept_none list_prefix k w store key under (h k e)

module _ (to_vec : List PendingDelete → List ℕ) (from_str : List ℕ → Option (List PendingDelete))
    (from-to : (ps : List PendingDelete) → from_str (to_vec ps) ≡ some ps) (prefix : Text)
    (r : PendingDelete) where
  abbrev pub lp : Text
  lp = list_prefix_of prefix r

  abbrev pub sweep : SweepIo → Store → Files → Store × Files × Bool
  sweep io store files = sweep_deletion to_vec from_str io prefix r store files

  -- Tries in turn, whatever each of them answers.
  abbrev pub replay : List SweepIo → Store → Files → Store × Files
  replay [] store files = (store, files)
  replay (io ∷ ios) store files =
      let (store', files', ok) = sweep io store files in replay ios store' files'

  finish_sweep-keeps :
      (P : Store → Type 0) (swept listed : Bool) (before after : Store) (files : Files)
      (removal : Files × Bool)
      → P before
      → P after
      → P (finish_sweep swept listed before after files removal).0
  finish_sweep-keeps P false listed before after files removal b a = b
  finish_sweep-keeps P true false before after files removal b a = a
  finish_sweep-keeps P true true before after files removal b a = a

  pub sweep-keeps :
      (io : SweepIo) (P : Store → Type 0) (store : Store) (files : Files)
      → Kept lp P
      → IsUnder lp io
      → P store
      → P (sweep io store files).0
  unfolding sweep_deletion
  sweep-keeps io P store files kept under h =
      let swept = sweep_manifests io prefix r r.manifests_by_partition (fresh store) in
      let h' = sweep_manifests-keeps io prefix r P kept r.manifests_by_partition (fresh store) h in
      let listing = io.list lp swept.0.store in
      let h'' =
        sweep_listed-keeps io prefix r P kept listing swept.0.store (under swept.0.store) h' in
      finish_sweep-keeps P swept.1 (sweep_listed io prefix listing swept.0.store).1 swept.0.store
        (sweep_listed io prefix listing swept.0.store).0 files
        (remove to_vec from_str io.reads_pending io.writes_pending r.uuid files) h' h''

  pub replay-keeps :
      (ios : List SweepIo) (P : Store → Type 0) (store : Store) (files : Files)
      → Kept lp P
      → All (IsUnder lp) ios
      → P store
      → P (replay ios store files).0
  replay-keeps [] P store files kept under h = h
  replay-keeps (io ∷ ios) P store files kept under h =
      let after = sweep io store files in
      replay-keeps ios P after.0 after.1 kept under.1 (sweep-keeps io P store files kept under.0 h)

  -- A list that the file of pending deletions has.
  abbrev pub Readable : Files → Type 0
  Readable files = (ps : List PendingDelete) × Holds to_vec from_str from-to files ps

  finish_sweep-Readable :
      (swept listed : Bool) (before after : Store) (files : Files) (removal : Files × Bool)
      → Readable files
      → Readable removal.0
      → Readable (finish_sweep swept listed before after files removal).1
  finish_sweep-Readable false listed before after files removal b a = b
  finish_sweep-Readable true false before after files removal b a = b
  finish_sweep-Readable true true before after files removal b a = a

  sweep-Readable :
      (io : SweepIo) (store : Store) (files : Files)
      → Readable files
      → Readable (sweep io store files).1
  unfolding sweep_deletion
  sweep-Readable io store files (ps, h) =
      let swept = sweep_manifests io prefix r r.manifests_by_partition (fresh store) in
      let listed = sweep_listed io prefix (io.list lp swept.0.store) swept.0.store in
      let removal = remove to_vec from_str io.reads_pending io.writes_pending r.uuid files in
      finish_sweep-Readable swept.1 listed.1 swept.0.store listed.0 files removal (ps, h)
        (
          _,
          exec-Holds to_vec from_str from-to io.reads_pending io.writes_pending (removing r.uuid) ps
              files h,
        )

  pub replay-Readable :
      (ios : List SweepIo) (store : Store) (files : Files)
      → Readable files
      → Readable (replay ios store files).1
  replay-Readable [] store files h = h
  replay-Readable (io ∷ ios) store files h =
      let after = sweep io store files in
      replay-Readable ios after.0 after.1 (sweep-Readable io store files h)
