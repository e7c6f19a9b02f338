-- ===== src/Server/PendingDeletes.antt =====
-- kafkrs-server/src/pending_deletes.rs: the durable list of pending deletions.
-- The JSON writer and reader of the file are parameters. The lock of the file makes each operation
-- one step. A rewrite stops at the stage that its argument names.
pub mod Refine
use kafkrs.Prelude.{
  ℕ, Bool, true, false, not, Option, none, some, List, [], ◌∷◌, ◌++◌, filter, take,
}
use kafkrs.Prelude.Int.{ℤ}
use kafkrs.Models.Manifest.{Text, Manifest}
use kafkrs.Server.ObjectStore.{eqb_text}

pub record PendingDelete : Type 0 where
  pub topic : Text
  pub uuid : Text
  pub manifests_by_partition : List (ℕ × Manifest)
  pub created_ns : ℤ

-- `pending_deletes.json` and `pending_deletes.json.tmp`, where they exist.
pub record Files : Type 0 where
  pub target : Option (List ℕ)
  pub tmp : Option (List ℕ)

-- Where a rewrite fails: before the write of the temporary file, inside it, at its fsync, at the
-- rename, or nowhere.
pub data Stage : Type 0 where
  at_create : Stage
  at_write : ℕ → Stage
  at_fsync at_rename finished : Stage

module _ (to_vec : List PendingDelete → List ℕ)
    (from_str : List ℕ → Option (List PendingDelete)) where
  -- `none` is an error.
  unfoldable pub load_all : Bool → Files → Option (List PendingDelete)
  load_all reads files = elim files.target [
    | none ↦ some []
    | some raw ↦ elim reads [ true ↦ from_str raw | false ↦ none ]
  ]

  unfoldable pub write_all : Stage → List PendingDelete → Files → Files × Bool
  write_all at_create pending files = (files, false)
  write_all (at_write n) pending files =
      (record files { tmp = some (take n (to_vec pending)) }, false)
  write_all at_fsync pending files = (record files { tmp = some (to_vec pending) }, false)
  write_all at_rename pending files = (record files { tmp = some (to_vec pending) }, false)
  write_all finished pending files = (record { target = some (to_vec pending); tmp = none }, true)

  -- What `append` and `remove` do with the list that they loaded.
  abbrev pub rewrite :
      Stage
      → (List PendingDelete → List PendingDelete)
      → Option (List PendingDelete)
      → Files
      → Files × Bool
  rewrite stage change none files = (files, false)
  rewrite stage change (some current) files = write_all stage (change current) files

  unfoldable pub append : Bool → Stage → PendingDelete → Files → Files × Bool
  append reads stage r files =
      rewrite stage (λ current. current ++ r ∷ []) (load_all reads files) files

  unfoldable pub remove : Bool → Stage → Text → Files → Files × Bool
  remove reads stage topic_uuid files =
      rewrite stage (filter (λ r. not (eqb_text r.uuid topic_uuid))) (load_all reads files) files
