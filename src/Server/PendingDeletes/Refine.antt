-- ===== src/Server/PendingDeletes/Refine.antt =====
-- The file of pending deletions as a list that each operation changes at once or not at all.
use kafkrs.Prelude.{
  ℕ, Option-cases, ◌≡◌, ◌⊎◌, inl, inr, Bool, true, false, not, Option, none, some, List, [], ◌∷◌,
  ◌++◌, filter, arith,
}
use kafkrs.Models.Manifest.{Text}
use kafkrs.Server.ObjectStore.{eqb_text}
use kafkrs.Server.PendingDeletes.{
  PendingDelete, Files, Stage, at_create, at_write, at_fsync, at_rename, finished, load_all,
  write_all, rewrite, append, remove,
}

pub data PendingOp : Type 0 where
  appending : PendingDelete → PendingOp
  removing : Text → PendingOp

-- What an operation is to do with the list.
abbrev pub change_of : PendingOp → List PendingDelete → List PendingDelete
change_of (appending r) ps = ps ++ r ∷ []
change_of (removing uuid) ps = filter (λ r. not (eqb_text r.uuid uuid)) ps

-- The list after a change of an operation that answered `Ok`, or did not.
abbrev pub settled : Bool → List PendingDelete → List PendingDelete → List PendingDelete
settled true new old = new
settled false new old = old

module _ (to_vec : List PendingDelete → List ℕ) (from_str : List ℕ → Option (List PendingDelete))
    (from-to : (ps : List PendingDelete) → from_str (to_vec ps) ≡ some ps) where
  abbrev pub exec : Bool → Stage → PendingOp → Files → Files × Bool
  exec reads stage (appending r) files = append to_vec from_str reads stage r files
  exec reads stage (removing uuid) files = remove to_vec from_str reads stage uuid files

  -- The operations in turn, with the list that those that answered `Ok` make.
  abbrev pub exec_all :
      List (Bool × Stage × PendingOp) → Files × List PendingDelete → Files × List PendingDelete
  exec_all [] s = s
  exec_all ((reads, stage, op) ∷ ops) (files, ps) =
      let (files', ok) = exec reads stage op files in
      exec_all ops (files', settled ok (change_of op ps) ps)

  abbrev pub Holds : Files → List PendingDelete → Type 0
  Holds files ps = load_all to_vec from_str true files ≡ some ps

  write_all-Holds :
      (stage : Stage) (ps qs : List PendingDelete) (files : Files)
      → Holds files ps
      → Holds
          (write_all to_vec from_str stage qs files).0
          (settled (write_all to_vec from_str stage qs files).1 qs ps)
  unfolding write_all load_all
  write_all-Holds at_create ps qs files h = h
  write_all-Holds (at_write n) ps qs files h = h
  write_all-Holds at_fsync ps qs files h = h
  write_all-Holds at_rename ps qs files h = h
  write_all-Holds finished ps qs files h = from-to qs

  load_all-answers :
      (reads : Bool) (files : Files) (ps : List PendingDelete)
      → Holds files ps
      → (load_all to_vec from_str reads files ≡ none)
        ⊎ (load_all to_vec from_str reads files ≡ some ps)
  unfolding load_all
  load_all-answers true files ps h = inr h
  load_all-answers false files ps h = elim (Option-cases files.target) [
    | inl absent ↦ inr (ground (arith, absent, h))
    | inr (raw, present) ↦ inl (ground (arith, present))
  ]

  rewrite-Holds :
      (reads : Bool) (stage : Stage) (change : List PendingDelete → List PendingDelete)
      (ps : List PendingDelete) (files : Files)
      → Holds files ps
      → let after =
          rewrite to_vec from_str stage change (load_all to_vec from_str reads files) files in
        Holds after.0 (settled after.1 (change ps) ps)
  rewrite-Holds reads stage change ps files h = elim (load_all-answers reads files ps h) [
    | inl unread ↦ rw unread h
    | inr loaded ↦ rw loaded (write_all-Holds stage ps (change ps) files h)
  ]

  pub exec-Holds :
      (reads : Bool) (stage : Stage) (op : PendingOp) (ps : List PendingDelete) (files : Files)
      → Holds files ps
      → let after = exec reads stage op files in
        Holds after.0 (settled after.1 (change_of op ps) ps)
  unfolding append remove
  exec-Holds reads stage (appending r) ps files h =
      rewrite-Holds reads stage (change_of (appending r)) ps files h
  exec-Holds reads stage (removing uuid) ps files h =
      rewrite-Holds reads stage (change_of (removing uuid)) ps files h

  -- Whatever operations run, and wherever each of them fails, the file stays readable, and it has
  -- the list that the operations which answered `Ok` make, in their order, and no others. The JSON
  -- reader is taken to read what the writer wrote.
  pub exec_all-Holds :
      (ops : List (Bool × Stage × PendingOp)) (files : Files) (ps : List PendingDelete)
      → Holds files ps
      → Holds (exec_all ops (files, ps)).0 (exec_all ops (files, ps)).1
  exec_all-Holds [] files ps h = h
  exec_all-Holds ((reads, stage, op) ∷ ops) files ps h =
      let after = exec reads stage op files in
      exec_all-Holds ops after.0 (settled after.1 (change_of op ps) ps)
        (exec-Holds reads stage op ps files h)
