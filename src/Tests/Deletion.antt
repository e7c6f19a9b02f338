-- ===== src/Tests/Deletion.antt =====
-- The theorems on pending deletions and their sweep, at concrete values.
use mathlib.Core.List.Memᴰ
use kafkrs.Prelude.{
  ◌≡◌, refl, inl, inr, true, Bool, none, some, List, [], ◌∷◌, Memᴰ, ap, if◌then◌else◌, Bool-cases,
  arith, subst, sym,
}
use kafkrs.Prelude.Int.{pos}
use kafkrs.Models.Manifest.{Text}
use kafkrs.Server.ObjectStore.{Store, done, refused, manifest_key, eqb_text, eqb_text_sound}
use kafkrs.Server.PendingDeletes.{PendingDelete, Files, Stage, at_write, finished, load_all}
use kafkrs.Server.PendingDeletes.Refine.{
  PendingOp, appending, removing, Holds, exec_all, exec_all-Holds,
}
use kafkrs.Server.Deletion.{
  SweepIo, located, list_error, sweep_deletion, sweep_manifests, sweep_listed,
}
use kafkrs.Server.Deletion.Keys.{starts_with, list_prefix_of, keys-starts_with}
use kafkrs.Server.Deletion.Replay.{IsUnder, IsClean, sweep, replay}
use kafkrs.Server.Deletion.Clean.{without, replay-clears}
use kafkrs.Server.Deletion.Orphans.{failed_sweep-target}
use kafkrs.Tests.PendingCodec.{to_vec, from_str, from-to}

abbrev gone_topic : PendingDelete
gone_topic = record {
  topic = 116 ∷ [];
  uuid = 117 ∷ [];
  manifests_by_partition = [];
  created_ns = pos 0;
}

abbrev no_files : Files
no_files = record { target = none; tmp = none }

-- An append that breaks off inside its write, one that succeeds, and a removal that succeeds.
abbrev pending_ops : List (Bool × Stage × PendingOp)
pending_ops =
    (true, at_write 1, appending gone_topic)
    ∷ (true, finished, appending gone_topic)
    ∷ (true, finished, removing (117 ∷ []))
    ∷ []

no_files-Holds : Holds to_vec from_str from-to no_files []
unfolding load_all
no_files-Holds = refl

exec_all-Holds_example :
    Holds to_vec from_str from-to
      (exec_all to_vec from_str from-to pending_ops (no_files, [])).0
      (exec_all to_vec from_str from-to pending_ops (no_files, [])).1
exec_all-Holds_example =
    exec_all-Holds to_vec from_str from-to pending_ops no_files [] no_files-Holds

-- One object under the prefix, and the listing that finds it.
abbrev orphan : Text
orphan = manifest_key [] (116 ∷ []) (117 ∷ []) 3

abbrev with_orphan : Store
with_orphan k = if eqb_text k orphan then some [] else none

abbrev refusing : SweepIo
refusing = record {
  deletes = λ k. done;
  deletes_listed = λ k. refused;
  reads_pending = true;
  writes_pending = finished;
  list = λ prefix store. located orphan ∷ [];
}

abbrev breaking : SweepIo
breaking = record refusing { list = λ prefix store. list_error ∷ [] }

failed_sweep-target_example :
    (sweep_deletion to_vec from_str breaking [] gone_topic with_orphan no_files).1.target ≡ none
unfolding sweep_deletion sweep_manifests sweep_listed
failed_sweep-target_example =
    failed_sweep-target to_vec from_str breaking [] gone_topic with_orphan no_files refl

located_key : (k key : Text) → located k ≡ located key → k ≡ key
located_key k key e = ground (arith, e)

only_orphan : (store : Store) (list_prefix : Text) → ¬ Memᴰ list_error (located orphan ∷ [])
only_orphan store list_prefix (Memᴰ.head e) = absurd (ground (arith, e))
only_orphan store list_prefix (Memᴰ.tail m) = Memᴰ.not-nil m

abbrev answering : SweepIo
answering = record refusing { deletes_listed = λ k. done }

abbrev under_prefix : Text
under_prefix = list_prefix_of [] gone_topic

orphan-IsUnder : IsUnder under_prefix refusing
unfolding manifest_key
orphan-IsUnder store key (Memᴰ.head e) =
    subst (λ k. starts_with under_prefix k ≡ true) (sym (located_key key orphan e))
      (keys-starts_with [] (116 ∷ []) (117 ∷ []) 3 (pos 0)).1
orphan-IsUnder store key (Memᴰ.tail m) = absurd (Memᴰ.not-nil m)

answering-IsClean : IsClean under_prefix with_orphan answering
answering-IsClean = record {
  deletes = λ k. refl;
  deletes_listed = λ k. refl;
  reads_pending = refl;
  writes_pending = refl;
  unbroken = λ store. only_orphan store [];
  complete = λ store within key h. elim (Bool-cases (eqb_text key orphan)) [
    | inl same ↦ inr (Memᴰ.head (ap located (eqb_text_sound key orphan same)))
    | inr other ↦ inl (within key (rw other refl))
  ];
}

-- A try that fails, then one that succeeds.
replay-clears_example :
    let tried = replay to_vec from_str from-to [] gone_topic (refusing ∷ []) with_orphan no_files in
    let last = sweep to_vec from_str from-to [] gone_topic answering tried.0 tried.1 in
    (last.2 ≡ true)
    × ((k : Text) → last.0 k ≡ (if starts_with under_prefix k then none else with_orphan k))
    × ((ps : List PendingDelete) × Holds to_vec from_str from-to last.1 (without (117 ∷ []) ps))
replay-clears_example =
    replay-clears to_vec from_str from-to [] gone_topic (refusing ∷ []) answering with_orphan
      no_files (orphan-IsUnder, tt) orphan-IsUnder answering-IsClean ([], no_files-Holds)
