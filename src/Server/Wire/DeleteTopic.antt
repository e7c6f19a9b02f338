-- ===== src/Server/Wire/DeleteTopic.antt =====
-- kafkrs-server/src/wire/dispatch/topic_admin.rs: the handler of `DeleteTopic`.
-- The waits for the acks of the actors have no effect on the state; the sweep that is spawned at the
-- end is put into `sweeps`.
use kafkrs.Prelude.{
  ℕ, zero, suc, Bool, true, false, not, Option, none, some, List, [], ◌∷◌, ◌++◌, map, if◌then◌else◌,
  filter,
}
use kafkrs.Models.Manifest.{Text, Manifest, empty}
use kafkrs.Models.Topic.{unwrap_or}
use kafkrs.Server.ObjectStore.{Store, get, manifest_key, eqb_text}
use kafkrs.Server.PendingDeletes.{PendingDelete, append}
use kafkrs.Server.TopicRegistry
use kafkrs.Server.TopicRegistry.{Reply}
use kafkrs.Server.Wire.Command.{
  Body, DeleteTopicRequest, err_broker_not_ready, err_internal, bare, error_frame,
}
use kafkrs.Server.Wire.Errors.{registry_error_code}
use kafkrs.Server.Wire.TopicAdmin.{SharedState, AdminIo, Answer, take_handles, shut_down}

-- The answer by whether the pending deletion was written, and the sweep that is spawned.
abbrev pub persisted : ℕ → PendingDelete → Bool → SharedState → Answer
persisted cid r true s =
    (record s { sweeps = s.sweeps ++ r ∷ [] }, some (bare cid Body.delete_topic_resp))
persisted cid r false s = (s, some (error_frame cid err_internal))

module _ (to_vec : List PendingDelete → List ℕ) (from_str : List ℕ → Option (List PendingDelete))
    (from_slice : List ℕ → Option Manifest) where
  -- One manifest of the snapshot: an unreadable one is left out, and a missing one is empty.
  abbrev pub add_manifest : Text → ℕ → Option (List ℕ) → List (ℕ × Manifest) → List (ℕ × Manifest)
  add_manifest topic p none rest = (p, empty topic p) ∷ rest
  add_manifest topic p (some bytes) rest = elim (from_slice bytes) [
    | none ↦ rest
    | some m ↦ (p, m) ∷ rest
  ]

  -- The loop `for p in 0..partition_count`, from `p` on.
  unfoldable pub snapshot_manifests :
      (ℕ → Bool) → Store → Text → Text → Text → ℕ → ℕ → List (ℕ × Manifest)
  snapshot_manifests gets store prefix topic topic_uuid p zero = []
  snapshot_manifests gets store prefix topic topic_uuid p (suc n) =
      add_manifest topic p (get (gets p) store (manifest_key prefix topic topic_uuid p))
        (snapshot_manifests gets store prefix topic topic_uuid (suc p) n)

  -- What follows when the topic's data is to be deleted.
  unfoldable pub delete_data_of : AdminIo → ℕ → Text → Text → ℕ → SharedState → Answer
  delete_data_of io cid topic topic_uuid count s =
      let pending_delete : PendingDelete = record {
        topic = topic;
        uuid = topic_uuid;
        manifests_by_partition =
            snapshot_manifests io.gets s.store s.prefix topic topic_uuid 0 count;
        created_ns = io.now;
      } in
      let (pending, ok) =
        append to_vec from_str io.reads_pending io.writes_pending pending_delete s.pending in
      let dirs = filter (λ t. not (eqb_text t topic)) s.wal_dirs in
      let after = record s {
        wal_dirs = if io.removes_wal then dirs else s.wal_dirs;
        pending = pending;
      } in
      persisted cid pending_delete ok after

  abbrev pub deleted : AdminIo → ℕ → Text → Bool → Reply (Text × ℕ) → SharedState → Answer
  deleted io cid topic delete_data (Reply.err e) s =
      (s, some (error_frame cid (registry_error_code e)))
  deleted io cid topic delete_data (Reply.ok (uuid, count)) s =
      let (handles, rest) = take_handles topic 0 count s.partitions in
      let quiet = record s { partitions = rest; closed = s.closed ++ map shut_down handles } in
      if delete_data
      then delete_data_of io cid topic uuid count quiet
      else (quiet, some (bare cid Body.delete_topic_resp))

  unfoldable pub handle_delete_topic : AdminIo → ℕ → DeleteTopicRequest → SharedState → Answer
  handle_delete_topic io cid req s =
      let (registry, reply) = TopicRegistry.delete io.registry_io req.topic s.registry in
      let after = record s { registry = registry } in
      if io.answers
      then deleted io cid req.topic (unwrap_or req.delete_data true) reply after
      else (s, some (error_frame cid err_broker_not_ready))
