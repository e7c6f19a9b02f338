-- ===== src/Server/Wire/TopicAdmin/Keep.antt =====
-- Each handler of a topic's life keeps the partitions that are up those of the known topics.
use kafkrs.Prelude.{
  ℕ, ◌<◌, ◌≡◌, inl, inr, Bool, true, false, not, Option, some, List, ◌++◌, map, filter, arith,
  if◌then◌else◌, All, All-mono, All-zip, Bool-cases, subst, sym, ap, ◌∙◌,
}
use kafkrs.Models.Config.{DiskType}
use kafkrs.Models.Manifest.{Text, Manifest}
use kafkrs.Models.Topic.{TopicEntry, resolve, unwrap_or}
use kafkrs.Server.ObjectStore.{eqb_text, eqb_text_refl, eqb_text_sound}
use kafkrs.Server.PendingDeletes.{PendingDelete, append}
use kafkrs.Server.TopicRegistry
use kafkrs.Server.TopicRegistry.{
  Registry, RegistryIo, Reply, ok, err, find, contains_key, remove_topic, insert_topic, create,
  alter,
}
use kafkrs.Server.TopicRegistry.Find.{find-remove}
use kafkrs.Server.TopicRegistry.Replies.{Created, create-Created, Deleted, delete-Deleted}
use kafkrs.Server.Partitions.{Key, PartitionHandle, Partitions}
use kafkrs.Server.Partitions.Entries.{
  spawn_range-All, Avoids, take_handles-All, take_handles-Avoids,
}
use kafkrs.Server.Wire.TopicAdmin.Served.{
  Backed, IsServed, Backed-alike, Alike-IsServed, inserted-Backed, new-Backed,
}
use kafkrs.Server.Wire.Command.{CreateTopicRequest, DeleteTopicRequest}
use kafkrs.Server.Wire.TopicAdmin.{
  SharedState, AdminIo, Answer, entry_of, created, handle_create_topic, take_handles, shut_down,
}
use kafkrs.Server.Wire.DeleteTopic.{
  delete_data_of, persisted, snapshot_manifests, deleted, handle_delete_topic,
}

pub if-IsServed :
    (b : Bool) (x y : Answer) → IsServed x.0 → IsServed y.0 → IsServed (if b then x else y).0
if-IsServed true x y h k = h
if-IsServed false x y h k = k

pub created-IsServed :
    (io : AdminIo) (cid : ℕ) (entry : TopicEntry) (r' : Registry) (reply : Reply Text)
    (s : SharedState)
    → Created entry s.registry (r', reply)
    → IsServed s
    → IsServed
        (created io cid entry.name entry.partition_count
          (resolve entry.config s.disk_type)
          reply
          (record s { registry = r' })).0
created-IsServed io cid entry r' reply s (inl (e, failed, same)) h = rw failed (rw same h)
created-IsServed io cid entry r' reply s (inr (made, topics, new)) h = rw made (
    rw topics (
      spawn_range-All (Backed s.disk_type (insert_topic entry s.registry.topics)) io.spawn_io
        entry.name entry.uuid (resolve entry.config s.disk_type) 0 entry.partition_count
        s.partitions
        (λ q k ge lt n. new-Backed s.disk_type entry s.registry.topics q k (omega arith) n)
        (All-mono (Backed s.disk_type s.registry.topics)
          (Backed s.disk_type (insert_topic entry s.registry.topics)) s.partitions
          (λ x b. inserted-Backed s.disk_type entry s.registry.topics x new b) h)))

pub handle_create_topic-IsServed :
    (io : AdminIo) (cid : ℕ) (req : CreateTopicRequest) (s : SharedState)
    → IsServed s
    → IsServed (handle_create_topic io cid req s).0
unfolding handle_create_topic
handle_create_topic-IsServed io cid req s h =
    let after = create io.registry_io (entry_of io req) s.registry in
    if-IsServed io.answers _ _
      (created-IsServed io cid (entry_of io req) after.0 after.1 s
        (create-Created io.registry_io (entry_of io req) s.registry) h)
      h

-- The partitions that are left behind a deletion.
removed-Backed :
    (disk : DiskType) (name : Text) (entry : TopicEntry) (topics : List TopicEntry)
    (x : Key × PartitionHandle)
    → find name topics ≡ some entry
    → Avoids name 0 entry.partition_count x
    → Backed disk topics x
    → Backed disk (remove_topic name topics) x
removed-Backed disk name entry topics x known avoids b = elim (Bool-cases (eqb_text name x.0.0)) [
  | inl same ↦
      let z = eqb_text_sound name x.0.0 same in
      let w : entry ≡ b.0 = ground (arith, sym known ∙ ap (λ n. find n topics) z ∙ b.1) in
      let own = subst (λ n. eqb_text x.0.0 n ≡ true) (sym z) (eqb_text_refl x.0.0) in
      let lt = subst (λ e. x.0.1 < e.partition_count) (sym w) b.2 in
      absurd (ground (arith, avoids own, lt))
  | inr other ↦
      Backed-alike disk topics (remove_topic name topics) x (find-remove x.0.0 name topics other) b
]

persisted-IsServed :
    (cid : ℕ) (r : PendingDelete) (ok : Bool) (s : SharedState)
    → IsServed s
    → IsServed (persisted cid r ok s).0
persisted-IsServed cid r true s h = h
persisted-IsServed cid r false s h = h

quiet-Backed :
    (disk : DiskType) (name : Text) (entry : TopicEntry) (topics : List TopicEntry)
    (ps : Partitions)
    → find name topics ≡ some entry
    → All (Backed disk topics) ps
    → All (Backed disk (remove_topic name topics)) (take_handles name 0 entry.partition_count ps).1
quiet-Backed disk name entry topics ps known h =
    let count = entry.partition_count in
    All-zip (Avoids name 0 count) (Backed disk topics) (Backed disk (remove_topic name topics))
      (take_handles name 0 count ps).1 (λ x a b. removed-Backed disk name entry topics x known a b)
      (take_handles-Avoids name 0 count ps)
      (take_handles-All (Backed disk topics) name 0 count ps h)

module _ (to_vec : List PendingDelete → List ℕ) (from_str : List ℕ → Option (List PendingDelete))
    (from_slice : List ℕ → Option Manifest) where
  -- Deleting a topic's data touches neither the registry nor the partitions.
  delete_data_of-IsServed :
      (io : AdminIo) (cid : ℕ) (topic uuid : Text) (count : ℕ) (s : SharedState)
      → IsServed s
      → IsServed (delete_data_of to_vec from_str from_slice io cid topic uuid count s).0
  unfolding delete_data_of
  delete_data_of-IsServed io cid topic uuid count s h =
      let snapshot =
        snapshot_manifests to_vec from_str from_slice io.gets s.store s.prefix topic uuid 0 count in
      let r : PendingDelete = record {
        topic = topic;
        uuid = uuid;
        manifests_by_partition = snapshot;
        created_ns = io.now;
      } in
      let written = append to_vec from_str io.reads_pending io.writes_pending r s.pending in
      let dirs =
        if io.removes_wal then filter (λ t. not (eqb_text t topic)) s.wal_dirs else s.wal_dirs in
      persisted-IsServed cid r written.1 (record s { wal_dirs = dirs; pending = written.0 }) h

  deleted-IsServed :
      (io : AdminIo) (cid : ℕ) (topic : Text) (delete_data : Bool) (r' : Registry)
      (reply : Reply (Text × ℕ)) (s : SharedState)
      → Deleted topic s.registry (r', reply)
      → IsServed s
      → IsServed
          (deleted to_vec from_str from_slice io cid topic delete_data reply
            (record s { registry = r' })).0
  deleted-IsServed io cid topic delete_data r' reply s (inl (e, failed, alike)) h =
      rw failed (Alike-IsServed s.disk_type s.registry r' s.partitions alike h)
  deleted-IsServed io cid topic false r' reply s (inr (entry, known, done, topics)) h =
      rw done
        (rw topics (quiet-Backed s.disk_type topic entry s.registry.topics s.partitions known h))
  deleted-IsServed io cid topic true r' reply s (inr (entry, known, done, topics)) h =
      let (handles, rest) = take_handles topic 0 entry.partition_count s.partitions in
      let quiet = record s {
        registry = r';
        partitions = rest;
        closed = s.closed ++ map shut_down handles;
      } in
      let kept : IsServed quiet =
        rw topics (quiet-Backed s.disk_type topic entry s.registry.topics s.partitions known h) in
      rw done (delete_data_of-IsServed io cid topic entry.uuid entry.partition_count quiet kept)

  pub handle_delete_topic-IsServed :
      (io : AdminIo) (cid : ℕ) (req : DeleteTopicRequest) (s : SharedState)
      → IsServed s
      → IsServed (handle_delete_topic to_vec from_str from_slice io cid req s).0
  unfolding handle_delete_topic
  handle_delete_topic-IsServed io cid req s h =
      let after = TopicRegistry.delete io.registry_io req.topic s.registry in
      let told = delete-Deleted io.registry_io req.topic s.registry in
      if-IsServed io.answers _ _
        (deleted-IsServed io cid req.topic (unwrap_or req.delete_data true) after.0 after.1 s told
          h)
        h
