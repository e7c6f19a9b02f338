-- ===== src/Server/Wire/TopicAdmin/Configure.antt =====
-- The handler of `AlterTopicConfig` keeps the partitions that are up those of the known topics.
use kafkrs.Prelude.{
  ℕ, ◌<◌, ◌≡◌, refl, inl, inr, true, false, some, List, [], ◌∷◌, ◌++◌, arith, All-map, Bool-cases,
  subst, sym, ap, ◌∙◌,
}
use kafkrs.Models.Config.{DiskType}
use kafkrs.Models.Manifest.{Text}
use kafkrs.Models.Topic.{TopicConfigOverrides, TopicEntry, ResolvedTopicConfig, resolve}
use kafkrs.Server.ObjectStore.{eqb_text, eqb_text_refl, eqb_text_sound}
use kafkrs.Server.TopicRegistry.{Registry, Reply, find, insert_topic, alter}
use kafkrs.Server.TopicRegistry.Find.{find-insert, find_name}
use kafkrs.Server.TopicRegistry.Replies.{Altered, alter-Altered}
use kafkrs.Server.Partitions.{update_config, Key, PartitionHandle}
use kafkrs.Server.Partitions.Entries.{config_behind-sent}
use kafkrs.Server.Wire.TopicAdmin.Keep.{if-IsServed}
use kafkrs.Server.Wire.TopicAdmin.Served.{Backed, IsServed, Backed-alike, Alike-IsServed}
use kafkrs.Server.Wire.Command.{AlterTopicConfigRequest}
use kafkrs.Server.Wire.TopicAdmin.{
  SharedState, AdminIo, overrides_of, configure, altered, handle_alter_topic_config,
}

-- The handle of the topic with the new config, and a handle of another topic.
abbrev reconfigured : ResolvedTopicConfig → Key × PartitionHandle → Key × PartitionHandle
reconfigured cfg x = (
  x.0,
  record x.1 {
    cfg = cfg;
    to_writer = x.1.to_writer ++ update_config cfg ∷ [];
    to_uploader = x.1.to_uploader ++ update_config cfg ∷ [];
  },
)

configure-own :
    (name : Text) (cfg : ResolvedTopicConfig) (x : Key × PartitionHandle)
    → eqb_text x.0.0 name ≡ true
    → reconfigured cfg x ≡ configure name cfg x
configure-own name cfg (key, h) own = simp own refl

configure-other :
    (name : Text) (cfg : ResolvedTopicConfig) (x : Key × PartitionHandle)
    → eqb_text name x.0.0 ≡ false
    → x ≡ configure name cfg x
configure-other name cfg (key, h) other = elim (Bool-cases (eqb_text key.0 name)) [
  | inr k ↦ simp k refl
  | inl k ↦
      let z =
        subst (λ n. eqb_text n key.0 ≡ true) (eqb_text_sound key.0 name k) (eqb_text_refl key.0) in
      absurd (ground (arith, z, other))
]

-- A config that is changed in the registry and in every handle of the topic.
configured-Backed :
    (disk : DiskType) (name : Text) (entry : TopicEntry) (merged : TopicConfigOverrides)
    (topics : List TopicEntry) (x : Key × PartitionHandle)
    → entry.name ≡ name
    → find name topics ≡ some entry
    → Backed disk topics x
    → Backed disk
        (insert_topic (record entry { config = merged }) topics)
        (configure name (resolve merged disk) x)
configured-Backed disk name entry merged topics x named known b =
    let new : TopicEntry = record entry { config = merged } in
    let found = find-insert x.0.0 new topics in
    elim (Bool-cases (eqb_text name x.0.0)) [
      | inl same ↦
          let z = eqb_text_sound name x.0.0 same in
          let w : entry ≡ b.0 = ground (arith, sym known ∙ ap (λ n. find n topics) z ∙ b.1) in
          let own : eqb_text x.0.0 name ≡ true =
            subst (λ n. eqb_text n name ≡ true) z (eqb_text_refl name) in
          let hit : eqb_text entry.name x.0.0 ≡ true =
            subst (λ n. eqb_text n x.0.0 ≡ true) (sym named) same in
          let lt = subst (λ e. x.0.1 < e.partition_count) (sym w) b.2 in
          let id = b.3 ∙ ap (λ e. e.uuid) (sym w) in
          subst (Backed disk (insert_topic new topics))
            (configure-own name (resolve merged disk) x own)
            (
              new,
              found ∙ simp hit refl,
              lt,
              id,
              (
                refl,
                config_behind-sent x.1.started_with (resolve merged disk) x.1.to_writer,
                config_behind-sent x.1.started_with (resolve merged disk) x.1.to_uploader,
              ),
            )
      | inr other ↦
          let miss : eqb_text entry.name x.0.0 ≡ false =
            subst (λ n. eqb_text n x.0.0 ≡ false) (sym named) other in
          subst (Backed disk (insert_topic new topics))
            (configure-other name (resolve merged disk) x other)
            (Backed-alike disk topics (insert_topic new topics) x (found ∙ simp miss refl) b)
    ]

altered-IsServed :
    (cid : ℕ) (topic : Text) (r' : Registry) (reply : Reply TopicConfigOverrides) (s : SharedState)
    → Altered topic s.registry (r', reply)
    → IsServed s
    → IsServed (altered cid topic reply (record s { registry = r' })).0
altered-IsServed cid topic r' reply s (inl (e, failed, alike)) h =
    rw failed (Alike-IsServed s.disk_type s.registry r' s.partitions alike h)
altered-IsServed cid topic r' reply s (inr (entry, merged, known, done, topics)) h =
    let named = find_name topic s.registry.topics entry known in
    rw done (
      rw topics (
        All-map (Backed s.disk_type s.registry.topics) _
          (configure topic (resolve merged s.disk_type)) s.partitions
          (λ x b.
            configured-Backed s.disk_type topic entry merged s.registry.topics x named known b)
          h))

pub handle_alter_topic_config-IsServed :
    (io : AdminIo) (cid : ℕ) (req : AlterTopicConfigRequest) (s : SharedState)
    → IsServed s
    → IsServed (handle_alter_topic_config io cid req s).0
unfolding handle_alter_topic_config
handle_alter_topic_config-IsServed io cid req s h =
    let after = alter io.registry_io req.topic (overrides_of req.overrides) s.registry in
    if-IsServed io.answers _ _
      (altered-IsServed cid req.topic after.0 after.1 s
        (alter-Altered io.registry_io req.topic (overrides_of req.overrides) s.registry) h)
      h
