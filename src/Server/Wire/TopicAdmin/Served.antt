-- ===== src/Server/Wire/TopicAdmin/Served.antt =====
-- The partitions that are up are those of the topics that the registry has.
use kafkrs.Prelude.{
  ℕ, ◌<◌, ◌≡◌, refl, inl, inr, false, none, some, List, [], ◌∷◌, arith, any, All, All-mono,
  Bool-cases, sym, ap, ◌∙◌,
}
use kafkrs.Models.Config.{DiskType}
use kafkrs.Models.Manifest.{Text}
use kafkrs.Models.Topic.{TopicEntry, resolve}
use kafkrs.Server.ObjectStore.{eqb_text, eqb_text_refl, eqb_text_sound}
use kafkrs.Server.TopicRegistry.{Registry, find, contains_key, insert_topic}
use kafkrs.Server.TopicRegistry.Find.{find-insert}
use kafkrs.Server.TopicRegistry.Replies.{Alike}
use kafkrs.Server.Partitions.{Key, PartitionHandle, Partitions}
use kafkrs.Server.Partitions.Entries.{IsSetTo, IsNew}
use kafkrs.Server.Wire.TopicAdmin.{SharedState}

-- The entry is of a partition of a topic that the registry has, of this incarnation of it, and with
-- its config, in the handle and in both actors behind the messages that they were sent.
abbrev pub Backed : DiskType → List TopicEntry → Key × PartitionHandle → Type 0
Backed disk topics x =
    (e : TopicEntry) × (find x.0.0 topics ≡ some e)
    × (x.0.1 < e.partition_count)
    × (x.1.uuid ≡ e.uuid)
    × IsSetTo (resolve e.config disk) x.1

abbrev pub IsServed : SharedState → Type 0
IsServed s = All (Backed s.disk_type s.registry.topics) s.partitions

pub Backed-alike :
    (disk : DiskType) (topics topics' : List TopicEntry) (x : Key × PartitionHandle)
    → find x.0.0 topics' ≡ find x.0.0 topics
    → Backed disk topics x
    → Backed disk topics' x
Backed-alike disk topics topics' x same (e, found, lt, u, c) = (e, same ∙ found, lt, u, c)

-- A registry whose lookups are as before serves the same partitions.
pub Alike-IsServed :
    (disk : DiskType) (r r' : Registry) (ps : Partitions)
    → Alike r r'
    → All (Backed disk r.topics) ps
    → All (Backed disk r'.topics) ps
Alike-IsServed disk r r' ps alike h =
    All-mono (Backed disk r.topics) (Backed disk r'.topics) ps
      (λ x b. Backed-alike disk r.topics r'.topics x (alike x.0.0) b) h

find-new : (name : Text) (ts : List TopicEntry) → contains_key name ts ≡ false → find name ts ≡ none
unfolding find any
find-new name [] h = refl
find-new name (t ∷ ts) h = elim (Bool-cases (eqb_text t.name name)) [
  | inl k ↦ absurd (ground (arith, k, h))
  | inr k ↦ let rest = find-new name ts (ground (arith, k, h)) in ground (arith, k, rest)
]

pub inserted-Backed :
    (disk : DiskType) (entry : TopicEntry) (topics : List TopicEntry) (x : Key × PartitionHandle)
    → contains_key entry.name topics ≡ false
    → Backed disk topics x
    → Backed disk (insert_topic entry topics) x
inserted-Backed disk entry topics x new b = elim (Bool-cases (eqb_text entry.name x.0.0)) [
  | inl same ↦
      let z = find-new entry.name topics new in
      let w = ap (λ n. find n topics) (sym (eqb_text_sound entry.name x.0.0 same)) ∙ z in
      absurd (ground (arith, w, b.1))
  | inr other ↦
      let e : find x.0.0 (insert_topic entry topics) ≡ find x.0.0 topics =
        find-insert x.0.0 entry topics ∙ simp other refl in
      Backed-alike disk topics (insert_topic entry topics) x e b
]

pub new-Backed :
    (disk : DiskType) (entry : TopicEntry) (topics : List TopicEntry) (q : ℕ) (h : PartitionHandle)
    → q < entry.partition_count
    → IsNew entry.uuid (resolve entry.config disk) h
    → Backed disk (insert_topic entry topics) ((entry.name, q), h)
new-Backed disk entry topics q h lt (u, c) =
    (entry, find-insert entry.name entry topics ∙ simp (eqb_text_refl entry.name) refl, lt, u, c)
