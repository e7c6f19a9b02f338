-- ===== src/Server/Wire/Resolve/Current.antt =====
-- A `Produce` finds the partitions of the topics as they are now.
use kafkrs.Prelude.{
  ℕ, refl, inl, inr, Bool, true, false, Option, none, some, arith, if◌then◌else◌, All-mono,
  Bool-cases,
}
use kafkrs.Models.Manifest.{Text}
use kafkrs.Models.Topic.{default_overrides, resolve}
use kafkrs.Server.TopicRegistry.{
  Registry, RegistryError, Reply, err, ensure_exists, contains_key, insert_topic, handle,
}
use kafkrs.Server.TopicRegistry.Replies.{Created, create-Created}
use kafkrs.Server.Partitions.{Key, spawn_range}
use kafkrs.Server.Partitions.Entries.{spawn_range-All}
use kafkrs.Server.Wire.TopicAdmin.{SharedState, AdminIo}
use kafkrs.Server.Wire.TopicAdmin.Served.{Backed, IsServed, inserted-Backed, new-Backed}
use kafkrs.Server.Wire.Resolve.{
  Resolved, auto_entry, ensure_reply, look_up_if, ensured, resolve_or_ensure_partition,
}

ensure-Created :
    (io : AdminIo) (topic : Text) (count : ℕ) (r : Registry)
    → let entry = auto_entry io topic count in
      Created entry r
        (handle io.registry_io (ensure_exists entry) r, ensure_reply io.registry_io entry r)
unfolding handle ensure_reply
ensure-Created io topic count r = elim (Bool-cases (contains_key topic r.topics)) [
  | inl known ↦ simp known (inl (RegistryError.already_exists, refl, refl))
  | inr new ↦ elim (create-Created io.registry_io (auto_entry io topic count) r) [
    | inl failed ↦ simp new (inl failed)
    | inr (made, topics, fresh) ↦ simp new (inr (made, topics, refl))
  ]
]

look_up_if-IsServed :
    (up : Bool) (key : Key) (s : SharedState) → IsServed s → IsServed (look_up_if up key s).0
look_up_if-IsServed true key s h = h
look_up_if-IsServed false key s h = h

ensured_err-IsServed :
    (io : AdminIo) (key : Key) (count : ℕ) (e : RegistryError) (s : SharedState)
    → IsServed s
    → IsServed (ensured io key count (err e) s).0
ensured_err-IsServed io key count RegistryError.already_exists s h = h
ensured_err-IsServed io key count RegistryError.unknown_topic s h = h
ensured_err-IsServed io key count (RegistryError.invalid_config e) s h = h
ensured_err-IsServed io key count RegistryError.io_error s h = h

ensured-IsServed :
    (io : AdminIo) (key : Key) (count : ℕ) (r' : Registry) (reply : Reply Text) (s : SharedState)
    → Created (auto_entry io key.0 count) s.registry (r', reply)
    → IsServed s
    → IsServed (ensured io key count reply (record s { registry = r' })).0
ensured-IsServed io key count r' reply s (inl (x, failed, same)) h =
    let kept : IsServed (record s { registry = r' }) = rw same h in
    rw failed (ensured_err-IsServed io key count x (record s { registry = r' }) kept)
ensured-IsServed io key count r' reply s (inr (made, topics, new)) h =
    let entry = auto_entry io key.0 count in
    let cfg = resolve default_overrides s.disk_type in
    let up = spawn_range io.spawn_io key.0 io.uuid cfg 0 count s.partitions in
    let P = Backed s.disk_type (insert_topic entry s.registry.topics) in
    let old =
      All-mono (Backed s.disk_type s.registry.topics) P s.partitions
        (λ x b. inserted-Backed s.disk_type entry s.registry.topics x new b) h in
    let all =
      spawn_range-All P io.spawn_io key.0 io.uuid cfg 0 count s.partitions
        (λ q k ge lt n. new-Backed s.disk_type entry s.registry.topics q k (omega arith) n) old in
    let kept : IsServed (record s { registry = r'; partitions = up.0 }) = rw topics all in
    rw made (look_up_if-IsServed up.1 key (record s { registry = r'; partitions = up.0 }) kept)

if-IsServed :
    (b : Bool) (x y : SharedState × Resolved)
    → IsServed x.0
    → IsServed y.0
    → IsServed (if b then x else y).0
if-IsServed true x y h k = h
if-IsServed false x y h k = k

pub resolve_or_ensure_partition-IsServed :
    (io : AdminIo) (auto_create : Option ℕ) (key : Key) (s : SharedState)
    → IsServed s
    → IsServed (resolve_or_ensure_partition io auto_create key s).0
unfolding resolve_or_ensure_partition
resolve_or_ensure_partition-IsServed io none key s h = h
resolve_or_ensure_partition-IsServed io (some count) key s h =
    let entry = auto_entry io key.0 count in
    if-IsServed io.answers _ _
      (ensured-IsServed io key count (handle io.registry_io (ensure_exists entry) s.registry)
        (ensure_reply io.registry_io entry s.registry) s (ensure-Created io key.0 count s.registry)
        h)
      h
