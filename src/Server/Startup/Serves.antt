-- ===== src/Server/Startup/Serves.antt =====
-- What a start of the broker brings up.
use kafkrs.Prelude.{
  ℕ, zero, suc, ◌<◌, ◌≡◌, refl, true, inl, inr, Option, some, List, [], ◌∷◌, arith, All, map,
  Bool-cases, subst, sym,
}
use kafkrs.Models.Config.{DiskType}
use kafkrs.Models.Manifest.{Text}
use kafkrs.Models.Topic.{TopicEntry, ResolvedTopicConfig, resolve}
use kafkrs.Server.PendingDeletes.{PendingDelete, load_all}
use kafkrs.Server.TopicRegistry.{Registry, find, load, snapshot}
use kafkrs.Server.TopicRegistry.Loadable.{IsValid, All-loadable}
use kafkrs.Server.Partitions.{Partitions, SpawnIo, spawn_range}
use kafkrs.Server.Partitions.Entries.{spawn_range-All}
use kafkrs.Server.Wire.TopicAdmin.{SharedState}
use kafkrs.Server.Wire.TopicAdmin.Served.{Backed, IsServed}
use kafkrs.Server.Startup.{BootIo, Disk, spawn_known, boot}
use kafkrs.Server.Startup.Up.{ComesUp, IsUp, Grows, spawn_range-IsUp}

-- Each entry is the one that a lookup of its name finds, so that no name stands twice.
abbrev pub IsKeyed : List TopicEntry → Type 0
IsKeyed file = All (λ t. find t.name file ≡ some t) file

abbrev snapshot_of : DiskType → TopicEntry → Text × Text × ℕ × ResolvedTopicConfig
snapshot_of disk t = (t.name, t.uuid, t.partition_count, resolve t.config disk)

-- The partitions of a topic below a number are up.
abbrev pub UpTo : Partitions → Text → ℕ → Type 0
UpTo ps topic zero = Unit
UpTo ps topic (suc n) = IsUp ps (topic, n) × UpTo ps topic n

UpTo-intro :
    (ps : Partitions) (topic : Text) (n : ℕ)
    → ((p : ℕ) → p < n → IsUp ps (topic, p))
    → UpTo ps topic n
UpTo-intro ps topic zero h = tt
UpTo-intro ps topic (suc n) h =
    (h n (omega arith), UpTo-intro ps topic n (λ p lt. h p (omega arith)))

-- Every partition of every topic is up.
abbrev pub AllUp : List TopicEntry → Partitions → Type 0
AllUp ts ps = All (λ t. UpTo ps t.name t.partition_count) ts

module _ (io : Text → SpawnIo) (disk : DiskType) where
  spawn_known-Backed :
      (file ts : List TopicEntry) (ps : Partitions)
      → All (λ t. find t.name file ≡ some t) ts
      → All (Backed disk file) ps
      → All (Backed disk file) (spawn_known io (map (snapshot_of disk) ts) ps).0
  unfolding spawn_known
  spawn_known-Backed file [] ps keyed h = h
  spawn_known-Backed file (t ∷ ts) ps (k, ks) h =
      let cfg = resolve t.config disk in
      let up = spawn_range (io t.name) t.name t.uuid cfg 0 t.partition_count ps in
      let h' =
        spawn_range-All (Backed disk file) (io t.name) t.name t.uuid cfg 0 t.partition_count ps
          (λ q handle ge lt new. (t, k, omega arith, new.0, new.1)) h in
      let rest = spawn_known-Backed file ts up.0 ks h' in
      elim (Bool-cases up.1) [ inl ok ↦ rw ok rest | inr panics ↦ rw panics h' ]

  spawn_known-IsUp :
      (ts : List TopicEntry) (ps : Partitions)
      → ((topic : Text) → ComesUp (io topic))
      → let out = spawn_known io (map (snapshot_of disk) ts) ps in
        (out.1 ≡ true) × Grows ps out.0 × AllUp ts out.0
  unfolding spawn_known
  spawn_known-IsUp [] ps up = (refl, λ key k. k, tt)
  spawn_known-IsUp (t ∷ ts) ps up =
      let cfg = resolve t.config disk in
      let first = spawn_range (io t.name) t.name t.uuid cfg 0 t.partition_count ps in
      let (ok, grows, here) =
        spawn_range-IsUp (io t.name) (up t.name) t.name t.uuid cfg 0 t.partition_count ps in
      let (ok', grows', there) = spawn_known-IsUp ts first.0 up in
      let goes : spawn_known io (map (snapshot_of disk) (t ∷ ts)) ps
          ≡ spawn_known io (map (snapshot_of disk) ts) first.0 =
        rw ok refl in
      let rest = spawn_known io (map (snapshot_of disk) ts) first.0 in
      subst (λ out. (out.1 ≡ true) × Grows ps out.0 × AllUp (t ∷ ts) out.0) (sym goes)
        (
          ok',
          λ key k. grows' key (grows key k),
          (
            UpTo-intro rest.0 t.name t.partition_count
                (λ p lt. grows' (t.name, p) (here p (omega arith) (omega arith))),
            there,
          ),
        )

load-Valid :
    (file : List TopicEntry)
    → All IsValid file
    → load file ≡ some (record { topics = file; file = file })
unfolding load
load-Valid file valid = simp (All-loadable file valid) refl

module _ (to_vec : List PendingDelete → List ℕ)
    (from_str : List ℕ → Option (List PendingDelete)) where
  -- When topics.json has valid configs and no name twice, every partition is recovered and
  -- pending_deletes.json is read, the broker starts, and does not panic: every partition of every
  -- topic is up, only such partitions are, each on its topic's incarnation and config, and a
  -- sweep is started for each pending deletion.
  pub boot-Serves :
      (io : BootIo) (prefix : Text) (disk_type : DiskType) (disk : Disk)
      (pending : List PendingDelete)
      → All IsValid disk.topics_file
      → IsKeyed disk.topics_file
      → ((topic : Text) → ComesUp (io.spawn_io topic))
      → load_all to_vec from_str io.reads_pending disk.pending ≡ some pending
      → (s : SharedState) × (boot to_vec from_str io prefix disk_type disk ≡ some s)
        × IsServed s
        × (s.sweeps ≡ pending)
        × AllUp disk.topics_file s.partitions
  unfolding boot snapshot
  boot-Serves io prefix disk_type disk pending valid keyed up reads =
      let file = disk.topics_file in
      let registry : Registry = record { topics = file; file = file } in
      let out = spawn_known io.spawn_io (map (snapshot_of disk_type) file) [] in
      let (ok, grows, all) = spawn_known-IsUp io.spawn_io disk_type file [] up in
      let s : SharedState = record {
        registry = registry;
        partitions = out.0;
        store = disk.store;
        prefix = prefix;
        disk_type = disk_type;
        wal_dirs = disk.wal_dirs;
        pending = disk.pending;
        closed = [];
        sweeps = pending;
      } in
      let starts : boot to_vec from_str io prefix disk_type disk ≡ some s =
        let loads = load-Valid file valid in ground (arith, loads, reads, ok) in
      (s, starts, spawn_known-Backed io.spawn_io disk_type file file [] keyed tt, refl, all)
