-- ===== src/Server/Wire/Resolve/Found.antt =====
-- The handle that a `Produce` is given.
use kafkrs.Prelude.{
  ℕ, ◌≡◌, inl, inr, Bool, true, false, Option, none, some, [], ◌∷◌, arith, if◌then◌else◌, All,
  Bool-cases, Option-cases, subst, sym, ap, ap₂, ◌∙◌,
}
use kafkrs.Models.Manifest.{Text}
use kafkrs.Models.Topic.{default_overrides, resolve}
use kafkrs.Server.ObjectStore.{eqb_text, eqb_text_sound}
use kafkrs.Server.TopicRegistry.{RegistryError, Reply, ensure_exists, handle}
use kafkrs.Server.Partitions.{Key, PartitionHandle, Partitions, get_handle, eqb_key, spawn_range}
use kafkrs.Server.Wire.TopicAdmin.{SharedState, AdminIo}
use kafkrs.Server.Wire.TopicAdmin.Served.{Backed, IsServed}
use kafkrs.Server.Wire.Resolve.Current.{resolve_or_ensure_partition-IsServed}
use kafkrs.Server.Wire.Resolve.{
  Resolved, found, looked_up, look_up, auto_entry, ensure_reply, look_up_if, ensured,
  resolve_or_ensure_partition,
}

get_handle-All :
    (P : Key × PartitionHandle → Type 0) (key : Key) (ps : Partitions) (h : PartitionHandle)
    → ((k : Key) → eqb_key k key ≡ true → P (k, h) → P (key, h))
    → All P ps
    → get_handle key ps ≡ some h
    → P (key, h)
unfolding get_handle
get_handle-All P key [] h move all e = absurd (ground (arith, e))
get_handle-All P key (x ∷ xs) h move all e = elim (Bool-cases (eqb_key x.0 key)) [
  | inl same ↦
      let z : x.1 ≡ h = ground (arith, e, same) in move x.0 same (subst (λ y. P (x.0, y)) z all.0)
  | inr other ↦ get_handle-All P key xs h move all.1 (ground (arith, e, other))
]

same-key : (k key : Key) → eqb_key k key ≡ true → k ≡ key
same-key (t, p) (u, q) h =
    let texts : eqb_text t u ≡ true = ground arith in
    let numbers : p ≡ q = ground arith in ap₂ (λ a b. (a, b)) (eqb_text_sound t u texts) numbers

-- The handle that was found is the one that the map has behind the lookup.
abbrev Honest : Key → SharedState × Resolved → Type 0
Honest key r = (h : PartitionHandle) → r.1 ≡ found h → get_handle key r.0.partitions ≡ some h

look_up-Honest : (key : Key) (s : SharedState) → Honest key (look_up key s)
look_up-Honest key s h e = elim (Option-cases (get_handle key s.partitions)) [
  | inl missing ↦
      let z : looked_up none ≡ found h = ap looked_up (sym missing) ∙ e in
      absurd (ground (arith, z))
  | inr (k, present) ↦
      let z : looked_up (some k) ≡ found h = ap looked_up (sym present) ∙ e in
      let w : k ≡ h = ground (arith, z) in present ∙ ap some w
]

look_up_if-Honest : (up : Bool) (key : Key) (s : SharedState) → Honest key (look_up_if up key s)
look_up_if-Honest true key s = look_up-Honest key s
look_up_if-Honest false key s = λ h e. absurd (ground (arith, e))

ensured-Honest :
    (io : AdminIo) (key : Key) (count : ℕ) (reply : Reply Text) (s : SharedState)
    → Honest key (ensured io key count reply s)
ensured-Honest io key count (Reply.ok uuid) s =
    let up =
      spawn_range io.spawn_io key.0 uuid (resolve default_overrides s.disk_type) 0 count
        s.partitions in
    look_up_if-Honest up.1 key (record s { partitions = up.0 })
ensured-Honest io key count (Reply.err RegistryError.already_exists) s = look_up-Honest key s
ensured-Honest io key count (Reply.err RegistryError.unknown_topic) s =
    λ h e. absurd (ground (arith, e))
ensured-Honest io key count (Reply.err (RegistryError.invalid_config x)) s =
    λ h e. absurd (ground (arith, e))
ensured-Honest io key count (Reply.err RegistryError.io_error) s = λ h e. absurd (ground (arith, e))

if-Honest :
    (b : Bool) (key : Key) (x y : SharedState × Resolved)
    → Honest key x
    → Honest key y
    → Honest key (if b then x else y)
if-Honest true key x y h k = h
if-Honest false key x y h k = k

resolve-Honest :
    (io : AdminIo) (auto_create : Option ℕ) (key : Key) (s : SharedState)
    → Honest key (resolve_or_ensure_partition io auto_create key s)
unfolding resolve_or_ensure_partition
resolve-Honest io none key s = look_up-Honest key s
resolve-Honest io (some count) key s =
    let entry = auto_entry io key.0 count in
    let reply = ensure_reply io.registry_io entry s.registry in
    let after = record s { registry = handle io.registry_io (ensure_exists entry) s.registry } in
    if-Honest io.answers key _ _ (ensured-Honest io key count reply after)
      (λ h e. absurd (ground (arith, e)))

-- The partition that a `Produce` is given, its topic created for it or not, is one of the topic as
-- the registry has it then, so its records are checked against the topic's current limits and go to
-- its current incarnation. The partitions that are up before it are taken to be such ones.
pub resolve-Backed :
    (io : AdminIo) (auto_create : Option ℕ) (key : Key) (s : SharedState) (h : PartitionHandle)
    → IsServed s
    → (resolve_or_ensure_partition io auto_create key s).1 ≡ found h
    → let after = (resolve_or_ensure_partition io auto_create key s).0 in
      Backed after.disk_type after.registry.topics (key, h)
resolve-Backed io auto_create key s h served e =
    let after = (resolve_or_ensure_partition io auto_create key s).0 in
    let P = Backed after.disk_type after.registry.topics in
    get_handle-All P key after.partitions h
      (λ k same b. subst (λ x. P (x, h)) (same-key k key same) b)
      (resolve_or_ensure_partition-IsServed io auto_create key s served)
      (resolve-Honest io auto_create key s h e)
