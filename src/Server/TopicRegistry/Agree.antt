-- ===== src/Server/TopicRegistry/Agree.antt =====
-- The registry in memory and its file know the same topics.
use kafkrs.Prelude.{
  ◌≡◌, refl, true, inl, inr, some, List, [], ◌∷◌, arith, All, Bool-cases, Option-cases, subst, sym,
  ap, ◌∙◌,
}
use kafkrs.Models.Manifest.{Text}
use kafkrs.Models.Topic.{TopicConfigOverrides, TopicEntry, default_overrides, validate}
use kafkrs.Server.ObjectStore.{eqb_text_refl}
use kafkrs.Server.TopicRegistry.Find.{
  find-remove, find-insert, find-append, find-set_config, find_name, find-put_back,
}
use kafkrs.Server.TopicRegistry.{
  RegistryIo, Registry, RegistryMsg, create_topic, ensure_exists, delete_topic, alter_topic, err,
  unknown_topic, invalid_config, find, contains_key, remove_topic, insert_topic, set_config, merge,
  create, create_valid, delete, delete_known, alter, alter_valid, handle, handle_all,
}

abbrev pub Agrees : Registry → Type 0
Agrees r = (name : Text) → find name r.topics ≡ find name r.file

create_valid-Agrees :
    (io : RegistryIo) (entry : TopicEntry) (r : Registry)
    → io.makes_dirs ≡ true
    → io.puts_manifests ≡ true
    → Agrees r
    → Agrees (create_valid io entry r).0
create_valid-Agrees io entry r dirs puts h name =
    elim (Bool-cases (contains_key entry.name r.topics)) [
      | inl known ↦ simp known (h name)
      | inr new ↦ elim (Bool-cases io.writes) [
        | inr fails ↦ simp (new, fails) (h name)
        | inl writes ↦
            simp (new, writes, dirs, puts)
              (find-insert name entry r.topics ∙ sym (find-append name entry r.topics new))
      ]
    ]

create-Agrees :
    (io : RegistryIo) (entry : TopicEntry) (r : Registry)
    → io.makes_dirs ≡ true
    → io.puts_manifests ≡ true
    → Agrees r
    → Agrees (create io entry r).0
unfolding create
create-Agrees io entry r dirs puts h = elim (Option-cases (validate entry.config)) [
  | inl valid ↦
      let accepts : create io entry r ≡ create_valid io entry r = ground (arith, valid) in
      rw accepts (create_valid-Agrees io entry r dirs puts h)
  | inr (e, invalid) ↦
      let refuses : create io entry r ≡ (r, err (invalid_config e)) = ground (arith, invalid) in
      rw refuses h
]

delete_known-Agrees :
    (io : RegistryIo) (entry : TopicEntry) (r : Registry)
    → find entry.name r.topics ≡ some entry
    → Agrees r
    → Agrees (delete_known io entry entry.name r).0
delete_known-Agrees io entry r known h name = elim (Bool-cases io.writes) [
  | inl writes ↦ simp writes refl
  | inr fails ↦
      let rest = remove_topic entry.name r.topics in
      simp fails (
        find-insert name entry rest
        ∙ (find-put_back name entry r.topics rest known (find-remove name entry.name r.topics)
            ∙ h name))
]

delete-Agrees :
    (io : RegistryIo) (name : Text) (r : Registry) → Agrees r → Agrees (delete io name r).0
unfolding delete
delete-Agrees io name r h = elim (Option-cases (find name r.topics)) [
  | inl unknown ↦
      let refuses : delete io name r ≡ (r, err unknown_topic) = ground (arith, unknown) in
      rw refuses h
  | inr (entry, known) ↦
      let accepts : delete io name r ≡ delete_known io entry name r = ground (arith, known) in
      let e = find_name name r.topics entry known in
      let own = ap (λ n. find n r.topics) e ∙ known in
      rw accepts
        (subst (λ n. Agrees (delete_known io entry n r).0) e (delete_known-Agrees io entry r own h))
]

-- A swap of the config that is undone.
pub find-swapped :
    (name : Text) (entry : TopicEntry) (merged : TopicConfigOverrides) (ts : List TopicEntry)
    → find entry.name ts ≡ some entry
    → find name
        (set_config entry.name entry.config (insert_topic (record entry { config = merged }) ts))
      ≡ find name ts
unfolding set_config insert_topic find
find-swapped name entry merged ts known =
    let rest = remove_topic entry.name ts in
    simp (eqb_text_refl entry.name) (
      find-put_back name entry ts (set_config entry.name entry.config rest) known (λ k.
        find-set_config name entry.name entry.config rest k ∙ find-remove name entry.name ts k))

alter_valid-Agrees :
    (io : RegistryIo) (entry : TopicEntry) (merged : TopicConfigOverrides) (r : Registry)
    → find entry.name r.topics ≡ some entry
    → Agrees r
    → Agrees (alter_valid io entry merged r).0
alter_valid-Agrees io entry merged r known h name = elim (Bool-cases io.writes) [
  | inl writes ↦ simp writes refl
  | inr fails ↦ simp fails (find-swapped name entry merged r.topics known ∙ h name)
]

alter-Agrees :
    (io : RegistryIo) (name : Text) (patch : TopicConfigOverrides) (r : Registry)
    → Agrees r
    → Agrees (alter io name patch r).0
unfolding alter
alter-Agrees io name patch r h = elim (Option-cases (find name r.topics)) [
  | inl unknown ↦
      let refuses : alter io name patch r ≡ (r, err unknown_topic) = ground (arith, unknown) in
      rw refuses h
  | inr (entry, known) ↦ elim (Option-cases (validate (merge patch entry.config))) [
    | inr (e, invalid) ↦
        let refuses : alter io name patch r ≡ (r, err (invalid_config e)) =
          ground (arith, known, invalid) in
        rw refuses h
    | inl valid ↦
        let accepts : alter io name patch r ≡ alter_valid io entry (merge patch entry.config) r =
          ground (arith, known, valid) in
        let own = ap (λ n. find n r.topics) (find_name name r.topics entry known) ∙ known in
        rw accepts (alter_valid-Agrees io entry (merge patch entry.config) r own h)
  ]
]

-- The message does not create a topic of which a directory or a manifest cannot be made.
abbrev pub IsWhole : RegistryIo × RegistryMsg → Type 0
IsWhole (io, msg) = (io.makes_dirs ≡ true) × (io.puts_manifests ≡ true)

handle-Agrees :
    (io : RegistryIo) (msg : RegistryMsg) (r : Registry)
    → IsWhole (io, msg)
    → Agrees r
    → Agrees (handle io msg r)
unfolding handle
handle-Agrees io (create_topic entry) r w h = create-Agrees io entry r w.0 w.1 h
handle-Agrees io (delete_topic name) r w h = delete-Agrees io name r h
handle-Agrees io (alter_topic name patch) r w h = alter-Agrees io name patch r h
handle-Agrees io (ensure_exists entry) r w h =
    elim (Bool-cases (contains_key entry.name r.topics)) [
      | inl known ↦ rw known h
      | inr new ↦
          rw new (create-Agrees io (record entry { config = default_overrides }) r w.0 w.1 h)
    ]

-- Whatever messages a registry handles, and whichever rewrites of topics.json fail, a lookup of a
-- name in memory gives what a lookup in topics.json gives: its uuid, its partitions and its config.
-- The directories and manifests of created topics are taken to be made.
pub handle_all-Agrees :
    (msgs : List (RegistryIo × RegistryMsg)) (r : Registry)
    → All IsWhole msgs
    → Agrees r
    → Agrees (handle_all msgs r)
unfolding handle_all
handle_all-Agrees [] r ws h = h
handle_all-Agrees ((io, msg) ∷ msgs) r ws h =
    handle_all-Agrees msgs (handle io msg r) ws.1 (handle-Agrees io msg r ws.0 h)
