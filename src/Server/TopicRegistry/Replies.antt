-- ===== src/Server/TopicRegistry/Replies.antt =====
-- What the reply of a message says of the map behind it.
use kafkrs.Prelude.{
  ◌≡◌, ◌⊎◌, refl, false, inl, inr, some, arith, ℕ, Bool-cases, Option-cases, subst, sym, ap, ◌∙◌,
}
use kafkrs.Models.Manifest.{Text}
use kafkrs.Models.Topic.{TopicConfigOverrides, TopicEntry, validate}
use kafkrs.Server.TopicRegistry.Find.{find-remove, find-insert, find_name, find-put_back}
use kafkrs.Server.TopicRegistry.Agree.{find-swapped}
use kafkrs.Server.TopicRegistry.{
  RegistryIo, RegistryError, Registry, Reply, ok, err, find, contains_key, remove_topic,
  insert_topic, merge, create, create_valid, delete, delete_known, alter, alter_valid,
  already_exists, io_error, unknown_topic, invalid_config,
}

-- The two maps answer every lookup alike.
abbrev pub Alike : Registry → Registry → Type 0
Alike r r' = (name : Text) → find name r'.topics ≡ find name r.topics

abbrev pub Created : TopicEntry → Registry → Registry × Reply Text → Type 0
Created entry r after =
    ((e : RegistryError) × (after.1 ≡ err e) × (after.0.topics ≡ r.topics))
    ⊎ ((after.1 ≡ ok entry.uuid)
        × (after.0.topics ≡ insert_topic entry r.topics)
        × (contains_key entry.name r.topics ≡ false))

create_valid-Created :
    (io : RegistryIo) (entry : TopicEntry) (r : Registry)
    → Created entry r (create_valid io entry r)
create_valid-Created io entry r = elim (Bool-cases (contains_key entry.name r.topics)) [
  | inl known ↦ simp known (inl (already_exists, refl, refl))
  | inr new ↦ elim (Bool-cases io.writes) [
    | inr fails ↦ simp (new, fails) (inl (io_error, refl, refl))
    | inl writes ↦ elim (Bool-cases io.makes_dirs) [
      | inr fails ↦ simp (new, writes, fails) (inl (io_error, refl, refl))
      | inl dirs ↦ elim (Bool-cases io.puts_manifests) [
        | inr fails ↦ simp (new, writes, dirs, fails) (inl (io_error, refl, refl))
        | inl puts ↦ simp (new, writes, dirs, puts) (inr (refl, refl, refl))
      ]
    ]
  ]
]

pub create-Created :
    (io : RegistryIo) (entry : TopicEntry) (r : Registry) → Created entry r (create io entry r)
unfolding create
create-Created io entry r = elim (Option-cases (validate entry.config)) [
  | inl valid ↦
      let accepts : create io entry r ≡ create_valid io entry r = ground (arith, valid) in
      subst (Created entry r) (sym accepts) (create_valid-Created io entry r)
  | inr (e, invalid) ↦
      let refuses : create io entry r ≡ (r, err (invalid_config e)) = ground (arith, invalid) in
      subst (Created entry r) (sym refuses) (inl (invalid_config e, refl, refl))
]

abbrev pub Deleted : Text → Registry → Registry × Reply (Text × ℕ) → Type 0
Deleted name r after =
    ((e : RegistryError) × (after.1 ≡ err e) × Alike r after.0)
    ⊎ ((entry : TopicEntry) × (find name r.topics ≡ some entry)
        × (after.1 ≡ ok (entry.uuid, entry.partition_count))
        × (after.0.topics ≡ remove_topic name r.topics))

delete_known-Deleted :
    (io : RegistryIo) (entry : TopicEntry) (r : Registry)
    → find entry.name r.topics ≡ some entry
    → Deleted entry.name r (delete_known io entry entry.name r)
delete_known-Deleted io entry r known = elim (Bool-cases io.writes) [
  | inl writes ↦ simp writes (inr (entry, known, refl, refl))
  | inr fails ↦
      let rest = remove_topic entry.name r.topics in
      simp fails (
        inl (
          io_error,
          refl,
          (λ name.
              find-insert name entry rest
              ∙ find-put_back name entry r.topics rest known
                  (find-remove name entry.name r.topics)),
        ))
]

pub delete-Deleted :
    (io : RegistryIo) (name : Text) (r : Registry) → Deleted name r (delete io name r)
unfolding delete
delete-Deleted io name r = elim (Option-cases (find name r.topics)) [
  | inl unknown ↦
      let refuses : delete io name r ≡ (r, err unknown_topic) = ground (arith, unknown) in
      subst (Deleted name r) (sym refuses) (inl (unknown_topic, refl, (λ n. refl)))
  | inr (entry, known) ↦
      let accepts : delete io name r ≡ delete_known io entry name r = ground (arith, known) in
      let e = find_name name r.topics entry known in
      let own = ap (λ n. find n r.topics) e ∙ known in
      subst (Deleted name r) (sym accepts) (
        subst (λ n. Deleted n r (delete_known io entry n r)) e
          (delete_known-Deleted io entry r own))
]

abbrev pub Altered : Text → Registry → Registry × Reply TopicConfigOverrides → Type 0
Altered name r after =
    ((e : RegistryError) × (after.1 ≡ err e) × Alike r after.0)
    ⊎ ((entry : TopicEntry) × (merged : TopicConfigOverrides) × (find name r.topics ≡ some entry)
        × (after.1 ≡ ok merged)
        × (after.0.topics ≡ insert_topic (record entry { config = merged }) r.topics))

alter_valid-Altered :
    (io : RegistryIo) (entry : TopicEntry) (merged : TopicConfigOverrides) (r : Registry)
    → find entry.name r.topics ≡ some entry
    → Altered entry.name r (alter_valid io entry merged r)
alter_valid-Altered io entry merged r known = elim (Bool-cases io.writes) [
  | inl writes ↦ simp writes (inr (entry, merged, known, refl, refl))
  | inr fails ↦
      simp fails (inl (io_error, refl, (λ name. find-swapped name entry merged r.topics known)))
]

pub alter-Altered :
    (io : RegistryIo) (name : Text) (patch : TopicConfigOverrides) (r : Registry)
    → Altered name r (alter io name patch r)
unfolding alter
alter-Altered io name patch r = elim (Option-cases (find name r.topics)) [
  | inl unknown ↦
      let refuses : alter io name patch r ≡ (r, err unknown_topic) = ground (arith, unknown) in
      subst (Altered name r) (sym refuses) (inl (unknown_topic, refl, (λ n. refl)))
  | inr (entry, known) ↦ elim (Option-cases (validate (merge patch entry.config))) [
    | inr (e, invalid) ↦
        let refuses : alter io name patch r ≡ (r, err (invalid_config e)) =
          ground (arith, known, invalid) in
        subst (Altered name r) (sym refuses) (inl (invalid_config e, refl, (λ n. refl)))
    | inl valid ↦
        let accepts : alter io name patch r ≡ alter_valid io entry (merge patch entry.config) r =
          ground (arith, known, valid) in
        let e = find_name name r.topics entry known in
        let own = ap (λ n. find n r.topics) e ∙ known in
        subst (Altered name r) (sym accepts) (
          subst (λ n. Altered n r (alter_valid io entry (merge patch entry.config) r)) e
            (alter_valid-Altered io entry (merge patch entry.config) r own))
  ]
]
