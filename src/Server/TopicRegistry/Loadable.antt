-- ===== src/Server/TopicRegistry/Loadable.antt =====
-- topics.json can always be loaded.
use kafkrs.Prelude.{
  ◌≡◌, refl, Bool, true, false, not, inl, inr, none, some, List, [], ◌∷◌, arith, if◌then◌else◌, any,
  All, All-append, All-filter, Bool-cases, Option-cases, subst,
}
use kafkrs.Models.Manifest.{Text}
use kafkrs.Models.Topic.{TopicConfigOverrides, TopicEntry, default_overrides, validate}
use kafkrs.Server.ObjectStore.{eqb_text}
use kafkrs.Server.TopicRegistry.{
  RegistryIo, Registry, RegistryMsg, create_topic, ensure_exists, delete_topic, alter_topic, find,
  contains_key, remove_topic, insert_topic, set_config, merge, load, create, create_valid,
  alter_valid, delete_known, err, invalid_config, unknown_topic, delete, alter, handle, handle_all,
}

abbrev pub IsValid : TopicEntry → Type 0
IsValid t = validate t.config ≡ none

-- The configs in memory and in the file are valid.
abbrev pub IsLoadable : Registry → Type 0
IsLoadable r = All IsValid r.topics × All IsValid r.file

find-IsValid :
    (name : Text) (ts : List TopicEntry) (t : TopicEntry)
    → find name ts ≡ some t
    → All IsValid ts
    → IsValid t
unfolding find
find-IsValid name [] t e h = absurd (ground (arith, e))
find-IsValid name (u ∷ us) t e (v, vs) = elim (Bool-cases (eqb_text u.name name)) [
  | inl same ↦
      let is_it : u ≡ t = ground (arith, same, e) in subst (λ (w : TopicEntry). IsValid w) is_it v
  | inr other ↦ find-IsValid name us t (rw other at e) vs
]

insert-IsValid :
    (e : TopicEntry) (ts : List TopicEntry)
    → IsValid e
    → All IsValid ts
    → All IsValid (insert_topic e ts)
unfolding insert_topic remove_topic
insert-IsValid e ts h v = (h, All-filter IsValid _ ts v)

set_config-IsValid :
    (name : Text) (config : TopicConfigOverrides) (ts : List TopicEntry)
    → validate config ≡ none
    → All IsValid ts
    → All IsValid (set_config name config ts)
unfolding set_config
set_config-IsValid name config [] h v = tt
set_config-IsValid name config (t ∷ ts) h (v, vs) = elim (Bool-cases (eqb_text t.name name)) [
  | inl same ↦ rw same (h, set_config-IsValid name config ts h vs)
  | inr other ↦ rw other (v, set_config-IsValid name config ts h vs)
]

module _ {A : Type 0} where
  if-IsLoadable :
      (b : Bool) (x y : Registry × A)
      → IsLoadable x.0
      → IsLoadable y.0
      → IsLoadable (if b then x else y).0
  if-IsLoadable true x y h k = h
  if-IsLoadable false x y h k = k

create_valid-IsLoadable :
    (io : RegistryIo) (entry : TopicEntry) (r : Registry)
    → IsValid entry
    → IsLoadable r
    → IsLoadable (create_valid io entry r).0
create_valid-IsLoadable io entry r v (vt, vf) =
    let written = All-append IsValid r.topics (entry ∷ []) vt (v, tt) in
    if-IsLoadable (contains_key entry.name r.topics) _ _ (vt, vf)
      (if-IsLoadable (not io.writes) _ _ (vt, vf)
        (if-IsLoadable (not io.makes_dirs) _ _ (vt, written)
          (if-IsLoadable (not io.puts_manifests) _ _ (vt, written)
            (insert-IsValid entry r.topics v vt, written))))

create-IsLoadable :
    (io : RegistryIo) (entry : TopicEntry) (r : Registry)
    → IsLoadable r
    → IsLoadable (create io entry r).0
unfolding create
create-IsLoadable io entry r h = elim (Option-cases (validate entry.config)) [
  | inl valid ↦
      let accepts : create io entry r ≡ create_valid io entry r = ground (arith, valid) in
      rw accepts (create_valid-IsLoadable io entry r valid h)
  | inr (e, invalid) ↦
      let refuses : create io entry r ≡ (r, err (invalid_config e)) = ground (arith, invalid) in
      rw refuses h
]

delete-IsLoadable :
    (io : RegistryIo) (name : Text) (r : Registry) → IsLoadable r → IsLoadable (delete io name r).0
unfolding delete remove_topic
delete-IsLoadable io name r (vt, vf) = elim (Option-cases (find name r.topics)) [
  | inl unknown ↦
      let refuses : delete io name r ≡ (r, err unknown_topic) = ground (arith, unknown) in
      rw refuses (vt, vf)
  | inr (entry, known) ↦
      let rest = All-filter IsValid (λ t. not (eqb_text t.name name)) r.topics vt in
      let v = find-IsValid name r.topics entry known vt in
      let accepts : delete io name r ≡ delete_known io entry name r = ground (arith, known) in
      rw accepts (
        if-IsLoadable io.writes _ _ (rest, rest)
          (insert-IsValid entry (remove_topic name r.topics) v rest, vf))
]

alter_valid-IsLoadable :
    (io : RegistryIo) (entry : TopicEntry) (merged : TopicConfigOverrides) (r : Registry)
    → IsValid entry
    → validate merged ≡ none
    → IsLoadable r
    → IsLoadable (alter_valid io entry merged r).0
alter_valid-IsLoadable io entry merged r v h (vt, vf) =
    let new : TopicEntry = record entry { config = merged } in
    let swapped = insert-IsValid new r.topics h vt in
    if-IsLoadable io.writes _ _ (swapped, swapped)
      (set_config-IsValid entry.name entry.config (insert_topic new r.topics) v swapped, vf)

alter-IsLoadable :
    (io : RegistryIo) (name : Text) (patch : TopicConfigOverrides) (r : Registry)
    → IsLoadable r
    → IsLoadable (alter io name patch r).0
unfolding alter
alter-IsLoadable io name patch r h = elim (Option-cases (find name r.topics)) [
  | inl unknown ↦
      let refuses : alter io name patch r ≡ (r, err unknown_topic) = ground (arith, unknown) in
      rw refuses h
  | inr (entry, known) ↦ elim (Option-cases (validate (merge patch entry.config))) [
    | inr (e, invalid) ↦
        let refuses : alter io name patch r ≡ (r, err (invalid_config e)) =
          ground (arith, known, invalid) in
        rw refuses h
    | inl valid ↦
        let accepts : alter io name patch r ≡ alter_valid io entry (merge patch entry.config) r =
          ground (arith, known, valid) in
        rw accepts (
          alter_valid-IsLoadable io entry (merge patch entry.config) r
            (find-IsValid name r.topics entry known h.0) valid h)
  ]
]

default_valid : validate default_overrides ≡ none
unfolding validate
default_valid = refl

handle-IsLoadable :
    (io : RegistryIo) (msg : RegistryMsg) (r : Registry)
    → IsLoadable r
    → IsLoadable (handle io msg r)
unfolding handle
handle-IsLoadable io (create_topic entry) r h = create-IsLoadable io entry r h
handle-IsLoadable io (delete_topic name) r h = delete-IsLoadable io name r h
handle-IsLoadable io (alter_topic name patch) r h = alter-IsLoadable io name patch r h
handle-IsLoadable io (ensure_exists entry) r h =
    elim (Bool-cases (contains_key entry.name r.topics)) [
      | inl known ↦ rw known h
      | inr new ↦ rw new (create-IsLoadable io (record entry { config = default_overrides }) r h)
    ]

handle_all-IsLoadable :
    (msgs : List (RegistryIo × RegistryMsg)) (r : Registry)
    → IsLoadable r
    → IsLoadable (handle_all msgs r)
unfolding handle_all
handle_all-IsLoadable [] r h = h
handle_all-IsLoadable ((io, msg) ∷ msgs) r h =
    handle_all-IsLoadable msgs (handle io msg r) (handle-IsLoadable io msg r h)

pub All-loadable :
    (ts : List TopicEntry)
    → All IsValid ts
    → any (λ t. elim (validate t.config) [ none ↦ false | some e ↦ true ]) ts ≡ false
unfolding any
All-loadable [] h = refl
All-loadable (t ∷ ts) (v, vs) = simp (v, All-loadable ts vs) refl

-- Whatever messages a registry that was loaded from valid configs handles, and whichever of their
-- writes fail, the next start loads the file that they leave, and does not panic on a config.
pub handle_all-load :
    (msgs : List (RegistryIo × RegistryMsg)) (file : List TopicEntry)
    → All IsValid file
    → load (handle_all msgs (record { topics = file; file = file })).file
      ≡ some (record {
        topics = (handle_all msgs (record { topics = file; file = file })).file;
        file = (handle_all msgs (record { topics = file; file = file })).file;
      })
unfolding load
handle_all-load msgs file v =
    let after = handle_all-IsLoadable msgs (record { topics = file; file = file }) (v, v) in
    simp (All-loadable _ after.1) refl
