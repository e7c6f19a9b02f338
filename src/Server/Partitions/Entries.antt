-- ===== src/Server/Partitions/Entries.antt =====
-- What holds of every entry of the map of partitions behind each change of it.
use kafkrs.Prelude.{
  ℕ, zero, suc, ◌+◌, ◌≤◌, ◌<◌, ◌≡◌, ◌⊎◌, refl, inl, inr, true, false, not, Option, none, some, List,
  [], ◌∷◌, ◌++◌, Bool-cases, arith, All, All-filter, All-zip, All-of, All-mono, All-passes, subst,
  Option-cases,
}
use kafkrs.Prelude.Int.{ℤ}
use kafkrs.Models.Record.{Record}
use kafkrs.Models.Manifest.{Text}
use kafkrs.Models.Topic.{ResolvedTopicConfig}
use kafkrs.Server.ObjectStore.{eqb_text}
use kafkrs.Server.Partitions.{
  Message, upload, update_config, retention_kick, shutdown, orphan_batch, orphan_uploads, Key,
  PartitionHandle, Partitions, SpawnIo, recovered, bring_up, unless_present, get_handle,
  remove_handle, spawn_partition, spawn_range, eqb_key,
}
use kafkrs.Server.Wire.TopicAdmin.{take_handles}

pub All-remove_handle :
    (P : Key × PartitionHandle → Type 0) (key : Key) (ps : Partitions)
    → All P ps
    → All P (remove_handle key ps)
unfolding remove_handle
All-remove_handle P key ps h = All-filter P _ ps h

-- The config of an actor that was started with one and has taken the messages since.
abbrev pub config_behind : ResolvedTopicConfig → List Message → ResolvedTopicConfig
config_behind cfg [] = cfg
config_behind cfg (update_config new ∷ ms) = config_behind new ms
config_behind cfg (m ∷ ms) = config_behind cfg ms

-- The handle and, behind what they were sent, both actors have this config.
abbrev pub IsSetTo : ResolvedTopicConfig → PartitionHandle → Type 0
IsSetTo cfg h =
    (h.cfg ≡ cfg)
    × (config_behind h.started_with h.to_writer ≡ cfg)
    × (config_behind h.started_with h.to_uploader ≡ cfg)

pub config_behind-sent :
    (old new : ResolvedTopicConfig) (ms : List Message)
    → config_behind old (ms ++ update_config new ∷ []) ≡ new
config_behind-sent old new [] = refl
config_behind-sent old new (upload batch ∷ ms) = config_behind-sent old new ms
config_behind-sent old new (update_config cfg ∷ ms) = config_behind-sent cfg new ms
config_behind-sent old new (retention_kick ∷ ms) = config_behind-sent old new ms
config_behind-sent old new (shutdown ∷ ms) = config_behind-sent old new ms

-- The uploads of orphans leave the config as it is.
orphan_uploads-config :
    (cfg : ResolvedTopicConfig) (os : List (ℤ × List Record)) (ms : List Message)
    → orphan_uploads os ≡ some ms
    → config_behind cfg ms ≡ cfg
unfolding orphan_uploads
orphan_uploads-config cfg [] ms e =
    let z : [] ≡ ms = ground (arith, e) in subst (λ x. config_behind cfg x ≡ cfg) z refl
orphan_uploads-config cfg (o ∷ os) ms e = elim (Option-cases (orphan_batch o)) [
  | inl broken ↦ absurd (ground (arith, broken, e))
  | inr (batch, whole) ↦ elim (Option-cases (orphan_uploads os)) [
    | inl stops ↦ absurd (ground (arith, whole, stops, e))
    | inr (rest, goes) ↦
        let z : upload batch ∷ rest ≡ ms = ground (arith, whole, goes, e) in
        subst (λ x. config_behind cfg x ≡ cfg) z (orphan_uploads-config cfg os rest goes)
  ]
]

recovered-config :
    (io : SpawnIo) (p : ℕ) (cfg : ResolvedTopicConfig) (ms : List Message)
    → recovered io p ≡ some ms
    → config_behind cfg ms ≡ cfg
recovered-config io p cfg ms e = elim (Option-cases (io.recovers p)) [
  | inl fails ↦ absurd (ground (arith, fails, e))
  | inr (rec, recovers) ↦ elim (Bool-cases (io.opens p)) [
    | inr shut ↦ absurd (ground (arith, recovers, shut, e))
    | inl opens ↦
        orphan_uploads-config cfg rec.orphan_segments ms (ground (arith, recovers, opens, e))
  ]
]

-- The handle that a bring-up makes.
abbrev pub IsNew : Text → ResolvedTopicConfig → PartitionHandle → Type 0
IsNew topic_uuid cfg h = (h.uuid ≡ topic_uuid) × IsSetTo cfg h

module _ (P : Key × PartitionHandle → Type 0) (io : SpawnIo) (topic topic_uuid : Text)
    (cfg : ResolvedTopicConfig) where
  bring_up-All :
      (found : Option PartitionHandle) (uploads : Option (List Message)) (key : Key)
      (ps qs : Partitions)
      → ((ms : List Message) → uploads ≡ some ms → config_behind cfg ms ≡ cfg)
      → ((h : PartitionHandle) → IsNew topic_uuid cfg h → P (key, h))
      → All P ps
      → unless_present found (bring_up uploads key topic_uuid cfg ps) ps ≡ some qs
      → All P qs
  bring_up-All (some handle) uploads key ps qs same_cfg new h e =
      let same : ps ≡ qs = ground (arith, e) in subst (All P) same h
  bring_up-All none none key ps qs same_cfg new h e = absurd (ground (arith, e))
  bring_up-All none (some uploads) key ps qs same_cfg new h e =
      let fresh : PartitionHandle = record {
        cfg = cfg;
        started_with = cfg;
        uuid = topic_uuid;
        to_writer = [];
        to_uploader = uploads;
      } in
      let up : (key, fresh) ∷ ps ≡ qs = ground (arith, e) in
      subst (All P) up (new fresh (refl, (refl, refl, same_cfg uploads refl)), h)

  spawn_partition-All :
      (p : ℕ) (ps qs : Partitions)
      → ((h : PartitionHandle) → IsNew topic_uuid cfg h → P ((topic, p), h))
      → All P ps
      → spawn_partition io topic topic_uuid p cfg ps ≡ some qs
      → All P qs
  unfolding spawn_partition
  spawn_partition-All p ps qs new h e =
      bring_up-All (get_handle (topic, p) ps) (recovered io p) (topic, p) ps qs
        (recovered-config io p cfg) new h e

  pub spawn_range-All :
      (p n : ℕ) (ps : Partitions)
      → ((q : ℕ) (h : PartitionHandle)
          → p ≤ q
          → q < p + n
          → IsNew topic_uuid cfg h
          → P ((topic, q), h))
      → All P ps
      → All P (spawn_range io topic topic_uuid cfg p n ps).0
  unfolding spawn_range
  spawn_range-All p zero ps new h = h
  spawn_range-All p (suc n) ps new h =
      elim (Option-cases (spawn_partition io topic topic_uuid p cfg ps)) [
        | inl panics ↦
            let stops : spawn_range io topic topic_uuid cfg p (suc n) ps ≡ (ps, false) =
              ground (arith, panics) in
            rw stops h
        | inr (qs, up) ↦
            let h' = spawn_partition-All p ps qs (λ k. new p k (omega arith) (omega arith)) h up in
            let goes : spawn_range io topic topic_uuid cfg p (suc n) ps
                ≡ spawn_range io topic topic_uuid cfg (suc p) n qs =
              ground (arith, up) in
            rw goes
              (spawn_range-All (suc p) n qs (λ q k l m. new q k (omega arith) (omega arith)) h')
      ]

-- The entry is of another topic, or of a partition outside the range.
abbrev pub Avoids : Text → ℕ → ℕ → Key × PartitionHandle → Type 0
Avoids topic p n x = eqb_text x.0.0 topic ≡ true → (x.0.1 < p) ⊎ (p + n ≤ x.0.1)

pub take_handles-All :
    (P : Key × PartitionHandle → Type 0) (topic : Text) (p n : ℕ) (ps : Partitions)
    → All P ps
    → All P (take_handles topic p n ps).1
unfolding take_handles
take_handles-All P topic p zero ps h = h
take_handles-All P topic p (suc n) ps h =
    take_handles-All P topic (suc p) n (remove_handle (topic, p) ps)
      (All-remove_handle P (topic, p) ps h)

-- The entry is not that of a key.
abbrev Apart : Text → ℕ → Key × PartitionHandle → Type 0
Apart topic p x = eqb_key x.0 (topic, p) ≡ false

remove_handle-Apart :
    (topic : Text) (p : ℕ) (ps : Partitions) → All (Apart topic p) (remove_handle (topic, p) ps)
unfolding remove_handle
remove_handle-Apart topic p ps =
    All-mono _ (Apart topic p) _ (λ x h. ground (arith, h))
      (All-passes (λ x. not (eqb_key x.0 (topic, p))) ps)

pub take_handles-Avoids :
    (topic : Text) (p n : ℕ) (ps : Partitions)
    → All (Avoids topic p n) (take_handles topic p n ps).1
unfolding take_handles
take_handles-Avoids topic p zero ps = All-of (Avoids topic p 0) ps (λ x e. ground arith)
take_handles-Avoids topic p (suc n) ps =
    let qs = remove_handle (topic, p) ps in
    let apart =
      take_handles-All (Apart topic p) topic (suc p) n qs (remove_handle-Apart topic p ps) in
    All-zip (Apart topic p) (Avoids topic (suc p) n) (Avoids topic p (suc n)) _
      (λ x a k e. ground (arith, a, e, k e)) apart (take_handles-Avoids topic (suc p) n qs)
