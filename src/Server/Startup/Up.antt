-- ===== src/Server/Startup/Up.antt =====
-- Every partition whose recovery succeeds is up behind the start.
use kafkrs.Prelude.{
  ℕ, zero, suc, ◌+◌, ◌≤◌, ◌<◌, ◌==◌, ==_refl, ==_iff, ◌≡◌, refl, true, inl, inr, some, [], ◌∷◌,
  arith, Bool-cases, Option-cases, subst,
}
use kafkrs.Models.Manifest.{Text}
use kafkrs.Models.Topic.{ResolvedTopicConfig}
use kafkrs.Server.ObjectStore.{eqb_text_refl}
use kafkrs.Server.Uploader.Sound.{is_some}
use kafkrs.Server.Partitions.{
  Key, Partitions, SpawnIo, recovered, eqb_key, get_handle, spawn_partition, spawn_range,
}

-- The recovery of every partition succeeds, and its WAL opens.
abbrev pub ComesUp : SpawnIo → Type 0
ComesUp io = (p : ℕ) → is_some (recovered io p) ≡ true

abbrev pub IsUp : Partitions → Key → Type 0
IsUp ps key = is_some (get_handle key ps) ≡ true

abbrev pub Grows : Partitions → Partitions → Type 0
Grows ps qs = (key : Key) → IsUp ps key → IsUp qs key

module _ (io : SpawnIo) (up : ComesUp io) (topic topic_uuid : Text)
    (cfg : ResolvedTopicConfig) where
  spawn_partition-IsUp :
      (p : ℕ) (ps : Partitions)
      → (qs : Partitions) × (spawn_partition io topic topic_uuid p cfg ps ≡ some qs)
        × Grows ps qs
        × IsUp qs (topic, p)
  unfolding spawn_partition get_handle
  spawn_partition-IsUp p ps = elim (Option-cases (get_handle (topic, p) ps)) [
    | inr (h, found) ↦ (ps, rw found refl, λ key k. k, rw found refl)
    | inl absent ↦ elim (Option-cases (recovered io p)) [
      | inl fails ↦ absurd (ground (arith, fails, up p))
      | inr (ms, recovers) ↦ (
        (
          (topic, p),
          record {
            cfg = cfg;
            started_with = cfg;
            uuid = topic_uuid;
            to_writer = [];
            to_uploader = ms;
          },
        )
            ∷ ps,
        simp (absent, recovers) refl,
        λ key k. elim (Bool-cases (eqb_key (topic, p) key)) [
          | inl same ↦ rw same refl
          | inr other ↦ rw other k
        ],
        simp (eqb_text_refl topic, ==_refl p) refl,
      )
    ]
  ]

  pub spawn_range-IsUp :
      (p n : ℕ) (ps : Partitions)
      → let out = spawn_range io topic topic_uuid cfg p n ps in
        (out.1 ≡ true) × Grows ps out.0 × ((q : ℕ) → p ≤ q → q < p + n → IsUp out.0 (topic, q))
  unfolding spawn_range
  spawn_range-IsUp p zero ps = (refl, λ key k. k, λ q ge lt. absurd (omega arith))
  spawn_range-IsUp p (suc n) ps =
      let (qs, spawns, grows, here) = spawn_partition-IsUp p ps in
      let goes : spawn_range io topic topic_uuid cfg p (suc n) ps
          ≡ spawn_range io topic topic_uuid cfg (suc p) n qs =
        ground (arith, spawns) in
      let (ok, grows', there) = spawn_range-IsUp (suc p) n qs in
      rw goes (
        ok,
        λ key k. grows' key (grows key k),
        λ q ge lt. elim (Bool-cases (p == q)) [
          | inl same ↦
              subst (λ r. IsUp (spawn_range io topic topic_uuid cfg (suc p) n qs).0 (topic, r))
                ((==_iff p q).0 same) (grows' (topic, p) here)
          | inr other ↦ there q (ground (arith, other, ge)) (omega arith)
        ],
      )
