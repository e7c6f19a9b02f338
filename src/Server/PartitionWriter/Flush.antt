-- ===== src/Server/PartitionWriter/Flush.antt =====
-- The group commit leaves a consistent writer, or a torn group when the fsync fails.
use kafkrs.Prelude.{
  ℕ, ◌+◌, ◌<◌, ◌^◌, ◌≡◌, ◌⊎◌, refl, ap, ◌∙◌, Bool, true, inl, inr, some, List, [], ◌∷◌, ◌++◌, arith,
  length, take, All, List-cases,
}
use kafkrs.Prelude.Int.{pos}
use kafkrs.Models.Record.{Record}
use kafkrs.Models.Wal.{encode_batch}
use kafkrs.Models.Wal.Body.{IsEncodable}
use kafkrs.Server.WalFiles.{
  Sync, synced, torn, append_bytes, append_bytes_self, append_bytes_ne, append_and_sync,
}
use kafkrs.Server.PartitionWriter.State.{Writer, Actor, running, stopped, panicked, Io}
use kafkrs.Server.PartitionWriter.Ops.{commit, seal_and_handoff, seal_if_full}
use kafkrs.Server.PartitionWriter.Actor.{flush_commit}
use kafkrs.Server.PartitionWriter.Invariant.{
  Consecutive, IsConsistent, IsBelow, Flights, Flights-files, ne_test_lt,
}
use kafkrs.Server.PartitionWriter.Commit.{committed_files, commit-IsConsistent}
use kafkrs.Server.PartitionWriter.Seal.{seal_if_full-IsConsistent}

module _ (crc32c : List ℕ → ℕ) (crc_u32 : (bytes : List ℕ) → crc32c bytes < 2 ^ 32) where
  -- What a panic in the middle of a group commit leaves: the committed records, then some bytes of
  -- the group.
  pub record IsTorn (w : Writer) : Type 0 where
    pub base : ℕ
    pub group : List Record
    pub count : ℕ
    pub base_at : w.segment_base ≡ pos base
    pub wal_at : w.wal ≡ pos base
    pub offsets : Consecutive base w.active
    pub staged : Consecutive (base + length w.active) group
    pub sound : All IsEncodable w.active
    pub group_sound : All IsEncodable group
    pub stored :
        w.files (pos base)
        ≡ some (encode_batch crc32c w.active ++ take count (encode_batch crc32c group))
    pub flights : Flights crc32c w.files 0 base w.sealed
    pub acknowledged : All (λ a. IsBelow (base + length w.active) a.1) w.acked

  abbrev pub IsSafe : Actor → Type 0
  IsSafe (running w) = IsConsistent crc32c w
  IsSafe (stopped w) = IsConsistent crc32c w
  IsSafe (panicked w) = IsTorn w

  pub flush_nothing : (io : Io) (w : Writer) → w.pending ≡ [] → flush_commit crc32c io w ≡ running w
  unfolding flush_commit
  flush_nothing io w e = ground arith

  pub flush_synced :
      (io : Io) (w : Writer) (r : Record) (rs : List Record)
      → w.pending ≡ r ∷ rs
      → io.sync ≡ synced
      → flush_commit crc32c io w
        ≡ running (seal_if_full io.opens (commit (committed_files crc32c crc_u32 w) w))
  unfolding flush_commit append_and_sync
  flush_synced io w r rs e s = ground arith

  abbrev pub torn_state : ℕ → Writer → Writer
  torn_state k w = record w {
    files = append_bytes w.files w.wal (take k (encode_batch crc32c w.pending));
    pending = [];
  }

  pub flush_torn :
      (io : Io) (w : Writer) (r : Record) (rs : List Record) (k : ℕ)
      → w.pending ≡ r ∷ rs
      → io.sync ≡ torn k
      → flush_commit crc32c io w ≡ panicked (torn_state k w)
  unfolding flush_commit append_and_sync
  flush_torn io w r rs k e s = ground arith

  pub sync_cases : (s : Sync) → (s ≡ synced) ⊎ ((k : ℕ) × (s ≡ torn k))
  sync_cases synced = inl refl
  sync_cases (torn k) = inr (k, refl)

  pub torn_state-IsTorn : (k : ℕ) (w : Writer) → IsConsistent crc32c w → IsTorn (torn_state k w)
  torn_state-IsTorn k w v = record {
    base = v.base;
    group = w.pending;
    count = k;
    base_at = v.base_at;
    wal_at = v.wal_at;
    offsets = v.offsets;
    staged = v.staged;
    sound = v.sound;
    group_sound = v.staged_sound;
    stored = rw v.wal_at (append_bytes_self w.files (pos v.base) _ _ v.stored);
    flights =
        Flights-files crc32c w.files (torn_state k w).files 0 v.base w.sealed
          (λ b h. append_bytes_ne w.files w.wal (pos b) _ (rw v.wal_at (ne_test_lt b v.base h)))
          v.flights;
    acknowledged = v.acknowledged;
  }

  pub seal_if_full-pending :
      (opens : Bool) (w : Writer) → w.pending ≡ [] → (seal_if_full opens w).pending ≡ []
  unfolding seal_if_full seal_and_handoff
  seal_if_full-pending opens w e = ground arith

  -- The group commit leaves a consistent writer with nothing pending, or a torn one.
  pub flush_cases :
      (io : Io) (w : Writer)
      → io.opens ≡ true
      → IsConsistent crc32c w
      → ((w' : Writer) × (flush_commit crc32c io w ≡ running w')
          × (w'.pending ≡ [])
          × IsConsistent crc32c w')
        ⊎ ((w' : Writer) × (flush_commit crc32c io w ≡ panicked w') × IsTorn w')
  flush_cases io w o v = elim (List-cases w.pending) [
    | inl e ↦ inl (w, flush_nothing io w e, e, v)
    | inr (r, rs, e) ↦ elim (sync_cases io.sync) [
      | inr (k, s) ↦ inr (torn_state k w, flush_torn io w r rs k e s, torn_state-IsTorn k w v)
      | inl s ↦
          let some_pending : 0 < length w.pending = omega (arith, ap length e) in
          let done = commit (committed_files crc32c crc_u32 w) w in
          let empty : done.pending ≡ [] = unfold commit in refl in
          inl (
            seal_if_full true done,
            flush_synced io w r rs e s ∙ rw o,
            seal_if_full-pending true done empty,
            seal_if_full-IsConsistent crc32c crc_u32 done empty
                (commit-IsConsistent crc32c crc_u32 w some_pending v),
          )
    ]
  ]

  pub flush-IsSafe :
      (io : Io) (w : Writer)
      → io.opens ≡ true
      → IsConsistent crc32c w
      → IsSafe (flush_commit crc32c io w)
  flush-IsSafe io w o v = elim (flush_cases io w o v) [
    | inl (w', e, empty, v') ↦ rw e v'
    | inr (w', e, t) ↦ rw e t
  ]
