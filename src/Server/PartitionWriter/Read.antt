-- ===== src/Server/PartitionWriter/Read.antt =====
-- What `Locate` and `ReadActive` answer.
use kafkrs.Prelude.{
  ℕ, zero, suc, ◌+◌, ◌-◌, ◌<◌, ◌≤◌, ◌^◌, ◌≡◌, ◌∙◌, refl, ap, List, [], ◌∷◌, arith, length, take,
  drop, filter, sym, inl, inr, ◌⊎◌, any, if◌then◌else◌, List-cases, subst,
}
use kafkrs.Prelude.Int.{next_i64, next_i64_pos, pos, leb_ℤ}
use kafkrs.Models.Record.{Record}
use kafkrs.Server.InFlight.{values}
use kafkrs.Server.PartitionWriter.State.{
  Writer, hwm_at, in_active_batch, in_flight, below_in_flight,
}
use kafkrs.Server.PartitionWriter.Ops.{hwm, locate, locate_committed, locate_sealed, read_active}
use kafkrs.Server.PartitionWriter.Invariant.{Consecutive, IsConsistent}
use kafkrs.Server.PartitionWriter.Tiers.{
  at_or_after, before, locate_sealed-tier, locate_sealed-under,
}
use kafkrs.Server.PartitionWriter.Commit.{hwm_lem}

filter-Consecutive_all :
    (n m : ℕ) (rs : List Record)
    → n ≤ m
    → Consecutive m rs
    → filter (λ r. leb_ℤ (pos n) r.offset) rs ≡ rs
unfolding filter
filter-Consecutive_all n m [] h c = refl
filter-Consecutive_all n m (r ∷ rs) h (e, c) =
    rw (e, at_or_after n m h, filter-Consecutive_all n (suc m) rs (omega arith) c)

filter-Consecutive :
    (k m : ℕ) (rs : List Record)
    → Consecutive m rs
    → filter (λ r. leb_ℤ (pos (m + k)) r.offset) rs ≡ drop k rs
unfolding filter
filter-Consecutive zero m rs c = filter-Consecutive_all (m + 0) m rs (omega arith) c
filter-Consecutive (suc k) m [] c = refl
filter-Consecutive (suc k) m (r ∷ rs) (e, c) =
    let z : m + suc k ≡ suc m + k = omega arith in
    rw (e, before (m + suc k) m (omega arith))
      (subst (λ (j : ℕ). filter (λ r. leb_ℤ (pos j) r.offset) rs ≡ drop k rs) (sym z)
        (filter-Consecutive k (suc m) rs c))

module _ (crc32c : List ℕ → ℕ) (crc_u32 : (bytes : List ℕ) → crc32c bytes < 2 ^ 32) where
  -- A read of a consistent writer at the k-th offset of its segment returns the active batch from
  -- its k-th record on, `max_records` of them at most: no pending record, no gap, no repetition.
  pub read_active_lem :
      (w : Writer) (v : IsConsistent crc32c w) (k max_records : ℕ)
      → read_active (pos (v.base + k)) max_records w ≡ take max_records (drop k w.active)
  unfolding read_active
  read_active_lem w v k max_records =
      ap (take max_records) (filter-Consecutive k v.base w.active v.offsets)

  head_at :
      (w : Writer) (v : IsConsistent crc32c w) (r : Record) (rs : List Record)
      → w.active ≡ r ∷ rs
      → r.offset ≡ pos v.base
  head_at w v r rs e = (subst (λ (qs : List Record). Consecutive v.base qs) e v.offsets).0

  -- The number of the next record, committed or pending.
  abbrev pub next_of : (w : Writer) → IsConsistent crc32c w → ℕ
  next_of w v = v.base + length w.active + length w.pending

  hwm_at_last :
      (w : Writer) (v : IsConsistent crc32c w) → 0 < length w.active → hwm w ≡ pos (next_of w v - 1)
  hwm_at_last w v h =
      let z : next_of w v ≡ suc (next_of w v - 1) = omega arith in
      hwm_lem crc32c crc_u32 w (next_of w v - 1) (v.next_at ∙ ap pos z) (omega (arith, v.bound))

  locate_in_active :
      (w : Writer) (v : IsConsistent crc32c w) (n : ℕ) (r : Record) (rs : List Record)
      → w.active ≡ r ∷ rs
      → v.base ≤ n
      → n < next_of w v
      → locate (pos n) w ≡ in_active_batch
  unfolding locate locate_committed
  locate_in_active w v n r rs e h k =
      let last : hwm w ≡ pos (next_of w v - 1) = hwm_at_last w v (omega (arith, ap length e)) in
      let first : r.offset ≡ pos v.base = head_at w v r rs e in ground (arith, last, first)

  locate_above :
      (w : Writer) (v : IsConsistent crc32c w) (n : ℕ)
      → 0 < length w.active
      → next_of w v ≤ n
      → locate (pos n) w ≡ hwm_at (pos (next_of w v - 1))
  unfolding locate
  locate_above w v n h k = let last = hwm_at_last w v h in ground (arith, last)

  locate_below :
      (w : Writer) (v : IsConsistent crc32c w) (n : ℕ) (r : Record) (rs : List Record)
      → w.active ≡ r ∷ rs
      → n < v.base
      → locate (pos n) w ≡ locate_sealed (pos n) w.sealed
  unfolding locate locate_committed
  locate_below w v n r rs e k =
      let last : hwm w ≡ pos (next_of w v - 1) = hwm_at_last w v (omega (arith, ap length e)) in
      let first : r.offset ≡ pos v.base = head_at w v r rs e in ground (arith, last, first)

  -- Where a consistent writer that has committed records since it opened its segment sends a
  -- fetch: an offset from the segment's base up to the last one assigned, to the active batch; one
  -- past it, to the tail; and one below the segment's base, to the sealed segments if one of their
  -- records does not lie above it, otherwise to the object store.
  pub locate_lem :
      (w : Writer) (v : IsConsistent crc32c w) (n : ℕ)
      → 0 < length w.active
      → (v.base ≤ n → n < next_of w v → locate (pos n) w ≡ in_active_batch)
        × (next_of w v ≤ n → locate (pos n) w ≡ hwm_at (pos (next_of w v - 1)))
        × (n < v.base
            → locate (pos n) w ≡ (
                if any (λ r. leb_ℤ r.offset (pos n)) (values w.sealed)
                then in_flight
                else below_in_flight))
  locate_lem w v n h = elim (List-cases w.active) [
    | inl e ↦ absurd (omega (arith, ap length e))
    | inr (r, rs, e) ↦ (
      locate_in_active w v n r rs e,
      locate_above w v n h,
      λ k.
          locate_below w v n r rs e k
          ∙ locate_sealed-tier crc32c w.files n 0 v.base w.sealed v.flights,
    )
  ]

  pending_sealed :
      (w : Writer) (v : IsConsistent crc32c w) (n : ℕ)
      → w.active ≡ []
      → v.base ≤ n
      → n < next_of w v
      → locate (pos n) w ≡ locate_sealed (pos n) w.sealed
  unfolding locate locate_committed
  pending_sealed w v n e h k =
      let z : next_of w v ≡ suc (next_of w v - 1) = omega arith in
      let last : hwm w ≡ pos (next_of w v - 1) =
        hwm_lem crc32c crc_u32 w (next_of w v - 1) (v.next_at ∙ ap pos z)
          (omega (arith, v.bound)) in
      let next : next_i64 (hwm w) ≡ pos (next_of w v) =
        ap next_i64 last
        ∙ next_i64_pos (next_of w v - 1) (omega (arith, v.bound))
        ∙ ap pos (sym z) in
      ground (arith, last, next)

  -- While nothing is committed in the open segment, an offset that is assigned but pending is not
  -- sent to the tail: it goes to the object store when no segment is sealed, and to the sealed
  -- segments when one is.
  pub locate_pending :
      (w : Writer) (v : IsConsistent crc32c w) (n : ℕ)
      → w.active ≡ []
      → v.base ≤ n
      → n < next_of w v
      → ((w.sealed ≡ []) × (locate (pos n) w ≡ below_in_flight))
        ⊎ ((0 < length w.sealed) × (locate (pos n) w ≡ in_flight))
  locate_pending w v n e h k =
      rw (pending_sealed w v n e h k)
        (locate_sealed-under crc32c w.files n 0 v.base w.sealed h v.flights)
