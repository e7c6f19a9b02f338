-- ===== src/Server/PartitionWriter/Commit.antt =====
-- The group commit keeps a writer consistent, and what it acknowledges is on disk.
use kafkrs.Prelude.{
  ℕ, suc, ◌+◌, ◌-◌, ◌<◌, ◌^◌, ◌≡◌, ap, ◌∙◌, false, List, [], ◌∷◌, ◌++◌, arith, length, All,
  All-mono, All-append, length-append,
}
use kafkrs.Prelude.Int.{prev_i64-suc, ℤ, pos, eqb_ℤ}
use kafkrs.Models.Wal.{encode_batch}
use kafkrs.Models.Wal.Body.{IsEncodable}
use kafkrs.Models.Wal.Scan.{encode_batch-append}
use kafkrs.Server.WalFiles.{Files, append_bytes, append_bytes_self, append_bytes_ne}
use kafkrs.Server.PartitionWriter.State.{Writer}
use kafkrs.Server.PartitionWriter.Ops.{commit, fire_acks, hwm}
use kafkrs.Server.PartitionWriter.Invariant.{
  Consecutive-append, total_bytes-append, IsConsistent, IsBelow, Flights-files, ne_test, ne_test_lt,
}

module _ (crc32c : List ℕ → ℕ) (crc_u32 : (bytes : List ℕ) → crc32c bytes < 2 ^ 32) where
  -- The files after the bytes of the whole group have been appended to the open WAL.
  abbrev pub committed_files : Writer → Files
  committed_files w = append_bytes w.files w.wal (encode_batch crc32c w.pending)

  committed_above :
      (w : Writer) (v : IsConsistent crc32c w) (n : ℕ)
      → eqb_ℤ (pos n) (pos v.base) ≡ false
      → committed_files w (pos n) ≡ w.files (pos n)
  committed_above w v n h =
      append_bytes_ne w.files w.wal (pos n) (encode_batch crc32c w.pending) (rw v.wal_at h)

  fire_acks-IsBelow :
      (n : ℕ) (acks : List ℕ) (h : ℤ) → IsBelow n h → All (λ a. IsBelow n a.1) (fire_acks acks h)
  unfolding fire_acks
  fire_acks-IsBelow n [] h b = tt
  fire_acks-IsBelow n (a ∷ acks) h b = (b, fire_acks-IsBelow n acks h b)

  -- The high-water mark is the offset of the last record, committed or pending.
  pub hwm_lem : (w : Writer) (n : ℕ) → w.next_offset ≡ pos (suc n) → suc n < 2 ^ 63 → hwm w ≡ pos n
  unfolding hwm
  hwm_lem w n e h = rw e (prev_i64-suc n h)

  hwm-IsBelow :
      (w : Writer)
      → 0 < length w.pending
      → (v : IsConsistent crc32c w) → IsBelow (v.base + length (w.active ++ w.pending)) (hwm w)
  hwm-IsBelow w some_pending v =
      let total = v.base + length w.active + length w.pending in
      let n : total ≡ suc (total - 1) = omega arith in
      rw (hwm_lem w (total - 1) (v.next_at ∙ ap pos n) (omega (arith, v.bound)))
        (omega (arith, length-append w.active w.pending))

  pub commit-IsConsistent :
      (w : Writer)
      → 0 < length w.pending
      → IsConsistent crc32c w
      → IsConsistent crc32c (commit (committed_files w) w)
  unfolding commit
  commit-IsConsistent w some_pending v = record {
    base = v.base;
    base_at = v.base_at;
    wal_at = v.wal_at;
    next_at = v.next_at ∙ ap pos (omega (arith, length-append w.active w.pending));
    bound = omega (arith, v.bound, length-append w.active w.pending);
    offsets = Consecutive-append v.base w.active w.pending v.offsets v.staged;
    staged = tt;
    sound = All-append IsEncodable w.active w.pending v.sound v.staged_sound;
    staged_sound = tt;
    stored = rw v.wal_at (
        append_bytes_self w.files (pos v.base) (encode_batch crc32c w.active)
          (encode_batch crc32c w.pending) v.stored
        ∙ rw (encode_batch-append crc32c crc_u32 w.active w.pending));
    size = omega (arith, v.size, total_bytes-append w.active w.pending);
    flights =
        Flights-files crc32c w.files (committed_files w) 0 v.base w.sealed
          (λ b h. committed_above w v b (ne_test_lt b v.base h)) v.flights;
    fresh = λ n h. committed_above w v n (ne_test n v.base h) ∙ v.fresh n h;
    acknowledged =
        All-append (λ a. IsBelow (v.base + length (w.active ++ w.pending)) a.1) w.acked
          (fire_acks w.pending_acks (hwm w))
          (All-mono _ _ w.acked (λ a h. omega (arith, h, length-append w.active w.pending))
            v.acknowledged)
          (fire_acks-IsBelow (v.base + length (w.active ++ w.pending)) w.pending_acks (hwm w)
            (hwm-IsBelow w some_pending v));
    announced =
        All-append (IsBelow (v.base + length (w.active ++ w.pending))) w.tail (hwm w ∷ [])
          (All-mono _ _ w.tail (λ a h. omega (arith, h, length-append w.active w.pending))
            v.announced)
          (hwm-IsBelow w some_pending v, tt);
  }
