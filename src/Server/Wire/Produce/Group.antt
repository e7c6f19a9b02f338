-- ===== src/Server/Wire/Produce/Group.antt =====
-- What two produce requests in one group commit are answered.
use kafkrs.Prelude.{
  ℕ, suc, ◌+◌, ◌-◌, ◌<◌, ◌≤◌, ◌^◌, ◌≡◌, ◌∙◌, refl, ap, List, [], ◌∷◌, ◌++◌, arith, length,
}
use kafkrs.Prelude.Int.{ℤ, pos, ◌-ℤ◌, ◌+ℤ◌, to_u64, from_u64, wrap_i64}
use kafkrs.Server.WalFiles.{Files}
use kafkrs.Server.PartitionWriter.State.{IncomingRecord, Writer}
use kafkrs.Server.PartitionWriter.Ops.{accept, commit, fire_acks, hwm}
use kafkrs.Server.PartitionWriter.Accept.{accepted, accept_lem}
use kafkrs.Server.PartitionWriter.Commit.{hwm_lem}
use kafkrs.Server.Wire.Produce.{produce_response}

-- The base offset of an answer, counted back from the high-water mark.
response_lem :
    (n h : ℕ)
    → n ≤ suc h
    → suc h < 2 ^ 63
    → (produce_response n (pos h)).base_offset ≡ pos (suc h - n)
unfolding produce_response wrap_i64 to_u64 from_u64 ◌-ℤ◌ ◌+ℤ◌
response_lem n h k b = ground arith

commit_acked :
    (files : Files) (w : Writer) (h : ℤ) (a1 a2 : ℕ)
    → w.pending_acks ≡ a1 ∷ a2 ∷ []
    → hwm w ≡ h
    → (commit files w).acked ≡ w.acked ++ (a1, h) ∷ (a2, h) ∷ []
unfolding commit fire_acks hwm
commit_acked files w h a1 a2 e k = rw (e, k) refl

module _ (crc32c : List ℕ → ℕ) (crc_u32 : (bytes : List ℕ) → crc32c bytes < 2 ^ 32) where
  -- Two requests of n1 and n2 records, not both empty, taken in one after the other with no ack
  -- pending before them and committed together, at offsets below 2 ^ 63, are both acknowledged with
  -- the offset of the group's last record, so that the answers give n + n2 for the base offset of
  -- the first, whose records start at n, and n + n1, the right one, for the second.
  pub group-base_offsets :
      (c1 c2 : ℕ → ℤ) (t1 t2 : ℕ) (in1 in2 : List IncomingRecord) (a1 a2 : ℕ) (files : Files)
      (w : Writer) (n : ℕ)
      → w.next_offset ≡ pos n
      → w.pending_acks ≡ []
      → 0 < length in1 + length in2
      → n + length in1 + length in2 < 2 ^ 63
      → (h : ℤ) × ((commit files (accept c2 t2 in2 a2 (accept c1 t1 in1 a1 w))).acked
          ≡ w.acked ++ (a1, h) ∷ (a2, h) ∷ [])
        × ((produce_response (length in1) h).base_offset ≡ pos (n + length in2))
        × ((produce_response (length in2) h).base_offset ≡ pos (n + length in1))
  group-base_offsets c1 c2 t1 t2 in1 in2 a1 a2 files w n e none_before some_records room =
      let n1 = length in1 in
      let n2 = length in2 in
      let last = n + n1 + n2 - 1 in
      let w1 = accepted crc32c crc_u32 c1 t1 in1 a1 w n in
      let w2 = accepted crc32c crc_u32 c2 t2 in2 a2 w1 (n + n1) in
      let e1 : accept c1 t1 in1 a1 w ≡ w1 =
        accept_lem crc32c crc_u32 c1 t1 in1 a1 w n e (omega arith) in
      let e2 : accept c2 t2 in2 a2 w1 ≡ w2 =
        accept_lem crc32c crc_u32 c2 t2 in2 a2 w1 (n + n1) refl room in
      let at_last : hwm w2 ≡ pos last =
        hwm_lem crc32c crc_u32 w2 last (ap pos (omega arith)) (omega arith) in
      (
        pos last,
        ap (λ v. (commit files (accept c2 t2 in2 a2 v)).acked) e1
            ∙ ap (λ v. (commit files v).acked) e2
            ∙ commit_acked files w2 (pos last) a1 a2 (rw none_before refl) at_last,
        response_lem n1 last (omega arith) (omega arith) ∙ ap pos (omega arith),
        response_lem n2 last (omega arith) (omega arith) ∙ ap pos (omega arith),
      )
