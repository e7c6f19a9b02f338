-- ===== src/Server/PartitionWriter/Logged.antt =====
-- Every turn of the loop keeps the log that the writer has committed.
use kafkrs.Prelude.{
  ℕ, suc, ◌+◌, ◌-◌, ◌<◌, ◌^◌, ◌≡◌, sym, ap, ◌∙◌, true, inl, inr, List, [], ◌∷◌, ◌++◌, arith, length,
  All, All-mono, All-append, Bool-cases, List-cases, leb, append-nil, append_assoc, length-append,
  subst,
}
use kafkrs.Prelude.Int.{ℤ, pos, pos_part}
use kafkrs.Models.Record.{Record}
use kafkrs.Server.PartitionWriter.State.{Writer}
use kafkrs.Server.PartitionWriter.Ops.{
  hwm, fire_acks, commit, sealed_batch, seal_and_handoff, seal_if_full,
}
use kafkrs.Server.PartitionWriter.Invariant.{Consecutive, Consecutive-append, IsConsistent}
use kafkrs.Server.PartitionWriter.Commit.{hwm_lem, committed_files}
use kafkrs.Server.PartitionWriter.Seal.{last_of, sealed_state, seal_lem, seal_empty}
use kafkrs.Server.PartitionWriter.Log.{
  handed_off, log_of, IsBetween, IsLogged, handed_off-append, Mem-insert_self, Mem-insert,
}

module _ (crc32c : List ℕ → ℕ) (crc_u32 : (bytes : List ℕ) → crc32c bytes < 2 ^ 32) (start : ℕ)
    (old : List Record) (durable : List ℤ) where
  -- The segment's base, counted in records of the log.
  base_counted :
      (w : Writer) (v : IsConsistent crc32c w)
      → IsLogged start old durable w
      → v.base ≡ start + length (handed_off w.uploads)
  base_counted w v g = omega (arith, ap pos_part (sym v.base_at ∙ g.base_at))

  sealed_log : (w : Writer) (r l : Record) → log_of (sealed_state crc32c crc_u32 w r l) ≡ log_of w
  unfolding sealed_batch
  sealed_log w r l = rw append-nil (handed_off-append w.uploads (sealed_batch r l w.active))

  sealed_state-IsLogged :
      (w : Writer) (r l : Record) (rs : List Record)
      → w.active ≡ r ∷ rs
      → w.pending ≡ []
      → IsConsistent crc32c w
      → IsLogged start old durable w
      → IsLogged start old durable (sealed_state crc32c crc_u32 w r l)
  unfolding sealed_batch
  sealed_state-IsLogged w r l rs e none_pending v g =
      let same = sealed_log w r l in
      let head_at : r.offset ≡ pos v.base =
        (subst (λ (rs : List Record). Consecutive v.base rs) e v.offsets).0 in
      let counted = base_counted w v g in
      let none_left : length w.pending ≡ 0 = ap length none_pending in
      record {
        later = g.later;
        grown = same ∙ g.grown;
        numbered = subst (Consecutive start) (sym same) g.numbered;
        base_at =
            v.next_at
            ∙ ap pos (
                omega (
                  arith,
                  counted,
                  none_left,
                  ap length (handed_off-append w.uploads (sealed_batch r l w.active)),
                  length-append (handed_off w.uploads) w.active,
                ));
        acknowledged =
            subst (λ rs. All (λ a. IsBetween start (start + length rs) a.1) w.acked) (sym same)
              g.acknowledged;
        kept =
            All-append _ w.uploads (sealed_batch r l w.active ∷ [])
              (All-mono _ _ w.uploads
                (λ b k. elim k [
                  | inl there ↦ inl (
                      rw head_at (
                        Mem-insert crc32c w.files 0 v.base w.active (b.base_offset, b.records)
                          w.sealed v.flights there))
                  | inr told ↦ inr told
                ])
                g.kept)
              (inl (Mem-insert_self r.offset w.active w.sealed), tt);
      }

  pub seal-IsLogged :
      (w : Writer)
      → w.pending ≡ []
      → IsConsistent crc32c w
      → IsLogged start old durable w
      → IsLogged start old durable (seal_and_handoff true w)
  seal-IsLogged w e v g = elim (List-cases w.active) [
    | inl idle ↦ rw (seal_empty crc32c crc_u32 true w idle) g
    | inr (r, rs, full) ↦
        let (l, at_end) = last_of crc32c crc_u32 r rs in
        rw (seal_lem crc32c crc_u32 w r l rs full at_end)
          (sealed_state-IsLogged w r l rs full e v g)
  ]

  pub seal_if_full-IsLogged :
      (w : Writer)
      → w.pending ≡ []
      → IsConsistent crc32c w
      → IsLogged start old durable w
      → IsLogged start old durable (seal_if_full true w)
  unfolding seal_if_full
  seal_if_full-IsLogged w e v g = elim (Bool-cases (leb w.cfg.segment_size_bytes w.active_bytes)) [
    | inl full ↦ rw full (seal-IsLogged w e v g)
    | inr room ↦ rw room g
  ]

  fire_acks-IsBetween :
      (n : ℕ) (acks : List ℕ) (h : ℤ)
      → IsBetween start n h
      → All (λ a. IsBetween start n a.1) (fire_acks acks h)
  unfolding fire_acks
  fire_acks-IsBetween n [] h b = tt
  fire_acks-IsBetween n (a ∷ acks) h b = (b, fire_acks-IsBetween n acks h b)

  pub commit-IsLogged :
      (w : Writer)
      → 0 < length w.pending
      → IsConsistent crc32c w
      → IsLogged start old durable w
      → IsLogged start old durable (commit (committed_files crc32c crc_u32 w) w)
  unfolding commit
  commit-IsLogged w some_pending v g =
      let same : handed_off w.uploads ++ (w.active ++ w.pending) ≡ log_of w ++ w.pending =
        sym (append_assoc (handed_off w.uploads) w.active w.pending) in
      let counted = base_counted w v g in
      let long = length-append (handed_off w.uploads) w.active in
      let longer = ap length same ∙ length-append (log_of w) w.pending in
      let ends : v.base + length w.active ≡ start + length (log_of w) =
        omega (arith, counted, long) in
      let total = v.base + length w.active + length w.pending in
      let n : total ≡ suc (total - 1) = omega arith in
      let last : hwm w ≡ pos (total - 1) =
        hwm_lem crc32c crc_u32 w (total - 1) (v.next_at ∙ ap pos n) (omega (arith, v.bound)) in
      let top = length (handed_off w.uploads ++ (w.active ++ w.pending)) in
      record {
        later = g.later ++ w.pending;
        grown = same ∙ ap (λ rs. rs ++ w.pending) g.grown ∙ append_assoc old g.later w.pending;
        numbered = subst (Consecutive start) (sym same) (
            Consecutive-append start (log_of w) w.pending g.numbered
              (subst (λ k. Consecutive k w.pending) ends v.staged));
        base_at = g.base_at;
        acknowledged =
            All-append (λ a. IsBetween start (start + top) a.1) w.acked
              (fire_acks w.pending_acks (hwm w))
              (All-mono _ _ w.acked (λ a h. (h.0, omega (arith, h.1, longer))) g.acknowledged)
              (fire_acks-IsBetween (start + top) w.pending_acks (hwm w)
                (rw last (omega (arith, counted), omega (arith, ends, longer))));
        kept = g.kept;
      }
