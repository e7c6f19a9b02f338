-- ===== src/Server/PartitionWriter/Seal.antt =====
-- Sealing the active batch keeps a writer consistent.
use kafkrs.Prelude.{
  List-cases, leb, Bool, ℕ, suc, ◌+◌, ◌<◌, ◌^◌, ◌≡◌, refl, ap, ◌∙◌, true, inl, inr, some, none,
  List, [], ◌∷◌, ◌++◌, arith, length, All-mono, Bool-cases, subst, get_last?,
}
use kafkrs.Prelude.Int.{pos}
use kafkrs.Models.Record.{Record}
use kafkrs.Models.Wal.{encode_batch}
use kafkrs.Server.WalFiles.{open_wal, open_wal_fresh, open_wal_ne}
use kafkrs.Server.InFlight
use kafkrs.Server.PartitionWriter.State.{Writer}
use kafkrs.Server.PartitionWriter.Ops.{total_bytes, sealed_batch, seal_and_handoff, seal_if_full}
use kafkrs.Server.PartitionWriter.Invariant.{
  Consecutive, IsConsistent, Flights-files, Flights-insert, ne_test, ne_test_lt,
}

module _ (crc32c : List ℕ → ℕ) (crc_u32 : (bytes : List ℕ) → crc32c bytes < 2 ^ 32) where
  pub last_of : (r : Record) (rs : List Record) → (l : Record) × (get_last? (r ∷ rs) ≡ some l)
  last_of r [] = (r, refl)
  last_of r (q ∷ rs) = last_of q rs

  -- The writer with its active batch `r ∷ rs` sealed, the next WAL open.
  abbrev pub sealed_state : Writer → Record → Record → Writer
  sealed_state w first last = record w {
    active = [];
    active_bytes = 0;
    sealed = InFlight.insert first.offset w.active w.sealed;
    uploads = w.uploads ++ sealed_batch first last w.active ∷ [];
    segment_base = w.next_offset;
    wal = w.next_offset;
    files = open_wal w.files w.next_offset;
  }

  pub seal_lem :
      (w : Writer) (r l : Record) (rs : List Record)
      → w.active ≡ r ∷ rs
      → get_last? (r ∷ rs) ≡ some l
      → seal_and_handoff true w ≡ sealed_state w r l
  unfolding seal_and_handoff
  seal_lem w r l rs e h = ground arith

  -- Opening the WAL at the next offset touches no other file.
  opened :
      (w : Writer) (b top : ℕ)
      → w.next_offset ≡ pos top
      → b < top
      → open_wal w.files w.next_offset (pos b) ≡ w.files (pos b)
  opened w b top e h = open_wal_ne w.files w.next_offset (pos b) (rw e (ne_test_lt b top h))

  opened_above :
      (w : Writer) (b top : ℕ)
      → w.next_offset ≡ pos top
      → top < b
      → open_wal w.files w.next_offset (pos b) ≡ w.files (pos b)
  opened_above w b top e h = open_wal_ne w.files w.next_offset (pos b) (rw e (ne_test b top h))

  sealed_state-IsConsistent :
      (w : Writer) (r l : Record) (rs : List Record)
      → w.active ≡ r ∷ rs
      → w.pending ≡ []
      → IsConsistent crc32c w
      → IsConsistent crc32c (sealed_state w r l)
  unfolding encode_batch total_bytes
  sealed_state-IsConsistent w r l rs e none_pending v =
      let len : length w.active ≡ suc (length rs) = ap length e in
      let none_left : length w.pending ≡ 0 = ap length none_pending in
      let top : w.next_offset ≡ pos (v.base + length w.active) = v.next_at ∙ ap pos (omega arith) in
      let head_at : r.offset ≡ pos v.base =
        (subst (λ (rs : List Record). Consecutive v.base rs) e v.offsets).0 in
      let free : w.files w.next_offset ≡ none =
        rw top (v.fresh (v.base + length w.active) (omega arith)) in
      record {
        base = v.base + length w.active;
        base_at = top;
        wal_at = top;
        next_at = top ∙ ap pos (omega arith);
        bound = omega (arith, v.bound);
        offsets = tt;
        staged = rw none_pending tt;
        sound = tt;
        staged_sound = rw none_pending tt;
        stored = rw (← top) (open_wal_fresh w.files w.next_offset free);
        size = refl;
        flights = rw head_at (
            Flights-insert crc32c (open_wal w.files w.next_offset) 0 v.base w.sealed w.active
              (omega arith) v.offsets v.sound
              (opened w v.base (v.base + length w.active) top (omega arith) ∙ v.stored)
              (Flights-files crc32c w.files (open_wal w.files w.next_offset) 0 v.base w.sealed
                (λ b h. opened w b (v.base + length w.active) top (omega arith)) v.flights));
        fresh = λ n h. opened_above w n (v.base + length w.active) top h ∙ v.fresh n (omega arith);
        acknowledged = All-mono _ _ w.acked (λ a h. omega (arith, h)) v.acknowledged;
        announced = All-mono _ _ w.tail (λ a h. omega (arith, h)) v.announced;
      }

  pub seal_empty : (opens : Bool) (w : Writer) → w.active ≡ [] → seal_and_handoff opens w ≡ w
  unfolding seal_and_handoff
  seal_empty opens w e = ground arith

  pub seal-IsConsistent :
      (w : Writer)
      → w.pending ≡ []
      → IsConsistent crc32c w
      → IsConsistent crc32c (seal_and_handoff true w)
  seal-IsConsistent w e v = elim (List-cases w.active) [
    | inl idle ↦ rw (seal_empty true w idle) v
    | inr (r, rs, full) ↦
        let (l, at_end) = last_of r rs in
        rw (seal_lem w r l rs full at_end) (sealed_state-IsConsistent w r l rs full e v)
  ]

  pub seal_if_full-IsConsistent :
      (w : Writer)
      → w.pending ≡ []
      → IsConsistent crc32c w
      → IsConsistent crc32c (seal_if_full true w)
  unfolding seal_if_full
  seal_if_full-IsConsistent w e v =
      elim (Bool-cases (leb w.cfg.segment_size_bytes w.active_bytes)) [
        | inl full ↦ rw full (seal-IsConsistent w e v)
        | inr room ↦ rw room v
      ]
