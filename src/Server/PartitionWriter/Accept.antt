-- ===== src/Server/PartitionWriter/Accept.antt =====
-- Taking in a produce request keeps a writer consistent.
use kafkrs.Prelude.{
  ℕ, ◌+◌, ◌<◌, ◌^◌, ◌≡◌, ap, false, some, none, List, [], ◌∷◌, ◌++◌, arith, length, All, All-append,
  length-append,
}
use kafkrs.Prelude.Int.{ℤ, pos, pos_part, eqb_ℤ, IsI64}
use kafkrs.Models.Wal.Body.{IsEncodable}
use kafkrs.Server.PartitionWriter.State.{IncomingRecord, Writer, Event, produce, segment_durable}
use kafkrs.Server.PartitionWriter.Ops.{accept}
use kafkrs.Server.PartitionWriter.Invariant.{Consecutive-append, IsConsistent}
use kafkrs.Server.PartitionWriter.Assign.{
  assigned, push_incoming_lem, length-assigned, assigned-Consecutive, IsStorable,
  assigned-IsEncodable,
}

module _ (crc32c : List ℕ → ℕ) (crc_u32 : (bytes : List ℕ) → crc32c bytes < 2 ^ 32) where
  -- What a message may bring: storable records whose offsets do not reach 2 ^ 63, and the news of
  -- segments other than the one that is open.
  abbrev pub Admissible : Event → Writer → Type 0
  Admissible (produce clock instant incoming ack) w =
      ((i : ℕ) → IsI64 (clock i))
      × All IsStorable incoming
      × (pos_part w.next_offset + length incoming < 2 ^ 63)
  Admissible (segment_durable base) w = eqb_ℤ base w.wal ≡ false
  Admissible e w = Unit

  abbrev pub accepted : (ℕ → ℤ) → ℕ → List IncomingRecord → ℕ → Writer → ℕ → Writer
  accepted clock instant incoming ack w n = record w {
    pending = w.pending ++ assigned clock n incoming;
    next_offset = pos (n + length incoming);
    pending_acks = w.pending_acks ++ ack ∷ [];
    pending_first_arrival = elim w.pending_first_arrival [ none ↦ some instant | some t ↦ some t ];
  }

  pub accept_lem :
      (clock : ℕ → ℤ) (instant : ℕ) (incoming : List IncomingRecord) (ack : ℕ) (w : Writer) (n : ℕ)
      → w.next_offset ≡ pos n
      → n + length incoming < 2 ^ 63
      → accept clock instant incoming ack w ≡ accepted clock instant incoming ack w n
  unfolding accept
  accept_lem clock instant incoming ack w n e h =
      rw (e, push_incoming_lem clock incoming w.pending n h)

  accepted-IsConsistent :
      (clock : ℕ → ℤ) (instant : ℕ) (incoming : List IncomingRecord) (ack : ℕ) (w : Writer)
      → ((i : ℕ) → IsI64 (clock i))
      → All IsStorable incoming
      → (v : IsConsistent crc32c w)
      → v.base + length w.active + length w.pending + length incoming < 2 ^ 63
      → IsConsistent crc32c
          (accepted clock instant incoming ack w (v.base + length w.active + length w.pending))
  accepted-IsConsistent clock instant incoming ack w times storable v room =
      let n = v.base + length w.active + length w.pending in
      let total : n + length incoming
          ≡ v.base + length w.active + length (w.pending ++ assigned clock n incoming) =
        omega (
          arith,
          length-append w.pending (assigned clock n incoming),
          length-assigned clock n incoming,
        ) in
      record {
        base = v.base;
        base_at = v.base_at;
        wal_at = v.wal_at;
        next_at = ap pos total;
        bound = omega (arith, total, room);
        offsets = v.offsets;
        staged =
            Consecutive-append (v.base + length w.active) w.pending (assigned clock n incoming)
              v.staged (assigned-Consecutive clock n incoming);
        sound = v.sound;
        staged_sound =
            All-append IsEncodable w.pending (assigned clock n incoming) v.staged_sound
              (assigned-IsEncodable clock n incoming times room storable);
        stored = v.stored;
        size = v.size;
        flights = v.flights;
        fresh = v.fresh;
        acknowledged = v.acknowledged;
        announced = v.announced;
      }

  pub accept-IsConsistent :
      (clock : ℕ → ℤ) (instant : ℕ) (incoming : List IncomingRecord) (ack : ℕ) (w : Writer)
      → Admissible (produce clock instant incoming ack) w
      → IsConsistent crc32c w
      → IsConsistent crc32c (accept clock instant incoming ack w)
  accept-IsConsistent clock instant incoming ack w (times, storable, room) v =
      let room' : v.base + length w.active + length w.pending + length incoming < 2 ^ 63 =
        (rw v.next_at at room) in
      rw
        (accept_lem clock instant incoming ack w (v.base + length w.active + length w.pending)
          v.next_at room')
        (accepted-IsConsistent clock instant incoming ack w times storable v room')
