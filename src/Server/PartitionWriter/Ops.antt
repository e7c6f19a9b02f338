-- ===== src/Server/PartitionWriter/Ops.antt =====
-- The operations of `PartitionWriter` that do not write records to disk.
use kafkrs.Prelude.{
  ℕ, suc, ◌+◌, ◌-◌, Bool, ◌||◌, Option, none, some, List, [], ◌∷◌, ◌++◌, leb, if◌then◌else◌, length,
  take, head?, get_last?, filter,
}
use kafkrs.Prelude.Int.{ℤ, pos, ltb_ℤ, leb_ℤ, eqb_ℤ, next_i64, prev_i64}
use kafkrs.Models.Record.{Record, payload_len}
use kafkrs.Models.Topic.{ResolvedTopicConfig}
use kafkrs.Server.WalFiles.{Files, open_wal, remove_wal}
use kafkrs.Server.InFlight
use kafkrs.Server.InFlight.{InFlight}
use kafkrs.Server.PartitionWriter.State.{
  IncomingRecord, SealedBatch, LocateResult, hwm_at, in_active_batch, in_flight, below_in_flight,
  Writer,
}

unfoldable pub total_bytes : List Record → ℕ
total_bytes [] = 0
total_bytes (r ∷ rs) = payload_len r + total_bytes rs

unfoldable pub hwm : Writer → ℤ
hwm w = prev_i64 w.next_offset

-- How long the loop may still sleep before it commits: `saturating_sub`.
unfoldable pub commit_timeout : Writer → ℕ → ℕ
commit_timeout w elapsed = w.cfg.group_commit_time_ms - elapsed

-- `PartitionWriter::new`
unfoldable pub new : ResolvedTopicConfig → ℤ → List Record → Files → Writer
new cfg start_offset recovered files =
    let base : ℤ = elim (head? recovered) [ none ↦ start_offset | some r ↦ r.offset ] in
    record {
      cfg = cfg;
      next_offset = start_offset;
      segment_base = base;
      active = recovered;
      active_bytes = total_bytes recovered;
      pending = [];
      pending_acks = [];
      pending_first_arrival = none;
      wal = base;
      sealed = [];
      files = open_wal files base;
      acked = [];
      uploads = [];
      tail = [];
    }

-- The frozen batch that goes to the uploader.
unfoldable pub sealed_batch : Record → Record → List Record → SealedBatch
sealed_batch first last records = record {
  records = records;
  base_offset = first.offset;
  last_offset = last.offset;
  base_timestamp_ns = first.timestamp_ns;
  last_timestamp_ns = last.timestamp_ns;
}

-- `seal_and_handoff`. When the next WAL does not open the error is logged, and the old file stays
-- the open one.
unfoldable pub seal_and_handoff : Bool → Writer → Writer
seal_and_handoff opens w = elim (head? w.active) [
  | none ↦ w
  | some first ↦ elim (get_last? w.active) [
    | none ↦ w
    | some last ↦
        let batch = sealed_batch first last w.active in
        record w {
          active = [];
          active_bytes = 0;
          sealed = InFlight.insert first.offset w.active w.sealed;
          uploads = w.uploads ++ batch ∷ [];
          segment_base = w.next_offset;
          wal = if opens then w.next_offset else w.wal;
          files = if opens then open_wal w.files w.next_offset else w.files;
        }
  ]
]

-- `for a in acks { a.send(self.next_offset - 1) }`
unfoldable pub fire_acks : List ℕ → ℤ → List (ℕ × ℤ)
fire_acks [] h = []
fire_acks (a ∷ acks) h = (a, h) ∷ fire_acks acks h

-- The part of `flush_commit` behind the fsync, up to the size test.
unfoldable pub commit : Files → Writer → Writer
commit files w = record w {
  files = files;
  pending = [];
  pending_acks = [];
  pending_first_arrival = none;
  acked = w.acked ++ fire_acks w.pending_acks (hwm w);
  active = w.active ++ w.pending;
  active_bytes = w.active_bytes + total_bytes w.pending;
  tail = w.tail ++ hwm w ∷ [];
}

unfoldable pub seal_if_full : Bool → Writer → Writer
seal_if_full opens w =
    if leb w.cfg.segment_size_bytes w.active_bytes then seal_and_handoff opens w else w

-- A record of a request with its offset and its time: 0 means that the broker stamps it.
unfoldable pub stamp : ℤ → ℤ → IncomingRecord → Record
stamp offset now inc = record {
  offset = offset;
  timestamp_ns = if eqb_ℤ inc.timestamp_ns (pos 0) then now else inc.timestamp_ns;
  schema_id = inc.schema_id;
  key = inc.key;
  value = inc.value;
}

-- The loop of `on_produce` over `pending` and `next_offset`; `clock i` is the i-th reading.
unfoldable pub push_incoming : (ℕ → ℤ) → List IncomingRecord → List Record → ℤ → List Record × ℤ
push_incoming clock [] pending next = (pending, next)
push_incoming clock (inc ∷ rest) pending next =
    push_incoming (λ i. clock (suc i)) rest (pending ++ stamp next (clock 0) inc ∷ [])
      (next_i64 next)

-- `on_produce` up to the test of the thresholds.
unfoldable pub accept : (ℕ → ℤ) → ℕ → List IncomingRecord → ℕ → Writer → Writer
accept clock instant incoming ack w =
    let (pending, next) = push_incoming clock incoming w.pending w.next_offset in
    record w {
      pending = pending;
      next_offset = next;
      pending_acks = w.pending_acks ++ ack ∷ [];
      pending_first_arrival = elim w.pending_first_arrival [
        | none ↦ some instant
        | some t ↦ some t
      ];
    }

unfoldable pub group_is_full : Writer → Bool
group_is_full w =
    leb w.cfg.group_commit_record_count (length w.pending)
    || leb w.cfg.group_commit_size_bytes (total_bytes w.pending)

unfoldable pub on_durable : Bool → ℤ → Writer → Writer
on_durable removes base w = record w {
  sealed = InFlight.remove base w.sealed;
  files = if removes then remove_wal w.files base else w.files;
}

unfoldable pub locate_committed : ℤ → Writer → Option LocateResult
locate_committed from w = elim (head? w.active) [
  | none ↦ if eqb_ℤ from (next_i64 (hwm w)) then some (hwm_at (hwm w)) else none
  | some first ↦ if leb_ℤ first.offset from then some in_active_batch else none
]

unfoldable pub locate_sealed : ℤ → InFlight → LocateResult
locate_sealed from [] = below_in_flight
locate_sealed from ((earliest, records) ∷ m) =
    if leb_ℤ earliest from then in_flight else below_in_flight

unfoldable pub locate : ℤ → Writer → LocateResult
locate from w =
    if ltb_ℤ (hwm w) from
    then hwm_at (hwm w)
    else elim (locate_committed from w) [ some found ↦ found | none ↦ locate_sealed from w.sealed ]

unfoldable pub read_active : ℤ → ℕ → Writer → List Record
read_active from max_records w = take max_records (filter (λ r. leb_ℤ from r.offset) w.active)

unfoldable pub in_flight_slice : ℤ → ℕ → Writer → List Record
in_flight_slice from max_records w =
    take max_records (filter (λ r. leb_ℤ from r.offset) (InFlight.values w.sealed))
