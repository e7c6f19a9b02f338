-- ===== src/Server/PartitionWriter/Step.antt =====
-- Every turn of the loop keeps a writer consistent.
use kafkrs.Prelude.{
  ℕ, ◌<◌, ◌^◌, ◌≡◌, refl, ◌∙◌, Bool, true, false, inl, inr, some, none, List, [], ◌∷◌, arith,
  Bool-cases,
}
use kafkrs.Prelude.Int.{ℤ, pos, eqb_ℤ}
use kafkrs.Server.WalFiles.{remove_wal, remove_wal_ne, write_at}
use kafkrs.Models.Topic.{ResolvedTopicConfig}
use kafkrs.Server.PartitionWriter.State.{
  IncomingRecord, Writer, Actor, running, stopped, panicked, Io, Event, produce, locates,
  reads_active, segment_durable, update_config, shutdown, closed, timer,
}
use kafkrs.Server.PartitionWriter.Ops.{seal_and_handoff, accept, group_is_full, on_durable}
use kafkrs.Server.PartitionWriter.Actor.{finish, flush_commit, on_produce, step, run}
use kafkrs.Server.PartitionWriter.Invariant.{IsConsistent, Flights-remove}
use kafkrs.Server.PartitionWriter.Seal.{seal-IsConsistent}
use kafkrs.Server.PartitionWriter.Flush.{IsSafe, flush_cases, flush-IsSafe}
use kafkrs.Server.PartitionWriter.Accept.{Admissible, accept-IsConsistent}

module _ (crc32c : List ℕ → ℕ) (crc_u32 : (bytes : List ℕ) → crc32c bytes < 2 ^ 32) where
  on_produce-IsSafe :
      (io : Io) (clock : ℕ → ℤ) (instant : ℕ) (incoming : List IncomingRecord) (ack : ℕ)
      (w : Writer)
      → io.opens ≡ true
      → Admissible crc32c crc_u32 (produce clock instant incoming ack) w
      → IsConsistent crc32c w
      → IsSafe crc32c crc_u32 (on_produce crc32c io clock instant incoming ack w)
  unfolding on_produce
  on_produce-IsSafe io clock instant incoming ack w o h v =
      let w' = accept clock instant incoming ack w in
      let v' = accept-IsConsistent crc32c crc_u32 clock instant incoming ack w h v in
      elim (Bool-cases (group_is_full w')) [
        | inl full ↦ rw full (flush-IsSafe crc32c crc_u32 io w' o v')
        | inr room ↦ rw room v'
      ]

  on_durable_files :
      (removes : Bool) (base k : ℤ) (w : Writer)
      → eqb_ℤ k base ≡ false
      → (on_durable removes base w).files k ≡ w.files k
  unfolding on_durable
  on_durable_files true base k w h = remove_wal_ne w.files base k h
  on_durable_files false base k w h = refl

  on_durable-none :
      (removes : Bool) (base k : ℤ) (w : Writer)
      → w.files k ≡ none
      → (on_durable removes base w).files k ≡ none
  unfolding on_durable remove_wal write_at
  on_durable-none true base k w h = ground arith
  on_durable-none false base k w h = h

  on_durable-IsConsistent :
      (removes : Bool) (base : ℤ) (w : Writer)
      → eqb_ℤ base w.wal ≡ false
      → IsConsistent crc32c w
      → IsConsistent crc32c (on_durable removes base w)
  unfolding on_durable
  on_durable-IsConsistent removes base w h v =
      let files = (on_durable removes base w).files in
      let open_kept : eqb_ℤ (pos v.base) base ≡ false = ground (arith, v.wal_at) in
      record {
        base = v.base;
        base_at = v.base_at;
        wal_at = v.wal_at;
        next_at = v.next_at;
        bound = v.bound;
        offsets = v.offsets;
        staged = v.staged;
        sound = v.sound;
        staged_sound = v.staged_sound;
        stored = on_durable_files removes base (pos v.base) w open_kept ∙ v.stored;
        size = v.size;
        flights =
            Flights-remove crc32c w.files files 0 v.base base w.sealed
              (λ k g. on_durable_files removes base k w (ground (arith, g))) v.flights;
        fresh = λ n g. on_durable-none removes base (pos n) w (v.fresh n g);
        acknowledged = v.acknowledged;
        announced = v.announced;
      }

  update_config-IsConsistent :
      (cfg : ResolvedTopicConfig) (w : Writer)
      → IsConsistent crc32c w
      → IsConsistent crc32c (record w { cfg = cfg })
  update_config-IsConsistent cfg w v = record {
    base = v.base;
    base_at = v.base_at;
    wal_at = v.wal_at;
    next_at = v.next_at;
    bound = v.bound;
    offsets = v.offsets;
    staged = v.staged;
    sound = v.sound;
    staged_sound = v.staged_sound;
    stored = v.stored;
    size = v.size;
    flights = v.flights;
    fresh = v.fresh;
    acknowledged = v.acknowledged;
    announced = v.announced;
  }

  shutdown-IsSafe :
      (io : Io) (w : Writer)
      → io.opens ≡ true
      → IsConsistent crc32c w
      → IsSafe crc32c crc_u32 (finish (seal_and_handoff io.opens) (flush_commit crc32c io w))
  unfolding finish
  shutdown-IsSafe io w o v = elim (flush_cases crc32c crc_u32 io w o v) [
    | inl (w', e, empty, v') ↦ rw (e, o) (seal-IsConsistent crc32c crc_u32 w' empty v')
    | inr (w', e, t) ↦ rw e t
  ]

  closed-IsSafe :
      (io : Io) (w : Writer)
      → io.opens ≡ true
      → IsConsistent crc32c w
      → IsSafe crc32c crc_u32 (finish (λ v. v) (flush_commit crc32c io w))
  unfolding finish
  closed-IsSafe io w o v = elim (flush_cases crc32c crc_u32 io w o v) [
    | inl (w', e, empty, v') ↦ rw e v'
    | inr (w', e, t) ↦ rw e t
  ]

  timer-IsSafe :
      (io : Io) (w : Writer)
      → io.opens ≡ true
      → IsConsistent crc32c w
      → IsSafe crc32c crc_u32 (step crc32c io timer w)
  unfolding step
  timer-IsSafe io w o v =
      elim w.pending_first_arrival
        as (λ x.
          IsSafe crc32c crc_u32 (elim x [ none ↦ running w | some t ↦ flush_commit crc32c io w ])) [
            | none ↦ v
            | some t ↦ flush-IsSafe crc32c crc_u32 io w o v
          ]

  -- One turn of the loop takes a consistent writer to a consistent one, or to a torn one when the
  -- fsync of a group commit fails. The next WAL opens when one is due, and the message is
  -- admissible.
  pub step-IsSafe :
      (io : Io) (e : Event) (w : Writer)
      → io.opens ≡ true
      → Admissible crc32c crc_u32 e w
      → IsConsistent crc32c w
      → IsSafe crc32c crc_u32 (step crc32c io e w)
  unfolding step
  step-IsSafe io (produce clock instant incoming ack) w o h v =
      on_produce-IsSafe io clock instant incoming ack w o h v
  step-IsSafe io (locates from) w o h v = v
  step-IsSafe io (reads_active from max_records) w o h v = v
  step-IsSafe io (segment_durable base) w o h v = on_durable-IsConsistent io.removes base w h v
  step-IsSafe io (update_config cfg) w o h v = update_config-IsConsistent cfg w v
  step-IsSafe io shutdown w o h v = shutdown-IsSafe io w o v
  step-IsSafe io closed w o h v = closed-IsSafe io w o v
  step-IsSafe io timer w o h v = timer-IsSafe io w o v

  -- The events that reach a running writer are admissible when their turn comes, and each WAL that
  -- is due opens.
  abbrev pub Scheduled : List (Io × Event) → Actor → Type 0
  Scheduled [] a = Unit
  Scheduled ((io, e) ∷ events) (running w) =
      (io.opens ≡ true) × Admissible crc32c crc_u32 e w × Scheduled events (step crc32c io e w)
  Scheduled ((io, e) ∷ events) (stopped w) = Unit
  Scheduled ((io, e) ∷ events) (panicked w) = Unit

  -- Whatever sequence of admissible messages, timer expiries and disk failures a consistent writer
  -- goes through, it ends consistent, or torn where a group commit's fsync failed, provided that
  -- the next WAL opens whenever one is due.
  pub run-IsSafe :
      (events : List (Io × Event)) (a : Actor)
      → Scheduled events a
      → IsSafe crc32c crc_u32 a
      → IsSafe crc32c crc_u32 (run crc32c events a)
  unfolding run
  run-IsSafe [] a h v = v
  run-IsSafe ((io, e) ∷ events) (running w) (o, h, rest) v =
      run-IsSafe events (step crc32c io e w) rest (step-IsSafe io e w o h v)
  run-IsSafe ((io, e) ∷ events) (stopped w) h v = v
  run-IsSafe ((io, e) ∷ events) (panicked w) h v = v
