-- ===== src/Server/PartitionWriter/Actor.antt =====
-- `PartitionWriter`'s group commit, its message handlers and its loop.
use kafkrs.Prelude.{ℕ, none, some, List, [], ◌∷◌, if◌then◌else◌}
use kafkrs.Prelude.Int.{ℤ}
use kafkrs.Server.WalFiles.{append_and_sync}
use kafkrs.Server.PartitionWriter.State.{
  IncomingRecord, Writer, Actor, running, stopped, panicked, Io, Event, produce, locates,
  reads_active, segment_durable, update_config, shutdown, closed, timer,
}
use kafkrs.Server.PartitionWriter.Ops.{
  seal_and_handoff, commit, seal_if_full, accept, group_is_full, on_durable,
}

-- What follows the final flush: a panicked actor seals nothing.
unfoldable pub finish : (Writer → Writer) → Actor → Actor
finish f (running w) = stopped (f w)
finish f (stopped w) = stopped w
finish f (panicked w) = panicked w

module _ (crc32c : List ℕ → ℕ) where
  -- A failed fsync is an `expect` that panics, with the group already taken out of `pending`.
  unfoldable pub flush_commit : Io → Writer → Actor
  flush_commit io w = elim w.pending [
    | [] ↦ running w
    | r ∷ rs ↦
        let (files, durable) = append_and_sync crc32c io.sync w.files w.wal w.pending in
        if durable
        then running (seal_if_full io.opens (commit files w))
        else panicked (record w { files = files; pending = [] })
  ]

  unfoldable pub on_produce : Io → (ℕ → ℤ) → ℕ → List IncomingRecord → ℕ → Writer → Actor
  on_produce io clock instant incoming ack w =
      let w' = accept clock instant incoming ack w in
      if group_is_full w' then flush_commit io w' else running w'

  -- One turn of the loop of `run`. The timer is armed only while a first arrival is recorded.
  unfoldable pub step : Io → Event → Writer → Actor
  step io (produce clock instant incoming ack) w = on_produce io clock instant incoming ack w
  step io (locates from) w = running w
  step io (reads_active from max_records) w = running w
  step io (segment_durable base) w = running (on_durable io.removes base w)
  step io (update_config cfg) w = running (record w { cfg = cfg })
  step io shutdown w = finish (seal_and_handoff io.opens) (flush_commit io w)
  step io closed w = finish (λ v. v) (flush_commit io w)
  step io timer w = elim w.pending_first_arrival [ none ↦ running w | some t ↦ flush_commit io w ]

  -- The loop, over the events that reach it.
  unfoldable pub run : List (Io × Event) → Actor → Actor
  run [] a = a
  run ((io, e) ∷ events) (running w) = run events (step io e w)
  run ((io, e) ∷ events) (stopped w) = stopped w
  run ((io, e) ∷ events) (panicked w) = panicked w
