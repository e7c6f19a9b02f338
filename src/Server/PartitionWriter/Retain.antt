-- ===== src/Server/PartitionWriter/Retain.antt =====
-- The loop of a writer loses nothing of the log that it has committed.
use kafkrs.Prelude.{
  ℕ, ◌<◌, ◌^◌, ◌≡◌, ◌⊎◌, refl, ap, ◌∙◌, true, inl, inr, some, none, List, [], ◌∷◌, arith, length,
  Bool-cases, List-cases,
}
use kafkrs.Prelude.Int.{ℤ}
use kafkrs.Models.Record.{Record}
use kafkrs.Server.PartitionWriter.State.{
  IncomingRecord, Writer, Actor, running, stopped, panicked, Io, Event, produce, locates,
  reads_active, segment_durable, update_config, shutdown, closed, timer,
}
use kafkrs.Server.PartitionWriter.Ops.{
  commit, accept, group_is_full, seal_and_handoff, seal_if_full,
}
use kafkrs.Server.PartitionWriter.Actor.{finish, flush_commit, on_produce, step, run}
use kafkrs.Server.PartitionWriter.Invariant.{IsConsistent}
use kafkrs.Server.PartitionWriter.Commit.{committed_files, commit-IsConsistent}
use kafkrs.Server.PartitionWriter.Seal.{seal_if_full-IsConsistent}
use kafkrs.Server.PartitionWriter.Flush.{
  IsSafe, flush_nothing, flush_synced, torn_state, flush_torn, sync_cases, seal_if_full-pending,
}
use kafkrs.Server.PartitionWriter.Accept.{Admissible, accept-IsConsistent}
use kafkrs.Server.PartitionWriter.Step.{Scheduled, step-IsSafe}
use kafkrs.Server.PartitionWriter.Log.{IsLogged, writer_of}
use kafkrs.Server.PartitionWriter.Reported.{
  reported, all_reported, all_reported-IsLogged, on_durable-IsLogged,
}
use kafkrs.Server.PartitionWriter.Logged.{seal-IsLogged, seal_if_full-IsLogged, commit-IsLogged}

module _ (start : ℕ) (old : List Record) where
  module _ (crc32c : List ℕ → ℕ) (crc_u32 : (bytes : List ℕ) → crc32c bytes < 2 ^ 32)
      (durable : List ℤ) where
    flush_outcomes :
        (io : Io) (w : Writer)
        → io.opens ≡ true
        → IsConsistent crc32c w
        → IsLogged start old durable w
        → ((w' : Writer) × (flush_commit crc32c io w ≡ running w')
            × (w'.pending ≡ [])
            × IsConsistent crc32c w'
            × IsLogged start old durable w')
          ⊎ ((w' : Writer) × (flush_commit crc32c io w ≡ panicked w')
              × IsLogged start old durable w')
    flush_outcomes io w o v g = elim (List-cases w.pending) [
      | inl e ↦ inl (w, flush_nothing crc32c crc_u32 io w e, e, v, g)
      | inr (r, rs, e) ↦ elim (sync_cases crc32c crc_u32 io.sync) [
        | inr (k, s) ↦
            inr (torn_state crc32c crc_u32 k w, flush_torn crc32c crc_u32 io w r rs k e s, g)
        | inl s ↦
            let some_pending : 0 < length w.pending = omega (arith, ap length e) in
            let done = commit (committed_files crc32c crc_u32 w) w in
            let empty : done.pending ≡ [] = unfold commit in refl in
            let v' = commit-IsConsistent crc32c crc_u32 w some_pending v in
            let g' = commit-IsLogged crc32c crc_u32 start old durable w some_pending v g in
            inl (
              seal_if_full true done,
              flush_synced crc32c crc_u32 io w r rs e s ∙ rw o,
              seal_if_full-pending crc32c crc_u32 true done empty,
              seal_if_full-IsConsistent crc32c crc_u32 done empty v',
              seal_if_full-IsLogged crc32c crc_u32 start old durable done empty v' g',
            )
      ]
    ]

    flush-IsLogged :
        (io : Io) (w : Writer)
        → io.opens ≡ true
        → IsConsistent crc32c w
        → IsLogged start old durable w
        → IsLogged start old durable (writer_of (flush_commit crc32c io w))
    flush-IsLogged io w o v g = elim (flush_outcomes io w o v g) [
      | inl (w', e, empty, v', g') ↦ rw e g'
      | inr (w', e, g') ↦ rw e g'
    ]

    shutdown-IsLogged :
        (io : Io) (w : Writer)
        → io.opens ≡ true
        → IsConsistent crc32c w
        → IsLogged start old durable w
        → IsLogged start old durable
            (writer_of (finish (seal_and_handoff io.opens) (flush_commit crc32c io w)))
    unfolding finish
    shutdown-IsLogged io w o v g = elim (flush_outcomes io w o v g) [
      | inl (w', e, empty, v', g') ↦
          rw (e, o) (seal-IsLogged crc32c crc_u32 start old durable w' empty v' g')
      | inr (w', e, g') ↦ rw e g'
    ]

    closed-IsLogged :
        (io : Io) (w : Writer)
        → io.opens ≡ true
        → IsConsistent crc32c w
        → IsLogged start old durable w
        → IsLogged start old durable (writer_of (finish (λ v. v) (flush_commit crc32c io w)))
    unfolding finish
    closed-IsLogged io w o v g = elim (flush_outcomes io w o v g) [
      | inl (w', e, empty, v', g') ↦ rw e g'
      | inr (w', e, g') ↦ rw e g'
    ]

    on_produce-IsLogged :
        (io : Io) (clock : ℕ → ℤ) (instant : ℕ) (incoming : List IncomingRecord) (ack : ℕ)
        (w : Writer)
        → io.opens ≡ true
        → Admissible crc32c crc_u32 (produce clock instant incoming ack) w
        → IsConsistent crc32c w
        → IsLogged start old durable w
        → IsLogged start old durable (writer_of (on_produce crc32c io clock instant incoming ack w))
    unfolding on_produce
    on_produce-IsLogged io clock instant incoming ack w o h v g =
        let w' = accept clock instant incoming ack w in
        let v' = accept-IsConsistent crc32c crc_u32 clock instant incoming ack w h v in
        let g' : IsLogged start old durable w' = unfold accept in g in
        elim (Bool-cases (group_is_full w')) [
          | inl full ↦ rw full (flush-IsLogged io w' o v' g')
          | inr room ↦ rw room g'
        ]

    timer-IsLogged :
        (io : Io) (w : Writer)
        → io.opens ≡ true
        → IsConsistent crc32c w
        → IsLogged start old durable w
        → IsLogged start old durable (writer_of (step crc32c io timer w))
    unfolding step
    timer-IsLogged io w o v g =
        elim w.pending_first_arrival
          as (λ x.
            IsLogged start old durable
              (writer_of (elim x [ none ↦ running w | some t ↦ flush_commit crc32c io w ]))) [
                | none ↦ g
                | some t ↦ flush-IsLogged io w o v g
              ]

    step-IsLogged :
        (io : Io) (e : Event) (w : Writer)
        → io.opens ≡ true
        → Admissible crc32c crc_u32 e w
        → IsConsistent crc32c w
        → IsLogged start old durable w
        → IsLogged start old (reported e durable) (writer_of (step crc32c io e w))
    unfolding step
    step-IsLogged io (produce clock instant incoming ack) w o h v g =
        on_produce-IsLogged io clock instant incoming ack w o h v g
    step-IsLogged io (locates from) w o h v g = g
    step-IsLogged io (reads_active from max_records) w o h v g = g
    step-IsLogged io (segment_durable base) w o h v g =
        on_durable-IsLogged start old io.removes base durable w g
    step-IsLogged io (update_config cfg) w o h v g = g
    step-IsLogged io shutdown w o h v g = shutdown-IsLogged io w o v g
    step-IsLogged io closed w o h v g = closed-IsLogged io w o v g
    step-IsLogged io timer w o h v g = timer-IsLogged io w o v g

  module _ (crc32c : List ℕ → ℕ) (crc_u32 : (bytes : List ℕ) → crc32c bytes < 2 ^ 32) where
    -- Whatever a consistent writer goes through, its log stays whole.
    pub run-IsLogged :
        (events : List (Io × Event)) (a : Actor) (durable : List ℤ)
        → Scheduled crc32c crc_u32 events a
        → IsSafe crc32c crc_u32 a
        → IsLogged start old durable (writer_of a)
        → IsLogged start old (all_reported events durable) (writer_of (run crc32c events a))
    unfolding run
    run-IsLogged [] a durable h v g = g
    run-IsLogged ((io, e) ∷ events) (running w) durable (o, h, rest) v g =
        run-IsLogged events (step crc32c io e w) (reported e durable) rest
          (step-IsSafe crc32c crc_u32 io e w o h v)
          (step-IsLogged crc32c crc_u32 durable io e w o h v g)
    run-IsLogged ((io, e) ∷ events) (stopped w) durable h v g =
        all_reported-IsLogged start old ((io, e) ∷ events) durable w g
    run-IsLogged ((io, e) ∷ events) (panicked w) durable h v g =
        all_reported-IsLogged start old ((io, e) ∷ events) durable w g
