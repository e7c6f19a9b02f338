-- ===== src/Server/Uploader/Drain.antt =====
-- The loop of the uploader takes its messages in order, and tells the writer of every segment.
use kafkrs.Prelude.{
  ℕ, ◌≡◌, ◌⊎◌, refl, sym, inl, inr, Bool, true, false, Option, some, List, [], ◌∷◌, ◌++◌, arith,
  All, subst, append-nil, append_assoc,
}
use kafkrs.Prelude.Int.{ℤ, ◌≤ℤ◌}
use kafkrs.Models.Record.{Record}
use kafkrs.Models.Manifest.{Manifest}
use kafkrs.Server.ObjectStore.{Store}
use kafkrs.Server.PartitionWriter.State.{SealedBatch}
use kafkrs.Server.Partitions.{Message, update_config, retention_kick, shutdown}
use kafkrs.Server.Uploader
use kafkrs.Server.Uploader.{segment_entry, retention_pass}
use kafkrs.Server.Uploader.Order.{Disjoint}
use kafkrs.Server.Uploader.Sound.{IsSound}
use kafkrs.Server.Uploader.Settle.{upload-Settled}
use kafkrs.Server.Uploader.Pass.{retention_pass-IsSound}
use kafkrs.Server.Uploader.Each.{Each, upload-Each, retention_pass-Each}
use kafkrs.Server.Uploader.Actor.{Turn, State, halted, after_pass, uploaded, step, run}

-- The batches that are queued before the first shutdown.
unfoldable pub queued : List (Turn × Message) → List SealedBatch
queued [] = []
queued ((turn, Message.upload batch) ∷ msgs) = batch ∷ queued msgs
queued ((turn, shutdown) ∷ msgs) = []
queued ((turn, msg) ∷ msgs) = queued msgs

abbrev pub bases : List SealedBatch → List ℤ
bases [] = []
bases (b ∷ bs) = b.base_offset ∷ bases bs

module _ (write_segment : List Record → Option (List ℕ)) (to_vec : Manifest → List ℕ)
    (from_slice : List ℕ → Option Manifest)
    (from_slice-to_vec : (m : Manifest) → from_slice (to_vec m) ≡ some m) where
  abbrev Sound : Store → Type 0
  Sound store = IsSound write_segment to_vec from_slice from_slice-to_vec store

  -- No segment of the manifest overlaps the batch.
  abbrev pub Clear : Store → SealedBatch → Type 0
  Clear store b =
      Each write_segment to_vec from_slice from_slice-to_vec (Disjoint (segment_entry b 0)) store

  -- Batches that overlap neither the manifest nor each other.
  abbrev pub Placed : Store → List SealedBatch → Type 0
  Placed store [] = Unit
  Placed store (b ∷ bs) =
      (b.base_offset ≤ℤ b.last_offset)
      × Clear store b
      × All (λ c. Disjoint (segment_entry b 0) (segment_entry c 0)) bs
      × Placed store bs

  upload-Placed :
      (turn : Turn) (batch : SealedBatch) (store : Store) (bs : List SealedBatch)
      → All (λ c. Disjoint (segment_entry batch 0) (segment_entry c 0)) bs
      → Placed store bs
      → Placed (Uploader.upload write_segment to_vec from_slice turn.attempts batch store).0 bs
  unfolding segment_entry
  upload-Placed turn batch store [] aparts h = tt
  upload-Placed turn batch store (b ∷ bs) (apart, aparts) (wide, clear, others, rest) = (
    wide,
    upload-Each write_segment to_vec from_slice from_slice-to_vec (Disjoint (segment_entry b 0))
        turn.attempts batch store (λ n. elim apart [ inl k ↦ inr k | inr k ↦ inl k ]) clear,
    others,
    upload-Placed turn batch store bs aparts rest,
  )

  pass-Placed :
      (turn : Turn) (u : State) (bs : List SealedBatch)
      → Placed u.store bs
      → Placed (after_pass write_segment to_vec from_slice turn u).store bs
  pass-Placed turn u [] h = tt
  pass-Placed turn u (b ∷ bs) (wide, clear, others, rest) = (
    wide,
    retention_pass-Each write_segment to_vec from_slice from_slice-to_vec
        (Disjoint (segment_entry b 0)) turn.pass u.cfg turn.now_ns u.store clear,
    others,
    pass-Placed turn u bs rest,
  )

  -- The store is sound, and the uploader is in its retry loop or has sent `sent`.
  abbrev pub Drained : State → List ℤ → Type 0
  Drained u sent = Sound u.store × ((u.retrying ≡ true) ⊎ (u.durable ≡ sent))

  run-halted :
      (msgs : List (Turn × Message)) (u : State)
      → halted u ≡ true
      → run write_segment to_vec from_slice msgs u ≡ u
  unfolding run
  run-halted [] u h = refl
  run-halted ((turn, msg) ∷ msgs) u h = rw h refl

  run-next :
      (turn : Turn) (msg : Message) (msgs : List (Turn × Message)) (u : State) (sent : List ℤ)
      → halted u ≡ false
      → Drained
          (run write_segment to_vec from_slice msgs
            (step write_segment to_vec from_slice turn msg u))
          sent
      → Drained (run write_segment to_vec from_slice ((turn, msg) ∷ msgs) u) sent
  unfolding run
  run-next turn msg msgs u sent h d =
      let goes : run write_segment to_vec from_slice ((turn, msg) ∷ msgs) u
          ≡ run write_segment to_vec from_slice msgs
              (step write_segment to_vec from_slice turn msg u) =
        rw h refl in
      subst (λ w. Drained w sent) (sym goes) d

  -- An uploader that stays in a retry loop takes no further message.
  uploaded-Drained :
      (turn : Turn) (batch : SealedBatch) (out : Store × Bool) (msgs : List (Turn × Message))
      (u : State)
      → ((w : State)
          → halted w ≡ false
          → Sound w.store
          → Placed w.store (queued msgs)
          → Drained (run write_segment to_vec from_slice msgs w) (w.durable ++ bases (queued msgs)))
      → halted u ≡ false
      → Sound out.0
      → Placed out.0 (queued msgs)
      → Drained
          (run write_segment to_vec from_slice msgs
            (uploaded write_segment to_vec from_slice turn batch out u))
          (u.durable ++ batch.base_offset ∷ bases (queued msgs))
  uploaded-Drained turn batch (store, false) msgs u ih h v place =
      let stuck : State = record u { store = store; retrying = true } in
      let stays = run-halted msgs stuck (ground arith) in
      subst (λ w. Drained w (u.durable ++ batch.base_offset ∷ bases (queued msgs))) (sym stays)
        (v, inl refl)
  uploaded-Drained turn batch (store, true) msgs u ih h v place =
      let told : State = record u {
        store = store;
        durable = u.durable ++ batch.base_offset ∷ [];
      } in
      subst
        (λ sent.
          Drained
            (run write_segment to_vec from_slice msgs
              (after_pass write_segment to_vec from_slice turn told))
            sent)
        (append_assoc u.durable (batch.base_offset ∷ []) (bases (queued msgs)))
        (ih (after_pass write_segment to_vec from_slice turn told) h
          (retention_pass-IsSound write_segment to_vec from_slice from_slice-to_vec turn.pass u.cfg
            turn.now_ns store v)
          (pass-Placed turn told (queued msgs) place))

  -- From a sound store, and for queued batches that overlap neither its manifest nor each other:
  -- whatever calls fail, the loop leaves the store sound, and it is in the retry loop of
  -- an upload, or has sent `SegmentDurable` for the batches queued before the first shutdown,
  -- each once and in their order.
  pub run-Drained :
      (msgs : List (Turn × Message)) (u : State)
      → halted u ≡ false
      → Sound u.store
      → Placed u.store (queued msgs)
      → Drained (run write_segment to_vec from_slice msgs u) (u.durable ++ bases (queued msgs))
  unfolding run step queued
  run-Drained [] u h v place = (v, inr (sym (append-nil u.durable)))
  run-Drained ((turn, Message.upload batch) ∷ msgs) u h v (wide, clear, aparts, rest) =
      let out = Uploader.upload write_segment to_vec from_slice turn.attempts batch u.store in
      let settled =
        upload-Settled write_segment to_vec from_slice from_slice-to_vec turn.attempts batch u.store
          v (inr (wide, clear v.raw v.manifest v.raw_at v.reads)) in
      run-next turn (Message.upload batch) msgs u _ h (
        uploaded-Drained turn batch out msgs u (run-Drained msgs) h settled.0
          (upload-Placed turn batch u.store (queued msgs) aparts rest))
  run-Drained ((turn, retention_kick) ∷ msgs) u h v place =
      run-next turn retention_kick msgs u _ h (
        run-Drained msgs (after_pass write_segment to_vec from_slice turn u) h
          (retention_pass-IsSound write_segment to_vec from_slice from_slice-to_vec turn.pass u.cfg
            turn.now_ns u.store v)
          (pass-Placed turn u (queued msgs) place))
  run-Drained ((turn, update_config cfg) ∷ msgs) u h v place =
      run-next turn (update_config cfg) msgs u _ h
        (run-Drained msgs (record u { cfg = cfg }) h v place)
  run-Drained ((turn, shutdown) ∷ msgs) u h v place =
      let stays = run-halted msgs (record u { acked = true }) refl in
      run-next turn shutdown msgs u (u.durable ++ []) h
        (subst (λ w. Drained w (u.durable ++ [])) (sym stays) (v, inr (sym (append-nil u.durable))))
