-- ===== src/Server/PartitionWriter/Crash.antt =====
-- What a restart reads back from the files of a writer, wherever it stopped.
use kafkrs.Prelude.{
  ℕ, zero, suc, ◌+◌, ◌<◌, ◌^◌, ◌≡◌, refl, some, List, [], ◌∷◌, ◌++◌, arith, length, take,
  append-nil, All, All-mono, length-append, le→ltb, ltb, subst, Bool-cases, inl, inr, false, ◌⊎◌,
  ◌∙◌, sym, ap, Memᴰ, append_assoc,
}
use mathlib.Core.List.Memᴰ
use kafkrs.Prelude.Int.{ℤ, pos_part}
use kafkrs.Models.Record.{Record}
use kafkrs.Models.Wal.{encode_batch, scan_wal, incomplete}
use kafkrs.Models.Wal.Body.{IsEncodable}
use kafkrs.Models.Wal.Scan.{scan-encode_batch}
use kafkrs.Models.Wal.Torn.{decode-nil, scan-torn_commit}
use kafkrs.Server.WalFiles.{Files, write_at, recover_wal_file}
use kafkrs.Server.InFlight.{InFlight}
use kafkrs.Server.PartitionWriter.State.{Writer, Actor, running, stopped, panicked, Io, Event}
use kafkrs.Server.PartitionWriter.Actor.{run}
use kafkrs.Server.PartitionWriter.Invariant.{Consecutive, Consecutive-append, IsConsistent, Flights}
use kafkrs.Server.PartitionWriter.Log.{handed_off, log_of, IsBetween, IsLogged, writer_of}
use kafkrs.Server.PartitionWriter.Reported.{all_reported}
use kafkrs.Server.PartitionWriter.Retain.{run-IsLogged}
use kafkrs.Server.PartitionWriter.Flush.{IsTorn, IsSafe}
use kafkrs.Server.PartitionWriter.Step.{Scheduled, run-IsSafe}

Consecutive-take : (k n : ℕ) (rs : List Record) → Consecutive n rs → Consecutive n (take k rs)
Consecutive-take zero n rs h = tt
Consecutive-take (suc k) n [] h = tt
Consecutive-take (suc k) n (r ∷ rs) h = (h.0, Consecutive-take k (suc n) rs h.1)

All-Mem :
    (P : ℤ × List Record → Type 0) (m : InFlight) (x : ℤ × List Record) → All P m → Memᴰ x m → P x
All-Mem P [] x h mem = absurd (Memᴰ.not-nil mem)
All-Mem P (y ∷ m) x (h, rest) mem = elim (Memᴰ.cases_cons mem) [
  | inl same ↦ subst P (sym same) h
  | inr there ↦ All-Mem P m x rest there
]

module _ (crc32c : List ℕ → ℕ) (crc_u32 : (bytes : List ℕ) → crc32c bytes < 2 ^ 32) where
  scan_whole :
      (rs : List Record)
      → All IsEncodable rs
      → scan_wal crc32c (encode_batch crc32c rs) ≡ some (rs, length (encode_batch crc32c rs))
  scan_whole rs v =
      subst (λ (bytes : List ℕ). scan_wal crc32c bytes ≡ some (rs, length (encode_batch crc32c rs)))
        (append-nil (encode_batch crc32c rs))
        (scan-encode_batch crc32c crc_u32 rs [] incomplete v (decode-nil crc32c crc_u32))

  pub recover_whole :
      (files : Files) (k : ℤ) (rs : List Record)
      → All IsEncodable rs
      → files k ≡ some (encode_batch crc32c rs)
      → recover_wal_file crc32c files k ≡ some (rs, files)
  unfolding recover_wal_file
  recover_whole files k rs v h =
      let same : ltb (length (encode_batch crc32c rs)) (length (encode_batch crc32c rs)) ≡ false =
        le→ltb _ _ (omega arith) in
      ground (arith, h, scan_whole rs v, same)

  recover_some :
      (files : Files) (k : ℤ) (bytes : List ℕ) (rs : List Record) (n : ℕ)
      → files k ≡ some bytes
      → scan_wal crc32c bytes ≡ some (rs, n)
      → (files' : Files) × (recover_wal_file crc32c files k ≡ some (rs, files'))
  unfolding recover_wal_file
  recover_some files k bytes rs n h e = elim (Bool-cases (ltb n (length bytes))) [
    | inl short ↦ (write_at files k (some (take n bytes)), ground (arith, h, e, short))
    | inr exact ↦ (files, ground (arith, h, e, exact))
  ]

  -- What a restart has of the log that begins with `old` at the offset `start`: the open WAL gives
  -- back the active batch, perhaps with records behind it. The log and these records are
  -- numbered on from `start`, and each acknowledged offset is one of the log's. Each batch of the
  -- log that was handed off is still a sealed segment and is read back from its own WAL, or it
  -- is among `durable`.
  pub record Recovers (start : ℕ) (old : List Record) (durable : List ℤ) (w : Writer) : Type 0 where
    pub records : List Record
    pub cleaned : Files
    pub recovered : recover_wal_file crc32c w.files w.wal ≡ some (records, cleaned)
    pub rest : List Record
    pub keeps : records ≡ w.active ++ rest
    pub later : List Record
    pub grown : log_of w ≡ old ++ later
    pub numbered : Consecutive start (handed_off w.uploads ++ records)
    pub acknowledged : All (λ a. IsBetween start (start + length (log_of w)) a.1) w.acked
    pub batches :
        All
          (λ b.
            (Memᴰ (b.base_offset, b.records) w.sealed
              × (recover_wal_file crc32c w.files b.base_offset ≡ some (b.records, w.files)))
            ⊎ Memᴰ b.base_offset durable)
          w.uploads
    pub segments : All (λ s. recover_wal_file crc32c w.files s.0 ≡ some (s.1, w.files)) w.sealed

  recover-segments :
      (files : Files) (lo hi : ℕ) (m : InFlight)
      → Flights crc32c files lo hi m
      → All (λ s. recover_wal_file crc32c files s.0 ≡ some (s.1, files)) m
  recover-segments files lo hi [] h = tt
  recover-segments files lo hi ((k, rs) ∷ m) (f, rest) = (
    recover_whole files k rs f.sound f.stored,
    recover-segments files (f.base + length rs) hi m rest,
  )

  -- A crash between two messages of a consistent writer loses nothing that was acknowledged: the
  -- open WAL gives back exactly the active batch.
  pub recover-consistent :
      (w : Writer)
      → IsConsistent crc32c w
      → recover_wal_file crc32c w.files w.wal ≡ some (w.active, w.files)
  recover-consistent w v = recover_whole w.files w.wal w.active v.sound (rw v.wal_at v.stored)

  module _ (start : ℕ) (old : List Record) (durable : List ℤ) where
    recover-batches :
        (lo hi : ℕ) (w : Writer)
        → Flights crc32c w.files lo hi w.sealed
        → IsLogged start old durable w
        → All
            (λ b.
              (Memᴰ (b.base_offset, b.records) w.sealed
                × (recover_wal_file crc32c w.files b.base_offset ≡ some (b.records, w.files)))
              ⊎ Memᴰ b.base_offset durable)
            w.uploads
    recover-batches lo hi w fs g =
        All-mono _ _ w.uploads
          (λ b k. elim k [
            | inl there ↦ inl (
              there,
              All-Mem
                  (λ (s : ℤ × List Record).
                    recover_wal_file crc32c w.files s.0 ≡ some (s.1, w.files))
                  w.sealed (b.base_offset, b.records) (recover-segments w.files lo hi w.sealed fs)
                  there,
            )
            | inr told ↦ inr told
          ])
          g.kept

    consistent-Recovers :
        (w : Writer)
        → IsConsistent crc32c w
        → IsLogged start old durable w
        → Recovers start old durable w
    consistent-Recovers w v g = record {
      records = w.active;
      cleaned = w.files;
      recovered = recover-consistent w v;
      rest = [];
      keeps = rw append-nil;
      later = g.later;
      grown = g.grown;
      numbered = g.numbered;
      acknowledged = g.acknowledged;
      batches = recover-batches 0 v.base w v.flights g;
      segments = recover-segments w.files 0 v.base w.sealed v.flights;
    }

    -- The records of the torn group that reached the disk go on behind the log.
    torn-numbered :
        (w : Writer) (v : IsTorn crc32c crc_u32 w) (j : ℕ)
        → IsLogged start old durable w
        → Consecutive start (handed_off w.uploads ++ (w.active ++ take j v.group))
    torn-numbered w v j g =
        let whole = append_assoc (handed_off w.uploads) w.active (take j v.group) in
        let ends : v.base + length w.active ≡ start + length (log_of w) = omega (
          arith,
          ap pos_part (sym v.base_at ∙ g.base_at),
          length-append (handed_off w.uploads) w.active,
        ) in
        subst (Consecutive start) whole (
          Consecutive-append start (log_of w) (take j v.group) g.numbered (
            subst (λ k. Consecutive k (take j v.group)) ends
              (Consecutive-take j (v.base + length w.active) v.group v.staged)))

    torn-Recovers :
        (w : Writer)
        → IsTorn crc32c crc_u32 w
        → IsLogged start old durable w
        → Recovers start old durable w
    torn-Recovers w v g =
        let (j, scanned) =
          scan-torn_commit crc32c crc_u32 w.active v.group v.count v.sound v.group_sound in
        let (files', e) =
          recover_some w.files w.wal _ (w.active ++ take j v.group) _ (rw v.wal_at v.stored)
            scanned in
        record {
          records = w.active ++ take j v.group;
          cleaned = files';
          recovered = e;
          rest = take j v.group;
          keeps = refl;
          later = g.later;
          grown = g.grown;
          numbered = torn-numbered w v j g;
          acknowledged = g.acknowledged;
          batches = recover-batches 0 v.base w v.flights g;
          segments = recover-segments w.files 0 v.base w.sealed v.flights;
        }

    safe-Recovers :
        (a : Actor)
        → IsSafe crc32c crc_u32 a
        → IsLogged start old durable (writer_of a)
        → Recovers start old durable (writer_of a)
    safe-Recovers (running w) v g = consistent-Recovers w v g
    safe-Recovers (stopped w) v g = consistent-Recovers w v g
    safe-Recovers (panicked w) v g = torn-Recovers w v g

  -- Durability: wherever a run of admissible events from a consistent writer stops, by a shutdown,
  -- a crash between two events or a failed fsync in a group commit, nothing of its log is lost.
  -- The log, the records of the batches that it sealed and then the active batch, begins with what
  -- it was before the run, is numbered without a gap, and has every offset that was
  -- acknowledged. A restart reads the whole active batch back from the open WAL, then possibly
  -- records of the torn group, numbered on. Each sealed batch of the log is still in memory among
  -- the sealed segments and is read back from its own WAL, unless the uploader reported that
  -- batch as durable. The next WAL has to open whenever one is due, and the log of the writer is
  -- in order before the run.
  pub run-Recovers :
      (events : List (Io × Event)) (a : Actor) (start : ℕ) (old : List Record) (durable : List ℤ)
      → Scheduled crc32c crc_u32 events a
      → IsSafe crc32c crc_u32 a
      → IsLogged start old durable (writer_of a)
      → Recovers start old (all_reported events durable) (writer_of (run crc32c events a))
  run-Recovers events a start old durable h v g =
      safe-Recovers start old (all_reported events durable) (run crc32c events a)
        (run-IsSafe crc32c crc_u32 events a h v)
        (run-IsLogged start old crc32c crc_u32 events a durable h v g)
