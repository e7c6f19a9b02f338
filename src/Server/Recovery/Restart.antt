-- ===== src/Server/Recovery/Restart.antt =====
-- A restart after a crash takes up the state that the writer had committed.
use kafkrs.Prelude.{
  ℕ, suc, ◌+◌, ◌-◌, ◌<◌, ◌≤◌, ◌^◌, ◌≡◌, ◌∙◌, refl, sym, ap, Bool, true, false, ◌&&◌, none, some,
  List, [], ◌∷◌, ◌++◌, arith, length, get_last?, map, append_assoc, append-nil, All,
}
use kafkrs.Prelude.Int.{ℤ, pos, leb_ℤ, next_i64, next_i64_pos}
use kafkrs.Models.Record.{Record}
use kafkrs.Models.Manifest.{Manifest, last_uploaded_offset}
use kafkrs.Server.WalFiles.{Files, recover_wal_file}
use kafkrs.Server.InFlight.{InFlight}
use kafkrs.Server.Uploader.{has_base}
use kafkrs.Server.PartitionWriter.State.{Writer}
use kafkrs.Server.PartitionWriter.Invariant.{Flights-le, Consecutive, IsConsistent, Flights}
use kafkrs.Server.PartitionWriter.Crash.{recover_whole, recover-consistent}
use kafkrs.Server.Recovery.{
  sort_bases, is_covered, max_ℤ, pop, uploaded_end, recover_loop, recover_partition,
}

last-Consecutive :
    (n : ℕ) (rs : List Record)
    → Consecutive n rs
    → 0 < length rs
    → (l : Record) × (get_last? rs ≡ some l) × (l.offset ≡ pos (n + length rs - 1))
last-Consecutive n [] c h = absurd (omega arith)
last-Consecutive n (r ∷ []) (e, c) h = (r, refl, e ∙ ap pos (omega arith))
last-Consecutive n (r ∷ q ∷ rs) (e, c) h =
    let (l, at_end, o) = last-Consecutive (suc n) (q ∷ rs) c (omega arith) in
    (l, at_end, o ∙ ap pos (omega arith))

pop-append :
    (ss : List (ℤ × List Record)) (base : ℤ) (rs : List Record)
    → pop (ss ++ (base, rs) ∷ []) ≡ (ss, rs)
unfolding pop
pop-append [] base rs = refl
pop-append (s ∷ []) base rs = refl
pop-append (s ∷ t ∷ ss) base rs = rw (pop-append (t ∷ ss) base rs) refl

abbrev Uncovered : Manifest → ℤ → Type 0
Uncovered m base = has_base base m.segments ≡ false

not_covered : (m : Manifest) (base : ℤ) → Uncovered m base → is_covered m base ≡ false
not_covered m base h =
    rw h (and_false (elim (last_uploaded_offset m) [ none ↦ false | some last ↦ leb_ℤ base last ]))
  where
    and_false : (b : Bool) → (b && false) ≡ false
    and_false true = refl
    and_false false = refl

module _ (crc32c : List ℕ → ℕ) (crc_u32 : (bytes : List ℕ) → crc32c bytes < 2 ^ 32) where
  loop_end :
      (removes : ℤ → Bool) (m : Manifest) (next : ℤ) (orphans : List (ℤ × List Record))
      (files : Files)
      → recover_loop crc32c removes m [] next orphans files ≡ some (orphans, next, files)
  unfolding recover_loop
  loop_end removes m next orphans files = refl

  next_lem :
      (j end : ℕ) (o : ℤ)
      → o ≡ pos (end - 1)
      → j < end
      → end < 2 ^ 63
      → max_ℤ (pos j) (next_i64 o) ≡ pos end
  next_lem j end o e h b =
      let z : suc (end - 1) ≡ end = omega arith in
      let next : next_i64 o ≡ pos end =
        ap next_i64 e ∙ next_i64_pos (end - 1) (omega arith) ∙ ap pos z in
      ground (arith, next)

  -- One WAL that is read back whole.
  loop-whole :
      (removes : ℤ → Bool) (m : Manifest) (base : ℤ) (bases : List ℤ) (next : ℤ)
      (orphans : List (ℤ × List Record)) (files : Files) (rs : List Record) (l : Record)
      → Uncovered m base
      → recover_wal_file crc32c files base ≡ some (rs, files)
      → get_last? rs ≡ some l
      → recover_loop crc32c removes m (base ∷ bases) next orphans files
        ≡ recover_loop crc32c removes m bases
            (max_ℤ next (next_i64 l.offset))
            (orphans ++ (base, rs) ∷ [])
            files
  unfolding recover_loop
  loop-whole removes m base bases next orphans files rs l u e k =
      ground (arith, not_covered m base u, e, k)

  -- The sealed segments, of which the files are read one after the other.
  loop-Flights :
      (removes : ℤ → Bool) (m : Manifest) (files : Files) (lo hi j : ℕ) (flights : InFlight)
      (bases : List ℤ) (orphans : List (ℤ × List Record))
      → hi < 2 ^ 63
      → j ≤ lo
      → All (λ s. Uncovered m s.0) flights
      → Flights crc32c files lo hi flights
      → (j' : ℕ) × (j' ≤ hi)
        × (recover_loop crc32c removes m (map (λ s. s.0) flights ++ bases) (pos j) orphans files
            ≡ recover_loop crc32c removes m bases (pos j') (orphans ++ flights) files)
  loop-Flights removes m files lo hi j [] bases orphans b h u f = (
    j,
    omega (arith, f),
    ap (λ o. recover_loop crc32c removes m bases (pos j) o files) (sym (append-nil orphans)),
  )
  loop-Flights removes m files lo hi j ((k, rs) ∷ flights) bases orphans b h (u, us) (f, fs) =
      let end = f.base + length rs in
      let top = Flights-le crc32c files end hi flights fs in
      let (l, at_end, o) = last-Consecutive f.base rs f.offsets f.some_records in
      let next : max_ℤ (pos j) (next_i64 l.offset) ≡ pos end =
        next_lem j end l.offset o (omega (arith, f.above, f.some_records)) (omega arith) in
      let read =
        loop-whole removes m k (map (λ s. s.0) flights ++ bases) (pos j) orphans files rs l u
          (recover_whole crc32c crc_u32 files k rs f.sound f.stored) at_end in
      let (j', inside, rest) =
        loop-Flights removes m files end hi end flights bases (orphans ++ (k, rs) ∷ []) b
          (omega arith) us fs in
      (
        j',
        inside,
        read
            ∙ ap
                (λ x.
                  recover_loop crc32c removes m (map (λ s. s.0) flights ++ bases) x
                    (orphans ++ (k, rs) ∷ []) files)
                next
            ∙ rest
            ∙ ap (λ o. recover_loop crc32c removes m bases (pos j') o files)
                (append_assoc orphans ((k, rs) ∷ []) flights),
      )

  finish_lem :
      (removes : ℤ → Bool) (m : Manifest) (wal_bases : List ℤ) (files : Files)
      (ss : List (ℤ × List Record)) (base next : ℤ) (rs : List Record)
      → recover_loop crc32c removes m (sort_bases wal_bases) (uploaded_end m) [] files
        ≡ some (ss ++ (base, rs) ∷ [], next, files)
      → recover_partition crc32c removes m wal_bases files
        ≡ some (record { active_records = rs; orphan_segments = ss; next_offset = next }, files)
  unfolding recover_partition
  finish_lem removes m wal_bases files ss base next rs e = ground (arith, e, pop-append ss base rs)

  -- When the process stops while a consistent writer has committed records in its active batch, and
  -- the manifest has none of the WALs' segments and nothing past them, a restart recovers from the
  -- WALs in the directory the active batch, the sealed segments that are still to be uploaded, and
  -- the number behind the last committed record for the next offset; the files stay as they are.
  pub recover_partition-consistent :
      (removes : ℤ → Bool) (m : Manifest) (wal_bases : List ℤ) (w : Writer) (j : ℕ)
      (v : IsConsistent crc32c w)
      → 0 < length w.active
      → sort_bases wal_bases ≡ map (λ s. s.0) w.sealed ++ w.wal ∷ []
      → uploaded_end m ≡ pos j
      → Flights crc32c w.files j v.base w.sealed
      → All (λ s. Uncovered m s.0) w.sealed
      → Uncovered m w.wal
      → recover_partition crc32c removes m wal_bases w.files
        ≡ some (
          record {
            active_records = w.active;
            orphan_segments = w.sealed;
            next_offset = pos (v.base + length w.active);
          },
          w.files,
        )
  recover_partition-consistent removes m wal_bases w j v h listed start flights us u =
      let end = v.base + length w.active in
      let (l, at_end, o) = last-Consecutive v.base w.active v.offsets h in
      let (j', inside, read) =
        loop-Flights removes m w.files j v.base j w.sealed (w.wal ∷ []) [] (omega (arith, v.bound))
          (omega arith) us flights in
      let next : max_ℤ (pos j') (next_i64 l.offset) ≡ pos end =
        next_lem j' end l.offset o (omega arith) (omega (arith, v.bound)) in
      let active =
        loop-whole removes m w.wal [] (pos j') w.sealed w.files w.active l u
          (recover-consistent crc32c crc_u32 w v) at_end in
      finish_lem removes m wal_bases w.files w.sealed w.wal (pos end) w.active (
        ap (λ bases. recover_loop crc32c removes m bases (uploaded_end m) [] w.files) listed
        ∙ ap
            (λ x.
              recover_loop crc32c removes m (map (λ s. s.0) w.sealed ++ w.wal ∷ []) x [] w.files)
            start
        ∙ read
        ∙ active
        ∙ ap (λ x. recover_loop crc32c removes m [] x (w.sealed ++ (w.wal, w.active) ∷ []) w.files)
            next
        ∙ loop_end removes m (pos end) (w.sealed ++ (w.wal, w.active) ∷ []) w.files)
