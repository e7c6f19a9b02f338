-- ===== src/Server/PartitionWriter/Invariant.antt =====
-- When the state of a writer agrees with the files that a crash would leave.
use kafkrs.Prelude.{
  ℕ, suc, ◌+◌, ◌<◌, ◌≤◌, ◌^◌, ◌≡◌, refl, ◌∙◌, false, inl, inr, some, none, List, [], ◌∷◌, ◌++◌,
  arith, length, All, Bool-cases, le→ltb, subst,
}
use kafkrs.Prelude.Int.{◌<ℤ◌, ℤ, pos, eqb_ℤ, ltb_ℤ}
use kafkrs.Models.Record.{Record}
use kafkrs.Models.Wal.{encode_batch}
use kafkrs.Models.Wal.Body.{IsEncodable}
use kafkrs.Server.WalFiles.{Files}
use kafkrs.Server.InFlight
use kafkrs.Server.InFlight.{InFlight}
use kafkrs.Server.PartitionWriter.State.{Writer}
use kafkrs.Server.PartitionWriter.Ops.{total_bytes}

-- An offset before the n-th.
abbrev pub IsBelow : ℕ → ℤ → Type 0
IsBelow n h = h <ℤ pos n

-- Records with the offsets n, n + 1, ...
abbrev pub Consecutive : ℕ → List Record → Type 0
Consecutive n [] = Unit
Consecutive n (r ∷ rs) = (r.offset ≡ pos n) × Consecutive (suc n) rs

pub Consecutive-append :
    (n : ℕ) (rs qs : List Record)
    → Consecutive n rs
    → Consecutive (n + length rs) qs
    → Consecutive n (rs ++ qs)
Consecutive-append n [] qs h k =
    let e : n + 0 ≡ n = omega arith in subst (λ (m : ℕ). Consecutive m qs) e k
Consecutive-append n (r ∷ rs) qs h k =
    let e : n + suc (length rs) ≡ suc n + length rs = omega arith in
    (h.0, Consecutive-append (suc n) rs qs h.1 (subst (λ (m : ℕ). Consecutive m qs) e k))

pub total_bytes-append :
    (rs qs : List Record) → total_bytes (rs ++ qs) ≡ total_bytes rs + total_bytes qs
unfolding total_bytes
total_bytes-append [] qs = omega arith
total_bytes-append (r ∷ rs) qs = omega (arith, total_bytes-append rs qs)

pub ne_test_lt : (a b : ℕ) → a < b → eqb_ℤ (pos a) (pos b) ≡ false
ne_test_lt a b h = ground arith

pub ne_test : (a b : ℕ) → b < a → eqb_ℤ (pos a) (pos b) ≡ false
ne_test a b h = ground arith

module _ (crc32c : List ℕ → ℕ) where
  -- A sealed segment, and the file that holds it.
  pub record Flight (files : Files) (lo : ℕ) (k : ℤ) (records : List Record) : Type 0 where
    pub base : ℕ
    pub base_at : k ≡ pos base
    pub above : lo ≤ base
    pub some_records : 0 < length records
    pub offsets : Consecutive base records
    pub sound : All IsEncodable records
    pub stored : files k ≡ some (encode_batch crc32c records)

  -- The sealed segments in offset order, between `lo` and `hi`.
  abbrev pub Flights : Files → ℕ → ℕ → InFlight → Type 0
  Flights files lo hi [] = lo ≤ hi
  Flights files lo hi ((k, records) ∷ m) =
      (f : Flight files lo k records) × Flights files (f.base + length records) hi m

  pub record IsConsistent (w : Writer) : Type 0 where
    pub base : ℕ
    pub base_at : w.segment_base ≡ pos base
    pub wal_at : w.wal ≡ pos base
    pub next_at : w.next_offset ≡ pos (base + length w.active + length w.pending)
    pub bound : base + length w.active + length w.pending < 2 ^ 63
    pub offsets : Consecutive base w.active
    pub staged : Consecutive (base + length w.active) w.pending
    pub sound : All IsEncodable w.active
    pub staged_sound : All IsEncodable w.pending
    pub stored : w.files (pos base) ≡ some (encode_batch crc32c w.active)
    pub size : w.active_bytes ≡ total_bytes w.active
    pub flights : Flights w.files 0 base w.sealed
    pub fresh : (n : ℕ) → base < n → w.files (pos n) ≡ none
    pub acknowledged : All (λ a. IsBelow (base + length w.active) a.1) w.acked
    pub announced : All (IsBelow (base + length w.active)) w.tail

  pub Flights-le : (files : Files) (lo hi : ℕ) (m : InFlight) → Flights files lo hi m → lo ≤ hi
  Flights-le files lo hi [] h = h
  Flights-le files lo hi ((k, records) ∷ m) (f, rest) =
      omega (arith, f.above, Flights-le files (f.base + length records) hi m rest)

  -- A change of files at or above `hi` leaves the sealed segments as they are.
  pub Flights-files :
      (old files : Files) (lo hi : ℕ) (m : InFlight)
      → ((b : ℕ) → b < hi → files (pos b) ≡ old (pos b))
      → Flights old lo hi m
      → Flights files lo hi m
  Flights-files old files lo hi [] same h = h
  Flights-files old files lo hi ((k, records) ∷ m) same (f, rest) = (
    record {
      base = f.base;
      base_at = f.base_at;
      above = f.above;
      some_records = f.some_records;
      offsets = f.offsets;
      sound = f.sound;
      stored = rw f.base_at (
          same f.base
            (omega (arith, f.some_records, Flights-le old (f.base + length records) hi m rest))
          ∙ (rw f.base_at at f.stored));
    },
    Flights-files old files (f.base + length records) hi m same rest,
  )

  -- Sealing appends a segment at the top.
  pub Flights-insert :
      (files : Files) (lo hi : ℕ) (m : InFlight) (records : List Record)
      → 0 < length records
      → Consecutive hi records
      → All IsEncodable records
      → files (pos hi) ≡ some (encode_batch crc32c records)
      → Flights files lo hi m
      → Flights files lo (hi + length records) (InFlight.insert (pos hi) records m)
  unfolding InFlight.insert
  Flights-insert files lo hi [] records some_records offsets sound stored h = (
    record {
      base = hi;
      base_at = refl;
      above = h;
      some_records = some_records;
      offsets = offsets;
      sound = sound;
      stored = stored;
    },
    omega arith,
  )
  Flights-insert files lo hi ((k, old) ∷ m) records some_records offsets sound stored (f, rest) =
      let below = Flights-le files (f.base + length old) hi m rest in
      let past : ltb_ℤ (pos hi) k ≡ false =
        rw f.base_at (le→ltb (hi + 0) (f.base + 0) (omega (arith, below))) in
      let other : eqb_ℤ (pos hi) k ≡ false =
        rw f.base_at (ne_test hi f.base (omega (arith, below, f.some_records))) in
      rw (past, other)
        (
          f,
          Flights-insert files (f.base + length old) hi m records some_records offsets sound stored
              rest,
        )

  Flights-lower :
      (files : Files) (lo lo' hi : ℕ) (m : InFlight)
      → lo' ≤ lo
      → Flights files lo hi m
      → Flights files lo' hi m
  Flights-lower files lo lo' hi [] h k = omega arith
  Flights-lower files lo lo' hi ((k, records) ∷ m) h (f, rest) = (
    record {
      base = f.base;
      base_at = f.base_at;
      above = omega (arith, f.above);
      some_records = f.some_records;
      offsets = f.offsets;
      sound = f.sound;
      stored = f.stored;
    },
    rest,
  )

  -- Dropping a segment, with its file or without, leaves the others as they are.
  pub Flights-remove :
      (old files : Files) (lo hi : ℕ) (key : ℤ) (m : InFlight)
      → ((k : ℤ) → eqb_ℤ key k ≡ false → files k ≡ old k)
      → Flights old lo hi m
      → Flights files lo hi (InFlight.remove key m)
  unfolding InFlight.remove
  Flights-remove old files lo hi key [] same h = h
  Flights-remove old files lo hi key ((k, records) ∷ m) same (f, rest) =
      let ih = Flights-remove old files (f.base + length records) hi key m same rest in
      elim (Bool-cases (eqb_ℤ key k)) [
        | inl gone ↦ rw gone (
            Flights-lower files (f.base + length records) lo hi (InFlight.remove key m)
              (omega (arith, f.above)) ih)
        | inr kept ↦ rw kept (
          record {
            base = f.base;
            base_at = f.base_at;
            above = f.above;
            some_records = f.some_records;
            offsets = f.offsets;
            sound = f.sound;
            stored = same k kept ∙ f.stored;
          },
          ih,
        )
      ]
