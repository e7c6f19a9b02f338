-- ===== src/Server/PartitionWriter/Tiers.antt =====
-- What the sealed segments say of where an offset below the open one belongs.
use kafkrs.Prelude.{
  ℕ, suc, ◌+◌, ◌<◌, ◌≤◌, ◌≡◌, refl, List, [], ◌∷◌, arith, length, Bool, true, false, inl, inr, ◌⊎◌,
  ◌++◌, any, if◌then◌else◌, Bool-cases,
}
use kafkrs.Prelude.Int.{pos, leb_ℤ}
use kafkrs.Models.Record.{Record}
use kafkrs.Server.WalFiles.{Files}
use kafkrs.Server.InFlight.{InFlight, values}
use kafkrs.Server.PartitionWriter.State.{LocateResult, in_flight, below_in_flight}
use kafkrs.Server.PartitionWriter.Ops.{locate_sealed}
use kafkrs.Server.PartitionWriter.Invariant.{Consecutive, Flights, Flights-le}

pub at_or_after : (n m : ℕ) → n ≤ m → leb_ℤ (pos n) (pos m) ≡ true
at_or_after n m h = ground arith

pub before : (n m : ℕ) → m < n → leb_ℤ (pos n) (pos m) ≡ false
before n m h = ground arith

any-append_none :
    (p : Record → Bool) (rs qs : List Record)
    → any p rs ≡ false
    → any p qs ≡ false
    → any p (rs ++ qs) ≡ false
unfolding any
any-append_none p [] qs h k = k
any-append_none p (r ∷ rs) qs h k = elim (Bool-cases (p r)) [
  | inl hit ↦ absurd (ground (arith, hit, h))
  | inr miss ↦
      let rest = any-append_none p rs qs (ground (arith, miss, h)) k in rw (miss, rest) refl
]

-- The record does not lie above the n-th offset.
abbrev pub reaches : ℕ → Record → Bool
reaches n r = leb_ℤ r.offset (pos n)

Consecutive-above :
    (n m : ℕ) (rs : List Record) → n < m → Consecutive m rs → any (reaches n) rs ≡ false
unfolding any
Consecutive-above n m [] h c = refl
Consecutive-above n m (r ∷ rs) h (e, c) =
    rw (e, before m n h, Consecutive-above n (suc m) rs (omega arith) c) refl

-- Where a fetch below the open segment belongs, by the sealed records: to the sealed segments when
-- one of them does not lie above the offset, and else to the object store.
abbrev pub tier_below : ℕ → InFlight → LocateResult
tier_below n sealed = if any (reaches n) (values sealed) then in_flight else below_in_flight

module _ (crc32c : List ℕ → ℕ) where
  Flights-above :
      (files : Files) (n lo hi : ℕ) (m : InFlight)
      → n < lo
      → Flights crc32c files lo hi m
      → any (reaches n) (values m) ≡ false
  unfolding values any
  Flights-above files n lo hi [] h fs = refl
  Flights-above files n lo hi ((k, rs) ∷ m) h (f, fs) =
      any-append_none (reaches n) rs (values m)
        (Consecutive-above n f.base rs (omega (arith, f.above)) f.offsets)
        (Flights-above files n (f.base + length rs) hi m (omega (arith, f.above)) fs)

  pub locate_sealed-tier :
      (files : Files) (n lo hi : ℕ) (m : InFlight)
      → Flights crc32c files lo hi m
      → locate_sealed (pos n) m ≡ tier_below n m
  unfolding locate_sealed values any
  locate_sealed-tier files n lo hi [] fs = refl
  locate_sealed-tier files n lo hi ((k, []) ∷ m) (f, fs) = absurd (omega (arith, f.some_records))
  locate_sealed-tier files n lo hi ((k, r ∷ rs) ∷ m) (f, fs) =
      elim (Bool-cases (leb_ℤ (pos f.base) (pos n))) [
        | inl at ↦ rw (f.base_at, f.offsets.0, at) refl
        | inr over ↦
            let rest =
              any-append_none (reaches n) rs (values m)
                (Consecutive-above n (suc f.base) rs (ground (arith, over)) f.offsets.1)
                (Flights-above files n (f.base + length (r ∷ rs)) hi m (ground (arith, over)) fs) in
            rw (f.base_at, f.offsets.0, over, rest) refl
      ]

  -- Below the open segment, an offset that no sealed segment lies above goes to the sealed ones.
  pub locate_sealed-under :
      (files : Files) (n lo hi : ℕ) (m : InFlight)
      → hi ≤ n
      → Flights crc32c files lo hi m
      → ((m ≡ []) × (locate_sealed (pos n) m ≡ below_in_flight))
        ⊎ ((0 < length m) × (locate_sealed (pos n) m ≡ in_flight))
  unfolding locate_sealed
  locate_sealed-under files n lo hi [] h fs = inl (refl, refl)
  locate_sealed-under files n lo hi ((k, rs) ∷ m) h (f, fs) =
      let le = Flights-le crc32c files (f.base + length rs) hi m fs in
      inr (omega arith, rw (f.base_at, at_or_after f.base n (omega arith)) refl)
