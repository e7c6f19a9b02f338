-- ===== src/Server/PartitionWriter/Log.antt =====
-- The log that a writer has committed: the batches that it sealed, then its active batch.
use kafkrs.Prelude.{
  ℕ, ◌+◌, ◌≡◌, ◌⊎◌, refl, sym, ap, ◌∙◌, false, inl, inr, List, [], ◌∷◌, ◌++◌, arith, length, All,
  Memᴰ, Bool-cases, append-nil, append_assoc, le→ltb, subst,
}
use mathlib.Core.List.Memᴰ
use kafkrs.Prelude.Int.{ℤ, pos, ◌≤ℤ◌, eqb_ℤ, ltb_ℤ}
use kafkrs.Models.Record.{Record}
use kafkrs.Server.WalFiles.{Files}
use kafkrs.Server.InFlight
use kafkrs.Server.InFlight.{InFlight}
use kafkrs.Server.PartitionWriter.State.{Writer, SealedBatch, Actor, running, stopped, panicked}
use kafkrs.Server.PartitionWriter.Invariant.{
  Consecutive, IsBelow, IsConsistent, Flights, Flights-le, ne_test,
}

-- The records of the batches that were handed to the uploader, in the order of the hand-offs.
abbrev pub handed_off : List SealedBatch → List Record
handed_off [] = []
handed_off (b ∷ bs) = b.records ++ handed_off bs

abbrev pub log_of : Writer → List Record
log_of w = handed_off w.uploads ++ w.active

-- An offset from `lo` on and before `hi`.
abbrev pub IsBetween : ℕ → ℕ → ℤ → Type 0
IsBetween lo hi h = (pos lo ≤ℤ h) × IsBelow hi h

-- The log is numbered from `start` on and begins with `old`, ends at the open segment's batch, and
-- has every acknowledged offset; each batch that was handed off is sealed, or it is one of
-- those that the uploader reported in `durable`.
pub record LogInvariant (start : ℕ) (old : List Record) (durable : List ℤ)
    (uploads : List SealedBatch) (active : List Record) (sealed : InFlight) (acked : List (ℕ × ℤ))
    (segment_base : ℤ) : Type 0 where
  pub later : List Record
  pub grown : handed_off uploads ++ active ≡ old ++ later
  pub numbered : Consecutive start (handed_off uploads ++ active)
  pub base_at : segment_base ≡ pos (start + length (handed_off uploads))
  pub acknowledged :
      All (λ a. IsBetween start (start + length (handed_off uploads ++ active)) a.1) acked
  pub kept : All (λ b. Memᴰ (b.base_offset, b.records) sealed ⊎ Memᴰ b.base_offset durable) uploads

abbrev pub IsLogged : ℕ → List Record → List ℤ → Writer → Type 0
IsLogged start old durable w =
    LogInvariant start old durable w.uploads w.active w.sealed w.acked w.segment_base

pub handed_off-append :
    (bs : List SealedBatch) (b : SealedBatch)
    → handed_off (bs ++ b ∷ []) ≡ handed_off bs ++ b.records
handed_off-append [] b = rw append-nil refl
handed_off-append (c ∷ bs) b =
    rw (handed_off-append bs b) (sym (append_assoc c.records (handed_off bs) b.records))

-- What a change of the map of sealed segments keeps.
pub Mem-insert_self :
    (k : ℤ) (rs : List Record) (m : InFlight) → Memᴰ (k, rs) (InFlight.insert k rs m)
unfolding InFlight.insert
Mem-insert_self k rs [] = Memᴰ.head refl
Mem-insert_self k rs ((j, qs) ∷ m) =
    let rest = Mem-insert_self k rs m in
    elim (Bool-cases (ltb_ℤ k j)) [
      | inl lt ↦ rw lt (Memᴰ.head refl)
      | inr ge ↦ elim (Bool-cases (eqb_ℤ k j)) [
        | inl same ↦ rw (ge, same) (Memᴰ.head refl)
        | inr other ↦ rw (ge, other) (Memᴰ.tail rest)
      ]
    ]

abbrev pub writer_of : Actor → Writer
writer_of (running w) = w
writer_of (stopped w) = w
writer_of (panicked w) = w

module _ (crc32c : List ℕ → ℕ) where
  -- The keys of the sealed segments lie below the one that is inserted.
  pub Mem-insert :
      (files : Files) (lo hi : ℕ) (rs : List Record) (x : ℤ × List Record) (m : InFlight)
      → Flights crc32c files lo hi m
      → Memᴰ x m
      → Memᴰ x (InFlight.insert (pos hi) rs m)
  unfolding InFlight.insert
  Mem-insert files lo hi rs x [] h mem = absurd (Memᴰ.not-nil mem)
  Mem-insert files lo hi rs x ((k, old) ∷ m) (f, rest) mem =
      let below = Flights-le crc32c files (f.base + length old) hi m rest in
      let past : ltb_ℤ (pos hi) k ≡ false =
        rw f.base_at (le→ltb (hi + 0) (f.base + 0) (omega (arith, below))) in
      let other : eqb_ℤ (pos hi) k ≡ false =
        rw f.base_at (ne_test hi f.base (omega (arith, below, f.some_records))) in
      rw (past, other)
        (elim (Memᴰ.cases_cons mem) [
          | inl same ↦ Memᴰ.head same
          | inr there ↦ Memᴰ.tail (Mem-insert files (f.base + length old) hi rs x m rest there)
        ])

pub Mem-remove :
    (key : ℤ) (x : ℤ × List Record) (m : InFlight)
    → eqb_ℤ key x.0 ≡ false
    → Memᴰ x m
    → Memᴰ x (InFlight.remove key m)
unfolding InFlight.remove
Mem-remove key x [] h mem = absurd (Memᴰ.not-nil mem)
Mem-remove key x ((j, qs) ∷ m) h mem = elim (Memᴰ.cases_cons mem) [
  | inl same ↦
      let z : eqb_ℤ key j ≡ false = subst (λ y. eqb_ℤ key y.0 ≡ false) same h in
      rw z (Memᴰ.head same)
  | inr there ↦
      let rest = Mem-remove key x m h there in
      elim (Bool-cases (eqb_ℤ key j)) [
        | inl gone ↦ rw gone rest
        | inr stays ↦ rw stays (Memᴰ.tail rest)
      ]
]

-- A consistent writer that has handed off and acknowledged nothing yet starts a log.
pub begin-IsLogged :
    (crc32c : List ℕ → ℕ) (w : Writer) (v : IsConsistent crc32c w)
    → w.uploads ≡ []
    → w.acked ≡ []
    → IsLogged v.base w.active [] w
begin-IsLogged crc32c w v none_sealed none_acked =
    let empty : handed_off w.uploads ≡ [] = ap handed_off none_sealed in
    record {
      later = [];
      grown = rw (empty, append-nil) refl;
      numbered = rw empty v.offsets;
      base_at = v.base_at ∙ ap pos (omega (arith, ap length empty));
      acknowledged = rw none_acked tt;
      kept = rw none_sealed tt;
    }
