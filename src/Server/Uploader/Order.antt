-- ===== src/Server/Uploader/Order.antt =====
-- The manifest stays in offset order when a segment is added.
use kafkrs.Prelude.{
  true, any, ◌≡◌, refl, filter, All-filter, ◌⊎◌, Bool, inl, inr, List, [], ◌∷◌, ◌++◌, arith, All,
  All-mono, All-append, Bool-cases,
}
use kafkrs.Prelude.Int.{ℤ, eqb_ℤ, eqb_ℤ_refl, leb_ℤ, ◌<ℤ◌, ◌≤ℤ◌}
use kafkrs.Models.Manifest.{SegmentEntry}
use kafkrs.Models.Manifest.Lookup.{Ascending}
use kafkrs.Server.Uploader.{insert_by_base, sort_by_base, has_base}

abbrev pub Disjoint : SegmentEntry → SegmentEntry → Type 0
Disjoint s t = (s.last_offset <ℤ t.base_offset) ⊎ (t.last_offset <ℤ s.base_offset)

-- Segments in any order that do not overlap.
abbrev pub Separate : List SegmentEntry → Type 0
Separate [] = Unit
Separate (s ∷ ss) = (s.base_offset ≤ℤ s.last_offset) × All (Disjoint s) ss × Separate ss

All-insert :
    (P : SegmentEntry → Type 0) (s : SegmentEntry) (ss : List SegmentEntry)
    → P s
    → All P ss
    → All P (insert_by_base s ss)
unfolding insert_by_base
All-insert P s [] h k = (h, tt)
All-insert P s (t ∷ ts) h (k, rest) = elim (Bool-cases (leb_ℤ s.base_offset t.base_offset)) [
  | inl before ↦ rw before (h, (k, rest))
  | inr after ↦ rw after (k, All-insert P s ts h rest)
]

pub All-sort :
    (P : SegmentEntry → Type 0) (ss : List SegmentEntry) → All P ss → All P (sort_by_base ss)
unfolding sort_by_base
All-sort P [] h = tt
All-sort P (s ∷ ss) (h, rest) = All-insert P s (sort_by_base ss) h (All-sort P ss rest)

insert-Ascending :
    (s : SegmentEntry) (ss : List SegmentEntry)
    → s.base_offset ≤ℤ s.last_offset
    → All (Disjoint s) ss
    → Ascending ss
    → Ascending (insert_by_base s ss)
unfolding insert_by_base
insert-Ascending s [] wide apart h = (wide, tt, tt)
insert-Ascending s (t ∷ ts) wide (side, apart) (wide_t, above, rest) =
    elim (Bool-cases (leb_ℤ s.base_offset t.base_offset)) [
      | inl before ↦
          let under : s.last_offset <ℤ t.base_offset = ground arith in
          rw before
            (wide, (under, All-mono _ _ ts (λ u k. omega arith) above), (wide_t, above, rest))
      | inr after ↦
          let over : t.last_offset <ℤ s.base_offset = ground arith in
          rw after (
            wide_t,
            All-insert (λ u. t.last_offset <ℤ u.base_offset) s ts over above,
            insert-Ascending s ts wide apart rest,
          )
    ]

pub sort-Ascending : (ss : List SegmentEntry) → Separate ss → Ascending (sort_by_base ss)
unfolding sort_by_base
sort-Ascending [] h = tt
sort-Ascending (s ∷ ss) (wide, apart, rest) =
    insert-Ascending s (sort_by_base ss) wide (All-sort (Disjoint s) ss apart)
      (sort-Ascending ss rest)

pub append-Separate :
    (ss : List SegmentEntry) (s : SegmentEntry)
    → s.base_offset ≤ℤ s.last_offset
    → All (Disjoint s) ss
    → Ascending ss
    → Separate (ss ++ s ∷ [])
append-Separate [] s wide apart h = (wide, tt, tt)
append-Separate (t ∷ ts) s wide (side, apart) (wide_t, above, rest) =
    let after : All (Disjoint t) ts = All-mono _ (Disjoint t) ts (λ u k. inl k) above in
    let new : Disjoint t s = elim side [ inl a ↦ inr a | inr b ↦ inl b ] in
    (
      wide_t,
      All-append (Disjoint t) ts (s ∷ []) after (new, tt),
      append-Separate ts s wide apart rest,
    )

pub Ascending-filter :
    (p : SegmentEntry → Bool) (ss : List SegmentEntry) → Ascending ss → Ascending (filter p ss)
unfolding filter
Ascending-filter p [] h = tt
Ascending-filter p (s ∷ ss) (wide, above, rest) = elim (Bool-cases (p s)) [
  | inl keep ↦ rw keep (wide, All-filter _ p ss above, Ascending-filter p ss rest)
  | inr out ↦ rw out (Ascending-filter p ss rest)
]

has_base-insert :
    (b : ℤ) (s : SegmentEntry) (ss : List SegmentEntry)
    → has_base b (s ∷ ss) ≡ true
    → has_base b (insert_by_base s ss) ≡ true
unfolding insert_by_base any
has_base-insert b s [] h = h
has_base-insert b s (t ∷ ts) h =
    let ih = has_base-insert b s ts in
    elim (Bool-cases (leb_ℤ s.base_offset t.base_offset)) [
      | inl before ↦ rw before h
      | inr after ↦ elim (Bool-cases (eqb_ℤ t.base_offset b)) [
        | inl found ↦ rw (after, found) refl
        | inr other ↦ rw (after, other) (ih (rw other at h))
      ]
    ]

has_base-cons :
    (b : ℤ) (s : SegmentEntry) (ss ts : List SegmentEntry)
    → (has_base b ss ≡ true → has_base b ts ≡ true)
    → has_base b (s ∷ ss) ≡ true
    → has_base b (s ∷ ts) ≡ true
unfolding any
has_base-cons b s ss ts f h = elim (Bool-cases (eqb_ℤ s.base_offset b)) [
  | inl found ↦ rw found refl
  | inr other ↦ rw other (f (rw other at h))
]

pub has_base-sort :
    (b : ℤ) (ss : List SegmentEntry) → has_base b ss ≡ true → has_base b (sort_by_base ss) ≡ true
unfolding sort_by_base
has_base-sort b [] h = h
has_base-sort b (s ∷ ss) h =
    has_base-insert b s (sort_by_base ss)
      (has_base-cons b s ss (sort_by_base ss) (has_base-sort b ss) h)

pub has_base-append :
    (b : ℤ) (ss : List SegmentEntry) (s : SegmentEntry)
    → s.base_offset ≡ b
    → has_base b (ss ++ s ∷ []) ≡ true
unfolding any
has_base-append b [] s e = rw (e, eqb_ℤ_refl b) refl
has_base-append b (t ∷ ts) s e = elim (Bool-cases (eqb_ℤ t.base_offset b)) [
  | inl found ↦ rw found refl
  | inr other ↦ rw other (has_base-append b ts s e)
]
