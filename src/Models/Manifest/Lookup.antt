-- ===== src/Models/Manifest/Lookup.antt =====
-- The invariant of a manifest, and what its lookups return.
use kafkrs.Prelude.{
  ◌≡◌, ◌∙◌, refl, sym, false, ◌&&◌, inl, inr, Option, none, some, List, [], ◌∷◌, arith,
  if◌then◌else◌, Bool-cases, All, All-mono,
}
use kafkrs.Prelude.Int.{ℤ, ltb_ℤ, leb_ℤ, ◌<ℤ◌, ◌≤ℤ◌}
use kafkrs.Models.Manifest.{SegmentEntry, Manifest, partition_point, segment_for_offset}

abbrev pub Covers : ℤ → SegmentEntry → Type 0
Covers offset s = (s.base_offset ≤ℤ offset) × (offset ≤ℤ s.last_offset)

-- Segments in offset order that do not overlap, each starting after `lo` has ended.
abbrev pub Ascending : List SegmentEntry → Type 0
Ascending [] = Unit
Ascending (s ∷ ss) =
    (s.base_offset ≤ℤ s.last_offset) × All (λ t. s.last_offset <ℤ t.base_offset) ss × Ascending ss

-- `segment_for_offset`, on the list of the segments.
abbrev find : List SegmentEntry → ℤ → Option SegmentEntry
find ss offset =
    segment_for_offset (record { topic = []; partition = 0; format_version = 1; segments = ss })
      offset

-- The reference: the first segment in the list that covers the offset.
unfoldable pub first_covering : List SegmentEntry → ℤ → Option SegmentEntry
first_covering [] offset = none
first_covering (s ∷ ss) offset =
    let rest = first_covering ss offset in
    if leb_ℤ s.base_offset offset && leb_ℤ offset s.last_offset then some s else rest

none_covering :
    (ss : List SegmentEntry) (offset : ℤ)
    → All (λ t. offset <ℤ t.base_offset) ss
    → first_covering ss offset ≡ none
unfolding first_covering
none_covering [] offset h = refl
none_covering (s ∷ ss) offset h = ground (arith, none_covering ss offset h.1)

find-first_covering :
    (ss : List SegmentEntry) (offset : ℤ) → Ascending ss → find ss offset ≡ first_covering ss offset
unfolding segment_for_offset partition_point first_covering
find-first_covering [] offset h = refl
find-first_covering (s ∷ ss) offset (wide, apart, rest) =
    elim (Bool-cases (ltb_ℤ s.last_offset offset)) [
      | inl past ↦
          let ih = find-first_covering ss offset rest in
          let beyond : leb_ℤ offset s.last_offset ≡ false = ground arith in
          let skips : find (s ∷ ss) offset ≡ find ss offset = ground (arith, past) in
          let passes : first_covering (s ∷ ss) offset ≡ first_covering ss offset =
            ground (arith, beyond) in
          skips ∙ ih ∙ sym passes
      | inr reached ↦
          let above : All (λ t. offset <ℤ t.base_offset) ss =
            All-mono _ _ ss (λ t k. ground (arith, reached)) apart in
          ground (arith, none_covering ss offset above, reached)
    ]

-- The binary search of a manifest whose segments are in order and do not overlap finds the
-- segment that covers an offset, and nothing when none does.
pub segment_for_offset_lem :
    (m : Manifest) (offset : ℤ)
    → Ascending m.segments
    → segment_for_offset m offset ≡ first_covering m.segments offset
unfolding segment_for_offset
segment_for_offset_lem m offset h = find-first_covering m.segments offset h
