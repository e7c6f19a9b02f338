-- ===== src/Models/Manifest.antt =====
-- kafkrs-models/src/manifest.rs: the manifest of a partition's segments in the object store.
pub mod Lookup
use kafkrs.Prelude.{
  ℕ, suc, ◌<◌, ◌≤◌, Bool, ◌&&◌, Option, none, some, List, [], ◌∷◌, if◌then◌else◌, get_elem?,
  get_last?,
}
use kafkrs.Prelude.Int.{ℤ, ltb_ℤ, leb_ℤ, ◌<ℤ◌, ◌≤ℤ◌}

-- A text is the list of its characters' codes.
abbrev pub Text : Type 0
Text = List ℕ

pub record SegmentEntry : Type 0 where
  pub base_offset : ℤ
  pub last_offset : ℤ
  pub base_timestamp_ns : ℤ
  pub last_timestamp_ns : ℤ
  pub record_count : ℕ
  pub byte_size : ℕ
  pub object_key : Text

pub record Manifest : Type 0 where
  pub topic : Text
  pub partition : ℕ
  pub format_version : ℕ
  pub segments : List SegmentEntry

-- `Manifest::empty`
unfoldable pub empty : Text → ℕ → Manifest
empty topic partition = record {
  topic = topic;
  partition = partition;
  format_version = 1;
  segments = [];
}

-- `slice::partition_point`, whose result is the length of the first part of a list in which the
-- entries that pass the test come first.
unfoldable pub partition_point : (SegmentEntry → Bool) → List SegmentEntry → ℕ
partition_point p [] = 0
partition_point p (s ∷ ss) = if p s then suc (partition_point p ss) else 0

unfoldable pub segment_for_offset : Manifest → ℤ → Option SegmentEntry
segment_for_offset m offset =
    let idx = partition_point (λ s. ltb_ℤ s.last_offset offset) m.segments in
    elim (get_elem? m.segments idx) [
      | none ↦ none
      | some s ↦ if leb_ℤ s.base_offset offset && leb_ℤ offset s.last_offset then some s else none
    ]

unfoldable pub last_uploaded_offset : Manifest → Option ℤ
last_uploaded_offset m = elim (get_last? m.segments) [ none ↦ none | some s ↦ some s.last_offset ]
