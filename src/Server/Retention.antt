-- ===== src/Server/Retention.antt =====
-- kafkrs-server/src/retention.rs: which segments of a manifest a retention pass evicts.
pub mod Evict
use kafkrs.Prelude.{
  ℕ, suc, ◌+◌, ◌-◌, ◌*◌, ◌%◌, ◌^◌, min, Bool, false, ◌||◌, Option, none, some, List, [], ◌∷◌,
  if◌then◌else◌, leb, length, take,
}
use kafkrs.Prelude.Int.{ℤ, pos, negsuc, ltb_ℤ, from_u64, wrap_i64, ◌-ℤ◌}
use kafkrs.Models.Topic.{ResolvedTopicConfig}
use kafkrs.Models.Manifest.{SegmentEntry, Manifest}

-- `i64::saturating_mul` by a positive number.
unfoldable pub saturating_mul : ℤ → ℕ → ℤ
saturating_mul (pos n) k = pos (min (n * k) (2 ^ 63 - 1))
saturating_mul (negsuc n) k = negsuc (min (suc n * k - 1) (2 ^ 63 - 1))

unfoldable pub time_cutoff_ns : ResolvedTopicConfig → ℤ → Option ℤ
time_cutoff_ns cfg now_ns =
    if ltb_ℤ cfg.retention_ms (pos 0)
    then none
    else some (wrap_i64 (now_ns -ℤ saturating_mul cfg.retention_ms 1_000_000))

unfoldable pub total_bytes : List SegmentEntry → ℕ
total_bytes [] = 0
total_bytes (s ∷ ss) = s.byte_size + total_bytes ss

unfoldable pub over_size_by : ResolvedTopicConfig → List SegmentEntry → ℤ
over_size_by cfg segments =
    if ltb_ℤ cfg.retention_bytes (pos 0)
    then pos 0
    else wrap_i64 (from_u64 (total_bytes segments % 2 ^ 64) -ℤ cfg.retention_bytes)

abbrev pub time_says_evict : Option ℤ → SegmentEntry → Bool
time_says_evict none s = false
time_says_evict (some cutoff) s = ltb_ℤ s.last_timestamp_ns cutoff

-- The `for` loop, over `over_size_by`; it breaks at the first segment that stays.
unfoldable pub evict_loop : Option ℤ → ℤ → List SegmentEntry → List SegmentEntry
evict_loop cutoff over [] = []
evict_loop cutoff over (s ∷ ss) =
    let rest = evict_loop cutoff (wrap_i64 (over -ℤ from_u64 s.byte_size)) ss in
    if time_says_evict cutoff s || ltb_ℤ (pos 0) over then s ∷ rest else []

unfoldable pub evaluate_eviction : Manifest → ResolvedTopicConfig → ℤ → List SegmentEntry
evaluate_eviction m cfg now_ns =
    if leb (length m.segments) 1
    then []
    else evict_loop (time_cutoff_ns cfg now_ns) (over_size_by cfg m.segments)
        (take (length m.segments - 1) m.segments)
