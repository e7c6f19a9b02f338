-- ===== src/Server/Retention/Evict.antt =====
-- What a retention pass evicts: old segments first, and never the last one.
use kafkrs.Prelude.{
  ℕ, ◌+◌, ◌-◌, ◌<◌, ◌≤◌, ◌^◌, ◌≡◌, ◌∙◌, ◌⊎◌, ◌||◌, refl, sym, ap, Bool, false, inl, inr, Option,
  List, [], ◌∷◌, ◌++◌, arith, leb, length, take, drop, Bool-cases, take-append-drop, length-append,
  length-drop, append_assoc,
}
use kafkrs.Prelude.Int.{ℤ, pos, ltb_ℤ, sub_ℕ, ◌-ℤ◌, from_u64, to_u64, wrap_i64}
use kafkrs.Models.Topic.{ResolvedTopicConfig}
use kafkrs.Models.Manifest.{SegmentEntry, Manifest}
use kafkrs.Server.Retention.{
  total_bytes, over_size_by, time_cutoff_ns, time_says_evict, evict_loop, evaluate_eviction,
}

loop-prefix :
    (cutoff : Option ℤ) (over : ℤ) (ss : List SegmentEntry)
    → (rest : List SegmentEntry) × (ss ≡ evict_loop cutoff over ss ++ rest)
unfolding evict_loop
loop-prefix cutoff over [] = ([], refl)
loop-prefix cutoff over (s ∷ ss) =
    elim (Bool-cases (time_says_evict cutoff s || ltb_ℤ (pos 0) over)) [
      | inr stays ↦ (s ∷ ss, rw stays refl)
      | inl goes ↦
          let (rest, e) = loop-prefix cutoff (wrap_i64 (over -ℤ from_u64 s.byte_size)) ss in
          (rest, rw goes (ap (◌∷◌ s) e))
    ]

-- The segments that a pass evicts are the first ones of the manifest, and some segment, so the
-- last one, stays whenever there is one.
pub evict-prefix :
    (m : Manifest) (cfg : ResolvedTopicConfig) (now_ns : ℤ)
    → (rest : List SegmentEntry) × (m.segments ≡ evaluate_eviction m cfg now_ns ++ rest)
      × (0 < length m.segments → 0 < length rest)
unfolding evaluate_eviction
evict-prefix m cfg now_ns = elim (Bool-cases (leb (length m.segments) 1)) [
  | inl few ↦ (m.segments, rw few refl, λ h. h)
  | inr many ↦
      let front = take (length m.segments - 1) m.segments in
      let back = drop (length m.segments - 1) m.segments in
      let (rest, e) = loop-prefix (time_cutoff_ns cfg now_ns) (over_size_by cfg m.segments) front in
      (
        rest ++ back,
        rw many (
            sym (take-append-drop (length m.segments - 1) m.segments)
            ∙ ap (λ xs. xs ++ back) e
            ∙ append_assoc
                (evict_loop (time_cutoff_ns cfg now_ns) (over_size_by cfg m.segments) front) rest
                back),
        λ h. omega (arith, length-append rest back, length-drop (length m.segments - 1) m.segments),
      )
]

total_bytes-append :
    (ss ts : List SegmentEntry) → total_bytes (ss ++ ts) ≡ total_bytes ss + total_bytes ts
unfolding total_bytes
total_bytes-append [] ts = omega arith
total_bytes-append (s ∷ ss) ts = omega (arith, total_bytes-append ss ts)

shrink :
    (b t u cap : ℕ)
    → b + t + u < 2 ^ 63
    → cap < 2 ^ 63
    → wrap_i64 (sub_ℕ (b + t + u) cap -ℤ from_u64 b) ≡ sub_ℕ (t + u) cap
unfolding wrap_i64 from_u64 to_u64 ◌-ℤ◌
shrink b t u cap h k = ground arith

fits : (old : Bool) (t cap : ℕ) → (old || ltb_ℤ (pos 0) (sub_ℕ t cap)) ≡ false → t ≤ cap
fits old t cap h = ground arith

loop-cap :
    (cutoff : Option ℤ) (ss back : List SegmentEntry) (cap : ℕ)
    → total_bytes ss + total_bytes back < 2 ^ 63
    → cap < 2 ^ 63
    → (rest : List SegmentEntry) × (ss
        ≡ evict_loop cutoff (sub_ℕ (total_bytes ss + total_bytes back) cap) ss ++ rest)
      × ((rest ≡ []) ⊎ (total_bytes rest + total_bytes back ≤ cap))
unfolding evict_loop total_bytes
loop-cap cutoff [] back cap h k = ([], refl, inl refl)
loop-cap cutoff (s ∷ ss) back cap h k =
    let over = sub_ℕ (s.byte_size + total_bytes ss + total_bytes back) cap in
    elim (Bool-cases (time_says_evict cutoff s || ltb_ℤ (pos 0) over)) [
      | inr stays ↦ (
        s ∷ ss,
        rw stays refl,
        inr (
            fits (time_says_evict cutoff s) (s.byte_size + total_bytes ss + total_bytes back) cap
              stays),
      )
      | inl goes ↦
          let (rest, e, small) = loop-cap cutoff ss back cap (omega arith) k in
          (
            rest,
            rw (goes, shrink s.byte_size (total_bytes ss) (total_bytes back) cap h k)
                (ap (◌∷◌ s) e),
            small,
          )
    ]

over_size_lem :
    (cfg : ResolvedTopicConfig) (ss : List SegmentEntry) (cap : ℕ)
    → cfg.retention_bytes ≡ pos cap
    → cap < 2 ^ 63
    → total_bytes ss < 2 ^ 63
    → over_size_by cfg ss ≡ sub_ℕ (total_bytes ss) cap
unfolding over_size_by wrap_i64 from_u64 to_u64 ◌-ℤ◌
over_size_lem cfg ss cap e k h = ground (arith, e)

-- With a size limit, and as long as the sizes add up to less than 2 ^ 63, what a pass leaves is
-- within the limit, or is the last segment alone.
pub evict-cap :
    (m : Manifest) (cfg : ResolvedTopicConfig) (now_ns : ℤ) (cap : ℕ)
    → cfg.retention_bytes ≡ pos cap
    → cap < 2 ^ 63
    → total_bytes m.segments < 2 ^ 63
    → (rest : List SegmentEntry) × (m.segments ≡ evaluate_eviction m cfg now_ns ++ rest)
      × ((length rest ≤ 1) ⊎ (total_bytes rest ≤ cap))
unfolding evaluate_eviction
evict-cap m cfg now_ns cap e k h = elim (Bool-cases (leb (length m.segments) 1)) [
  | inl few ↦ (m.segments, rw few refl, inl (ground (arith, few)))
  | inr many ↦
      let n = length m.segments - 1 in
      let front = take n m.segments in
      let back = drop n m.segments in
      let cutoff = time_cutoff_ns cfg now_ns in
      let whole : total_bytes m.segments ≡ total_bytes front + total_bytes back =
        ap total_bytes (sym (take-append-drop n m.segments)) ∙ total_bytes-append front back in
      let over : over_size_by cfg m.segments ≡ sub_ℕ (total_bytes front + total_bytes back) cap =
        over_size_lem cfg m.segments cap e k h ∙ ap (λ (t : ℕ). sub_ℕ t cap) whole in
      let (rest, parts, small) = loop-cap cutoff front back cap (omega (arith, whole, h)) k in
      (
        rest ++ back,
        rw (many, over)
            (sym (take-append-drop n m.segments)
              ∙ ap (λ xs. xs ++ back) parts
              ∙ append_assoc
                  (evict_loop cutoff (sub_ℕ (total_bytes front + total_bytes back) cap) front) rest
                  back),
        elim small [
          | inl empty ↦
              inl
                (omega (arith, length-append rest back, length-drop n m.segments, ap length empty))
          | inr fit ↦ inr (omega (arith, total_bytes-append rest back, fit))
        ],
      )
]
