-- ===== src/Server/Recovery.antt =====
-- kafkrs-server/src/recovery.rs: what a restart makes of one partition's WALs and manifest.
pub mod Restart
use kafkrs.Prelude.{
  ℕ, Bool, false, ◌&&◌, Option, none, some, List, [], ◌∷◌, ◌++◌, if◌then◌else◌, get_last?,
}
use kafkrs.Prelude.Int.{ℤ, pos, ltb_ℤ, leb_ℤ, next_i64}
use kafkrs.Models.Record.{Record}
use kafkrs.Models.Manifest.{Manifest, last_uploaded_offset}
use kafkrs.Server.WalFiles.{Files, remove_wal, recover_wal_file}
use kafkrs.Server.Uploader.{has_base}

pub record PartitionRecovery : Type 0 where
  pub active_records : List Record
  pub orphan_segments : List (ℤ × List Record)
  pub next_offset : ℤ

-- `wal_bases.sort()`
unfoldable pub insert_base : ℤ → List ℤ → List ℤ
insert_base b [] = b ∷ []
insert_base b (c ∷ cs) = let rest = insert_base b cs in if leb_ℤ b c then b ∷ c ∷ cs else c ∷ rest

unfoldable pub sort_bases : List ℤ → List ℤ
sort_bases [] = []
sort_bases (b ∷ bs) = insert_base b (sort_bases bs)

abbrev pub is_covered : Manifest → ℤ → Bool
is_covered m base =
    elim (last_uploaded_offset m) [ none ↦ false | some last ↦ leb_ℤ base last ]
    && has_base base m.segments

-- The offset behind the last one that was uploaded.
abbrev pub uploaded_end : Manifest → ℤ
uploaded_end m = elim (last_uploaded_offset m) [ none ↦ pos 0 | some last ↦ next_i64 last ]

abbrev pub max_ℤ : ℤ → ℤ → ℤ
max_ℤ a b = if ltb_ℤ a b then b else a

-- `orphan_segments.pop()`: the segment with the highest base is the active one.
unfoldable pub pop : List (ℤ × List Record) → List (ℤ × List Record) × List Record
pop [] = ([], [])
pop ((base, records) ∷ []) = ([], records)
pop (s ∷ t ∷ segments) = let (orphans, active) = pop (t ∷ segments) in (s ∷ orphans, active)

module _ (crc32c : List ℕ → ℕ) where
  -- The loop over the bases, over `next_offset`, `orphan_segments` and the files; `removes` says
  -- which removals succeed, and `none` stands for an unreadable file.
  unfoldable pub recover_loop :
      (ℤ → Bool)
      → Manifest
      → List ℤ
      → ℤ
      → List (ℤ × List Record)
      → Files
      → Option (List (ℤ × List Record) × ℤ × Files)
  recover_loop removes m [] next orphans files = some (orphans, next, files)
  recover_loop removes m (base ∷ bases) next orphans files =
      if is_covered m base
      then recover_loop removes m bases next orphans
          (if removes base then remove_wal files base else files)
      else elim (recover_wal_file crc32c files base) [
        | none ↦ none
        | some (records, files') ↦ elim (get_last? records) [
          | none ↦ recover_loop removes m bases next orphans files'
          | some last ↦
              recover_loop removes m bases (max_ℤ next (next_i64 last.offset))
                (orphans ++ (base, records) ∷ []) files'
        ]
      ]

  -- `recover_partition`, over the bases of the WALs in the directory and the manifest.
  unfoldable pub recover_partition :
      (ℤ → Bool) → Manifest → List ℤ → Files → Option (PartitionRecovery × Files)
  recover_partition removes m wal_bases files =
      let start : ℤ = elim (last_uploaded_offset m) [ none ↦ pos 0 | some last ↦ next_i64 last ] in
      elim (recover_loop removes m (sort_bases wal_bases) start [] files) [
        | none ↦ none
        | some (segments, next, files') ↦
            let popped = pop segments in
            some (
              record { active_records = popped.1; orphan_segments = popped.0; next_offset = next },
              files',
            )
      ]
