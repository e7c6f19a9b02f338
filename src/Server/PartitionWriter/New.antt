-- ===== src/Server/PartitionWriter/New.antt =====
-- A writer starts consistent, for a new partition and after a restart.
use kafkrs.Prelude.{
  ℕ, suc, ◌+◌, ◌<◌, ◌^◌, ◌≡◌, ◌∙◌, refl, ap, none, some, List, [], ◌∷◌, arith, length, All,
}
use kafkrs.Prelude.Int.{ℤ, pos}
use kafkrs.Models.Record.{Record}
use kafkrs.Models.Topic.{ResolvedTopicConfig}
use kafkrs.Models.Wal.{encode_batch}
use kafkrs.Models.Wal.Body.{IsEncodable}
use kafkrs.Server.WalFiles.{Files, open_wal, open_wal_fresh, open_wal_ne}
use kafkrs.Server.PartitionWriter.Ops.{new, total_bytes}
use kafkrs.Server.PartitionWriter.Invariant.{Consecutive, IsConsistent, ne_test}

module _ (crc32c : List ℕ → ℕ) where
  open_wal_old :
      (files : Files) (base : ℤ) (bytes : List ℕ)
      → files base ≡ some bytes
      → open_wal files base base ≡ some bytes
  unfolding open_wal
  open_wal_old files base bytes h = ground (arith, h)

  -- A writer that starts without records at an offset below 2 ^ 63, with no WAL at that offset or
  -- past it, is consistent.
  pub new_empty-IsConsistent :
      (cfg : ResolvedTopicConfig) (n : ℕ) (files : Files)
      → n < 2 ^ 63
      → files (pos n) ≡ none
      → ((k : ℕ) → n < k → files (pos k) ≡ none)
      → IsConsistent crc32c (new cfg (pos n) [] files)
  unfolding new total_bytes encode_batch
  new_empty-IsConsistent cfg n files h free above = record {
    base = n;
    base_at = refl;
    wal_at = refl;
    next_at = ap pos (omega arith);
    bound = omega arith;
    offsets = tt;
    staged = tt;
    sound = tt;
    staged_sound = tt;
    stored = open_wal_fresh files (pos n) free;
    size = refl;
    flights = omega arith;
    fresh = λ k g. open_wal_ne files (pos n) (pos k) (ne_test k n g) ∙ above k g;
    acknowledged = tt;
    announced = tt;
  }

  -- A writer that starts with encodable records numbered on from the base of its segment, whose WAL
  -- has exactly their bytes and is the last one, and with the offset behind the last of them, below
  -- 2 ^ 63, is consistent.
  pub new_recovered-IsConsistent :
      (cfg : ResolvedTopicConfig) (n : ℕ) (r : Record) (rs : List Record) (files : Files)
      → n + suc (length rs) < 2 ^ 63
      → Consecutive n (r ∷ rs)
      → All IsEncodable (r ∷ rs)
      → files (pos n) ≡ some (encode_batch crc32c (r ∷ rs))
      → ((k : ℕ) → n < k → files (pos k) ≡ none)
      → IsConsistent crc32c (new cfg (pos (n + suc (length rs))) (r ∷ rs) files)
  unfolding new
  new_recovered-IsConsistent cfg n r rs files h offsets sound stored above = record {
    base = n;
    base_at = offsets.0;
    wal_at = offsets.0;
    next_at = ap pos (omega arith);
    bound = omega arith;
    offsets = offsets;
    staged = tt;
    sound = sound;
    staged_sound = tt;
    stored = simp offsets.0 (open_wal_old files (pos n) (encode_batch crc32c (r ∷ rs)) stored);
    size = refl;
    flights = omega arith;
    fresh = λ k g. rw offsets.0 (open_wal_ne files (pos n) (pos k) (ne_test k n g) ∙ above k g);
    acknowledged = tt;
    announced = tt;
  }
