-- ===== src/Models/Config.antt =====
-- kafkrs-models/src/config.rs: the disk types and the group-commit profile of each.
use kafkrs.Prelude.{ℕ, ◌*◌}

pub data DiskType : Type 0 where
  nvme ssd rotational : DiskType

pub record GroupCommitProfile : Type 0 where
  pub time_ms : ℕ
  pub size_bytes : ℕ
  pub record_count : ℕ

unfoldable pub group_commit_profile : DiskType → GroupCommitProfile
group_commit_profile nvme = record { time_ms = 5; size_bytes = 64 * 1024; record_count = 256 }
group_commit_profile ssd = record { time_ms = 15; size_bytes = 256 * 1024; record_count = 1024 }
group_commit_profile rotational = record {
  time_ms = 50;
  size_bytes = 1024 * 1024;
  record_count = 4096;
}
