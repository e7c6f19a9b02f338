-- ===== src/Models/Topic.antt =====
-- kafkrs-models/src/topic.rs: per-topic overrides, their validation, and the resolved config.
pub mod Validate
use kafkrs.Prelude.{ℕ, ◌*◌, Bool, Option, none, some, ltb, if◌then◌else◌, List}
use kafkrs.Prelude.Int.{ℤ, pos, negsuc, ltb_ℤ}
use kafkrs.Models.Config.{DiskType, GroupCommitProfile, group_commit_profile}

abbrev pub default_segment_size_bytes : ℕ
default_segment_size_bytes = 128 * 1024 * 1024

abbrev pub default_segment_seal_time_ms : ℕ
default_segment_seal_time_ms = 60_000

abbrev pub default_max_key_size_bytes : ℕ
default_max_key_size_bytes = 1024

abbrev pub default_max_value_size_bytes : ℕ
default_max_value_size_bytes = 1024 * 1024

abbrev pub default_max_fetch_wait_ms : ℕ
default_max_fetch_wait_ms = 60_000

abbrev pub default_retention_ms : ℤ
default_retention_ms = pos (7 * 24 * 3600 * 1000)

abbrev pub default_retention_bytes : ℤ
default_retention_bytes = negsuc 0

pub record TopicConfigOverrides : Type 0 where
  pub segment_size_bytes : Option ℕ
  pub segment_seal_time_ms : Option ℕ
  pub max_key_size_bytes : Option ℕ
  pub max_value_size_bytes : Option ℕ
  pub group_commit_time_ms : Option ℕ
  pub group_commit_size_bytes : Option ℕ
  pub group_commit_record_count : Option ℕ
  pub max_fetch_wait_ms : Option ℕ
  pub retention_ms : Option ℤ
  pub retention_bytes : Option ℤ

-- `TopicConfigOverrides::default()`
abbrev pub default_overrides : TopicConfigOverrides
default_overrides = record {
  segment_size_bytes = none;
  segment_seal_time_ms = none;
  max_key_size_bytes = none;
  max_value_size_bytes = none;
  group_commit_time_ms = none;
  group_commit_size_bytes = none;
  group_commit_record_count = none;
  max_fetch_wait_ms = none;
  retention_ms = none;
  retention_bytes = none;
}

-- A text is the list of its characters' codes.
pub record TopicEntry : Type 0 where
  pub name : List ℕ
  pub uuid : List ℕ
  pub partition_count : ℕ
  pub created_at_ns : ℤ
  pub config : TopicConfigOverrides

pub record ResolvedTopicConfig : Type 0 where
  pub segment_size_bytes : ℕ
  pub segment_seal_time_ms : ℕ
  pub max_key_size_bytes : ℕ
  pub max_value_size_bytes : ℕ
  pub group_commit_time_ms : ℕ
  pub group_commit_size_bytes : ℕ
  pub group_commit_record_count : ℕ
  pub max_fetch_wait_ms : ℕ
  pub retention_ms : ℤ
  pub retention_bytes : ℤ

abbrev pub unwrap_or {ℓ} : {A : Type ℓ} → Option A → A → A
unwrap_or none d = d
unwrap_or (some a) d = a

unfoldable pub resolve : TopicConfigOverrides → DiskType → ResolvedTopicConfig
resolve o disk =
    let p = group_commit_profile disk in
    record {
      segment_size_bytes = unwrap_or o.segment_size_bytes default_segment_size_bytes;
      segment_seal_time_ms = unwrap_or o.segment_seal_time_ms default_segment_seal_time_ms;
      max_key_size_bytes = unwrap_or o.max_key_size_bytes default_max_key_size_bytes;
      max_value_size_bytes = unwrap_or o.max_value_size_bytes default_max_value_size_bytes;
      group_commit_time_ms = unwrap_or o.group_commit_time_ms p.time_ms;
      group_commit_size_bytes = unwrap_or o.group_commit_size_bytes p.size_bytes;
      group_commit_record_count = unwrap_or o.group_commit_record_count p.record_count;
      max_fetch_wait_ms = unwrap_or o.max_fetch_wait_ms default_max_fetch_wait_ms;
      retention_ms = unwrap_or o.retention_ms default_retention_ms;
      retention_bytes = unwrap_or o.retention_bytes default_retention_bytes;
    }

-- The field that a `FieldOutOfRange` names; its texts are not modelled.
pub data ConfigValidationError : Type 0 where
  segment_size_out_of_range segment_seal_time_out_of_range : ConfigValidationError
  retention_ms_out_of_range retention_bytes_out_of_range : ConfigValidationError

abbrev below_one : Option ℕ → Bool
below_one none = Bool.false
below_one (some v) = ltb v 1

abbrev below_minus_one : Option ℤ → Bool
below_minus_one none = Bool.false
below_minus_one (some v) = ltb_ℤ v (negsuc 0)

-- `none` is `Ok(())`.
unfoldable pub validate : TopicConfigOverrides → Option ConfigValidationError
validate o =
    if below_one o.segment_size_bytes
    then some segment_size_out_of_range
    else if below_one o.segment_seal_time_ms
    then some segment_seal_time_out_of_range
    else if below_minus_one o.retention_ms
    then some retention_ms_out_of_range
    else if below_minus_one o.retention_bytes
    then some retention_bytes_out_of_range
    else none
