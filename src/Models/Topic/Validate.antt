-- ===== src/Models/Topic/Validate.antt =====
-- What `validate` accepts, and what the resolved config then satisfies.
use kafkrs.Prelude.{ℕ, ◌≤◌, ◌≡◌, ◌↔◌, Option, none, some, arith}
use kafkrs.Prelude.Int.{negsuc, ◌≤ℤ◌}
use kafkrs.Models.Topic.{TopicConfigOverrides, ResolvedTopicConfig, validate}

abbrev pub At {ℓ κ} : {A : Type ℓ} → (A → Type κ) → Option A → Type κ
At P none = Unit
At P (some a) = P a

-- The ranges that the messages of `validate` name.
pub record IsValidConfig (o : TopicConfigOverrides) : Type 0 where
  pub segment_size : At (λ v. 1 ≤ v) o.segment_size_bytes
  pub seal_time : At (λ v. 1 ≤ v) o.segment_seal_time_ms
  pub retention_time : At (λ v. negsuc 0 ≤ℤ v) o.retention_ms
  pub retention_size : At (λ v. negsuc 0 ≤ℤ v) o.retention_bytes

-- `validate` accepts exactly the overrides whose four restricted fields are in range or absent.
pub validate_iff : (o : TopicConfigOverrides) → (validate o ≡ none) ↔ IsValidConfig o
unfolding validate
validate_iff o = (λ h. ground arith, λ h. ground arith)

-- A value that is the override, or at least 1 where there is none.
abbrev pub Chosen : Option ℕ → ℕ → Type 0
Chosen none v = 1 ≤ v
Chosen (some o) v = v ≡ o

-- What the broker relies on in a config that was resolved from overrides. `validate` puts no bound
-- on the fields of a group commit, the sizes of a record and the wait of a fetch.
pub record IsSane (o : TopicConfigOverrides) (c : ResolvedTopicConfig) : Type 0 where
  pub sealing : 1 ≤ c.segment_size_bytes
  pub seal_time : 1 ≤ c.segment_seal_time_ms
  pub retention_time : negsuc 0 ≤ℤ c.retention_ms
  pub retention_size : negsuc 0 ≤ℤ c.retention_bytes
  pub group_time : Chosen o.group_commit_time_ms c.group_commit_time_ms
  pub group_size : Chosen o.group_commit_size_bytes c.group_commit_size_bytes
  pub group_count : Chosen o.group_commit_record_count c.group_commit_record_count
  pub key_size : Chosen o.max_key_size_bytes c.max_key_size_bytes
  pub value_size : Chosen o.max_value_size_bytes c.max_value_size_bytes
  pub fetch_wait : Chosen o.max_fetch_wait_ms c.max_fetch_wait_ms
