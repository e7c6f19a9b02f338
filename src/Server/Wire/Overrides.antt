-- ===== src/Server/Wire/Overrides.antt =====
-- kafkrs-server/src/wire/dispatch/mod.rs: the overrides of a topic on the wire and in the model.
-- `usize` is 64 bits wide.
use kafkrs.Prelude.{ℕ, ◌%◌, ◌^◌, ◌<◌, ◌≡◌, refl, Option, none, some, arith, ap, ap₂}
use kafkrs.Models.Topic.{TopicConfigOverrides}
use kafkrs.Server.Wire.Command.{WireOverrides}

abbrev map_option : (ℕ → ℕ) → Option ℕ → Option ℕ
map_option f none = none
map_option f (some n) = some (f n)

abbrev as_usize : ℕ → ℕ
as_usize n = n % 2 ^ 64

abbrev as_u64 : ℕ → ℕ
as_u64 n = n % 2 ^ 64

abbrev as_u32 : ℕ → ℕ
as_u32 n = n % 2 ^ 32

unfoldable pub wire_overrides_to_model : WireOverrides → TopicConfigOverrides
wire_overrides_to_model w = record {
  segment_size_bytes = w.segment_size_bytes;
  segment_seal_time_ms = w.segment_seal_time_ms;
  max_key_size_bytes = w.max_key_size_bytes;
  max_value_size_bytes = w.max_value_size_bytes;
  group_commit_time_ms = w.group_commit_time_ms;
  group_commit_size_bytes = map_option as_usize w.group_commit_size_bytes;
  group_commit_record_count = map_option as_usize w.group_commit_record_count;
  max_fetch_wait_ms = w.max_fetch_wait_ms;
  retention_ms = w.retention_ms;
  retention_bytes = w.retention_bytes;
}

unfoldable pub model_overrides_to_wire : TopicConfigOverrides → WireOverrides
model_overrides_to_wire m = record {
  segment_size_bytes = m.segment_size_bytes;
  segment_seal_time_ms = m.segment_seal_time_ms;
  max_key_size_bytes = m.max_key_size_bytes;
  max_value_size_bytes = m.max_value_size_bytes;
  group_commit_time_ms = m.group_commit_time_ms;
  group_commit_size_bytes = map_option as_u64 m.group_commit_size_bytes;
  group_commit_record_count = map_option as_u32 m.group_commit_record_count;
  max_fetch_wait_ms = m.max_fetch_wait_ms;
  retention_ms = m.retention_ms;
  retention_bytes = m.retention_bytes;
}

abbrev pub Below : ℕ → Option ℕ → Type 0
Below bound none = Unit
Below bound (some n) = n < bound

u64_casts : (o : Option ℕ) → Below (2 ^ 64) o → map_option as_u64 (map_option as_usize o) ≡ o
u64_casts none h = refl
u64_casts (some n) h = ap some (omega arith)

u32_casts :
    (o : Option ℕ)
    → Below (2 ^ 32) o
    → (map_option as_u32 (map_option as_usize o) ≡ o)
      × (map_option as_usize (map_option as_u32 o) ≡ o)
u32_casts none h = (refl, refl)
u32_casts (some n) h = (ap some (omega arith), ap some (omega arith))

-- Overrides that come from the wire go back to it as they came, and overrides of the model come
-- back as they went when the record count fits in a `u32` and the size in a `u64`.
pub overrides_round_trip :
    (w : WireOverrides) (m : TopicConfigOverrides)
    → Below (2 ^ 64) w.group_commit_size_bytes
    → Below (2 ^ 32) w.group_commit_record_count
    → Below (2 ^ 64) m.group_commit_size_bytes
    → Below (2 ^ 32) m.group_commit_record_count
    → (model_overrides_to_wire (wire_overrides_to_model w) ≡ w)
      × (wire_overrides_to_model (model_overrides_to_wire m) ≡ m)
unfolding wire_overrides_to_model model_overrides_to_wire
overrides_round_trip w m ws wc ms mc = (
  ap₂ (λ a b. record w { group_commit_size_bytes = a; group_commit_record_count = b })
      (u64_casts w.group_commit_size_bytes ws) (u32_casts w.group_commit_record_count wc).0,
  ap₂ (λ a b. record m { group_commit_size_bytes = a; group_commit_record_count = b })
      (u64_casts m.group_commit_size_bytes ms) (u32_casts m.group_commit_record_count mc).1,
)
