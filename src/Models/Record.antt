-- ===== src/Models/Record.antt =====
-- kafkrs-models/src/record.rs: the record envelope of the log and the wire.
use kafkrs.Prelude.{ℕ, ◌+◌, List, length}
use kafkrs.Prelude.Int.{ℤ}

-- `offset` and `timestamp_ns` are i64, `schema_id` is u32; a byte is a number below 256.
pub record Record : Type 0 where
  pub offset : ℤ
  pub timestamp_ns : ℤ
  pub schema_id : ℕ
  pub key : List ℕ
  pub value : List ℕ

-- `r.value.len() + r.key.len()`, the size by which the writer batches.
abbrev pub payload_len : Record → ℕ
payload_len r = length r.value + length r.key
