-- ===== src/Server/Wire/Produce.antt =====
-- kafkrs-server/src/wire/dispatch/produce.rs: the handler of `Produce` behind the partition lookup.
pub mod Slice
pub mod Group
use kafkrs.Prelude.{
  ℕ, ◌+◌, ◌-◌, Option, none, some, List, [], ◌∷◌, ◌++◌, if◌then◌else◌, ltb, not, ◌==◌, length, take,
  drop,
}
use kafkrs.Prelude.Int.{ℤ, pos, ◌-ℤ◌, ◌+ℤ◌, wrap_i64}
use kafkrs.Models.Topic.{ResolvedTopicConfig}
use kafkrs.Server.PartitionWriter.State.{IncomingRecord}
use kafkrs.Server.Wire.Command.{
  InRecordMeta, ProduceResponse, ErrorCode, err_malformed_frame, err_key_too_large,
  err_record_too_large, err_broker_not_ready, err_unknown_topic,
}

pub data Reply (A : Type 0) : Type 0 where
  ok : A → Reply A
  error : ErrorCode → Reply A

-- `validate_record_sizes`: the first violation, if there is one.
unfoldable pub validate_record_sizes : ResolvedTopicConfig → List InRecordMeta → Option ErrorCode
validate_record_sizes cfg [] = none
validate_record_sizes cfg (m ∷ ms) =
    let rest = validate_record_sizes cfg ms in
    if ltb cfg.max_key_size_bytes m.key_len
    then some err_key_too_large
    else if ltb cfg.max_value_size_bytes m.value_len
    then some err_record_too_large
    else rest

-- The loop of `slice_payload`, over `cursor` and `records`.
unfoldable pub slice_loop :
    List ℕ → List InRecordMeta → ℕ → List IncomingRecord → Reply (List IncomingRecord)
slice_loop payload [] cursor records =
    if not (cursor == length payload) then error err_malformed_frame else ok records
slice_loop payload (m ∷ ms) cursor records =
    let sliced : IncomingRecord = record {
      schema_id = m.schema_id;
      key = take m.key_len (drop cursor payload);
      value = take m.value_len (drop (cursor + m.key_len) payload);
      timestamp_ns = m.timestamp_ns;
    } in
    let rest = slice_loop payload ms (cursor + m.key_len + m.value_len) (records ++ sliced ∷ []) in
    if ltb (length payload) (cursor + m.key_len + m.value_len)
    then error err_malformed_frame
    else rest

unfoldable pub slice_payload : List InRecordMeta → List ℕ → Reply (List IncomingRecord)
slice_payload records_meta payload = slice_loop payload records_meta 0 []

-- What `commit_records` answers when the ack brings `hwm`.
unfoldable pub produce_response : ℕ → ℤ → ProduceResponse
produce_response n hwm = record {
  base_offset = wrap_i64 (wrap_i64 (hwm -ℤ pos n) +ℤ pos 1);
  last_offset = hwm;
  hwm = hwm;
}

-- `commit_records`: the writer's answer, `none` when its channel or the ack's is closed.
unfoldable pub commit_records : List IncomingRecord → Option ℤ → Reply ProduceResponse
commit_records records ack = elim ack [
  | none ↦ error err_broker_not_ready
  | some hwm ↦ ok (produce_response (length records) hwm)
]

-- `produce_inner`, over the config of the partition that the lookup found, if it found one, and
-- the writer's answer.
unfoldable pub produce_inner :
    Option ResolvedTopicConfig
    → (List IncomingRecord → Option ℤ)
    → List InRecordMeta
    → List ℕ
    → Reply ProduceResponse
produce_inner handle writer [] payload = error err_malformed_frame
produce_inner handle writer (m ∷ ms) payload = elim handle [
  | none ↦ error err_unknown_topic
  | some cfg ↦ elim (validate_record_sizes cfg (m ∷ ms)) [
    | some code ↦ error code
    | none ↦ elim (slice_payload (m ∷ ms) payload) [
      | error code ↦ error code
      | ok records ↦ commit_records records (writer records)
    ]
  ]
]
