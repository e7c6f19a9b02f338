-- ===== src/Server/Wire/Command.antt =====
-- kafkrs-models/proto/wire/v1.proto and kafkrs-server/src/wire/errors.rs: the commands of the wire.
-- An error frame has its code; its message text is not modelled. A `string` is a text.
use kafkrs.Prelude.{ℕ, Bool, Option, some, List, []}
use kafkrs.Prelude.Int.{ℤ}
use kafkrs.Models.Manifest.{Text}
use kafkrs.Server.Wire.Frame.{Frame}

pub data ErrorCode : Type 0 where
  err_unspecified : ErrorCode
  err_unsupported_protocol_version err_handshake_required err_already_connected : ErrorCode
  err_auth_failed err_malformed_frame err_frame_too_large err_invalid_command : ErrorCode
  err_unknown_topic err_unknown_partition err_offset_out_of_range : ErrorCode
  err_record_too_large err_key_too_large err_broker_not_ready err_invalid_config : ErrorCode
  err_topic_already_exists err_invalid_topic_name err_invalid_partition_count : ErrorCode
  err_internal : ErrorCode

-- The part of a `Produce` that describes one record.
pub record InRecordMeta : Type 0 where
  pub schema_id : ℕ
  pub key_len : ℕ
  pub value_len : ℕ
  pub timestamp_ns : ℤ

pub record ProduceRequest : Type 0 where
  pub topic : Text
  pub partition : ℕ
  pub records : List InRecordMeta

pub record ProduceResponse : Type 0 where
  pub base_offset : ℤ
  pub last_offset : ℤ
  pub hwm : ℤ

pub record OutRecordMeta : Type 0 where
  pub offset : ℤ
  pub timestamp_ns : ℤ
  pub schema_id : ℕ
  pub key_len : ℕ
  pub value_len : ℕ

pub record FetchCommand : Type 0 where
  pub topic : Text
  pub partition : ℕ
  pub from_offset : ℤ
  pub max_records : ℕ
  pub max_wait_ms : ℕ

pub record FetchAnswer : Type 0 where
  pub records : List OutRecordMeta
  pub hwm : ℤ

-- The `TopicConfigOverrides` of the wire, whose `group_commit_record_count` is a `u32`.
pub record WireOverrides : Type 0 where
  pub segment_size_bytes : Option ℕ
  pub segment_seal_time_ms : Option ℕ
  pub max_key_size_bytes : Option ℕ
  pub max_value_size_bytes : Option ℕ
  pub group_commit_time_ms : Option ℕ
  pub group_commit_size_bytes : Option ℕ
  pub group_commit_record_count : Option ℕ
  pub max_fetch_wait_ms : Option ℕ
  pub retention_ms : Option ℤ
  pub retention_bytes : Option ℤ

pub record CreateTopicRequest : Type 0 where
  pub topic : Text
  pub partition_count : ℕ
  pub overrides : Option WireOverrides

pub record DescribeTopicResponse : Type 0 where
  pub topic : Text
  pub partition_count : ℕ
  pub created_at_ns : ℤ
  pub config : Option WireOverrides

pub record DeleteTopicRequest : Type 0 where
  pub topic : Text
  pub delete_data : Option Bool

pub record AlterTopicConfigRequest : Type 0 where
  pub topic : Text
  pub overrides : Option WireOverrides

pub record BrokerInfo : Type 0 where
  pub broker_id : Text
  pub host : Text
  pub port : ℕ

pub record PartitionMetadata : Type 0 where
  pub partition : ℕ
  pub leader_broker_id : Text

-- `error_code` is `none` for the 0 of a topic that is known.
pub record TopicMetadata : Type 0 where
  pub topic : Text
  pub error_code : Option ErrorCode
  pub topic_uuid : Text
  pub partitions : List PartitionMetadata

pub record MetadataResponse : Type 0 where
  pub cluster_id : Text
  pub brokers : List BrokerInfo
  pub topics : List TopicMetadata

pub record ConnectedResponse : Type 0 where
  pub protocol_version : ℕ
  pub broker_id : Text
  pub cluster_id : Text

-- A `connect` has its protocol version; the client id and the auth data are never read.
pub data Body : Type 0 where
  connect : ℕ → Body
  connected : ConnectedResponse → Body
  ping pong : Body
  produce : ProduceRequest → Body
  produce_resp : ProduceResponse → Body
  fetch : FetchCommand → Body
  fetch_resp : FetchAnswer → Body
  create_topic : CreateTopicRequest → Body
  create_topic_resp : Body
  describe_topic : Text → Body
  describe_topic_resp : DescribeTopicResponse → Body
  list_topics : Body
  list_topics_resp : List Text → Body
  delete_topic : DeleteTopicRequest → Body
  delete_topic_resp : Body
  alter_topic_config : AlterTopicConfigRequest → Body
  alter_topic_config_resp : Option WireOverrides → Body
  metadata : List Text → Body
  metadata_resp : MetadataResponse → Body
  error : ErrorCode → Body

pub record Command : Type 0 where
  pub correlation_id : ℕ
  pub body : Option Body

abbrev pub make_error : ℕ → ErrorCode → Command
make_error correlation_id code = record {
  correlation_id = correlation_id;
  body = some (Body.error code);
}

-- A frame without a payload.
abbrev pub bare : ℕ → Body → Frame Command
bare correlation_id body = record {
  command = record { correlation_id = correlation_id; body = some body };
  payload = [];
}

abbrev pub error_frame : ℕ → ErrorCode → Frame Command
error_frame correlation_id code = record { command = make_error correlation_id code; payload = [] }
