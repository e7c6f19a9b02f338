-- ===== src/Server/Wire/Errors.antt =====
-- kafkrs-server/src/wire/errors.rs: the wire's code for each internal error.
use kafkrs.Server.Fetcher.{FetchError}
use kafkrs.Server.TopicRegistry.{RegistryError}
use kafkrs.Server.Wire.Command.{
  ErrorCode, err_unknown_topic, err_unknown_partition, err_offset_out_of_range,
  err_broker_not_ready, err_topic_already_exists, err_internal, err_invalid_config,
}

unfoldable pub fetch_error_code : FetchError → ErrorCode
fetch_error_code FetchError.unknown_topic = err_unknown_topic
fetch_error_code FetchError.unknown_partition = err_unknown_partition
fetch_error_code FetchError.offset_out_of_range = err_offset_out_of_range
fetch_error_code FetchError.broker_not_ready = err_broker_not_ready

unfoldable pub registry_error_code : RegistryError → ErrorCode
registry_error_code RegistryError.already_exists = err_topic_already_exists
registry_error_code RegistryError.io_error = err_internal
registry_error_code RegistryError.unknown_topic = err_unknown_topic
registry_error_code (RegistryError.invalid_config e) = err_invalid_config
