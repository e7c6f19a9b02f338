-- ===== src/Server/Wire.antt =====
-- kafkrs-server/src/wire: the client protocol.
pub mod Frame
pub mod Produce
pub mod Command
pub mod Connection
pub mod Overrides
pub mod Errors
pub mod TopicAdmin
pub mod DeleteTopic
pub mod Resolve
pub mod FetchHandler
pub mod Metadata
pub mod Dispatch
