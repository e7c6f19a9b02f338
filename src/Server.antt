-- ===== src/Server.antt =====
-- kafkrs-server: the broker's actors and storage.
pub mod WalFiles
pub mod InFlight
pub mod PartitionWriter
pub mod Retention
pub mod ObjectStore
pub mod Uploader
pub mod Wire
pub mod Recovery
pub mod TopicRegistry
pub mod Fetcher
pub mod PendingDeletes
pub mod Deletion
pub mod Partitions
pub mod BrokerIdentity
pub mod Startup
