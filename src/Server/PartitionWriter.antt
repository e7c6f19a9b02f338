-- ===== src/Server/PartitionWriter.antt =====
-- kafkrs-server/src/partition_writer.rs: the actor that owns one partition's log.
pub mod State
pub mod Ops
pub mod Actor
pub mod Invariant
pub mod Commit
pub mod Seal
pub mod Assign
pub mod Step
pub mod Flush
pub mod Accept
pub mod Log
pub mod Logged
pub mod Reported
pub mod Retain
pub mod Crash
pub mod Tiers
pub mod Read
pub mod New
