-- ===== src/Models.antt =====
-- kafkrs-models: the types that the broker stores and sends.
pub mod Record
pub mod Wal
pub mod Config
pub mod Topic
pub mod Manifest
