-- ===== src/Tests.antt =====
-- The theorems at concrete values.
mod Wal
mod Writer
mod Codec
mod Storage
mod Wire
mod Connection
mod PendingCodec
mod Deletion
mod Dispatch
mod Startup
