-- ===== src/Storage.antt =====
-- The package storage: the .capture format, its writer and reader, and the stores in memory.
pub mod Effect
pub mod Binary
pub mod CaptureRecord
pub mod Checksum
pub mod SessionWriter
pub mod SessionReader
pub mod Reads
pub mod Fields
pub mod Payloads
pub mod Records
pub mod Sessions
pub mod Truncation
pub mod Progress
pub mod RequestStore
pub mod StorageSink
mod Tests
