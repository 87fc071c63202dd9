-- ===== src/Trace/Journal.antt =====
-- crates/llmtrace/src/trace/journal.rs: the bounded capture journal.
pub mod Header
pub mod Record
pub mod Catalog
pub mod Claiming
pub mod Disk
pub mod Store
pub mod Capacity
pub mod Append
pub mod Admission
