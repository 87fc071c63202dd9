-- ===== src/Trace.antt =====
-- crates/llmtrace/src/trace: the capture pipeline's memory budget and its disk journal.
pub mod Memory
pub mod Journal
pub mod Durable
pub mod Bounds
pub mod Effects
pub mod Recorder
