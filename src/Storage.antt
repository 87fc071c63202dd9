-- ===== src/Storage.antt =====
-- crates/llmtrace/src/storage.rs and the files below crates/llmtrace/src/storage.
pub mod Archive
