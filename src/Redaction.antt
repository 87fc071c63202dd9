-- ===== src/Redaction.antt =====
-- crates/llmtrace/src/redaction.rs: what a trace keeps of headers and URIs.
pub mod Queries
pub mod Headers
pub mod Secrecy
pub mod Repetition
