-- ===== src/Plugins.antt =====
-- crates/llmtrace/src/plugins: what the host gives the WASM plugins.
pub mod Cache
