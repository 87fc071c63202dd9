-- ===== src/Config.antt =====
-- crates/llmtrace/src/config.rs: the configuration and its validation.
pub mod Types
pub mod Reports
pub mod Prefixes
pub mod Upstreams
pub mod Storage
pub mod Auth
pub mod Server
pub mod Plugins
pub mod Validation
pub mod Limits
pub mod Accepted
pub mod Names
pub mod Allowing
