-- ===== src/LiteLlm.antt =====
-- crates/litellm-user-plugin: the plugin that finds out who uses a LiteLLM key.
pub mod Texts
pub mod Documents
pub mod Identity
pub mod Cacheable
pub mod Caching
pub mod Limits
pub mod Urls
