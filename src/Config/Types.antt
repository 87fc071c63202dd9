-- ===== src/Config/Types.antt =====
-- crates/llmtrace/src/config.rs: the parts of the configuration, less the fields that validation does
-- not read. A path of the file system is its text.
use llmtrace.Base.{ℕ, Bool, true, false, List, Option}
use llmtrace.Base.Text.{Str}
use llmtrace.Base.Int.{ℤ}
use llmtrace.Base.Url.{UrlLibrary}
use llmtrace.LoginThrottle.{LoginRateLimitConfig}
use llmtrace.Redaction.Headers.{RedactionConfig}
use llmtrace.Trace.Journal.Catalog.{JournalConfig}

pub data ProxyPreset : Type 0 where
  custom : ProxyPreset
  litellm : ProxyPreset

pub data DeploymentMode : Type 0 where
  development : DeploymentMode
  production : DeploymentMode

abbrev pub is_production : DeploymentMode → Bool
is_production production = true
is_production development = false

pub data ArchiveStorageBackend : Type 0 where
  filesystem : ArchiveStorageBackend
  postgres : ArchiveStorageBackend

pub record ServerConfig : Type 0 where
  pub listen : Str
  pub admin_listen : Option Str
  pub public_url : Str
  pub proxy_public_url : Option Str
  pub deployment : DeploymentMode

pub record ProxyConfig : Type 0 where
  pub preset : ProxyPreset
  pub default_upstream : Str
  pub allow_upstreams : List Str
  pub path_prefixes : Option (List Str)
  pub capture_path_prefixes : Option (List Str)
  pub upstream_header : Str
  pub timeout_secs : ℕ
  pub max_request_body_bytes : ℕ
  pub max_response_body_bytes : ℕ
  pub max_websocket_message_bytes : ℕ
  pub max_websocket_session_bytes : ℕ

-- `journal_directory` is the field `directory` of the journal's configuration.
pub record StorageConfig : Type 0 where
  pub postgres_url : Str
  pub max_connections : ℕ
  pub acquire_timeout_secs : ℕ
  pub trace_queue_capacity : ℕ
  pub trace_queue_max_bytes : ℕ
  pub trace_worker_count : ℕ
  pub journal : JournalConfig
  pub journal_directory : Str
  pub retention_days : Option ℤ
  pub retention_prune_interval_secs : ℕ
  pub retention_prune_batch_size : ℤ
  pub rotate_size_bytes : ℕ
  pub rotate_check_interval_secs : ℕ

pub record ArchiveConfig : Type 0 where
  pub storage_backend : ArchiveStorageBackend
  pub filesystem_root : Str
  pub segment_uncompressed_bytes : ℕ
  pub compression_level : ℤ

pub record LocalAdminConfig : Type 0 where
  pub username : Str
  pub password : Option Str
  pub password_hash : Option Str

pub record OAuthConfig : Type 0 where
  pub enabled : Bool
  pub issuer_url : Str
  pub client_id : Str
  pub client_secret : Str
  pub redirect_url : Str
  pub timeout_secs : ℕ
  pub require_email_verified : Bool
  pub allowed_emails : List Str
  pub allowed_domains : List Str

pub record AuthConfig : Type 0 where
  pub cookie_secure : Bool
  pub session_ttl_hours : ℤ
  pub login_rate_limit : LoginRateLimitConfig
  pub local_admin : LocalAdminConfig
  pub oauth : OAuthConfig

pub record ObservabilityConfig : Type 0 where
  pub metrics_bearer_token : Option Str

pub data PluginHook : Type 0 where
  request_start : PluginHook
  response_headers : PluginHook
  response_end : PluginHook

pub record PluginConfig : Type 0 where
  pub name : Str
  pub wasm_path : Str
  pub hooks : List PluginHook
  pub timeout_ms : ℕ
  pub http_get_urls : List Str
  pub http_auth_header : Option Str
  pub http_auth_env : Option Str

pub record PluginCacheConfig : Type 0 where
  pub capacity : ℕ
  pub ttl_secs : ℕ

pub record Config : Type 0 where
  pub server : ServerConfig
  pub proxy : ProxyConfig
  pub storage : StorageConfig
  pub archive : ArchiveConfig
  pub auth : AuthConfig
  pub observability : ObservabilityConfig
  pub redaction : RedactionConfig
  pub plugins : List PluginConfig
  pub plugin_cache : PluginCacheConfig

-- What validation uses of other crates: `url`, the text of a URL's parse error, `HeaderName::from_bytes`,
-- `PasswordHash::new`, `SocketAddr` and the format `{:?}`.
pub record Externals (Url Socket : Type 0) : Type 0 where
  pub urls : UrlLibrary Url
  pub parse_error : Str → Str
  pub is_header_name : Str → Bool
  pub is_password_hash : Str → Bool
  pub parse_socket : Str → Option Socket
  pub port : Socket → ℕ
  pub same_ip : Socket → Socket → Bool
  pub is_unspecified : Socket → Bool
  pub debug : Str → Str
