-- ===== src/Tests/Config.antt =====
-- A configuration for production that is accepted.
use llmtrace.Base.{ℕ, ◌≡◌, ◌≤◌, refl, true, false, [], ◌∷◌, ◌++◌, none, some, length, eq_bytes, any}
use llmtrace.Base.Int.{pos}
use llmtrace.Base.Text.{
  Str, text, trim, trim_start, byte_len, has_prefix, has_infix, split_once, split,
  trim_start_matches, trim_end_matches, to_ascii_lowercase,
}
use llmtrace.Base.Url.{UrlLibrary}
use llmtrace.Pricing.{Floats}
use llmtrace.Config.Types.{
  litellm, production, filesystem, request_start, PluginConfig, Config, Externals,
}
use llmtrace.Config.Reports.{concat, validate_positive_range}
use llmtrace.Config.Upstreams.{
  url_entry, parse_url, entry_of, guarded_entry, parse_upstream_allow_entry, matches, is_one_of,
  upstream_allowlist_schemes,
}
use llmtrace.Config.Prefixes.{
  normalize_allowlist_path, parse_proxy_path_prefix, parse_prefixes, with_version,
  effective_path_prefixes, effective_capture_path_prefixes,
}
use llmtrace.Config.Storage.{
  validate_signed, validate_retention_days, validate_storage, validate_archive,
  validate_plugin_cache,
}
use llmtrace.Config.Auth.{
  validate_observability, validate_enabled, validate_login_rate_limit,
  validate_oauth_allowlist_value, ends_with_dash, validate_oauth_allowed_domain,
  validate_oauth_allowed_email, validate_each, validate_enabled_oauth, validate_oauth,
  check_password, check_hash, validate_production, validate_auth,
}
use llmtrace.Config.Server.{
  validate_admin_listen, validate_proxy_url, validate_server, validate_default_upstream,
  validate_upstreams, validate_proxy, validate_headers,
}
use llmtrace.Config.Plugins.{
  max_plugins, strip_wildcard, plugin_hooks_have_duplicates, validate_auth_header, endpoint_refused,
  validate_endpoints, validate_name, validate_timeout, validate_hooks, validate_plugin,
  validate_each_plugin, validate_plugins,
}
use llmtrace.Redaction.Headers.{ends_with_star}
use llmtrace.Config.Validation.{validate_pricing, validate}
use llmtrace.Config.Accepted.{IsAccepted, validate-IsAccepted}
use llmtrace.Config.Names.{Fresh, validate_plugins-Fresh}
use llmtrace.Config.Allowing.{parse_upstream_allow_entry-matches}

-- A URL is its scheme, and the rest without a query.
abbrev small_urls : UrlLibrary (Str × Str)
small_urls = record {
  parse = λ s. split_once (text "://") s;
  scheme = λ u. u.0;
  host_str = λ u. some (elim (split_once (text "/") u.1) [ none ↦ u.1 | some (host, path) ↦ host ]);
  port_or_known_default = λ u. some 443;
  path =
      λ u. elim (split_once (text "/") u.1) [ none ↦ text "/" | some (host, path) ↦ b'/' ∷ path ];
  username = λ u. [];
  password = λ u. none;
  query = λ u. none;
  fragment = λ u. none;
  set_username = λ s u. u;
  set_password = λ s u. u;
  set_query = λ s u. u;
  set_fragment = λ s u. u;
  to_string = λ u. u.0 ++ text "://" ++ u.1;
}

abbrev small_externals : Externals (Str × Str) Str
small_externals = record {
  urls = small_urls;
  parse_error = λ s. text "relative URL without a base";
  is_header_name = λ s. true;
  is_password_hash = λ s. has_prefix (text "$argon2") s;
  parse_socket = λ s. some s;
  port = λ s. 3000;
  same_ip = λ s t. eq_bytes s t;
  is_unspecified = λ s. false;
  debug = λ s. s;
}

abbrev no_floats : Floats ℕ
no_floats = record {
  is_finite = λ a. true;
  at_most = λ a b. true;
  zero = 0;
  million = 1;
  two_63 = 1;
  from_i64 = λ a. 0;
  add = λ a b. 0;
  mul = λ a b. 0;
  round = λ a. a;
  to_i64 = λ a. pos a;
}

abbrev small_plugin : PluginConfig
small_plugin = record {
  name = text "litellm-user";
  wasm_path = text "plugins/litellm.wasm";
  hooks = request_start ∷ [];
  timeout_ms = 500;
  http_get_urls = text "https://gw/key/info?*" ∷ [];
  http_auth_header = some (text "authorization");
  http_auth_env = some (text "LITELLM_KEY");
}

abbrev small_config : Config
small_config = record {
  server = record {
    listen = text "0.0.0.0:3000";
    admin_listen = none;
    public_url = text "https://trace.example.com";
    proxy_public_url = none;
    deployment = production;
  };
  proxy = record {
    preset = litellm;
    default_upstream = text "https://gw";
    allow_upstreams = text "https://gw/v1/" ∷ [];
    path_prefixes = none;
    capture_path_prefixes = some (text "/v1/chat/" ∷ []);
    upstream_header = text "x-upstream";
    timeout_secs = 60;
    max_request_body_bytes = 1000;
    max_response_body_bytes = 1000;
    max_websocket_message_bytes = 1000;
    max_websocket_session_bytes = 1000;
  };
  storage = record {
    postgres_url = text "postgres://db";
    max_connections = 8;
    acquire_timeout_secs = 5;
    trace_queue_capacity = 1000;
    trace_queue_max_bytes = 1000;
    trace_worker_count = 4;
    journal = record {
      enabled = true;
      max_bytes = 1000;
      max_records = 10;
      retry_interval_secs = 2;
    };
    journal_directory = text "spool";
    retention_days = some (pos 30);
    retention_prune_interval_secs = 60;
    retention_prune_batch_size = pos 100;
    rotate_size_bytes = 0;
    rotate_check_interval_secs = 60;
  };
  archive = record {
    storage_backend = filesystem;
    filesystem_root = text "archive";
    segment_uncompressed_bytes = 1000;
    compression_level = pos 3;
  };
  auth = record {
    cookie_secure = true;
    session_ttl_hours = pos 12;
    login_rate_limit = record {
      enabled = true;
      max_failures = 5;
      window_secs = 60;
      lockout_secs = 60;
      max_tracked_entries = 100;
    };
    local_admin = record {
      username = text "admin";
      password = none;
      password_hash = some (text "$argon2id$");
    };
    oauth = record {
      enabled = true;
      issuer_url = text "https://id";
      client_id = text "c";
      client_secret = text "s";
      redirect_url = [];
      timeout_secs = 10;
      require_email_verified = true;
      allowed_emails = text "a@example.com" ∷ [];
      allowed_domains = text "example.com" ∷ [];
    };
  };
  observability = record { metrics_bearer_token = some (text "token") };
  redaction = record { store_header_hash = false; sensitive_headers = text "x-secret" ∷ [] };
  plugins = small_plugin ∷ [];
  plugin_cache = record { capacity = 512; ttl_secs = 300 };
}

validate-IsAccepted_example : IsAccepted small_externals small_config
unfolding validate concat validate_server validate_admin_listen validate_proxy_url parse_url trim
    trim_start split_once has_prefix eq_bytes any validate_proxy validate_default_upstream
    validate_positive_range validate_upstreams effective_path_prefixes
    effective_capture_path_prefixes parse_prefixes parse_proxy_path_prefix normalize_allowlist_path
    split trim_start_matches trim_end_matches parse_upstream_allow_entry has_infix guarded_entry
    entry_of validate_storage validate_retention_days validate_signed validate_archive validate_auth
    check_password check_hash validate_login_rate_limit validate_enabled validate_production
    validate_oauth validate_enabled_oauth validate_each validate_oauth_allowed_email
    validate_oauth_allowlist_value validate_oauth_allowed_domain ends_with_dash byte_len
    validate_observability validate_headers validate_plugins validate_each_plugin validate_name
    validate_plugin validate_endpoints endpoint_refused strip_wildcard validate_auth_header
    validate_hooks plugin_hooks_have_duplicates validate_timeout validate_plugin_cache
    ends_with_star validate_pricing with_version to_ascii_lowercase
validate-IsAccepted_example = validate-IsAccepted small_externals no_floats small_config [] refl

validate_plugins-Fresh_example :
    (length (small_plugin ∷ []) ≤ max_plugins) × Fresh [] (small_plugin ∷ [])
unfolding concat trim trim_start split_once has_prefix eq_bytes any byte_len validate_plugins
    validate_each_plugin validate_name validate_plugin validate_endpoints endpoint_refused
    strip_wildcard validate_auth_header validate_hooks plugin_hooks_have_duplicates validate_timeout
    ends_with_star
validate_plugins-Fresh_example = validate_plugins-Fresh small_externals (small_plugin ∷ []) refl

parse_upstream_allow_entry-matches_example :
    (matches small_urls
        (λ s. s)
        (url_entry (text "https") (text "gw") 443 (text "/v1"))
        (text "https", text "GW/v1/")
      ≡ true)
    × (is_one_of (text "https") upstream_allowlist_schemes ≡ true)
unfolding parse_upstream_allow_entry has_infix has_prefix parse_url trim trim_start split_once
    eq_bytes any guarded_entry entry_of normalize_allowlist_path trim_start_matches trim_end_matches
    to_ascii_lowercase
parse_upstream_allow_entry-matches_example =
    parse_upstream_allow_entry-matches small_urls (λ s. s) (text "proxy.allow_upstreams[0]")
      (text " https://GW/v1/ ") (url_entry (text "https") (text "gw") 443 (text "/v1"))
      (text "https", text "GW/v1/") refl refl refl (refl, refl)
