-- ===== src/Config/Auth.antt =====
-- crates/llmtrace/src/config.rs: the administrator's login, OAuth and the token for metrics.
use llmtrace.Base.{
  ℕ, suc, ◌*◌, Bool, true, false, not, ◌&&◌, ◌||◌, List, [], ◌∷◌, ◌++◌, Option, none, some, ltb,
  leb, ◌==◌, if◌then◌else◌, eq_bytes, any,
}
use llmtrace.Base.Text.{
  Str, text, is_empty, trim, byte_len, has_prefix, has_infix, split, split_once, decimal,
}
use llmtrace.Base.Results.{Result, ok, err, ◌>>=◌, ◌>>◌, ensure}
use llmtrace.LoginThrottle.{LoginRateLimitConfig}
use llmtrace.Config.Types.{
  DeploymentMode, is_production, OAuthConfig, AuthConfig, ObservabilityConfig, Externals,
}
use llmtrace.Config.Reports.{report, report_err, concat, validate_positive_range}
use llmtrace.Config.Storage.{validate_signed}
use llmtrace.Config.Upstreams.{is_ascii_whitespace, parse_url}
use llmtrace.Config.Prefixes.{indexed}

abbrev pub max_session_ttl_hours : ℕ
max_session_ttl_hours = 24 * 30

abbrev pub max_login_rate_limit_failures : ℕ
max_login_rate_limit_failures = 1000

abbrev pub max_login_rate_limit_window_secs : ℕ
max_login_rate_limit_window_secs = 24 * 60 * 60

abbrev pub max_login_rate_limit_lockout_secs : ℕ
max_login_rate_limit_lockout_secs = 24 * 60 * 60

abbrev pub max_login_rate_limit_tracked_entries : ℕ
max_login_rate_limit_tracked_entries = 1000000

abbrev pub max_oauth_timeout_secs : ℕ
max_oauth_timeout_secs = 300

abbrev pub is_ascii : Str → Bool
is_ascii s = not (any (λ c. leb 128 c) s)

-- `u8::is_ascii_control`, of a text that is ASCII.
abbrev pub is_ascii_control : ℕ → Bool
is_ascii_control c = ltb c 32 || c == 127

abbrev pub is_alphanumeric : ℕ → Bool
is_alphanumeric c =
    (leb b'0' c && leb c b'9') || (leb b'A' c && leb c b'Z') || (leb b'a' c && leb c b'z')

unfoldable pub validate_observability : DeploymentMode → ObservabilityConfig → List Str
validate_observability deployment observability = elim observability.metrics_bearer_token [
  | some token ↦
      if is_empty (trim token)
      then text "observability.metrics_bearer_token must not be empty when set" ∷ []
      else report
          (not (is_ascii token) || any (λ c. is_ascii_control c || is_ascii_whitespace c) token)
          (text
            "observability.metrics_bearer_token must contain only printable non-whitespace ASCII")
  | none ↦
      report (is_production deployment)
        (text "observability.metrics_bearer_token is required when server.deployment is production")
]

-- A limit that must not be 0 where throttling is enabled.
unfoldable pub validate_enabled : Str → ℕ → ℕ → List Str
validate_enabled field value max =
    if value == 0
    then (field ++ text " must be greater than 0 when enabled") ∷ []
    else report (ltb max value) (field ++ text " must be at most " ++ decimal max)

unfoldable pub validate_login_rate_limit : LoginRateLimitConfig → List Str
validate_login_rate_limit rate_limit =
    if not rate_limit.enabled
    then []
    else concat (
        validate_enabled (text "auth.login_rate_limit.max_failures") rate_limit.max_failures
          max_login_rate_limit_failures
        ∷ validate_enabled (text "auth.login_rate_limit.window_secs") rate_limit.window_secs
            max_login_rate_limit_window_secs
        ∷ validate_enabled (text "auth.login_rate_limit.lockout_secs") rate_limit.lockout_secs
            max_login_rate_limit_lockout_secs
        ∷ validate_enabled (text "auth.login_rate_limit.max_tracked_entries")
            rate_limit.max_tracked_entries max_login_rate_limit_tracked_entries
        ∷ [])

unfoldable pub validate_oauth_allowlist_value : Str → Str → Result Str Str
validate_oauth_allowlist_value field value =
    ensure (not (is_empty value)) (field ++ text " must not be empty")
    >> ensure (eq_bytes (trim value) value)
        (field ++ text " must not contain leading or trailing whitespace")
    >> ensure (is_ascii value && not (any is_ascii_control value))
        (field ++ text " must contain only printable ASCII")
    >> ok value

unfoldable pub ends_with_dash : Str → Bool
ends_with_dash [] = false
ends_with_dash (c ∷ []) = c == b'-'
ends_with_dash (c ∷ d ∷ s) = ends_with_dash (d ∷ s)

abbrev pub is_bad_label : Str → Bool
is_bad_label label =
    is_empty label
    || ltb 63 (byte_len label)
    || has_prefix (text "-") label
    || ends_with_dash label
    || any (λ c. not (is_alphanumeric c || c == b'-')) label

abbrev pub is_domain_mark : ℕ → Bool
is_domain_mark c =
    is_ascii_whitespace c
    || c == b'*'
    || c == b':'
    || c == b'/'
    || c == b'?'
    || c == b'#'
    || c == b'@'
    || c == b'['
    || c == b']'

unfoldable pub validate_oauth_allowed_domain : Str → Str → Result Str (Unit {0})
validate_oauth_allowed_domain field value = validate_oauth_allowlist_value field value >>= λ value.
    ensure (not (ltb 253 (byte_len value) || any is_domain_mark value))
      (field ++ text " must be a domain name such as example.com")
    >> ensure (not (any is_bad_label (split b'.' value)))
        (field ++ text " must be a domain name such as example.com")

abbrev pub map_err : {A : Type 0} → Str → Result Str A → Result Str A
map_err error (ok a) = ok a
map_err error (err e) = err error

unfoldable pub validate_oauth_allowed_email : Str → Str → Result Str (Unit {0})
validate_oauth_allowed_email field value = validate_oauth_allowlist_value field value >>= λ value.
    ensure (not (any is_ascii_whitespace value)) (field ++ text " must not contain whitespace")
    >> (elim (split_once (text "@") value) [
      | none ↦ err (field ++ text " must be an email address such as admin@example.com")
      | some (local, domain) ↦
          ensure (not (is_empty local || is_empty domain || has_infix (text "@") domain))
            (field ++ text " must be an email address such as admin@example.com")
          >> map_err (field ++ text " must contain a valid domain after @")
              (validate_oauth_allowed_domain field domain)
    ])

-- `for (index, value) in values.iter().enumerate()`.
unfoldable pub validate_each : (Str → Str → Result Str (Unit {0})) → Str → ℕ → List Str → List Str
validate_each check field index [] = []
validate_each check field index (value ∷ values) =
    report_err (check (indexed field index) value) ++ validate_each check field (suc index) values

module _ {Url Socket : Type 0} (x : Externals Url Socket) where
  -- What is checked where OAuth is enabled.
  unfoldable pub validate_enabled_oauth : DeploymentMode → OAuthConfig → List Str
  validate_enabled_oauth deployment oauth = concat (
      report_err (
        parse_url x.urls x.parse_error (text "auth.oauth.issuer_url") oauth.issuer_url
          (text "http" ∷ text "https" ∷ []))
      ∷ report (is_empty (trim oauth.client_id))
          (text "auth.oauth.client_id is required when OAuth is enabled")
      ∷ report (is_empty (trim oauth.client_secret))
          (text "auth.oauth.client_secret is required when OAuth is enabled")
      ∷ (if is_empty (trim oauth.redirect_url)
          then []
          else report_err (
              parse_url x.urls x.parse_error (text "auth.oauth.redirect_url") oauth.redirect_url
                (text "http" ∷ text "https" ∷ [])))
      ∷ validate_each validate_oauth_allowed_email (text "auth.oauth.allowed_emails") 0
          oauth.allowed_emails
      ∷ validate_each validate_oauth_allowed_domain (text "auth.oauth.allowed_domains") 0
          oauth.allowed_domains
      ∷ report
          (is_production deployment
            && (is_empty oauth.allowed_emails && is_empty oauth.allowed_domains))
          (text
            "auth.oauth.allowed_emails or auth.oauth.allowed_domains must be configured when OAuth is enabled in production")
      ∷ report (is_production deployment && not oauth.require_email_verified) (
          text "auth.oauth.require_email_verified must be true when OAuth is enabled in production")
      ∷ [])

  unfoldable pub validate_oauth : DeploymentMode → OAuthConfig → List Str
  validate_oauth deployment oauth =
      validate_positive_range (text "auth.oauth.timeout_secs") oauth.timeout_secs
        max_oauth_timeout_secs
      ++ (if not oauth.enabled then [] else validate_enabled_oauth deployment oauth)

  -- `has_password` and `has_hash`, with what they report.
  unfoldable pub check_password : Option Str → Bool × List Str
  check_password none = (false, [])
  check_password (some password) =
      if is_empty (trim password)
      then (false, text "auth.local_admin.password must not be empty when set" ∷ [])
      else (true, [])

  unfoldable pub check_hash : Option Str → Bool × List Str
  check_hash none = (false, [])
  check_hash (some hash) =
      if is_empty (trim hash)
      then (false, text "auth.local_admin.password_hash must not be empty when set" ∷ [])
      else if not (x.is_password_hash (trim hash))
      then (false, text "auth.local_admin.password_hash must be a valid PHC password hash" ∷ [])
      else (true, [])

  abbrev pub is_https : Option Url → Bool
  is_https none = false
  is_https (some url) = eq_bytes (x.urls.scheme url) (text "https")

  unfoldable pub validate_production : Str → AuthConfig → Bool → Bool → List Str
  validate_production public_url auth has_password has_hash = concat (
      report (is_https (x.urls.parse public_url) && not auth.cookie_secure)
        (text "auth.cookie_secure must be true when server.public_url uses https in production")
      ∷ report has_password (
          text
            "auth.local_admin.password must not be used when server.deployment is production; set auth.local_admin.password_hash instead")
      ∷ report (not has_hash)
          (text "auth.local_admin.password_hash is required when server.deployment is production")
      ∷ report (not auth.login_rate_limit.enabled)
          (text "auth.login_rate_limit.enabled must be true when server.deployment is production")
      ∷ [])

  unfoldable pub validate_auth : DeploymentMode → Str → AuthConfig → List Str
  validate_auth deployment public_url auth =
      let (has_password, password_errors) = check_password auth.local_admin.password in
      let (has_hash, hash_errors) = check_hash auth.local_admin.password_hash in
      concat (
        report (is_empty (trim auth.local_admin.username))
          (text "auth.local_admin.username must not be empty")
        ∷ password_errors
        ∷ hash_errors
        ∷ report (not has_password && not has_hash && not auth.oauth.enabled) (
            text
              "configure auth.local_admin.password_hash, auth.local_admin.password, or enable auth.oauth")
        ∷ validate_signed (text "auth.session_ttl_hours") auth.session_ttl_hours
            max_session_ttl_hours
        ∷ validate_login_rate_limit auth.login_rate_limit
        ∷ (if is_production deployment
            then validate_production public_url auth has_password has_hash
            else [])
        ∷ validate_oauth deployment auth.oauth
        ∷ [])
