-- ===== src/Config/Accepted.antt =====
-- crates/llmtrace/src/config.rs: what a validated configuration keeps to.
use llmtrace.Base.{
  ℕ, suc, ◌*◌, ◌≡◌, refl, ◌≤◌, Bool, true, false, not, ◌&&◌, List, [], ◌∷◌, if◌then◌else◌,
}
use llmtrace.Base.Int.{is_positive, magnitude}
use llmtrace.Base.Text.{Str, text, is_empty}
use llmtrace.Pricing.{Floats, ModelPrice}
use llmtrace.Config.Types.{
  DeploymentMode, is_production, AuthConfig, OAuthConfig, ProxyConfig, Config, Externals,
}
use llmtrace.Config.Reports.{
  validate_positive_range, validate_positive_range-Empty, append-nil, concat-Clean, report-nil,
  report_err, report_err-ok,
}
use llmtrace.Config.Auth.{
  max_oauth_timeout_secs, validate_enabled_oauth, validate_oauth, check_password, check_hash,
  validate_production, validate_auth,
}
use llmtrace.Base.Results.{ok}
use llmtrace.Routing.{PathPrefixAllowlist}
use llmtrace.Config.Server.{validate_upstreams, validate_proxy}
use llmtrace.Config.Upstreams.{UpstreamAllowEntry, parse_upstream_allow_entry, parse_upstreams}
use llmtrace.Config.Prefixes.{
  indexed, parse_path_allowlist, effective_path_prefixes, effective_capture_path_prefixes,
}
use llmtrace.Config.Validation.{validate}
use llmtrace.Config.Limits.{
  Within, IsStorage, validate_storage-IsStorage, validate_signed-Empty, IsLimited,
  validate_login_rate_limit-IsLimited,
}

not-false : (b : Bool) → not b ≡ false → b ≡ true
not-false true h = refl
not-false false h = cc

-- The tests of an error that only production has.
only_production : (a b : Bool) → a ≡ true → (a && b) ≡ false → b ≡ false
only_production true b p h = h
only_production false b p h = cc

enabled-Empty :
    (enabled : Bool) (errors : List Str)
    → enabled ≡ true
    → (if not enabled then [] else errors) ≡ []
    → errors ≡ []
enabled-Empty true errors on h = h
enabled-Empty false errors on h = cc

module _ {Url Socket : Type 0} (x : Externals Url Socket) where
  -- OAuth in production: only verified addresses, and an allowlist.
  pub record IsGuarded (oauth : OAuthConfig) : Type 0 where
    pub verified : oauth.require_email_verified ≡ true
    pub listed : (is_empty oauth.allowed_emails && is_empty oauth.allowed_domains) ≡ false

  validate_enabled_oauth-IsGuarded :
      (deployment : DeploymentMode) (oauth : OAuthConfig)
      → validate_enabled_oauth x deployment oauth ≡ []
      → is_production deployment ≡ true
      → IsGuarded oauth
  unfolding validate_enabled_oauth
  validate_enabled_oauth-IsGuarded deployment oauth h p =
      let (
        issuer,
        (client, (secret, (redirect, (emails, (domains, (listed, (verified, others))))))),
      ) =
        concat-Clean _ h in
      record {
        verified =
            not-false _ (only_production (is_production deployment) _ p (report-nil _ _ verified));
        listed = only_production (is_production deployment) _ p (report-nil _ _ listed);
      }

  validate_oauth-IsGuarded :
      (deployment : DeploymentMode) (oauth : OAuthConfig)
      → validate_oauth x deployment oauth ≡ []
      → is_production deployment ≡ true
      → oauth.enabled ≡ true
      → IsGuarded oauth
  unfolding validate_oauth
  validate_oauth-IsGuarded deployment oauth h p on =
      let range =
        validate_positive_range (text "auth.oauth.timeout_secs") oauth.timeout_secs
          max_oauth_timeout_secs in
      let (timeout, rest) =
        append-nil range
          (if not oauth.enabled then [] else validate_enabled_oauth x deployment oauth) h in
      validate_enabled_oauth-IsGuarded deployment oauth
        (enabled-Empty oauth.enabled (validate_enabled_oauth x deployment oauth) on rest) p

  -- The login in production.
  pub record IsSecured (auth : AuthConfig) : Type 0 where
    pub hash : (check_hash x auth.local_admin.password_hash).0 ≡ true
    pub password : (check_password x auth.local_admin.password).0 ≡ false
    pub throttled : auth.login_rate_limit.enabled ≡ true

  validate_production-IsSecured :
      (public_url : Str) (auth : AuthConfig)
      → validate_production x public_url auth
          (check_password x auth.local_admin.password).0
          (check_hash x auth.local_admin.password_hash).0
        ≡ []
      → IsSecured auth
  unfolding validate_production
  validate_production-IsSecured public_url auth h =
      let (cookie, (password, (hash, (limit, others)))) = concat-Clean _ h in
      record {
        hash = not-false _ (report-nil _ _ hash);
        password = report-nil _ _ password;
        throttled = not-false _ (report-nil _ _ limit);
      }

  pub record IsAuth (production : Bool) (auth : AuthConfig) : Type 0 where
    pub session :
        (is_positive auth.session_ttl_hours ≡ true) × (magnitude auth.session_ttl_hours ≤ 720)
    pub limits : auth.login_rate_limit.enabled ≡ true → IsLimited auth.login_rate_limit
    pub secured : production ≡ true → IsSecured auth
    pub guarded : production ≡ true → auth.oauth.enabled ≡ true → IsGuarded auth.oauth

  validate_auth-IsAuth :
      (deployment : DeploymentMode) (public_url : Str) (auth : AuthConfig)
      → validate_auth x deployment public_url auth ≡ []
      → IsAuth (is_production deployment) auth
  unfolding validate_auth
  validate_auth-IsAuth deployment public_url auth h =
      let (username, (password, (hash, (login, (ttl, (limit, (production, (oauth, others)))))))) =
        concat-Clean _ h in
      record {
        session = validate_signed-Empty _ _ _ ttl;
        limits = λ on. validate_login_rate_limit-IsLimited auth.login_rate_limit limit on;
        secured = λ p. validate_production-IsSecured public_url auth (rw p at production);
        guarded = λ p on. validate_oauth-IsGuarded deployment auth.oauth oauth p on;
      }

  -- In production, requests go only to listed upstreams and from listed paths.
  pub record IsListed (proxy : ProxyConfig) : Type 0 where
    pub upstreams : is_empty proxy.allow_upstreams ≡ false
    pub paths : is_empty (effective_path_prefixes proxy) ≡ false

  validate_upstreams-ok :
      (index : ℕ) (upstreams : List Str)
      → validate_upstreams x index upstreams ≡ []
      → (entries : List UpstreamAllowEntry) × (parse_upstreams x.urls x.parse_error index upstreams
          ≡ ok entries)
  unfolding validate_upstreams parse_upstreams
  validate_upstreams-ok index [] h = ([], refl)
  validate_upstreams-ok index (upstream ∷ upstreams) h =
      let parsed =
        parse_upstream_allow_entry x.urls x.parse_error
          (indexed (text "proxy.allow_upstreams") index) upstream in
      let (first, rest) =
        append-nil (report_err parsed) (validate_upstreams x (suc index) upstreams) h in
      let (entry, e) = report_err-ok parsed first in
      let (entries, f) = validate_upstreams-ok (suc index) upstreams rest in
      (entry ∷ entries, rw (e, f) refl)

  -- The allowlists of the proxy, as the start of the program builds them.
  pub record IsProxy (production : Bool) (proxy : ProxyConfig) : Type 0 where
    pub listed : production ≡ true → IsListed proxy
    pub allowlist :
        (entries : List UpstreamAllowEntry) × (parse_upstreams x.urls x.parse_error 0
            proxy.allow_upstreams
          ≡ ok entries)
    pub paths :
        (list : PathPrefixAllowlist) × (parse_path_allowlist x.debug
            (effective_path_prefixes proxy)
            (text "proxy.path_prefixes")
          ≡ ok list)
    pub captures :
        (list : PathPrefixAllowlist) × (parse_path_allowlist x.debug
            (effective_capture_path_prefixes proxy)
            (text "proxy.capture_path_prefixes")
          ≡ ok list)
    pub request_bodies : Within (1024 * 1024 * 1024) proxy.max_request_body_bytes
    pub response_bodies : Within (1024 * 1024 * 1024) proxy.max_response_body_bytes

  validate_proxy-IsProxy :
      (deployment : DeploymentMode) (proxy : ProxyConfig)
      → validate_proxy x deployment proxy ≡ []
      → IsProxy (is_production deployment) proxy
  unfolding validate_proxy
  validate_proxy-IsProxy deployment proxy h =
      let (
        default,
        (
          header,
          (
            timeout,
            (
              request,
              (
                response,
                (
                  message,
                  (session, (upstreams, (prefixes, (paths, (captures, (parsed, others)))))),
                ),
              ),
            ),
          ),
        ),
      ) =
        concat-Clean _ h in
      record {
        listed = λ p. record {
          upstreams = only_production (is_production deployment) _ p (report-nil _ _ upstreams);
          paths = only_production (is_production deployment) _ p (report-nil _ _ prefixes);
        };
        allowlist = validate_upstreams-ok 0 proxy.allow_upstreams parsed;
        paths = report_err-ok _ paths;
        captures = report_err-ok _ captures;
        request_bodies = validate_positive_range-Empty _ _ _ request;
        response_bodies = validate_positive_range-Empty _ _ _ response;
      }

  -- What the start of the program relies on.
  pub record IsAccepted (config : Config) : Type 0 where
    pub proxy : IsProxy (is_production config.server.deployment) config.proxy
    pub storage : IsStorage (is_production config.server.deployment) config.storage
    pub auth : IsAuth (is_production config.server.deployment) config.auth

  -- A configuration that validation reports nothing of has limits that the journal, the queue, the
  -- throttle and the proxy work with, its allowlists parse, and in production it has a retention
  -- time, a valid hash in place of a password, an enabled throttle, upstreams and paths that are
  -- listed, and OAuth only for verified and listed addresses.
  pub validate-IsAccepted :
      {F : Type 0} (f : Floats F) (config : Config) (pricing : List (Str × ModelPrice F))
      → validate x f config pricing ≡ []
      → IsAccepted config
  unfolding validate
  validate-IsAccepted f config pricing h =
      let (server, (proxy, (storage, (archive, (auth, others))))) = concat-Clean _ h in
      record {
        proxy = validate_proxy-IsProxy config.server.deployment config.proxy proxy;
        storage = validate_storage-IsStorage x config.server.deployment config.storage storage;
        auth =
            validate_auth-IsAuth config.server.deployment config.server.public_url config.auth auth;
      }
