-- ===== src/Config/Server.antt =====
-- crates/llmtrace/src/config.rs: the server, the proxy and the headers to redact.
use llmtrace.Base.{
  ℕ, suc, ◌*◌, Bool, true, false, not, ◌&&◌, ◌||◌, List, [], ◌∷◌, ◌++◌, Option, none, some, ◌==◌,
  if◌then◌else◌, eq_bytes, is_some,
}
use llmtrace.Base.Text.{Str, text, is_empty, trim, trim_end_matches}
use llmtrace.Base.Results.{ok, err}
use llmtrace.Redaction.Headers.{RedactionConfig}
use llmtrace.Config.Types.{DeploymentMode, is_production, ServerConfig, ProxyConfig, Externals}
use llmtrace.Config.Reports.{report, report_err, concat, validate_positive_range}
use llmtrace.Config.Upstreams.{parse_url, parse_upstream_allow_entry}
use llmtrace.Config.Prefixes.{
  indexed, parse_path_allowlist, effective_path_prefixes, effective_capture_path_prefixes,
}

abbrev pub max_proxy_timeout_secs : ℕ
max_proxy_timeout_secs = 60 * 60

abbrev pub max_response_body_bytes : ℕ
max_response_body_bytes = 1024 * 1024 * 1024

abbrev pub max_request_body_bytes : ℕ
max_request_body_bytes = 1024 * 1024 * 1024

abbrev pub max_websocket_message_bytes : ℕ
max_websocket_message_bytes = 64 * 1024 * 1024

abbrev pub max_websocket_session_bytes : ℕ
max_websocket_session_bytes = 2 * 1024 * 1024 * 1024

module _ {Url Socket : Type 0} (x : Externals Url Socket) where
  -- The URL where it is an origin, and what is reported.
  unfoldable pub validate_public_origin : Str → Str → Option Url × List Str
  validate_public_origin field value =
      elim (parse_url x.urls x.parse_error field value (text "http" ∷ text "https" ∷ [])) [
        | ok url ↦
            if is_empty (x.urls.username url)
              && not (is_some (x.urls.password url))
              && eq_bytes (x.urls.path url) (text "/")
              && not (is_some (x.urls.query url))
              && not (is_some (x.urls.fragment url))
            then (some url, [])
            else (
              none,
              (field ++ text " must be an origin without credentials, path, query or fragment")
                  ∷ [],
            )
        | err error ↦ (none, error ∷ [])
      ]

  -- `host_str().map(|h| h.trim_end_matches('.'))`.
  abbrev pub host_name : Url → Option Str
  host_name url = elim (x.urls.host_str url) [
    | none ↦ none
    | some host ↦ some (trim_end_matches b'.' host)
  ]

  abbrev pub eq_option : Option Str → Option Str → Bool
  eq_option none none = true
  eq_option none (some t) = false
  eq_option (some s) none = false
  eq_option (some s) (some t) = eq_bytes s t

  abbrev pub same_host_name : Option Url → Option Url → Bool
  same_host_name (some proxy) (some admin) = eq_option (host_name proxy) (host_name admin)
  same_host_name none admin = false
  same_host_name (some proxy) none = false

  abbrev pub overlaps : Socket → Option Socket → Bool
  overlaps admin none = false
  overlaps admin (some proxy) =
      not (x.port admin == 0)
      && x.port admin == x.port proxy
      && (x.same_ip admin proxy || x.is_unspecified admin || x.is_unspecified proxy)

  unfoldable pub validate_admin_listen : Str → Option Str → List Str
  validate_admin_listen proxy_listen none = []
  validate_admin_listen proxy_listen (some listen) = elim (x.parse_socket listen) [
    | some admin ↦
        report (overlaps admin (x.parse_socket proxy_listen))
          (text "server.admin_listen must not overlap server.listen")
    | none ↦ text "server.admin_listen must be a socket address" ∷ []
  ]

  unfoldable pub validate_proxy_url : Str → Option Str → List Str
  validate_proxy_url public_url none = []
  validate_proxy_url public_url (some proxy_url) =
      let (proxy, proxy_errors) =
        validate_public_origin (text "server.proxy_public_url") proxy_url in
      let (admin, admin_errors) = validate_public_origin (text "server.public_url") public_url in
      proxy_errors
      ++ admin_errors
      ++ report (same_host_name proxy admin) (
          text
            "server.public_url and server.proxy_public_url must use different hostnames (browser cookies are not isolated by port)")

  unfoldable pub validate_server : ServerConfig → List Str
  validate_server server = concat (
      report (not (is_some (x.parse_socket (trim server.listen))))
        (text "server.listen must be a socket address, got " ++ x.debug server.listen)
      ∷ report
          ((is_some server.admin_listen && not (is_some server.proxy_public_url))
            || (not (is_some server.admin_listen) && is_some server.proxy_public_url))
          (text "server.admin_listen and server.proxy_public_url must be configured together")
      ∷ validate_admin_listen server.listen server.admin_listen
      ∷ validate_proxy_url server.public_url server.proxy_public_url
      ∷ report_err (
          parse_url x.urls x.parse_error (text "server.public_url") server.public_url
            (text "http" ∷ text "https" ∷ []))
      ∷ [])

  unfoldable pub validate_default_upstream : Str → List Str
  validate_default_upstream default_upstream =
      elim (parse_url x.urls x.parse_error (text "proxy.default_upstream") default_upstream
        (text "http" ∷ text "https" ∷ [])) [
          | ok url ↦
              report (not (is_empty (x.urls.username url)) || is_some (x.urls.password url))
                (text "proxy.default_upstream must not contain credentials")
          | err error ↦ error ∷ []
        ]

  unfoldable pub validate_upstreams : ℕ → List Str → List Str
  validate_upstreams index [] = []
  validate_upstreams index (upstream ∷ upstreams) =
      report_err (
        parse_upstream_allow_entry x.urls x.parse_error
          (indexed (text "proxy.allow_upstreams") index) upstream)
      ++ validate_upstreams (suc index) upstreams

  unfoldable pub validate_proxy : DeploymentMode → ProxyConfig → List Str
  validate_proxy deployment proxy = concat (
      validate_default_upstream proxy.default_upstream
      ∷ report
          (is_empty (trim proxy.upstream_header)
            || not (x.is_header_name (trim proxy.upstream_header)))
          (text "proxy.upstream_header must be a valid HTTP header name, got "
            ++ x.debug proxy.upstream_header)
      ∷ validate_positive_range (text "proxy.timeout_secs") proxy.timeout_secs
          max_proxy_timeout_secs
      ∷ validate_positive_range (text "proxy.max_request_body_bytes") proxy.max_request_body_bytes
          max_request_body_bytes
      ∷ validate_positive_range (text "proxy.max_response_body_bytes") proxy.max_response_body_bytes
          max_response_body_bytes
      ∷ validate_positive_range (text "proxy.max_websocket_message_bytes")
          proxy.max_websocket_message_bytes max_websocket_message_bytes
      ∷ validate_positive_range (text "proxy.max_websocket_session_bytes")
          proxy.max_websocket_session_bytes max_websocket_session_bytes
      ∷ report (is_production deployment && is_empty proxy.allow_upstreams)
          (text "proxy.allow_upstreams must not be empty when server.deployment is production")
      ∷ report (is_production deployment && is_empty (effective_path_prefixes proxy))
          (text "proxy.path_prefixes must not be empty when server.deployment is production")
      ∷ report_err (
          parse_path_allowlist x.debug (effective_path_prefixes proxy) (text "proxy.path_prefixes"))
      ∷ report_err (
          parse_path_allowlist x.debug (effective_capture_path_prefixes proxy)
            (text "proxy.capture_path_prefixes"))
      ∷ validate_upstreams 0 proxy.allow_upstreams
      ∷ [])

  unfoldable pub validate_headers : ℕ → List Str → List Str
  validate_headers index [] = []
  validate_headers index (header ∷ headers) =
      report (is_empty (trim header) || not (x.is_header_name (trim header))) (
        indexed (text "redaction.sensitive_headers") index
        ++ text " must be a valid HTTP header name")
      ++ validate_headers (suc index) headers

  abbrev pub validate_redaction : RedactionConfig → List Str
  validate_redaction redaction = validate_headers 0 redaction.sensitive_headers
