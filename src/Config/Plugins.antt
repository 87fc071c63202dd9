-- ===== src/Config/Plugins.antt =====
-- crates/llmtrace/src/config.rs: the plugins.
use llmtrace.Base.{
  ℕ, suc, Bool, true, false, not, ◌&&◌, ◌||◌, List, [], ◌∷◌, ◌++◌, Option, none, some, ltb, ◌==◌,
  if◌then◌else◌, eq_bytes, any, is_some, length,
}
use llmtrace.Base.Text.{Str, text, is_empty, trim, byte_len, decimal}
use llmtrace.Config.Types.{
  PluginHook, request_start, response_headers, response_end, PluginConfig, Externals,
}
use llmtrace.Config.Reports.{report, concat}
use llmtrace.Config.Auth.{is_ascii, is_ascii_control, is_alphanumeric}
use llmtrace.Config.Upstreams.{is_ascii_whitespace, is_one_of}
use llmtrace.Config.Prefixes.{indexed}
use llmtrace.Redaction.Headers.{ends_with_star}

abbrev pub max_plugins : ℕ
max_plugins = 64

abbrev pub max_plugin_name_bytes : ℕ
max_plugin_name_bytes = 128

abbrev pub max_plugin_timeout_ms : ℕ
max_plugin_timeout_ms = 30000

-- `endpoint.strip_suffix("?*")`.
unfoldable pub strip_wildcard : Str → Option Str
strip_wildcard [] = none
strip_wildcard (c ∷ s) =
    let rest = strip_wildcard s in
    if eq_bytes (c ∷ s) (text "?*")
    then some []
    else elim rest [ none ↦ none | some base ↦ some (c ∷ base) ]

abbrev pub eq_hook : PluginHook → PluginHook → Bool
eq_hook request_start request_start = true
eq_hook response_headers response_headers = true
eq_hook response_end response_end = true
eq_hook _ _ = false

unfoldable pub plugin_hooks_have_duplicates : List PluginHook → Bool
plugin_hooks_have_duplicates [] = false
plugin_hooks_have_duplicates (hook ∷ hooks) =
    let rest = plugin_hooks_have_duplicates hooks in
    any (λ candidate. eq_hook candidate hook) hooks || rest

-- An error of the plugin at an index.
abbrev pub plugin_error : ℕ → Str → Str
plugin_error index message = indexed (text "plugins") index ++ message

unfoldable pub validate_auth_header : ℕ → Option Str → Option Str → List Str
validate_auth_header index none none = []
validate_auth_header index (some header) (some environment) =
    report (is_empty header || not (is_ascii header) || any is_ascii_whitespace header)
      (plugin_error index (text ".http_auth_header must be a non-empty HTTP header name"))
    ++ report (is_empty environment || any (λ c. not (is_alphanumeric c || c == b'_')) environment)
        (plugin_error index (text ".http_auth_env must be a non-empty environment variable name"))
validate_auth_header index none (some environment) =
    plugin_error index (text ".http_auth_header and http_auth_env must be set together") ∷ []
validate_auth_header index (some header) none =
    plugin_error index (text ".http_auth_header and http_auth_env must be set together") ∷ []

module _ {Url Socket : Type 0} (x : Externals Url Socket) where
  -- A URL that is refused.
  abbrev pub is_bad_endpoint : Bool → Option Url → Bool
  is_bad_endpoint wildcard none = true
  is_bad_endpoint wildcard (some url) =
      not (is_one_of (x.urls.scheme url) (text "http" ∷ text "https" ∷ []))
      || not (is_some (x.urls.host_str url))
      || not (is_empty (x.urls.username url))
      || is_some (x.urls.password url)
      || is_some (x.urls.fragment url)
      || (wildcard && is_some (x.urls.query url))
      || ends_with_star (x.urls.path url)

  unfoldable pub endpoint_refused : Str → Bool
  endpoint_refused endpoint =
      elim (strip_wildcard endpoint) [
        | some base ↦ is_bad_endpoint true (x.urls.parse base)
        | none ↦ is_bad_endpoint false (x.urls.parse endpoint)
      ]
      || not (is_ascii endpoint)

  unfoldable pub validate_endpoints : ℕ → List Str → List Str
  validate_endpoints index [] = []
  validate_endpoints index (endpoint ∷ endpoints) =
      report (endpoint_refused endpoint) (
        plugin_error index (
          text
            ".http_get_urls requires HTTP(S) URLs without credentials or fragments; a lone trailing ?* permits any query"))
      ++ validate_endpoints index endpoints

  -- The name of a plugin: what is reported, and the names seen after it.
  unfoldable pub validate_name : ℕ → Str → List Str → List Str × List Str
  validate_name index name names =
      if is_empty (trim name)
      then (plugin_error index (text ".name must not be empty") ∷ [], names)
      else if not (eq_bytes name (trim name))
      then (
        plugin_error index (text ".name must not contain leading or trailing whitespace") ∷ [],
        names,
      )
      else if ltb max_plugin_name_bytes (byte_len (trim name))
      then (
        plugin_error index
              (text ".name must be at most " ++ decimal max_plugin_name_bytes ++ text " bytes")
            ∷ [],
        names,
      )
      else if not (is_ascii (trim name)) || any is_ascii_control (trim name)
      then (plugin_error index (text ".name must contain only printable ASCII") ∷ [], names)
      else if is_one_of (trim name) names
      then (
        plugin_error index (text ".name " ++ x.debug (trim name) ++ text " is duplicated") ∷ [],
        names,
      )
      else ([], trim name ∷ names)

  unfoldable pub validate_timeout : ℕ → ℕ → List Str
  validate_timeout index timeout_ms =
      if timeout_ms == 0
      then plugin_error index (text ".timeout_ms must be greater than 0") ∷ []
      else report (ltb max_plugin_timeout_ms timeout_ms) (
          plugin_error index (text ".timeout_ms must be at most " ++ decimal max_plugin_timeout_ms))

  unfoldable pub validate_hooks : ℕ → List PluginHook → List Str
  validate_hooks index hooks =
      if is_empty hooks
      then plugin_error index (text ".hooks must not be empty") ∷ []
      else report (plugin_hooks_have_duplicates hooks)
          (plugin_error index (text ".hooks must not contain duplicates"))

  -- What is reported of one plugin, `name_errors` of its name.
  unfoldable pub validate_plugin : ℕ → PluginConfig → List Str → List Str
  validate_plugin index plugin name_errors = concat (
      report (ltb 16 (length plugin.http_get_urls))
        (plugin_error index (text ".http_get_urls permits at most 16 URLs"))
      ∷ validate_endpoints index plugin.http_get_urls
      ∷ validate_auth_header index plugin.http_auth_header plugin.http_auth_env
      ∷ name_errors
      ∷ report (is_empty plugin.wasm_path)
          (plugin_error index (text ".wasm_path must not be empty"))
      ∷ validate_hooks index plugin.hooks
      ∷ validate_timeout index plugin.timeout_ms
      ∷ [])

  -- The loop over the plugins, with the names seen so far.
  unfoldable pub validate_each_plugin : ℕ → List Str → List PluginConfig → List Str
  validate_each_plugin index names [] = []
  validate_each_plugin index names (plugin ∷ plugins) =
      let (name_errors, seen) = validate_name index plugin.name names in
      validate_plugin index plugin name_errors ++ validate_each_plugin (suc index) seen plugins

  unfoldable pub validate_plugins : List PluginConfig → List Str
  validate_plugins plugins =
      report (ltb max_plugins (length plugins))
        (text "plugins must contain at most " ++ decimal max_plugins ++ text " entries")
      ++ validate_each_plugin 0 [] plugins
