-- ===== src/Config/Upstreams.antt =====
-- crates/llmtrace/src/config.rs: URLs and the upstream allowlist.
use llmtrace.Base.{
  ℕ, Bool, false, not, ◌&&◌, ◌||◌, List, [], ◌∷◌, ◌++◌, Option, none, some, ltb, leb, ◌==◌,
  if◌then◌else◌, suc, ◌*◌, ◌+◌, ◌-◌, eq_bytes, any, is_some,
}
use llmtrace.Base.Text.{
  Str, text, is_empty, trim, to_ascii_lowercase, has_infix, split_once, rsplit_once, join_with,
}
use llmtrace.Base.Results.{Result, ok, err, ◌>>=◌, ◌>>◌, ensure, ok_or}
use llmtrace.Base.Url.{UrlLibrary}
use llmtrace.Routing.{path_prefix_matches}
use llmtrace.Config.Prefixes.{normalize_allowlist_path, indexed}

abbrev pub upstream_allowlist_schemes : List Str
upstream_allowlist_schemes = text "http" ∷ text "https" ∷ text "ws" ∷ text "wss" ∷ []

pub data UpstreamAllowEntry : Type 0 where
  host_entry : (host : Str) (port : Option ℕ) → UpstreamAllowEntry
  url_entry : (scheme host : Str) (port : ℕ) (path_prefix : Str) → UpstreamAllowEntry

-- `u8::is_ascii_whitespace`.
abbrev pub is_ascii_whitespace : ℕ → Bool
is_ascii_whitespace c = c == 32 || c == 9 || c == 10 || c == 12 || c == 13

abbrev pub is_one_of : Str → List Str → Bool
is_one_of value allowed = any (λ a. eq_bytes a value) allowed

-- `str::parse::<u16>`: digits, after at most one `+`, of a number below 2^16.
unfoldable pub digits_value : ℕ → Str → Option ℕ
digits_value acc [] = some acc
digits_value acc (c ∷ s) =
    let rest = digits_value (acc * 10 + (c - b'0')) s in
    if leb b'0' c && leb c b'9' then rest else none

abbrev pub below_u16 : Option ℕ → Option ℕ
below_u16 none = none
below_u16 (some n) = if ltb n 65536 then some n else none

unfoldable pub parse_u16 : Str → Option ℕ
parse_u16 [] = none
parse_u16 (c ∷ s) =
    if c == b'+'
    then (if is_empty s then none else below_u16 (digits_value 0 s))
    else below_u16 (digits_value 0 (c ∷ s))

-- The text of the port.
unfoldable pub port_text : Str → Option Str
port_text [] = none
port_text (c ∷ s) =
    if c == b'['
    then elim (split_once (text "]") s) [
      | none ↦ none
      | some (address, rest) ↦ elim rest [
        | [] ↦ none
        | d ∷ port ↦ if d == b':' then some port else none
      ]
    ]
    else elim (rsplit_once b':' (c ∷ s)) [ none ↦ none | some (host, port) ↦ some port ]

unfoldable pub explicit_host_entry_port : Str → Option ℕ
explicit_host_entry_port value = elim (port_text value) [
  | none ↦ none
  | some port ↦ if is_empty port then none else parse_u16 port
]

-- `parse_error` is the text of a parse error, `debug` the format `{:?}`.
module _ {Url : Type 0} (library : UrlLibrary Url) (parse_error : Str → Str) where
  unfoldable pub parse_url : Str → Str → List Str → Result Str Url
  parse_url field value allowed_schemes =
      ensure (not (is_empty (trim value))) (field ++ text " must not be empty")
      >> (ok_or (library.parse (trim value))
            (field ++ text " is not a valid URL: " ++ parse_error (trim value))
          >>= λ url.
              ensure (is_some (library.host_str url)) (field ++ text " must include a host")
              >> (ensure (is_one_of (library.scheme url) allowed_schemes) (
                    field
                    ++ text " must use one of these schemes: "
                    ++ join_with (text ", ") allowed_schemes)
                  >> ok url))

  -- The entry of a URL.
  unfoldable pub entry_of : Str → Url → Result Str UpstreamAllowEntry
  entry_of field url =
      ok_or (library.host_str url) (field ++ text " must include a host") >>= λ host.
      ok_or (library.port_or_known_default url) (field ++ text " must include a known port")
      >>= λ port. ok (
          url_entry (library.scheme url) (to_ascii_lowercase host) port
            (normalize_allowlist_path (library.path url)))

  unfoldable pub guarded_entry : Str → Url → Result Str UpstreamAllowEntry
  guarded_entry field url =
      ensure (is_empty (library.username url) && not (is_some (library.password url)))
        (field ++ text " must not contain credentials")
      >> (ensure (not (is_some (library.query url)) && not (is_some (library.fragment url)))
            (field ++ text " must not contain a query string or fragment")
          >> entry_of field url)

  -- An entry that is a URL.
  abbrev pub parse_url_entry : Str → Str → Result Str UpstreamAllowEntry
  parse_url_entry field value =
      parse_url field value upstream_allowlist_schemes >>= guarded_entry field

  -- An entry that is a host.
  unfoldable pub parse_host_entry : Str → Str → Result Str UpstreamAllowEntry
  parse_host_entry field value =
      ensure
        (not (
          any (λ c. is_ascii_whitespace c || c == b'/' || c == b'?' || c == b'#' || c == b'@')
            value))
        (field ++ text " host entries must be hostnames with an optional port")
      >> ok_or (library.parse (text "https://" ++ value))
          (field ++ text " host entry is invalid: " ++ parse_error (text "https://" ++ value))
      >>= λ url. ok_or (library.host_str url) (field ++ text " must include a host") >>= λ host.
          ok (host_entry (to_ascii_lowercase host) (explicit_host_entry_port value))

  unfoldable pub parse_upstream_allow_entry : Str → Str → Result Str UpstreamAllowEntry
  parse_upstream_allow_entry field value =
      if is_empty (trim value)
      then err (field ++ text " must not be empty")
      else if has_infix (text "://") (trim value)
      then parse_url_entry field (trim value)
      else parse_host_entry field (trim value)

  abbrev pub same_host : Option Str → Str → Bool
  same_host none host = false
  same_host (some upstream_host) host =
      eq_bytes (to_ascii_lowercase upstream_host) (to_ascii_lowercase host)

  abbrev pub same_port : Option ℕ → ℕ → Bool
  same_port none port = false
  same_port (some upstream_port) port = upstream_port == port

  unfoldable pub matches : UpstreamAllowEntry → Url → Bool
  matches (host_entry host none) url = same_host (library.host_str url) host
  matches (host_entry host (some port)) url =
      same_host (library.host_str url) host && same_port (library.port_or_known_default url) port
  matches (url_entry scheme host port path_prefix) url =
      eq_bytes (library.scheme url) scheme
      && same_host (library.host_str url) host
      && same_port (library.port_or_known_default url) port
      && path_prefix_matches path_prefix (library.path url)

  -- `UpstreamAllowlist::parse` from an index on, and `UpstreamAllowlist::allows`.
  unfoldable pub parse_upstreams : ℕ → List Str → Result Str (List UpstreamAllowEntry)
  parse_upstreams index [] = ok []
  parse_upstreams index (entry ∷ entries) =
      let rest = parse_upstreams (suc index) entries in
      parse_upstream_allow_entry (indexed (text "proxy.allow_upstreams") index) entry >>= λ parsed.
      rest >>= λ others. ok (parsed ∷ others)

  unfoldable pub allows_upstream : List UpstreamAllowEntry → Url → Bool
  allows_upstream entries url =
      is_one_of (library.scheme url) upstream_allowlist_schemes
      && (is_empty entries || any (λ entry. matches entry url) entries)
