-- ===== src/Redaction/Headers.antt =====
-- crates/llmtrace/src/redaction.rs: headers.
use llmtrace.Base.{
  ℕ, Bool, true, false, not, ◌&&◌, ◌||◌, List, [], ◌∷◌, Option, none, some, if◌then◌else◌, eq_bytes,
  any, is_some, ◌==◌,
}
use llmtrace.Base.Url.{UrlLibrary}
use llmtrace.Base.Text.{
  Str, text, byte_len, is_empty, trim, to_ascii_lowercase, split_once, has_prefix, has_infix, utf8,
}
use llmtrace.Base.Int.{pos}
use llmtrace.Base.Json.{
  Value, boolean, integer, string, object, Map, end, insert, member, as_str, optional,
}
use llmtrace.Redaction.Queries.{redact_uri_query_values}

-- A HeaderMap in the order of its iteration; a value is its bytes.
abbrev pub HeaderMap : Type 0
HeaderMap = List (Str × List ℕ)

pub record RedactionConfig : Type 0 where
  pub store_header_hash : Bool
  pub sensitive_headers : List Str

pub record RedactedHeaders : Type 0 where
  pub json : Value
  pub first_secret_hash : Option Str
  pub credential_scope_hash : Option Str

abbrev pub credential_headers : List Str
credential_headers =
    text "authorization"
    ∷ text "x-api-key"
    ∷ text "api-key"
    ∷ text "openai-api-key"
    ∷ text "anthropic-api-key"
    ∷ text "x-goog-api-key"
    ∷ []

-- `HeaderMap::get`: the first value of the name.
unfoldable pub header : Str → HeaderMap → Option (List ℕ)
header name [] = none
header name ((n, value) ∷ headers) = if eq_bytes n name then some value else header name headers

unfoldable pub first_header : List Str → HeaderMap → Option (List ℕ)
first_header [] headers = none
first_header (name ∷ names) headers =
    let rest = first_header names headers in
    elim (header name headers) [ none ↦ rest | some value ↦ some value ]

-- `candidate.ends_with('*')` and `candidate.trim_end_matches('*')`.
unfoldable pub ends_with_star : Str → Bool
ends_with_star [] = false
ends_with_star (c ∷ []) = c == b'*'
ends_with_star (c ∷ d ∷ s) = ends_with_star (d ∷ s)

unfoldable pub trim_stars : Str → Str
trim_stars [] = []
trim_stars (c ∷ s) = let rest = trim_stars s in if c == b'*' && is_empty rest then [] else c ∷ rest

unfoldable pub header_name_matches : Str → Str → Bool
header_name_matches name candidate =
    eq_bytes name candidate || (ends_with_star candidate && has_prefix (trim_stars candidate) name)

unfoldable pub is_sensitive_header : Str → RedactionConfig → Bool
is_sensitive_header name config =
    any (λ candidate. header_name_matches name (to_ascii_lowercase candidate))
      config.sensitive_headers
    || has_infix (text "api-key") name
    || has_infix (text "apikey") name
    || has_infix (text "token") name
    || has_infix (text "secret") name
    || has_infix (text "password") name
    || eq_bytes name (text "authorization")
    || eq_bytes name (text "proxy-authorization")
    || eq_bytes name (text "cookie")
    || eq_bytes name (text "set-cookie")

-- The scheme that a redacted value keeps.
unfoldable pub scheme_of : Str → Option Str
scheme_of value = elim (split_once (text " ") value) [
  | none ↦ none
  | some (scheme, rest) ↦
      if eq_bytes (to_ascii_lowercase scheme) (text "bearer")
        || eq_bytes (to_ascii_lowercase scheme) (text "basic")
      then some scheme
      else none
]

unfoldable pub redacted_value : Str → Option Str → Value
redacted_value value hash = object (
    insert (text "redacted") (boolean true) (
      insert (text "scheme") (optional (scheme_of value)) (
        insert (text "sha256") (optional hash)
          (insert (text "length") (integer (pos (byte_len value))) end))))

-- `sha256_hex` is the crates sha2 and hex; `to_str` reads a header's value as text.
module _ {Url : Type 0} (library : UrlLibrary Url) (sha256_hex : List ℕ → Str)
    (to_str : List ℕ → Option Str) where
  unfoldable pub redact_upstream_header : Str → Value
  redact_upstream_header value = elim (library.parse value) [
    | none ↦ string value
    | some url ↦
        if not (is_empty (library.username url)) || is_some (library.password url)
        then object (
            insert (text "redacted") (boolean true) (
              insert (text "url") (string (redact_uri_query_values library value))
                (insert (text "sha256") (string (sha256_hex (utf8 value))) end)))
        else string (redact_uri_query_values library value)
  ]

  unfoldable pub value_text : List ℕ → Str
  value_text value = elim (to_str value) [ none ↦ text "<non-utf8>" | some s ↦ s ]

  -- `config.store_header_hash.then(…)`.
  abbrev pub hash_of : Bool → Str → Option Str
  hash_of true value = some (sha256_hex (utf8 value))
  hash_of false value = none

  -- What is stored of one header.
  unfoldable pub redact_header : RedactionConfig → Str → Str → List ℕ → Value
  redact_header config upstream name value =
      if is_sensitive_header name config
      then redacted_value (value_text value) (hash_of config.store_header_hash (value_text value))
      else if eq_bytes name upstream
      then redact_upstream_header (value_text value)
      else string (value_text value)

  unfoldable pub redact_all : RedactionConfig → Str → HeaderMap → Map → Map
  redact_all config upstream [] m = m
  redact_all config upstream ((name, value) ∷ headers) m =
      let name_text = to_ascii_lowercase name in
      redact_all config upstream headers
        (insert name_text (redact_header config upstream name_text value) m)

  abbrev pub map_hash : Option (List ℕ) → Option Str
  map_hash none = none
  map_hash (some value) = some (sha256_hex value)

  unfoldable pub redact_headers : HeaderMap → RedactionConfig → Str → RedactedHeaders
  redact_headers headers config upstream_header =
      let scope = map_hash (first_header credential_headers headers) in
      record {
        json = object (redact_all config (to_ascii_lowercase (trim upstream_header)) headers end);
        first_secret_hash = if config.store_header_hash then scope else none;
        credential_scope_hash = scope;
      }

  unfoldable pub text_all : HeaderMap → Map → Map
  text_all [] m = m
  text_all ((name, value) ∷ headers) m =
      text_all headers (insert (to_ascii_lowercase name) (string (value_text value)) m)

  abbrev pub headers_to_json : HeaderMap → Value
  headers_to_json headers = object (text_all headers end)

  -- The first text among the members of an object.
  unfoldable pub first_text : List Str → Value → Option Str
  first_text [] headers = none
  first_text (name ∷ names) headers =
      let rest = first_text names headers in
      elim (member name headers) [
        | none ↦ rest
        | some value ↦ elim (as_str value) [ none ↦ rest | some s ↦ some s ]
      ]

  unfoldable pub credential_scope_from_headers : Value → Option Str
  credential_scope_from_headers headers = elim (first_text credential_headers headers) [
    | none ↦ none
    | some value ↦
        if eq_bytes value (text "<non-utf8>") then none else some (sha256_hex (utf8 value))
  ]
