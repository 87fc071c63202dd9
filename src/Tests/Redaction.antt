-- ===== src/Tests/Redaction.antt =====
-- Redaction of small requests.
use llmtrace.Base.{◌≡◌, refl, inl, inr, false, [], ◌∷◌, none, some, eq_bytes, any}
use llmtrace.Base.Url.{UrlLibrary}
use llmtrace.Base.Text.{
  text, byte_len, has_prefix, has_infix, split_once, split, join, to_ascii_lowercase,
}
use llmtrace.Redaction.Queries.{name_of, redact_pair, redact_query_string, redact_uri_query_values}
use llmtrace.Redaction.Headers.{
  HeaderMap, RedactionConfig, is_sensitive_header, header_name_matches, ends_with_star, trim_stars,
  scheme_of, value_text, redact_headers,
}
use llmtrace.Redaction.Secrecy.{redact_headers-secret}
use llmtrace.Redaction.Repetition.{redact_query_string-redact_query_string}

-- No text is an absolute URL.
abbrev no_urls : UrlLibrary Unit
no_urls = record {
  parse = λ s. none;
  scheme = λ u. [];
  host_str = λ u. none;
  port_or_known_default = λ u. none;
  path = λ u. [];
  fragment = λ u. none;
  username = λ u. [];
  password = λ u. none;
  query = λ u. none;
  set_username = λ s u. u;
  set_password = λ s u. u;
  set_query = λ s u. u;
  set_fragment = λ s u. u;
  to_string = λ u. [];
}

redact_uri_run :
    redact_uri_query_values no_urls (text "/v1?api_key=sk&debug#top")
    ≡ text "/v1?api_key=REDACTED&debug=REDACTED"
unfolding redact_uri_query_values redact_query_string redact_pair name_of split_once has_prefix
    split join
redact_uri_run = refl

redact_query_string-redact_query_string_example :
    redact_query_string (redact_query_string (text "a=1&b&=&c=d=e"))
    ≡ redact_query_string (text "a=1&b&=&c=d=e")
redact_query_string-redact_query_string_example =
    redact_query_string-redact_query_string (text "a=1&b&=&c=d=e")

abbrev defaults : RedactionConfig
defaults = record { store_header_hash = false; sensitive_headers = text "x-internal-*" ∷ [] }

abbrev first_headers : HeaderMap
first_headers = (text "Authorization", text "Bearer one") ∷ (text "accept", text "json") ∷ []

abbrev other_headers : HeaderMap
other_headers = (text "Authorization", text "Bearer two") ∷ (text "accept", text "json") ∷ []

redact_headers-secret_example :
    (redact_headers no_urls (λ s. s) some first_headers defaults (text "x-upstream")).json
    ≡ (redact_headers no_urls (λ s. s) some other_headers defaults (text "x-upstream")).json
unfolding is_sensitive_header eq_bytes has_infix has_prefix to_ascii_lowercase any value_text
    byte_len scheme_of split_once header_name_matches ends_with_star trim_stars
redact_headers-secret_example =
    redact_headers-secret no_urls (λ s. s) some defaults (text "x-upstream") first_headers
      other_headers (refl, (inr (refl, (refl, (refl, refl))), (refl, (inl refl, tt))))
