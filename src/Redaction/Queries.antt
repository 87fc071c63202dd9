-- ===== src/Redaction/Queries.antt =====
-- crates/llmtrace/src/redaction.rs: query strings and URIs.
use llmtrace.Base.{[], ◌∷◌, ◌++◌, none, some, map, if◌then◌else◌}
use llmtrace.Base.Url.{UrlLibrary}
use llmtrace.Base.Text.{Str, text, is_empty, split_once, split, join}

abbrev pub redacted_query_value : Str
redacted_query_value = text "REDACTED"

-- The name of a `name=value` pair.
unfoldable pub name_of : Str → Str
name_of pair = elim (split_once (text "=") pair) [ none ↦ pair | some (name, value) ↦ name ]

unfoldable pub redact_pair : Str → Str
redact_pair pair = name_of pair ++ b'=' ∷ redacted_query_value

unfoldable pub redact_query_string : Str → Str
redact_query_string query =
    if is_empty query then [] else join b'&' (map redact_pair (split b'&' query))

abbrev pub redact_relative : Str → Str
redact_relative without_fragment = elim (split_once (text "?") without_fragment) [
  | none ↦ without_fragment
  | some (path, query) ↦ path ++ b'?' ∷ redact_query_string query
]

abbrev pub before_fragment : Str → Str
before_fragment value = elim (split_once (text "#") value) [
  | none ↦ value
  | some (before, after) ↦ before
]

module _ {Url : Type 0} (library : UrlLibrary Url) where
  abbrev pub redact_query : Url → Url
  redact_query url = elim (library.query url) [
    | none ↦ url
    | some query ↦ library.set_query (some (redact_query_string query)) url
  ]

  unfoldable pub redact_uri_query_values : Str → Str
  redact_uri_query_values value = elim (library.parse value) [
    | none ↦ redact_relative (before_fragment value)
    | some url ↦ library.to_string (
        library.set_fragment none
          (redact_query (library.set_password none (library.set_username [] url))))
  ]
