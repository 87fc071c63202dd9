-- ===== src/Config/Prefixes.antt =====
-- crates/llmtrace/src/config.rs and crates/llmtrace/src/routing.rs: path prefixes and their defaults.
use llmtrace.Base.{
  ℕ, not, ◌||◌, List, [], ◌∷◌, ◌++◌, none, some, ◌==◌, if◌then◌else◌, suc, eq_bytes, any,
}
use llmtrace.Base.Text.{
  Str, text, is_empty, is_whitespace, trim, split, decimal, trim_matches, has_prefix,
}
use llmtrace.Base.Results.{Result, ok, err, ◌>>=◌}
use llmtrace.Routing.{PathPrefixAllowlist}
use llmtrace.Config.Types.{custom, litellm, ProxyConfig}

unfoldable pub normalize_allowlist_path : Str → Str
normalize_allowlist_path path =
    if is_empty path || eq_bytes path (text "/") then text "/" else b'/' ∷ trim_matches b'/' path

unfoldable pub parse_proxy_path_prefix : (Str → Str) → Str → Str → Result Str Str
parse_proxy_path_prefix debug field value =
    let value = trim value in
    if is_empty value
    then err (field ++ text " must not be empty")
    else if not (has_prefix (text "/") value)
    then err (field ++ text " must start with '/', got " ++ debug value)
    else if any (λ segment. eq_bytes segment (text "..") || eq_bytes segment (text "."))
          (split b'/' value)
        || any (λ c. c == b'?' || c == b'#' || c == b'%' || c == b'\\') value
        || any is_whitespace value
    then err (
        field
        ++ text
            " must be a plain path without dot segments, escapes, whitespace, query or fragment")
    else ok (normalize_allowlist_path value)

abbrev pub indexed : Str → ℕ → Str
indexed field index = field ++ text "[" ++ decimal index ++ text "]"

-- `PathPrefixAllowlist::parse`, from an index on.
unfoldable pub parse_prefixes : (Str → Str) → Str → ℕ → List Str → Result Str (List Str)
parse_prefixes debug field index [] = ok []
parse_prefixes debug field index (entry ∷ entries) =
    let rest = parse_prefixes debug field (suc index) entries in
    parse_proxy_path_prefix debug (indexed field index) entry >>= λ prefix.
    rest >>= λ prefixes. ok (prefix ∷ prefixes)

abbrev pub parse_path_allowlist : (Str → Str) → List Str → Str → Result Str PathPrefixAllowlist
parse_path_allowlist debug entries field =
    parse_prefixes debug field 0 entries >>= λ prefixes. ok (record { prefixes = prefixes })

abbrev pub inference : List Str
inference =
    text "/chat/completions"
    ∷ text "/completions"
    ∷ text "/responses"
    ∷ text "/messages"
    ∷ text "/embeddings"
    ∷ text "/images"
    ∷ text "/audio"
    ∷ text "/moderations"
    ∷ text "/rerank"
    ∷ text "/realtime"
    ∷ []

abbrev pub supporting : List Str
supporting =
    text "/models"
    ∷ text "/files"
    ∷ text "/batches"
    ∷ text "/assistants"
    ∷ text "/threads"
    ∷ text "/fine_tuning"
    ∷ text "/model/info"
    ∷ text "/key/info"
    ∷ text "/user/info"
    ∷ text "/health"
    ∷ []

unfoldable pub with_version : List Str → List Str
with_version [] = []
with_version (path ∷ paths) = path ∷ (text "/v1" ++ path) ∷ with_version paths

abbrev pub litellm_capture_prefixes : List Str
litellm_capture_prefixes = with_version inference

abbrev pub litellm_forward_prefixes : List Str
litellm_forward_prefixes = text "/v1" ∷ inference ++ supporting

unfoldable pub effective_path_prefixes : ProxyConfig → List Str
effective_path_prefixes config = elim config.path_prefixes [
  | some prefixes ↦ prefixes
  | none ↦ elim config.preset [ custom ↦ text "/v1" ∷ [] | litellm ↦ litellm_forward_prefixes ]
]

unfoldable pub effective_capture_path_prefixes : ProxyConfig → List Str
effective_capture_path_prefixes config = elim config.capture_path_prefixes [
  | some prefixes ↦ prefixes
  | none ↦ elim config.preset [
    | custom ↦ effective_path_prefixes config
    | litellm ↦ litellm_capture_prefixes
  ]
]
