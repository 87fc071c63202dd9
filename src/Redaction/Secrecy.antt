-- ===== src/Redaction/Secrecy.antt =====
-- crates/llmtrace/src/redaction.rs: what is stored does not depend on the secrets.
use llmtrace.Base.{ℕ, ◌≡◌, refl, ap, inl, inr, ◌⊎◌, true, false, List, [], ◌∷◌, Option, map}
use llmtrace.Base.Url.{UrlLibrary}
use llmtrace.Base.Text.{Str, byte_len, is_empty, trim, to_ascii_lowercase, split}
use llmtrace.Base.Json.{object, Map, end}
use llmtrace.Redaction.Queries.{name_of, redact_pair, redact_query_string}
use llmtrace.Redaction.Headers.{
  HeaderMap, RedactionConfig, is_sensitive_header, scheme_of, redacted_value, value_text, hash_of,
  redact_header, redact_all, redact_headers,
}

names_only :
    (xs ys : List Str) → map name_of xs ≡ map name_of ys → map redact_pair xs ≡ map redact_pair ys
unfolding redact_pair
names_only [] [] h = refl
names_only [] (y ∷ ys) h = cc
names_only (x ∷ xs) [] h = cc
names_only (x ∷ xs) (y ∷ ys) h =
    let first : name_of x ≡ name_of y = cc in
    let rest = names_only xs ys cc in rw (first, rest) refl

-- Two queries that are not empty and have the same names, in order, are redacted to the same text,
-- whatever their values are.
pub redact_query_string-secret :
    (query other : Str)
    → is_empty query ≡ false
    → is_empty other ≡ false
    → map name_of (split b'&' query) ≡ map name_of (split b'&' other)
    → redact_query_string query ≡ redact_query_string other
unfolding redact_query_string
redact_query_string-secret query other p q h =
    rw (p, q, names_only (split b'&' query) (split b'&' other) h) refl

module _ {Url : Type 0} (library : UrlLibrary Url) (sha256_hex : List ℕ → Str)
    (to_str : List ℕ → Option Str) where
  -- The texts have the same length and scheme and, where hashes are stored, the same hash.
  abbrev pub StoredAlike : RedactionConfig → List ℕ → List ℕ → Type 0
  StoredAlike config value other =
      (byte_len (value_text library sha256_hex to_str value)
        ≡ byte_len (value_text library sha256_hex to_str other))
      × ((scheme_of (value_text library sha256_hex to_str value)
            ≡ scheme_of (value_text library sha256_hex to_str other))
          × (hash_of library sha256_hex to_str config.store_header_hash
                (value_text library sha256_hex to_str value)
              ≡ hash_of library sha256_hex to_str config.store_header_hash
                  (value_text library sha256_hex to_str other)))

  -- The headers differ at most in the values of sensitive headers, and there not in what is stored
  -- of them.
  abbrev pub Alike : RedactionConfig → HeaderMap → HeaderMap → Type 0
  Alike config [] [] = Unit
  Alike config [] (e ∷ others) = ⊥
  Alike config (e ∷ headers) [] = ⊥
  Alike config ((name, value) ∷ headers) ((name', value') ∷ others) =
      (name ≡ name')
      × (((value ≡ value')
            ⊎ ((is_sensitive_header (to_ascii_lowercase name) config ≡ true)
                × StoredAlike config value value'))
          × Alike config headers others)

  redact_header-secret :
      (config : RedactionConfig) (upstream name : Str) (value other : List ℕ)
      → is_sensitive_header name config ≡ true
      → StoredAlike config value other
      → redact_header library sha256_hex to_str config upstream name value
        ≡ redact_header library sha256_hex to_str config upstream name other
  unfolding redact_header redacted_value
  redact_header-secret config upstream name value other sensitive (l, (s, h)) =
      rw (sensitive, l, s, h) refl

  redact_all-secret :
      (config : RedactionConfig) (upstream : Str) (headers others : HeaderMap) (m : Map)
      → Alike config headers others
      → redact_all library sha256_hex to_str config upstream headers m
        ≡ redact_all library sha256_hex to_str config upstream others m
  unfolding redact_all
  redact_all-secret config upstream [] [] m alike = refl
  redact_all-secret config upstream [] (e ∷ others) m alike = absurd alike
  redact_all-secret config upstream (e ∷ headers) [] m alike = absurd alike
  redact_all-secret config upstream ((name, value) ∷ headers) ((name', value') ∷ others) m alike =
      let (same_name, (same_value, rest)) = alike in
      let stored : redact_header library sha256_hex to_str config upstream (to_ascii_lowercase name)
            value
          ≡ redact_header library sha256_hex to_str config upstream (to_ascii_lowercase name)
              value' =
        elim same_value [
          | inl e ↦ rw e refl
          | inr (sensitive, same_stored) ↦
              redact_header-secret config upstream (to_ascii_lowercase name) value value' sensitive
                same_stored
        ] in
      rw (← same_name, stored) (redact_all-secret config upstream headers others _ rest)

  -- Two requests whose headers differ only in the values of sensitive headers, and there neither in
  -- the length nor in the scheme nor, where the configuration stores hashes of headers, in the
  -- SHA-256, have the same stored headers. So what is stored of a secret is at most these three. The
  -- hashes of the credential that are given out beside the headers are not part of them.
  pub redact_headers-secret :
      (config : RedactionConfig) (upstream : Str) (headers others : HeaderMap)
      → Alike config headers others
      → (redact_headers library sha256_hex to_str headers config upstream).json
        ≡ (redact_headers library sha256_hex to_str others config upstream).json
  unfolding redact_headers
  redact_headers-secret config upstream headers others alike =
      ap object
        (redact_all-secret config (to_ascii_lowercase (trim upstream)) headers others end alike)
