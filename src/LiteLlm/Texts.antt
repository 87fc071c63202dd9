-- ===== src/LiteLlm/Texts.antt =====
-- crates/litellm-user-plugin/src/lib.rs: the credential of a request, its key, and the texts of a lookup.
use llmtrace.Base.{
  ℕ, ◌+◌, ◌-◌, ◌/◌, ◌%◌, Bool, not, ◌&&◌, ◌||◌, List, [], ◌∷◌, ◌++◌, Option, none, some, ltb, leb,
  ◌==◌, if◌then◌else◌, eq_bytes, any,
}
use llmtrace.Base.Text.{Str, text, len_utf8, trim, is_empty, split_once, utf8}
use llmtrace.Base.Json.{Map, get, as_str}

abbrev pub max_field_bytes : ℕ
max_field_bytes = 256

abbrev pub credential_headers : List Str
credential_headers = text "authorization" ∷ text "x-api-key" ∷ text "api-key" ∷ []

-- `.filter(|value| !value.is_empty())`.
abbrev pub nonempty : Option Str → Option Str
nonempty none = none
nonempty (some value) = if is_empty value then none else some value

-- `Option::and_then`.
abbrev pub and_then {ℓ κ} : {A : Type ℓ} {B : Type κ} → Option A → (A → Option B) → Option B
and_then none f = none
and_then (some a) f = f a

abbrev pub or_empty {ℓ} : {A : Type ℓ} → Option (List A) → List A
or_empty none = []
or_empty (some xs) = xs

-- The loop of `find_credential` over the names.
unfoldable pub find_header : List Str → Map → Option (Str × Str)
find_header [] headers = none
find_header (name ∷ names) headers =
    let rest = find_header names headers in
    elim (and_then (get name headers) as_str) [
      | none ↦ rest
      | some value ↦
          if not (is_empty (trim value)) && not (eq_bytes value (text "<non-utf8>"))
          then some (name, value)
          else rest
    ]

abbrev pub find_credential : Map → Option (Str × Str)
find_credential headers = find_header credential_headers headers

-- `char::is_ascii_alphanumeric`.
abbrev pub is_ascii_alphanumeric : ℕ → Bool
is_ascii_alphanumeric c =
    (leb b'0' c && leb c b'9') || (leb b'A' c && leb c b'Z') || (leb b'a' c && leb c b'z')

unfoldable pub bare_key : Str → Str → Str
bare_key header value = elim (split_once (text " ") value) [
  | none ↦ trim value
  | some (scheme, rest) ↦
      if eq_bytes header (text "authorization")
        && not (is_empty scheme)
        && not (any (λ c. not (is_ascii_alphanumeric c)) scheme)
      then trim rest
      else trim value
]

-- `rest.split(['/', '?', '#']).next()`.
unfoldable pub authority_of : Str → Str
authority_of [] = []
authority_of (c ∷ s) =
    let rest = authority_of s in if c == b'/' || c == b'?' || c == b'#' then [] else c ∷ rest

unfoldable pub origin_of : Str → Option Str
origin_of upstream_url = elim (split_once (text "://") upstream_url) [
  | none ↦ none
  | some (scheme, rest) ↦
      if not (eq_bytes scheme (text "http") || eq_bytes scheme (text "https"))
      then none
      else if is_empty (authority_of rest)
      then none
      else some (scheme ++ text "://" ++ authority_of rest)
]

abbrev pub hex_digit : ℕ → ℕ
hex_digit n = if ltb n 10 then b'0' + n else b'A' + (n - 10)

abbrev pub is_unreserved : ℕ → Bool
is_unreserved b = is_ascii_alphanumeric b || b == b'-' || b == b'_' || b == b'.' || b == b'~'

-- The loop of `percent_encode` over the bytes.
unfoldable pub encode_bytes : List ℕ → Str
encode_bytes [] = []
encode_bytes (b ∷ bytes) =
    let rest = encode_bytes bytes in
    if is_unreserved b then b ∷ rest else b'%' ∷ hex_digit (b / 16) ∷ hex_digit (b % 16) ∷ rest

abbrev pub percent_encode : Str → Str
percent_encode value = encode_bytes (utf8 value)

-- The loop of `bounded`: the text so far is `used` bytes long.
unfoldable pub bounded_from : ℕ → Str → Str
bounded_from used [] = []
bounded_from used (c ∷ s) =
    let rest = bounded_from (used + len_utf8 c) s in
    if ltb max_field_bytes (used + len_utf8 c) then [] else c ∷ rest

abbrev pub bounded : Str → Str
bounded value = bounded_from 0 value
