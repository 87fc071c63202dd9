-- ===== src/Routing.antt =====
-- crates/llmtrace/src/routing.rs and the path prefixes of crates/llmtrace/src/config.rs: which paths
-- are forwarded, and which are captured. A path is its bytes.
pub mod Decoding
pub mod Ambiguity
pub mod Prefixes
use llmtrace.Base.{
  Option, none, some, ℕ, zero, suc, ◌+◌, ◌-◌, ◌*◌, Bool, true, false, not, ◌&&◌, ◌||◌, List, [],
  ◌∷◌, ltb, leb, ◌==◌, if◌then◌else◌, eq_bytes,
}

-- `eq_ignore_ascii_case` for a byte and a small letter.
abbrev pub is_letter : ℕ → ℕ → Bool
is_letter letter c = c == letter || c + 32 == letter

-- `%2e`, in either case.
abbrev pub is_encoded_dot : ℕ → ℕ → ℕ → Bool
is_encoded_dot a b c = a == b'%' && b == b'2' && is_letter b'e' c

-- `%2f` or `%5c`, in either case.
abbrev pub is_encoded_separator : ℕ → ℕ → ℕ → Bool
is_encoded_separator a b c =
    a == b'%' && ((b == b'2' && is_letter b'f' c) || (b == b'5' && is_letter b'c' c))

-- `bytes.windows(3).any(..)`.
unfoldable pub any_encoded_separator : List ℕ → Bool
any_encoded_separator (a ∷ b ∷ c ∷ bytes) =
    is_encoded_separator a b c || any_encoded_separator (b ∷ c ∷ bytes)
any_encoded_separator bytes = false

-- The closure of `unambiguous_path`, with the dots so far.
unfoldable pub is_ambiguous : ℕ → List ℕ → Bool
is_ambiguous dots [] = dots == 1 || dots == 2
is_ambiguous dots (a ∷ []) = elim (a == b'.') [
  | true ↦ is_ambiguous (dots + 1) []
  | false ↦ any_encoded_separator (a ∷ [])
]
is_ambiguous dots (a ∷ b ∷ []) = elim (a == b'.') [
  | true ↦ is_ambiguous (dots + 1) (b ∷ [])
  | false ↦ any_encoded_separator (a ∷ b ∷ [])
]
is_ambiguous dots (a ∷ b ∷ c ∷ bytes) = elim (a == b'.') [
  | true ↦ is_ambiguous (dots + 1) (b ∷ c ∷ bytes)
  | false ↦ elim (is_encoded_dot a b c) [
    | true ↦ is_ambiguous (dots + 1) bytes
    | false ↦ any_encoded_separator (a ∷ b ∷ c ∷ bytes)
  ]
]

unfoldable pub has : ℕ → List ℕ → Bool
has c [] = false
has c (x ∷ xs) = x == c || has c xs

-- `split`: the first piece, and the pieces after it.
unfoldable pub split : ℕ → List ℕ → List ℕ × List (List ℕ)
split c [] = ([], [])
split c (x ∷ xs) =
    let (piece, pieces) = split c xs in if x == c then ([], piece ∷ pieces) else (x ∷ piece, pieces)

unfoldable pub any_piece : (List ℕ → Bool) → List (List ℕ) → Bool
any_piece p [] = false
any_piece p (x ∷ xs) = p x || any_piece p xs

unfoldable pub unambiguous_path : List ℕ → Bool
unambiguous_path path =
    let (piece, pieces) = split b'/' path in
    not (has b'\\' path) && not (any_piece (is_ambiguous 0) (piece ∷ pieces))

unfoldable pub strip_prefix : List ℕ → List ℕ → Option (List ℕ)
strip_prefix [] path = some path
strip_prefix (x ∷ prefix) [] = none
strip_prefix (x ∷ prefix) (y ∷ path) = if x == y then strip_prefix prefix path else none

-- `is_some_and(|suffix| suffix.starts_with(c))`.
unfoldable pub starts_with : ℕ → Option (List ℕ) → Bool
starts_with c none = false
starts_with c (some []) = false
starts_with c (some (x ∷ suffix)) = x == c

unfoldable pub path_prefix_matches : List ℕ → List ℕ → Bool
path_prefix_matches prefix path =
    if eq_bytes prefix (b'/' ∷ [])
    then true
    else eq_bytes path prefix || starts_with b'/' (strip_prefix prefix path)

pub record PathPrefixAllowlist : Type 0 where
  pub prefixes : List (List ℕ)

unfoldable pub allows : PathPrefixAllowlist → List ℕ → Bool
allows list path = any_piece (λ prefix. path_prefix_matches prefix path) list.prefixes

pub record CapturePolicy : Type 0 where
  pub prefixes : PathPrefixAllowlist
  pub inference_methods_only : Bool

abbrev post : List ℕ
post = b'P' ∷ b'O' ∷ b'S' ∷ b'T' ∷ []

-- A method is its name.
unfoldable pub captures : CapturePolicy → List ℕ → List ℕ → Bool → Bool
captures policy method path websocket =
    allows policy.prefixes path
    && (not policy.inference_methods_only || eq_bytes method post || websocket)
