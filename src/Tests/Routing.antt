-- ===== src/Tests/Routing.antt =====
-- Paths under crates/llmtrace/src/routing.rs.
use llmtrace.Base.{ℕ, ◌≡◌, refl, true, false, not, ◌&&◌, ◌||◌, List, [], ◌∷◌, eq_bytes}
use llmtrace.Routing.{
  split, has, any_piece, any_encoded_separator, is_ambiguous, unambiguous_path, strip_prefix,
  starts_with, path_prefix_matches, PathPrefixAllowlist, allows, captures,
}
use llmtrace.Routing.Decoding.{decode}
use llmtrace.Routing.Ambiguity.{misleads, unambiguous_path_lem}
use llmtrace.Routing.Prefixes.{begins, segments, allows_lem}

-- `/v1/.%2e/key`
abbrev hidden : List ℕ
hidden = b'/' ∷ b'v' ∷ b'1' ∷ b'/' ∷ b'.' ∷ b'%' ∷ b'2' ∷ b'e' ∷ b'/' ∷ b'k' ∷ b'e' ∷ b'y' ∷ []

-- `/v1/a%20b`
abbrev plain : List ℕ
plain = b'/' ∷ b'v' ∷ b'1' ∷ b'/' ∷ b'a' ∷ b'%' ∷ b'2' ∷ b'0' ∷ b'b' ∷ []

hidden_is_ambiguous : unambiguous_path hidden ≡ false
unfolding unambiguous_path split has any_piece is_ambiguous any_encoded_separator
hidden_is_ambiguous = refl

plain_is_unambiguous : unambiguous_path plain ≡ true
unfolding unambiguous_path split has any_piece is_ambiguous any_encoded_separator
plain_is_unambiguous = refl

unambiguous_path_example : unambiguous_path hidden ≡ (
    let (piece, pieces) = split b'/' hidden in
    not (has b'\\' hidden) && not (any_piece (λ s. misleads (decode s)) (piece ∷ pieces)))
unambiguous_path_example = unambiguous_path_lem hidden

abbrev versioned : PathPrefixAllowlist
versioned = record { prefixes = (b'/' ∷ b'v' ∷ b'1' ∷ []) ∷ [] }

allows_example :
    allows versioned plain
    ≡ any_piece
        (λ prefix. eq_bytes prefix (b'/' ∷ []) || begins (segments prefix) (segments plain))
        versioned.prefixes
allows_example = allows_lem versioned plain

captured_by_post :
    captures
      (record { prefixes = versioned; inference_methods_only = true })
      (b'P' ∷ b'O' ∷ b'S' ∷ b'T' ∷ [])
      plain
      false
    ≡ true
unfolding captures allows any_piece path_prefix_matches strip_prefix starts_with eq_bytes
captured_by_post = refl
