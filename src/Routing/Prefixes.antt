-- ===== src/Routing/Prefixes.antt =====
-- crates/llmtrace/src/config.rs: a path prefix is a prefix of segments.
use llmtrace.Base.{
  ℕ, ◌≡◌, refl, inl, inr, Bool, true, false, ◌&&◌, ◌||◌, List, [], ◌∷◌, arith, Bool-cases, eq_bytes,
}
use llmtrace.Routing.{
  split, any_piece, strip_prefix, starts_with, path_prefix_matches, PathPrefixAllowlist, allows,
}

-- Whether a list of segments begins another.
unfoldable pub begins : List (List ℕ) → List (List ℕ) → Bool
begins [] qs = true
begins (p ∷ ps) [] = false
begins (p ∷ ps) (q ∷ qs) = eq_bytes p q && begins ps qs

-- The segments of a path: what stands before, between and after its separators.
abbrev pub segments : List ℕ → List (List ℕ)
segments path = (let (first, others) = split b'/' path in first ∷ others)

matches_segments :
    (prefix path : List ℕ)
    → (eq_bytes path prefix || starts_with b'/' (strip_prefix prefix path))
      ≡ begins (segments prefix) (segments path)
unfolding strip_prefix starts_with split begins eq_bytes
matches_segments [] [] = refl
matches_segments [] (y ∷ path) = ground arith
matches_segments (x ∷ prefix) [] = ground arith
matches_segments (x ∷ prefix) (y ∷ path) =
    let rest = matches_segments prefix path in ground (arith, rest)

any_piece-ext :
    (p q : List ℕ → Bool) (pieces : List (List ℕ))
    → ((s : List ℕ) → p s ≡ q s)
    → any_piece p pieces ≡ any_piece q pieces
unfolding any_piece
any_piece-ext p q [] same = refl
any_piece-ext p q (x ∷ xs) same = rw (same x, any_piece-ext p q xs same) refl

path_prefix_matches_lem :
    (prefix path : List ℕ)
    → path_prefix_matches prefix path
      ≡ (eq_bytes prefix (b'/' ∷ []) || begins (segments prefix) (segments path))
unfolding path_prefix_matches
path_prefix_matches_lem prefix path = elim (Bool-cases (eq_bytes prefix (b'/' ∷ []))) [
  | inl y ↦ rw y refl
  | inr n ↦ rw n (matches_segments prefix path)
]

-- An allowlist lets a path through exactly when one of its prefixes is `/`, or is in whole
-- segments a prefix of the path.
pub allows_lem :
    (list : PathPrefixAllowlist) (path : List ℕ)
    → allows list path
      ≡ any_piece
          (λ prefix. eq_bytes prefix (b'/' ∷ []) || begins (segments prefix) (segments path))
          list.prefixes
unfolding allows
allows_lem list path =
    any_piece-ext (λ prefix. path_prefix_matches prefix path) _ list.prefixes
      (λ prefix. path_prefix_matches_lem prefix path)
