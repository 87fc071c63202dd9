-- ===== src/Redaction/Repetition.antt =====
-- crates/llmtrace/src/redaction.rs: redaction of a redacted query changes nothing.
use llmtrace.Base.{
  ℕ, ◌≡◌, refl, ap, ◌∙◌, inl, inr, true, false, List, [], ◌∷◌, ◌++◌, some, map, arith,
  if◌then◌else◌, ◌==◌, contains, All, Bool-cases, Option-cases,
}
use llmtrace.Base.Text.{Str, text, is_empty, split_once, has_prefix, cons_first, split, join}
use llmtrace.Redaction.Queries.{redacted_query_value, name_of, redact_pair, redact_query_string}

-- The text has no separator.
Whole : ℕ → Str → Type 0
Whole c s = contains c s ≡ false

Whole-first :
    (c x : ℕ) (pieces : List Str)
    → (c == x) ≡ false
    → All (Whole c) pieces
    → All (Whole c) (cons_first x pieces)
unfolding Whole contains
Whole-first c x [] n h = (rw n refl, tt)
Whole-first c x (piece ∷ pieces) n h = (rw n h.0, h.1)

split-Whole : (c : ℕ) (s : Str) → All (Whole c) (split c s)
unfolding split Whole contains
split-Whole c [] = (refl, tt)
split-Whole c (x ∷ s) = elim (Bool-cases (x == c)) [
  | inl y ↦ rw y (refl, split-Whole c s)
  | inr n ↦ rw n (Whole-first c x (split c s) (ground arith) (split-Whole c s))
]

some_piece : (c : ℕ) (s : Str) → is_empty (split c s) ≡ false
unfolding split
some_piece c [] = refl
some_piece c (x ∷ s) = elim (Bool-cases (x == c)) [
  | inl y ↦ rw y refl
  | inr n ↦ rw n (cons_some x (split c s))
]
  where
    cons_some : (x : ℕ) (pieces : List Str) → is_empty (cons_first x pieces) ≡ false
    cons_some x [] = refl
    cons_some x (piece ∷ pieces) = refl

-- A piece without the separator is split off whole.
split-append :
    (c : ℕ) (piece s : Str) → Whole c piece → split c (piece ++ c ∷ s) ≡ piece ∷ split c s
unfolding split Whole contains
split-append c [] s h = let self : (c == c) ≡ true = ground arith in rw self refl
split-append c (x ∷ piece) s h =
    let other : (x == c) ≡ false = ground arith in
    let rest = split-append c piece s (ground arith) in rw (other, rest) refl

split_single : (c : ℕ) (piece : Str) → Whole c piece → split c piece ≡ piece ∷ []
unfolding split Whole contains
split_single c [] h = refl
split_single c (x ∷ piece) h =
    let other : (x == c) ≡ false = ground arith in
    let rest = split_single c piece (ground arith) in rw (other, rest) refl

split-join :
    (c : ℕ) (pieces : List Str)
    → is_empty pieces ≡ false
    → All (Whole c) pieces
    → split c (join c pieces) ≡ pieces
unfolding join
split-join c [] n h = cc
split-join c (piece ∷ []) n h = split_single c piece h.0
split-join c (piece ∷ next ∷ pieces) n h =
    split-append c piece (join c (next ∷ pieces)) h.0
    ∙ ap (◌∷◌ piece) (split-join c (next ∷ pieces) refl h.1)

-- The name before the first `=`.
split_once-equals :
    (name rest : Str)
    → contains b'=' name ≡ false
    → split_once (text "=") (name ++ b'=' ∷ rest) ≡ some (name, rest)
unfolding split_once has_prefix contains
split_once-equals [] rest h = refl
split_once-equals (c ∷ name) rest h =
    let other : (b'=' == c) ≡ false = ground arith in
    let after = split_once-equals name rest (ground arith) in rw (other, after) refl

name_of_nil : (c : ℕ) → contains c (name_of []) ≡ false
unfolding contains name_of split_once has_prefix
name_of_nil c = refl

name_of-cons :
    (x : ℕ) (pair : Str) → name_of (x ∷ pair) ≡ (if b'=' == x then [] else x ∷ name_of pair)
unfolding name_of split_once has_prefix
name_of-cons x pair = elim (Bool-cases (b'=' == x)) [
  | inl y ↦ rw (name_of, split_once, has_prefix, y) refl
  | inr n ↦ elim (Option-cases (split_once (text "=") pair)) [
    | inl e ↦ rw (name_of, n, e) refl
    | inr (found, e) ↦ rw (name_of, n, e) refl
  ]
]

name_of-Whole : (c : ℕ) (pair : Str) → contains c pair ≡ false → contains c (name_of pair) ≡ false
unfolding contains
name_of-Whole c [] h = name_of_nil c
name_of-Whole c (x ∷ pair) h =
    let cons = name_of-cons x pair in
    let rest = name_of-Whole c pair (ground arith) in rw cons (ground arith)

name_of-equals : (pair : Str) → contains b'=' (name_of pair) ≡ false
unfolding contains
name_of-equals [] = name_of_nil b'='
name_of-equals (x ∷ pair) =
    let cons = name_of-cons x pair in let rest = name_of-equals pair in rw cons (ground arith)

contains-append :
    (c : ℕ) (s t : Str) → contains c s ≡ false → contains c t ≡ false → contains c (s ++ t) ≡ false
unfolding contains
contains-append c [] t p q = q
contains-append c (x ∷ s) t p q = ground (arith, contains-append c s t)

redact_pair-Whole :
    (pair : Str) → contains b'&' pair ≡ false → contains b'&' (redact_pair pair) ≡ false
unfolding redact_pair contains
redact_pair-Whole pair h =
    contains-append b'&' (name_of pair) (b'=' ∷ redacted_query_value) (name_of-Whole b'&' pair h)
      refl

name_of-redact_pair : (pair : Str) → name_of (redact_pair pair) ≡ name_of pair
unfolding redact_pair name_of
name_of-redact_pair pair =
    rw (name_of, split_once-equals (name_of pair) redacted_query_value (name_of-equals pair)) refl

redact_pair-redact_pair : (pair : Str) → redact_pair (redact_pair pair) ≡ redact_pair pair
unfolding redact_pair name_of
redact_pair-redact_pair pair =
    ap (λ name. name ++ b'=' ∷ redacted_query_value) (name_of-redact_pair pair)

pieces-Whole :
    (pieces : List Str) → All (Whole b'&') pieces → All (Whole b'&') (map redact_pair pieces)
unfolding Whole
pieces-Whole [] h = tt
pieces-Whole (piece ∷ pieces) h = (redact_pair-Whole piece h.0, pieces-Whole pieces h.1)

pieces_twice :
    (pieces : List Str) → map redact_pair (map redact_pair pieces) ≡ map redact_pair pieces
pieces_twice [] = refl
pieces_twice (piece ∷ pieces) = rw (redact_pair-redact_pair piece, pieces_twice pieces) refl

is_empty-map :
    (pieces : List Str) → is_empty pieces ≡ false → is_empty (map redact_pair pieces) ≡ false
is_empty-map [] h = h
is_empty-map (piece ∷ pieces) h = refl

is_empty-append_cons : (s t : Str) (c : ℕ) → is_empty (s ++ c ∷ t) ≡ false
is_empty-append_cons [] t c = refl
is_empty-append_cons (x ∷ s) t c = refl

is_empty-join :
    (pieces : List Str)
    → is_empty pieces ≡ false
    → is_empty (join b'&' (map redact_pair pieces)) ≡ false
unfolding join redact_pair
is_empty-join [] h = cc
is_empty-join (piece ∷ []) h = is_empty-append_cons (name_of piece) redacted_query_value b'='
is_empty-join (piece ∷ next ∷ pieces) h =
    is_empty-append_cons (redact_pair piece) (join b'&' (map redact_pair (next ∷ pieces))) b'&'

-- A redacted query is redacted to itself.
pub redact_query_string-redact_query_string :
    (query : Str) → redact_query_string (redact_query_string query) ≡ redact_query_string query
unfolding redact_query_string
redact_query_string-redact_query_string query = elim (Bool-cases (is_empty query)) [
  | inl y ↦ rw y refl
  | inr n ↦
      let pieces = split b'&' query in
      let more = some_piece b'&' query in
      let whole = pieces-Whole pieces (split-Whole b'&' query) in
      let again = split-join b'&' (map redact_pair pieces) (is_empty-map pieces more) whole in
      rw (n, is_empty-join pieces more, again, pieces_twice pieces) refl
]
