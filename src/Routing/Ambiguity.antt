-- ===== src/Routing/Ambiguity.antt =====
-- crates/llmtrace/src/routing.rs: an unambiguous path is one that decoding cannot split otherwise.
use llmtrace.Base.{
  sym, All, eq_bytes, ap, ℕ, ◌+◌, ◌*◌, ◌≡◌, refl, inl, inr, Bool, true, false, not, ◌&&◌, ◌||◌,
  List, [], ◌∷◌, arith, ◌==◌, Bool-cases, length, ◌∙◌, ap,
}
use llmtrace.Routing.{
  is_letter, is_encoded_dot, is_ambiguous, has, split, any_piece, unambiguous_path,
}
use llmtrace.Routing.Decoding.{
  is_hex, hex_value, has_separator, decode, decode_escape, decode_plain, escape_parts,
  has_separator-cons, any_encoded_separator_lem,
}

-- Only dots.
unfoldable only_dots : List ℕ → Bool
only_dots [] = true
only_dots (a ∷ s) = a == b'.' && only_dots s

-- A segment that names its directory or the directory above, once `dots` dots stand before it.
abbrev names_directory : ℕ → List ℕ → Bool
names_directory dots s = only_dots s && (dots + length s == 1 || dots + length s == 2)

encoded_dot_value :
    (b c : ℕ)
    → (is_hex b && is_hex c) ≡ true
    → (b == b'2' && is_letter b'e' c) ≡ (16 * hex_value b + hex_value c == b'.')
encoded_dot_value b c h = ground arith

encoded_dot_hex :
    (a b c : ℕ) → is_encoded_dot a b c ≡ true → (a == b'%' && is_hex b && is_hex c) ≡ true
encoded_dot_hex a b c h =
    let percent : (a == b'%') ≡ true = ground arith in
    let two : is_hex b ≡ true = ground arith in
    let letter : is_hex c ≡ true = ground arith in rw (percent, two, letter) refl

-- What a segment stands for, by the first byte that it decodes to.
abbrev verdict : ℕ → List ℕ → Bool
verdict dots s = names_directory dots s || has_separator s

verdict_dot : (dots : ℕ) (s : List ℕ) → verdict dots (b'.' ∷ s) ≡ verdict (dots + 1) s
unfolding only_dots has
verdict_dot dots s =
    let counted : dots + length (b'.' ∷ s) ≡ dots + 1 + length s = omega arith in rw counted refl

verdict_other :
    (dots a : ℕ) (s : List ℕ) → (a == b'.') ≡ false → verdict dots (a ∷ s) ≡ has_separator (a ∷ s)
unfolding only_dots
verdict_other dots a s h = rw h refl

-- Where the segment does not begin with a dot, in either form, only separators count.
verdict_plain :
    (dots a b c : ℕ) (s : List ℕ)
    → (a == b'.') ≡ false
    → is_encoded_dot a b c ≡ false
    → verdict dots (decode (a ∷ b ∷ c ∷ s)) ≡ has_separator (decode (a ∷ b ∷ c ∷ s))
verdict_plain dots a b c s n e = elim (Bool-cases (a == b'%' && is_hex b && is_hex c)) [
  | inr plain ↦ rw (decode_plain a b c s plain) (verdict_other dots a _ n)
  | inl y ↦
      let (percent, b_hex, c_hex) = escape_parts a b c y in
      let value = encoded_dot_value b c (rw (b_hex, c_hex) refl) in
      let other : (16 * hex_value b + hex_value c == b'.') ≡ false =
        sym value ∙ (rw percent at e) in
      rw (decode_escape a b c s y) (verdict_other dots _ _ other)
]

decode_none : decode [] ≡ []
unfolding decode
decode_none = refl

decode_one : (a : ℕ) → decode (a ∷ []) ≡ a ∷ []
unfolding decode
decode_one a = refl

decode_two : (a b : ℕ) → decode (a ∷ b ∷ []) ≡ a ∷ b ∷ []
unfolding decode
decode_two a b = refl

is_ambiguous_none : (dots : ℕ) → is_ambiguous dots [] ≡ verdict dots []
unfolding is_ambiguous only_dots has
is_ambiguous_none dots = ground arith

is_ambiguous_lem :
    (s : List ℕ) (dots : ℕ)
    → has_separator s ≡ false
    → is_ambiguous dots s ≡ verdict dots (decode s)
unfolding is_ambiguous
is_ambiguous_lem [] dots h = rw decode_none (is_ambiguous_none dots)
is_ambiguous_lem (a ∷ []) dots h = elim (Bool-cases (a == b'.')) [
  | inl dot ↦
      let is_dot : a ≡ b'.' = ground arith in
      rw (is_dot, decode_one b'.', verdict_dot dots []) (is_ambiguous_none (dots + 1))
  | inr n ↦
      let plain : has_separator (decode (a ∷ [])) ≡ verdict dots (decode (a ∷ [])) =
        rw (decode_one a) (sym (verdict_other dots a [] n)) in
      rw (n, is_ambiguous) (any_encoded_separator_lem (a ∷ []) h ∙ plain)
]
is_ambiguous_lem (a ∷ b ∷ []) dots h = elim (Bool-cases (a == b'.')) [
  | inl dot ↦
      let is_dot : a ≡ b'.' = ground arith in
      let (_, _, tail) = has_separator-cons a (b ∷ []) h in
      let rest = is_ambiguous_lem (b ∷ []) (dots + 1) tail in
      rw (is_dot, decode_two b'.' b, verdict_dot dots (b ∷ [])) (rw (decode_one b) at rest)
  | inr n ↦
      let plain : has_separator (decode (a ∷ b ∷ [])) ≡ verdict dots (decode (a ∷ b ∷ [])) =
        rw (decode_two a b) (sym (verdict_other dots a (b ∷ []) n)) in
      rw (n, is_ambiguous) (any_encoded_separator_lem (a ∷ b ∷ []) h ∙ plain)
]
is_ambiguous_lem (a ∷ b ∷ c ∷ s) dots h =
    let (slash, backslash, tail) = has_separator-cons a (b ∷ c ∷ s) h in
    let (_, _, tail2) = has_separator-cons b (c ∷ s) tail in
    let (_, _, tail3) = has_separator-cons c s tail2 in
    elim (Bool-cases (a == b'.')) [
      | inl dot ↦
          let is_dot : a ≡ b'.' = ground arith in
          let rest = is_ambiguous_lem (b ∷ c ∷ s) (dots + 1) tail in
          rw (is_dot, decode_plain b'.' b c s refl, verdict_dot dots (decode (b ∷ c ∷ s))) rest
      | inr n ↦ elim (Bool-cases (is_encoded_dot a b c)) [
        | inl e ↦
            let y = encoded_dot_hex a b c e in
            let (percent, b_hex, c_hex) = escape_parts a b c y in
            let value = encoded_dot_value b c (rw (b_hex, c_hex) refl) in
            let is_dot : 16 * hex_value b + hex_value c ≡ b'.' =
              is_value _ _ (sym value ∙ (rw percent at e)) in
            let rest = is_ambiguous_lem s (dots + 1) tail3 in
            rw (n, e, is_ambiguous, decode_escape a b c s y, is_dot, verdict_dot dots (decode s))
              rest
        | inr e ↦
            rw (n, e, is_ambiguous, verdict_plain dots a b c s n e)
              (any_encoded_separator_lem (a ∷ b ∷ c ∷ s) h)
      ]
    ]
  where
    is_value : (x y : ℕ) → (x == y) ≡ true → x ≡ y
    is_value x y h = ground arith

-- A decoded segment that is `.` or `..`, or that a separator would split.
abbrev pub misleads : List ℕ → Bool
misleads s = eq_bytes s (b'.' ∷ []) || eq_bytes s (b'.' ∷ b'.' ∷ []) || has b'/' s || has b'\\' s

verdict-misleads : (s : List ℕ) → verdict 0 s ≡ misleads s
unfolding only_dots has eq_bytes
verdict-misleads [] = refl
verdict-misleads (a ∷ []) = ground arith
verdict-misleads (a ∷ b ∷ []) = ground arith
verdict-misleads (a ∷ b ∷ c ∷ s) = ground arith

split-has_separator :
    (path : List ℕ)
    → has b'\\' path ≡ false
    → let (piece, pieces) = split b'/' path in
      (has_separator piece ≡ false) × All (λ s. has_separator s ≡ false) pieces
unfolding split has
split-has_separator [] h = (refl, tt)
split-has_separator (x ∷ path) h =
    let rest = split-has_separator path (ground arith) in ground (arith, rest)

any_piece-eq :
    (p q : List ℕ → Bool) (pieces : List (List ℕ))
    → ((s : List ℕ) → has_separator s ≡ false → p s ≡ q s)
    → All (λ s. has_separator s ≡ false) pieces
    → any_piece p pieces ≡ any_piece q pieces
unfolding any_piece
any_piece-eq p q [] same a = refl
any_piece-eq p q (x ∷ xs) same a = rw (same x a.0, any_piece-eq p q xs same a.1) refl

-- A path is let through exactly when it has no backslash and no segment of it, percent-decoded, is
-- `.` or `..` or contains a slash or a backslash.
pub unambiguous_path_lem :
    (path : List ℕ)
    → unambiguous_path path ≡ (
        let (piece, pieces) = split b'/' path in
        not (has b'\\' path) && not (any_piece (λ s. misleads (decode s)) (piece ∷ pieces)))
unfolding unambiguous_path
unambiguous_path_lem path = elim (Bool-cases (has b'\\' path)) [
  | inl y ↦ rw y refl
  | inr n ↦
      let (first, others) = split-has_separator path n in
      ap (λ b. not (has b'\\' path) && not b)
        (any_piece-eq (is_ambiguous 0) (λ s. misleads (decode s)) _
          (λ s h. is_ambiguous_lem s 0 h ∙ verdict-misleads (decode s)) (first, others))
]
