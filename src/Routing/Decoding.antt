-- ===== src/Routing/Decoding.antt =====
-- crates/llmtrace/src/routing.rs: percent-decoding, and the separators that it brings.
use llmtrace.Base.{
  ℕ, ◌+◌, ◌-◌, ◌*◌, ◌≡◌, refl, inl, inr, Bool, true, false, ◌&&◌, ◌||◌, List, [], ◌∷◌, arith, leb,
  ◌==◌, if◌then◌else◌, Bool-cases, ◌∙◌,
}
use llmtrace.Routing.{is_letter, is_encoded_separator, any_encoded_separator, has}

abbrev pub is_hex : ℕ → Bool
is_hex c = (leb b'0' c && leb c b'9') || (leb b'A' c && leb c b'F') || (leb b'a' c && leb c b'f')

abbrev pub hex_value : ℕ → ℕ
hex_value c = if leb c b'9' then c - b'0' else if leb c b'F' then c - b'A' + 10 else c - b'a' + 10

-- Percent decoding: an escape stands for its byte, any other byte for itself.
unfoldable pub decode : List ℕ → List ℕ
decode [] = []
decode (a ∷ []) = a ∷ []
decode (a ∷ b ∷ []) = a ∷ b ∷ []
decode (a ∷ b ∷ c ∷ bytes) = elim (a == b'%' && is_hex b && is_hex c) [
  | true ↦ (16 * hex_value b + hex_value c) ∷ decode bytes
  | false ↦ a ∷ decode (b ∷ c ∷ bytes)
]

-- Whether some byte that a server would take as a separator is in a text.
abbrev pub has_separator : List ℕ → Bool
has_separator s = has b'/' s || has b'\\' s

-- The escapes that stand for a separator.
encoded_separator_value :
    (b c : ℕ)
    → (is_hex b && is_hex c) ≡ true
    → is_encoded_separator b'%' b c
      ≡ (16 * hex_value b + hex_value c == b'/' || 16 * hex_value b + hex_value c == b'\\')
encoded_separator_value b c h = ground arith

second_hex :
    (b c : ℕ)
    → ((b == b'2' && is_letter b'f' c) || (b == b'5' && is_letter b'c' c)) ≡ true
    → is_hex b ≡ true
second_hex b c h = ground arith

third_hex :
    (b c : ℕ)
    → ((b == b'2' && is_letter b'f' c) || (b == b'5' && is_letter b'c' c)) ≡ true
    → is_hex c ≡ true
third_hex b c h = ground arith

plain_separator :
    (a b c : ℕ) → (a == b'%' && is_hex b && is_hex c) ≡ false → is_encoded_separator a b c ≡ false
plain_separator a b c h = elim (Bool-cases (a == b'%')) [
  | inr n ↦ rw n refl
  | inl y ↦ elim (Bool-cases ((b == b'2' && is_letter b'f' c) || (b == b'5' && is_letter b'c' c))) [
    | inr n ↦ rw (y, n) refl
    | inl e ↦ absurd (true-false (rw (y, second_hex b c e, third_hex b c e) at h))
  ]
]
  where
    true-false : true ≡ false → ⊥
    true-false e = cc

or-shuffle : (p q r t : Bool) → (p || q) || (r || t) ≡ (p || r) || (q || t)
or-shuffle true q r t = refl
or-shuffle false true true t = refl
or-shuffle false true false t = refl
or-shuffle false false r t = refl

pub escape_parts :
    (a b c : ℕ)
    → (a == b'%' && is_hex b && is_hex c) ≡ true
    → (a ≡ b'%') × (is_hex b ≡ true) × (is_hex c ≡ true)
escape_parts a b c h = (ground arith, ground arith, ground arith)

pub decode_escape :
    (a b c : ℕ) (s : List ℕ)
    → (a == b'%' && is_hex b && is_hex c) ≡ true
    → decode (a ∷ b ∷ c ∷ s) ≡ (16 * hex_value b + hex_value c) ∷ decode s
unfolding decode
decode_escape a b c s h = rw (h, decode) refl

pub decode_plain :
    (a b c : ℕ) (s : List ℕ)
    → (a == b'%' && is_hex b && is_hex c) ≡ false
    → decode (a ∷ b ∷ c ∷ s) ≡ a ∷ decode (b ∷ c ∷ s)
unfolding decode
decode_plain a b c s h = rw (h, decode) refl

-- No escape begins at a hexadecimal digit.
any_encoded_separator_skip :
    (b : ℕ) (s : List ℕ) → is_hex b ≡ true → any_encoded_separator (b ∷ s) ≡ any_encoded_separator s
unfolding any_encoded_separator
any_encoded_separator_skip b [] h = refl
any_encoded_separator_skip b (x ∷ []) h = refl
any_encoded_separator_skip b (x ∷ y ∷ s) h =
    let digit : is_encoded_separator b x y ≡ false = ground arith in rw digit refl

pub has_separator-cons :
    (a : ℕ) (s : List ℕ)
    → has_separator (a ∷ s) ≡ false
    → ((a == b'/') ≡ false) × ((a == b'\\') ≡ false) × (has_separator s ≡ false)
unfolding has
has_separator-cons a s h = ground arith

pub any_encoded_separator_lem :
    (s : List ℕ) → has_separator s ≡ false → any_encoded_separator s ≡ has_separator (decode s)
unfolding any_encoded_separator decode has
any_encoded_separator_lem [] h = refl
any_encoded_separator_lem (a ∷ []) h = ground arith
any_encoded_separator_lem (a ∷ b ∷ []) h = ground arith
any_encoded_separator_lem (a ∷ b ∷ c ∷ s) h =
    let (slash, backslash, tail) = has_separator-cons a (b ∷ c ∷ s) h in
    let (_, _, tail2) = has_separator-cons b (c ∷ s) tail in
    let (_, _, tail3) = has_separator-cons c s tail2 in
    elim (Bool-cases (a == b'%' && is_hex b && is_hex c)) [
      | inl y ↦
          let (percent, b_hex, c_hex) = escape_parts a b c y in
          let skipped =
            any_encoded_separator_skip b (c ∷ s) b_hex ∙ any_encoded_separator_skip c s c_hex in
          let value = encoded_separator_value b c (rw (b_hex, c_hex) refl) in
          let rest = any_encoded_separator_lem s tail3 in
          rw (decode_escape a b c s y, skipped, percent, value, rest)
            (or-shuffle (16 * hex_value b + hex_value c == b'/') _ (has b'/' (decode s)) _)
      | inr n ↦
          let rest = any_encoded_separator_lem (b ∷ c ∷ s) tail in
          rw (decode_plain a b c s n, plain_separator a b c n, rest, slash, backslash) refl
    ]
