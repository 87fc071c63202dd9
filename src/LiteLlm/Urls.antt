-- ===== src/LiteLlm/Urls.antt =====
-- crates/litellm-user-plugin/src/lib.rs: the texts of the lookups' URLs.
use llmtrace.Base.{
  ℕ, ◌+◌, ◌-◌, ◌*◌, ◌/◌, ◌%◌, ◌<◌, ◌≡◌, refl, ap, ◌∙◌, inl, inr, Bool, true, false, ◌||◌, List, [],
  ◌∷◌, ◌++◌, arith, ltb, ◌==◌, if◌then◌else◌, All, Bool-cases,
}
use llmtrace.Base.Text.{Str, utf8_char, utf8}
use llmtrace.LiteLlm.Texts.{is_unreserved, hex_digit, encode_bytes, percent_encode}

abbrev pub digit_value : ℕ → ℕ
digit_value c = if ltb c b'A' then c - b'0' else c - b'A' + 10

abbrev pub plain : ℕ → ℕ
plain c = if c == b'+' then b' ' else c

-- What a server makes of a value in a query: `+` is a space, `%XY` is a byte, and all else is itself.
abbrev pub percent_decode : Str → List ℕ
percent_decode [] = []
percent_decode (c ∷ []) = plain c ∷ []
percent_decode (c ∷ d ∷ []) = plain c ∷ plain d ∷ []
percent_decode (c ∷ d ∷ e ∷ s) =
    let rest = percent_decode (d ∷ e ∷ s) in
    let after = percent_decode s in
    if c == b'%' then (16 * digit_value d + digit_value e) ∷ after else plain c ∷ rest

-- The characters that end a value in a query, or stand for another one.
abbrev pub is_special : ℕ → Bool
is_special c = c == b'&' || c == b'=' || c == b'#' || c == b'+' || c == b';'

digit_value-hex_digit : (n : ℕ) → n < 16 → digit_value (hex_digit n) ≡ n
digit_value-hex_digit n h = ground arith

unreserved_plain : (c : ℕ) → is_unreserved c ≡ true → ((c == b'%') ≡ false) × (plain c ≡ c)
unreserved_plain c h = (ground arith, ground arith)

decode_plain :
    (c : ℕ) (s : Str)
    → ((c == b'%') ≡ false) × (plain c ≡ c)
    → percent_decode (c ∷ s) ≡ c ∷ percent_decode s
decode_plain c [] h = rw h.1 refl
decode_plain c (d ∷ []) h = rw h.1 refl
decode_plain c (d ∷ e ∷ s) h = rw (h.0, h.1) refl

decode_escape :
    (b : ℕ) (s : Str)
    → b < 256
    → percent_decode (b'%' ∷ hex_digit (b / 16) ∷ hex_digit (b % 16) ∷ s) ≡ b ∷ percent_decode s
decode_escape b s h =
    let high = digit_value-hex_digit (b / 16) (omega arith) in
    let low = digit_value-hex_digit (b % 16) (omega arith) in
    let whole : 16 * (b / 16) + b % 16 ≡ b = omega arith in rw (high, low, whole) refl

decode-encode :
    (bytes : List ℕ) → All (λ b. b < 256) bytes → percent_decode (encode_bytes bytes) ≡ bytes
unfolding encode_bytes
decode-encode [] h = refl
decode-encode (b ∷ bytes) h = elim (Bool-cases (is_unreserved b)) [
  | inl y ↦ rw y (
      decode_plain b (encode_bytes bytes) (unreserved_plain b y)
      ∙ ap (◌∷◌ b) (decode-encode bytes h.1))
  | inr n ↦ rw n (decode_escape b (encode_bytes bytes) h.0 ∙ ap (◌∷◌ b) (decode-encode bytes h.1))
]

All-append {ℓ κ} :
    {A : Type ℓ} (P : A → Type κ) (xs ys : List A) → All P xs → All P ys → All P (xs ++ ys)
All-append P [] ys p q = q
All-append P (x ∷ xs) ys p q = (p.0, All-append P xs ys p.1 q)

utf8_char_byte : (c : ℕ) → c < 0x110000 → All (λ b. b < 256) (utf8_char c)
utf8_char_byte c h = elim (Bool-cases (ltb c 0x80)) [
  | inl a ↦ rw a (ground arith, tt)
  | inr m ↦ elim (Bool-cases (ltb c 0x800)) [
    | inl y ↦ rw (m, y) (ground arith, (ground arith, tt))
    | inr n ↦ elim (Bool-cases (ltb c 0x10000)) [
      | inl y ↦ rw (m, n, y) (ground arith, (ground arith, (ground arith, tt)))
      | inr k ↦ rw (m, n, k) (ground arith, (ground arith, (ground arith, (ground arith, tt))))
    ]
  ]
]

utf8_byte : (s : Str) → All (λ c. c < 0x110000) s → All (λ b. b < 256) (utf8 s)
unfolding utf8
utf8_byte [] h = tt
utf8_byte (c ∷ s) h = All-append _ (utf8_char c) (utf8 s) (utf8_char_byte c h.0) (utf8_byte s h.1)

unreserved_special : (c : ℕ) → is_unreserved c ≡ true → is_special c ≡ false
unreserved_special c h = ground arith

hex_special : (n : ℕ) → n < 16 → is_special (hex_digit n) ≡ false
hex_special n h = ground arith

encode_bytes-plain :
    (bytes : List ℕ)
    → All (λ b. b < 256) bytes
    → All (λ c. is_special c ≡ false) (encode_bytes bytes)
unfolding encode_bytes
encode_bytes-plain [] h = tt
encode_bytes-plain (b ∷ bytes) h = elim (Bool-cases (is_unreserved b)) [
  | inl y ↦ rw y (unreserved_special b y, encode_bytes-plain bytes h.1)
  | inr n ↦ rw n (
    refl,
    (
      hex_special (b / 16) (omega (arith, h.0)),
      (hex_special (b % 16) (omega arith), encode_bytes-plain bytes h.1),
    ),
  )
]

-- The percent-encoding of a text has no character that would end it in a query or that a server
-- reads as another (`&`, `=`, `#`, `;` and `+`), and a server that reads `+` as a space and `%XY`
-- as a byte decodes it to the text's bytes.
pub percent_decode-percent_encode :
    (value : Str)
    → All (λ c. c < 0x110000) value
    → (percent_decode (percent_encode value) ≡ utf8 value)
      × All (λ c. is_special c ≡ false) (percent_encode value)
percent_decode-percent_encode value h = (
  decode-encode (utf8 value) (utf8_byte value h),
  encode_bytes-plain (utf8 value) (utf8_byte value h),
)
