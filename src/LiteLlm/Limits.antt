-- ===== src/LiteLlm/Limits.antt =====
-- crates/litellm-user-plugin/src/lib.rs: the bounds on the texts of an identity.
use llmtrace.Base.{
  ℕ, zero, suc, ◌+◌, ◌-◌, ◌<◌, ◌≡◌, refl, sym, ap, ◌∙◌, inl, inr, true, false, [], ◌∷◌, arith, ltb,
  leb, ◌==◌, Bool-cases,
}
use llmtrace.Base.Text.{
  Str, len_utf8, byte_len, is_char_boundary, slice_to, floor_char_boundary, truncate_utf8,
}
use llmtrace.Base.Truncation.{len_utf8_pos, floor-le, zero_boundary}
use llmtrace.LiteLlm.Texts.{max_field_bytes, bounded_from, bounded}

boundary_after :
    (c : ℕ) (s : Str) (k : ℕ) → is_char_boundary (c ∷ s) (len_utf8 c + k) ≡ is_char_boundary s k
unfolding is_char_boundary
boundary_after c s k =
    let pos = len_utf8_pos c in
    let some_bytes : (len_utf8 c + k == 0) ≡ false = ground arith in
    let past : ltb (len_utf8 c + k) (len_utf8 c) ≡ false = ground arith in
    let rest : len_utf8 c + k - len_utf8 c ≡ k = omega arith in rw (some_bytes, past, rest) refl

floor_boundary_self : (s : Str) (i : ℕ) → is_char_boundary s i ≡ true → floor_char_boundary s i ≡ i
unfolding floor_char_boundary
floor_boundary_self s zero h = refl
floor_boundary_self s (suc i) h = rw h refl

floor_below :
    (s : Str) (i : ℕ)
    → is_char_boundary s (suc i) ≡ false
    → floor_char_boundary s (suc i) ≡ floor_char_boundary s i
unfolding floor_char_boundary
floor_below s i h = rw h refl

floor_after :
    (c : ℕ) (s : Str) (k : ℕ)
    → floor_char_boundary (c ∷ s) (len_utf8 c + k) ≡ len_utf8 c + floor_char_boundary s k
floor_after c s zero =
    let start : is_char_boundary s 0 ≡ true = zero_boundary s in
    floor_boundary_self (c ∷ s) (len_utf8 c + 0) (boundary_after c s 0 ∙ start)
    ∙ ap (λ i. len_utf8 c + i) (sym (floor_boundary_self s 0 start))
floor_after c s (suc k) = elim (Bool-cases (is_char_boundary s (suc k))) [
  | inl y ↦
      floor_boundary_self (c ∷ s) (len_utf8 c + suc k) (boundary_after c s (suc k) ∙ y)
      ∙ ap (λ i. len_utf8 c + i) (sym (floor_boundary_self s (suc k) y))
  | inr n ↦
      let next : len_utf8 c + suc k ≡ suc (len_utf8 c + k) = omega arith in
      let inside : is_char_boundary (c ∷ s) (suc (len_utf8 c + k)) ≡ false =
        rw (← next) (boundary_after c s (suc k) ∙ n) in
      rw next (floor_below (c ∷ s) (len_utf8 c + k) inside)
      ∙ floor_after c s k
      ∙ ap (λ i. len_utf8 c + i) (sym (floor_below s k n))
]

slice_after : (c : ℕ) (s : Str) (k : ℕ) → slice_to (c ∷ s) (len_utf8 c + k) ≡ c ∷ slice_to s k
unfolding slice_to
slice_after c s k =
    let past : ltb (len_utf8 c + k) (len_utf8 c) ≡ false = ground arith in
    let rest : len_utf8 c + k - len_utf8 c ≡ k = omega arith in rw (past, rest) refl

truncate-cons :
    (c : ℕ) (s : Str) (k : ℕ) → truncate_utf8 (c ∷ s) (len_utf8 c + k) ≡ c ∷ truncate_utf8 s k
unfolding truncate_utf8 byte_len
truncate-cons c s k = elim (Bool-cases (leb (byte_len s) k)) [
  | inl y ↦
      let whole : leb (len_utf8 c + byte_len s) (len_utf8 c + k) ≡ true = ground arith in
      rw (y, whole) refl
  | inr n ↦
      let more : leb (len_utf8 c + byte_len s) (len_utf8 c + k) ≡ false = ground arith in
      rw (n, more, floor_after c s k) (slice_after c s (floor_char_boundary s k))
]

truncate-first : (c : ℕ) (s : Str) (n : ℕ) → n < len_utf8 c → truncate_utf8 (c ∷ s) n ≡ []
unfolding truncate_utf8 byte_len slice_to
truncate-first c s n h =
    let more : leb (len_utf8 c + byte_len s) n ≡ false = ground arith in
    let cut : ltb (floor_char_boundary (c ∷ s) n) (len_utf8 c) ≡ true =
      ground (arith, floor-le (c ∷ s) n) in
    rw (more, cut) refl

truncate_nil : (n : ℕ) → truncate_utf8 [] n ≡ []
unfolding truncate_utf8 slice_to
truncate_nil n = ground arith

bounded_from_lem :
    (used left : ℕ) (s : Str)
    → used + left ≡ max_field_bytes
    → bounded_from used s ≡ truncate_utf8 s left
unfolding bounded_from
bounded_from_lem used left [] h = sym (truncate_nil left)
bounded_from_lem used left (c ∷ s) h = elim (Bool-cases (ltb max_field_bytes (used + len_utf8 c))) [
  | inl y ↦ rw y (sym (truncate-first c s left (ground arith)))
  | inr n ↦
      let rest = bounded_from_lem (used + len_utf8 c) (left - len_utf8 c) s (ground arith) in
      let whole : len_utf8 c + (left - len_utf8 c) ≡ left = ground arith in
      let cut : truncate_utf8 (c ∷ s) left ≡ c ∷ truncate_utf8 s (left - len_utf8 c) =
        rw whole at (truncate-cons c s (left - len_utf8 c)) in
      rw (n, rest) (sym cut)
]

-- The plugin's loop over the characters cuts a text where the proxy's search for a character
-- boundary does, at 256 bytes.
pub bounded_lem : (s : Str) → bounded s ≡ truncate_utf8 s max_field_bytes
bounded_lem s = bounded_from_lem 0 max_field_bytes s (omega arith)
