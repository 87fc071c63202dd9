-- ===== src/Pricing/Estimates.antt =====
-- crates/llmtrace/src/pricing.rs: what an estimate says of the counts.
use llmtrace.Base.{
  ◌+◌, ◌≡◌, ◌≤◌, refl, sym, inl, inr, Bool, true, false, not, ◌||◌, Option, none, some, arith,
  Bool-cases,
}
use llmtrace.Base.Int.{ℤ, pos, negsuc, is_negative, magnitude, sub, is_i64}
use llmtrace.Base.Results.{and_then}
use llmtrace.Pricing.{
  Floats, ModelPrice, TokenUsage, unwrap_or, checked_sub, valid, estimate_counts, estimate_microusd,
}

some-none {ℓ} : {A : Type ℓ} {a : A} → none ≡ some a → ⊥
some-none p = cc

some_inj : {A : Type 0} {a b : A} → some a ≡ some b → a ≡ b
some_inj p = cc

-- The counts that a price can be put on.
pub record IsCounted (input output cached written : ℤ) : Type 0 where
  pub signs :
      (is_negative input || is_negative output || is_negative cached || is_negative written) ≡ false
  pub parts : magnitude cached + magnitude written ≤ magnitude input

and_then-some :
    {A B : Type 0} (o : Option A) (f : A → Option B) (b : B)
    → and_then o f ≡ some b
    → (a : A) × ((o ≡ some a) × (f a ≡ some b))
and_then-some none f b h = cc
and_then-some (some a) f b h = (a, (refl, h))

parts_lem :
    (input cached written : ℤ)
    → is_negative input ≡ false
    → is_negative cached ≡ false
    → is_negative written ≡ false
    → is_negative (sub (sub input cached) written) ≡ false
    → magnitude cached + magnitude written ≤ magnitude input
parts_lem (pos i) (pos c) (pos w) p q r h = ground arith
parts_lem (negsuc i) c w p q r h = cc
parts_lem (pos i) (negsuc c) w p q r h = cc
parts_lem (pos i) (pos c) (negsuc w) p q r h = cc

not-true : {b : Bool} → not b ≡ false → b ≡ true
not-true h = ground arith

or_false : (a b : Bool) → (a || b) ≡ false → (a ≡ false) × (b ≡ false)
or_false true b h = cc
or_false false b h = (refl, h)

checked_sub-some : (a b c : ℤ) → checked_sub a b ≡ some c → c ≡ sub a b
checked_sub-some a b c h = elim (Bool-cases (is_i64 (sub a b))) [
  | inl y ↦ some_inj (sym (rw y at h))
  | inr n ↦ absurd (some-none (rw n at h))
]

module _ {F : Type 0} (f : Floats F) where
  -- The estimate once the counts are known.
  pub estimate_counts-IsCounted :
      (price : ModelPrice F) (input output cached written cost : ℤ)
      → estimate_counts f price input output cached written ≡ some cost
      → (valid f price ≡ true) × IsCounted input output cached written
  unfolding estimate_counts
  estimate_counts-IsCounted price input output cached written cost h =
      let refused =
        not (valid f price)
        || is_negative input
        || is_negative output
        || is_negative cached
        || is_negative written in
      elim (Bool-cases refused) [
        | inl y ↦ absurd (some-none (rw y at h))
        | inr n ↦
            let (n3, w) =
              or_false
                (not (valid f price)
                  || is_negative input
                  || is_negative output
                  || is_negative cached)
                (is_negative written) n in
            let (n2, c) =
              or_false (not (valid f price) || is_negative input || is_negative output)
                (is_negative cached) n3 in
            let (n1, o) =
              or_false (not (valid f price) || is_negative input) (is_negative output) n2 in
            let (v, i) = or_false (not (valid f price)) (is_negative input) n1 in
            let (uncached, (subtracted, rest)) = and_then-some _ _ cost (rw n at h) in
            let (fresh, (first, second)) =
              and_then-some (checked_sub input cached) (λ r. checked_sub r written) uncached
                subtracted in
            let same = checked_sub-some fresh written uncached second in
            let before = checked_sub-some input cached fresh first in
            elim (Bool-cases (is_negative uncached)) [
              | inl y ↦ absurd (some-none (rw y at rest))
              | inr positive ↦ (
                not-true v,
                record {
                  signs = rw (i, o, c, w) refl;
                  parts =
                      parts_lem input cached written i c w (rw (← before) (rw (← same) positive));
                },
              )
            ]
      ]

  -- An estimate is made only where the rates are valid, the counts of input and output are known, no
  -- count is negative, and the tokens read from a cache and written to one are together at most
  -- those of the input.
  pub estimate_microusd-IsCounted :
      (price : ModelPrice F) (usage : TokenUsage) (cost : ℤ)
      → estimate_microusd f price usage ≡ some cost
      → (valid f price ≡ true)
        × ((input : ℤ) × ((output : ℤ) × ((usage.input_tokens ≡ some input)
                × ((usage.output_tokens ≡ some output)
                    × IsCounted input output
                        (unwrap_or (pos 0) usage.cached_input_tokens)
                        (unwrap_or (pos 0) usage.cache_creation_input_tokens)))))
  unfolding estimate_microusd
  estimate_microusd-IsCounted price usage cost h =
      let (input, (known, rest)) = and_then-some usage.input_tokens _ cost h in
      let (output, (known_too, counted)) = and_then-some usage.output_tokens _ cost rest in
      let (rates, counts) =
        estimate_counts-IsCounted price input output (unwrap_or (pos 0) usage.cached_input_tokens)
          (unwrap_or (pos 0) usage.cache_creation_input_tokens) cost counted in
      (rates, (input, (output, (known, (known_too, counts)))))
