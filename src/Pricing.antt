-- ===== src/Pricing.antt =====
-- crates/llmtrace/src/pricing.rs: what a request cost, in millionths of a dollar.
pub mod Estimates
use llmtrace.Base.{
  ℕ, ◌^◌, Bool, true, false, not, ◌&&◌, ◌||◌, Option, none, some, if◌then◌else◌, ltb, leb,
}
use llmtrace.Base.Int.{ℤ, pos, negsuc, is_negative, sub, is_i64}
use llmtrace.Base.Results.{and_then}

-- What is used of `f64`.
pub record Floats (F : Type 0) : Type 0 where
  pub is_finite : F → Bool
  pub at_most : F → F → Bool
  pub zero : F
  pub million : F
  pub two_63 : F
  pub from_i64 : ℤ → F
  pub add : F → F → F
  pub mul : F → F → F
  pub round : F → F
  pub to_i64 : F → ℤ

pub record ModelPrice (F : Type 0) : Type 0 where
  pub input : F
  pub output : F
  pub cache_read : Option F
  pub cache_write : Option F

-- `TokenUsage`.
pub record TokenUsage : Type 0 where
  pub input_tokens : Option ℤ
  pub output_tokens : Option ℤ
  pub cached_input_tokens : Option ℤ
  pub cache_creation_input_tokens : Option ℤ

abbrev pub unwrap_or : {A : Type 0} → A → Option A → A
unwrap_or d none = d
unwrap_or d (some a) = a

-- `checked_sub` of i64.
abbrev pub checked_sub : ℤ → ℤ → Option ℤ
checked_sub a b = if is_i64 (sub a b) then some (sub a b) else none

abbrev pub is_positive : ℤ → Bool
is_positive (pos n) = ltb 0 n
is_positive (negsuc n) = false

module _ {F : Type 0} (f : Floats F) where
  abbrev pub valid_rate : F → Bool
  valid_rate rate = f.is_finite rate && (f.at_most f.zero rate && f.at_most rate f.million)

  abbrev pub valid_option : Option F → Bool
  valid_option none = true
  valid_option (some rate) = valid_rate rate

  unfoldable pub valid : ModelPrice F → Bool
  valid price =
      valid_rate price.input
      && valid_rate price.output
      && valid_option price.cache_read
      && valid_option price.cache_write

  -- The rate of tokens that a cache read or write takes, where there are any.
  abbrev pub rate_of : ℤ → Option F → Option F
  rate_of count rate = if is_positive count then rate else some f.zero

  unfoldable pub round_cost : F → Option ℤ
  round_cost cost =
      if f.is_finite cost && not (f.at_most f.two_63 cost) then some (f.to_i64 cost) else none

  unfoldable pub cost_of : ModelPrice F → ℤ → ℤ → ℤ → ℤ → F → F → F
  cost_of price uncached output cached written cache_read cache_write = f.round (
      f.add
        (f.add
          (f.add (f.mul (f.from_i64 uncached) price.input) (f.mul (f.from_i64 output) price.output))
          (f.mul (f.from_i64 cached) cache_read))
        (f.mul (f.from_i64 written) cache_write))

  -- The estimate, once the counts are known.
  unfoldable pub estimate_counts : ModelPrice F → ℤ → ℤ → ℤ → ℤ → Option ℤ
  estimate_counts price input output cached written =
      if not (valid price)
        || is_negative input
        || is_negative output
        || is_negative cached
        || is_negative written
      then none
      else and_then (and_then (checked_sub input cached) (λ rest. checked_sub rest written))
          (λ uncached.
            if is_negative uncached
            then none
            else and_then (rate_of cached price.cache_read) (λ cache_read.
              and_then (rate_of written price.cache_write) (λ cache_write.
                round_cost (cost_of price uncached output cached written cache_read cache_write))))

  unfoldable pub estimate_microusd : ModelPrice F → TokenUsage → Option ℤ
  estimate_microusd price usage = and_then usage.input_tokens (λ input.
      and_then usage.output_tokens (λ output.
        estimate_counts price input output (unwrap_or (pos 0) usage.cached_input_tokens)
          (unwrap_or (pos 0) usage.cache_creation_input_tokens)))
