-- ===== src/Tests/Pricing.antt =====
-- The estimate for a request, where rates are whole numbers.
use llmtrace.Base.{ℕ, ◌+◌, ◌*◌, ◌≡◌, refl, true, none, some, leb}
use llmtrace.Base.Int.{ℤ, pos, magnitude}
use llmtrace.Pricing.{
  Floats, ModelPrice, TokenUsage, valid, round_cost, cost_of, estimate_counts, estimate_microusd,
}
use llmtrace.Pricing.Estimates.{IsCounted, estimate_microusd-IsCounted}

abbrev whole : Floats ℕ
whole = record {
  is_finite = λ a. true;
  at_most = leb;
  zero = 0;
  million = 1000000;
  two_63 = 9223372036854775808;
  from_i64 = magnitude;
  add = λ a b. a + b;
  mul = λ a b. a * b;
  round = λ a. a;
  to_i64 = pos;
}

abbrev price : ModelPrice ℕ
price = record { input = 2; output = 8; cache_read = some 1; cache_write = none }

abbrev usage : TokenUsage
usage = record {
  input_tokens = some (pos 1000);
  output_tokens = some (pos 100);
  cached_input_tokens = some (pos 800);
  cache_creation_input_tokens = none;
}

estimate_run : estimate_microusd whole price usage ≡ some (pos 2000)
unfolding estimate_microusd estimate_counts valid cost_of round_cost
estimate_run = refl

estimate_microusd-IsCounted_example :
    (valid whole price ≡ true)
    × ((input : ℤ) × ((output : ℤ) × ((some (pos 1000) ≡ some input)
            × ((some (pos 100) ≡ some output) × IsCounted input output (pos 800) (pos 0)))))
estimate_microusd-IsCounted_example =
    estimate_microusd-IsCounted whole price usage (pos 2000) estimate_run
