-- ===== src/Base/Int.antt =====
-- Signed integers of the source, i64 and i32, over the native numbers.
use llmtrace.Base.{ℕ, suc, ◌+◌, ◌-◌, ◌^◌, Bool, true, false, ltb, leb, if◌then◌else◌}

-- `negsuc n` is -(n + 1).
pub data ℤ : Type 0 where
  pos : ℕ → ℤ
  negsuc : ℕ → ℤ

abbrev pub is_negative : ℤ → Bool
is_negative (pos n) = false
is_negative (negsuc n) = true

-- `value > 0`, and `value > max` for a `max` that is not negative.
abbrev pub is_positive : ℤ → Bool
is_positive (pos n) = ltb 0 n
is_positive (negsuc n) = false

abbrev pub exceeds : ℕ → ℤ → Bool
exceeds max (pos n) = ltb max n
exceeds max (negsuc n) = false

-- The value where it is not negative.
abbrev pub magnitude : ℤ → ℕ
magnitude (pos n) = n
magnitude (negsuc n) = 0

-- a - b.
abbrev pub sub_ℕ : ℕ → ℕ → ℤ
sub_ℕ a b = if leb b a then pos (a - b) else negsuc (b - a - 1)

abbrev pub sub : ℤ → ℤ → ℤ
sub (pos a) (pos b) = sub_ℕ a b
sub (pos a) (negsuc b) = pos (a + suc b)
sub (negsuc a) (pos b) = negsuc (a + b)
sub (negsuc a) (negsuc b) = sub_ℕ b a

-- Whether an integer is one of i64.
abbrev pub is_i64 : ℤ → Bool
is_i64 (pos n) = ltb n (2 ^ 63)
is_i64 (negsuc n) = ltb n (2 ^ 63)
