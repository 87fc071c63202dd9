-- ===== src/Base/Words.antt =====
-- 64-bit words, and numbers as byte strings in either byte order.
use Prim.Native.Nat.{ℕ, zero, suc, ◌+◌, ◌-◌, ◌*◌, ◌/◌, ◌%◌, ◌^◌, ◌<◌, min}
use mathlib.Core.Path.{◌≡◌, refl, ap, ◌∙◌}
use mathlib.Core.List.{List, [], ◌∷◌, reverse, reverse-reverse, reverse-cons}
use mathlib.Core.Option.{Option, none, some}
use native.Mathlib.Nat.{pow-zero, pow-suc}
use native.Mathlib.Omega.{arith}
use llmtrace.Base.Tests.{if◌then◌else◌, ltb}
use llmtrace.Base.Lists.{length, length-append}

-- u64, and usize on the 64-bit targets that the program is released for.
abbrev pub word_mod : ℕ
word_mod = 2 ^ 64

abbrev pub word_max : ℕ
word_max = 2 ^ 64 - 1

-- `checked_add`, `saturating_add`, `saturating_mul`, and the wrapping `fetch_sub` of an atomic.
unfoldable pub checked_add : ℕ → ℕ → Option ℕ
checked_add a b = if ltb (a + b) word_mod then some (a + b) else none

abbrev pub saturating_add_u32 : ℕ → ℕ → ℕ
saturating_add_u32 a b = min (a + b) (2 ^ 32 - 1)

abbrev pub saturating_add : ℕ → ℕ → ℕ
saturating_add a b = min (a + b) word_max

abbrev pub saturating_mul : ℕ → ℕ → ℕ
saturating_mul a b = min (a * b) word_max

abbrev pub wrapping_add : ℕ → ℕ → ℕ
wrapping_add a b = (a + b) % word_mod

abbrev pub wrapping_sub : ℕ → ℕ → ℕ
wrapping_sub a b = (a + word_mod - b) % word_mod

-- The `k` low bytes of a number, least significant first.
unfoldable pub le_bytes : ℕ → ℕ → List ℕ
le_bytes zero n = []
le_bytes (suc k) n = n % 256 ∷ le_bytes k (n / 256)

unfoldable pub of_le_bytes : List ℕ → ℕ
of_le_bytes [] = 0
of_le_bytes (b ∷ bs) = b + 256 * of_le_bytes bs

unfoldable pub be_bytes : ℕ → ℕ → List ℕ
unfolding le_bytes
be_bytes k n = reverse (le_bytes k n)

unfoldable pub of_be_bytes : List ℕ → ℕ
unfolding of_le_bytes
of_be_bytes bs = of_le_bytes (reverse bs)

pub length-le_bytes : (k n : ℕ) → length (le_bytes k n) ≡ k
unfolding le_bytes
length-le_bytes zero n = refl
length-le_bytes (suc k) n = ap suc (length-le_bytes k (n / 256))

pub of_le_bytes-le_bytes : (k n : ℕ) → n < 256 ^ k → of_le_bytes (le_bytes k n) ≡ n
unfolding le_bytes of_le_bytes
of_le_bytes-le_bytes zero n h = omega (arith, pow-zero 256)
of_le_bytes-le_bytes (suc k) n h =
    omega (arith, of_le_bytes-le_bytes k (n / 256) (omega (arith, pow-suc 256 k)))

length-reverse : (xs : List ℕ) → length (reverse xs) ≡ length xs
length-reverse [] = refl
length-reverse (x ∷ xs) =
    omega
      (arith, ap length (reverse-cons x xs), length-append (reverse xs) (x ∷ []), length-reverse xs)

pub length-be_bytes : (k n : ℕ) → length (be_bytes k n) ≡ k
unfolding be_bytes
length-be_bytes k n = length-reverse (le_bytes k n) ∙ length-le_bytes k n

pub of_be_bytes-be_bytes : (k n : ℕ) → n < 256 ^ k → of_be_bytes (be_bytes k n) ≡ n
unfolding be_bytes of_be_bytes
of_be_bytes-be_bytes k n h = rw reverse-reverse (of_le_bytes-le_bytes k n h)
