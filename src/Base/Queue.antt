-- ===== src/Base/Queue.antt =====
-- `VecDeque` of keys: how often a key occurs, and the removal of its first occurrence.
use mathlib.Core.List.{List, [], ◌∷◌, ◌++◌}
use mathlib.Core.Logic.{ite, ◌≢◌}
use mathlib.Core.Path.{◌≡◌, refl}
use mathlib.Core.Bool.{Bool, true, false}
use Prim.Native.Nat.{ℕ, ◌+◌, ◌-◌, ◌<◌}
use native.Mathlib.Omega.{arith}

module _ {K : Type 0} (dec : Discrete K) where
  unfoldable pub count : K → List K → ℕ
  count k [] = 0
  count k (x ∷ xs) = ite (dec k x) 1 0 + count k xs

  -- `position` and `remove`.
  unfoldable pub erase : K → List K → List K
  erase k [] = []
  erase k (x ∷ xs) = ite (dec k x) xs (x ∷ erase k xs)

  -- `retain(|candidate| candidate != key)`.
  unfoldable pub without : K → List K → List K
  without k [] = []
  without k (x ∷ xs) = ite (dec k x) (without k xs) (x ∷ without k xs)

  pub count-append : (k : K) (xs ys : List K) → count k (xs ++ ys) ≡ count k xs + count k ys
  unfolding count
  count-append k [] ys = omega arith
  count-append k (x ∷ xs) ys = omega (arith, count-append k xs ys)

  pub count-erase_self : (k : K) (xs : List K) → count k (erase k xs) ≡ count k xs - 1
  unfolding count erase
  count-erase_self k [] = omega arith
  count-erase_self k (x ∷ xs) = ground (arith, count-erase_self k xs)

  pub count-erase_ne : (k q : K) (xs : List K) → q ≢ k → count q (erase k xs) ≡ count q xs
  unfolding count erase
  count-erase_ne k q [] h = refl
  count-erase_ne k q (x ∷ xs) h = ground (arith, count-erase_ne k q xs)

  pub count-without_self : (k : K) (xs : List K) → count k (without k xs) ≡ 0
  unfolding count without
  count-without_self k [] = refl
  count-without_self k (x ∷ xs) = ground (arith, count-without_self k xs)

  pub count-without_ne : (k q : K) (xs : List K) → q ≢ k → count q (without k xs) ≡ count q xs
  unfolding count without
  count-without_ne k q [] h = refl
  count-without_ne k q (x ∷ xs) h = ground (arith, count-without_ne k q xs)

  pub erase_absent : (k : K) (xs : List K) → count k xs ≡ 0 → erase k xs ≡ xs
  unfolding count erase
  erase_absent k [] h = refl
  erase_absent k (x ∷ xs) h = ground (arith, erase_absent k xs)

  unfoldable pub contains : K → List K → Bool
  contains k [] = false
  contains k (x ∷ xs) = ite (dec k x) true (contains k xs)

  pub erase_missing : (k : K) (xs : List K) → contains k xs ≡ false → erase k xs ≡ xs
  unfolding contains erase
  erase_missing k [] h = refl
  erase_missing k (x ∷ xs) h = ground (arith, erase_missing k xs)

  pub contains_of_count : (k : K) (xs : List K) → 0 < count k xs → contains k xs ≡ true
  unfolding contains count
  contains_of_count k [] h = absurd (omega arith)
  contains_of_count k (x ∷ xs) h = ground (arith, contains_of_count k xs)

  pub count_of_contains : (k : K) (xs : List K) → contains k xs ≡ true → 0 < count k xs
  unfolding contains count
  count_of_contains k [] h = cc
  count_of_contains k (x ∷ xs) h = ground (arith, count_of_contains k xs)
