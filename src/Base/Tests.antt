-- ===== src/Base/Tests.antt =====
-- Boolean tests on native numbers and byte strings, and the conditional.
use Prim.Native.Nat.{ℕ, compare, Ordering}
use mathlib.Core.Path.{◌≡◌, refl}
use mathlib.Core.Logic.{◌↔◌, ◌⊎◌, inl, inr}
use mathlib.Core.Bool.{Bool, true, false, ◌&&◌}
use mathlib.Core.List.{List, [], ◌∷◌}
use mathlib.Core.Option.{Option, none, some}
use native.Mathlib.Omega.{arith}

abbrev pub ltb : ℕ → ℕ → Bool
ltb a b = elim (compare a b) [ Ordering.lt ↦ true | _ ↦ false ]

abbrev pub leb : ℕ → ℕ → Bool
leb a b = elim (compare a b) [ Ordering.gt ↦ false | _ ↦ true ]

infix 50 ◌==◌
abbrev pub ◌==◌ : ℕ → ℕ → Bool
a == b = elim (compare a b) [ Ordering.eq ↦ true | _ ↦ false ]

infix 1 if◌then◌else◌
abbrev pub if◌then◌else◌ {ℓ} : {A : Type ℓ} → Bool → A → A → A
if true then x else y = x
if false then x else y = y

pub ==_iff : (a b : ℕ) → ((a == b) ≡ true) ↔ (a ≡ b)
==_iff a b = ground arith

pub ==_refl : (a : ℕ) → (a == a) ≡ true
==_refl a = ground arith

-- Equality of byte strings.
unfoldable pub eq_bytes : List ℕ → List ℕ → Bool
eq_bytes [] [] = true
eq_bytes (a ∷ s) (b ∷ t) = a == b && eq_bytes s t
eq_bytes _ _ = false

pub eq_bytes→eq : (s t : List ℕ) → eq_bytes s t ≡ true → s ≡ t
unfolding eq_bytes
eq_bytes→eq [] [] h = refl
eq_bytes→eq [] (b ∷ t) h = cc
eq_bytes→eq (a ∷ s) [] h = cc
eq_bytes→eq (a ∷ s) (b ∷ t) h = ground (arith, eq_bytes→eq s t)

pub eq_bytes_refl : (s : List ℕ) → eq_bytes s s ≡ true
unfolding eq_bytes
eq_bytes_refl [] = refl
eq_bytes_refl (a ∷ s) = ground (arith, eq_bytes_refl s)

pub eq_bytes_sym : (s t : List ℕ) → eq_bytes s t ≡ eq_bytes t s
unfolding eq_bytes
eq_bytes_sym [] [] = refl
eq_bytes_sym [] (b ∷ t) = refl
eq_bytes_sym (a ∷ s) [] = refl
eq_bytes_sym (a ∷ s) (b ∷ t) = ground (arith, eq_bytes_sym s t)

pub Bool-cases : (b : Bool) → (b ≡ true) ⊎ (b ≡ false)
Bool-cases true = inl refl
Bool-cases false = inr refl

pub clash : {b : Bool} → b ≡ true → b ≡ false → ⊥
clash p q = cc

pub Option-cases {ℓ} : {A : Type ℓ} (o : Option A) → (o ≡ none) ⊎ ((a : A) × (o ≡ some a))
Option-cases none = inl refl
Option-cases (some a) = inr (a, refl)

abbrev pub is_some {ℓ} : {A : Type ℓ} → Option A → Bool
is_some none = false
is_some (some a) = true
