-- ===== src/Base/Assoc.antt =====
-- HashMap and BTreeMap as association lists with one entry for each key.
use mathlib.Core.List.{List, [], ◌∷◌, lookup}
use mathlib.Core.Logic.{ite, if_pos, if_neg, ◌≢◌}
use mathlib.Core.Option.{none, some}
use mathlib.Core.Path.{◌≡◌, refl, ◌∙◌}
use Prim.Native.Nat.{ℕ, ◌+◌, ◌≤◌}
use native.Mathlib.Omega.{arith}
use llmtrace.Base.Lists.{length}
use llmtrace.Base.Tests.{if◌then◌else◌, Bool-cases}
use mathlib.Core.Bool.{Bool}
use mathlib.Core.Logic.{inl, inr}

module _ {ℓ} {K V : Type ℓ} (dec : Discrete K) where
  -- `insert`: replaces the value of a key that is there.
  unfoldable pub insert : K → V → List (K × V) → List (K × V)
  insert k v [] = (k, v) ∷ []
  insert k v (e ∷ m) = ite (dec k e.0) ((k, v) ∷ m) (e ∷ insert k v m)

  unfoldable pub remove : K → List (K × V) → List (K × V)
  remove k [] = []
  remove k (e ∷ m) = ite (dec k e.0) m (e ∷ remove k m)

  -- No key has two entries.
  abbrev pub Distinct : List (K × V) → Type ℓ
  Distinct [] = Unit
  Distinct (e ∷ m) = (lookup dec e.0 m ≡ none) × Distinct m

  -- The sum of a measure over the values.
  unfoldable pub total : (V → ℕ) → List (K × V) → ℕ
  total f [] = 0
  total f (e ∷ m) = f e.1 + total f m

  pub lookup-insert :
      (q k : K) (v : V) (m : List (K × V))
      → lookup dec q (insert k v m) ≡ ite (dec q k) (some v) (lookup dec q m)
  unfolding lookup insert
  lookup-insert q k v [] = ground arith
  lookup-insert q k v (e ∷ m) = ground (arith, lookup-insert q k v m)

  pub lookup-insert_self : (k : K) (v : V) (m : List (K × V)) → lookup dec k (insert k v m) ≡ some v
  lookup-insert_self k v m = lookup-insert k k v m ∙ if_pos (dec k k) refl _ _

  pub lookup-insert_ne :
      {q k : K} (v : V) (m : List (K × V)) → q ≢ k → lookup dec q (insert k v m) ≡ lookup dec q m
  lookup-insert_ne {q} {k} v m h = lookup-insert q k v m ∙ if_neg (dec q k) h _ _

  pub lookup-remove_ne :
      {q k : K} (m : List (K × V)) → q ≢ k → lookup dec q (remove k m) ≡ lookup dec q m
  unfolding lookup remove
  lookup-remove_ne [] h = refl
  lookup-remove_ne (e ∷ m) h = ground (arith, lookup-remove_ne m h)

  pub lookup-remove_self :
      (k : K) (m : List (K × V)) → Distinct m → lookup dec k (remove k m) ≡ none
  unfolding lookup remove
  lookup-remove_self k [] d = refl
  lookup-remove_self k (e ∷ m) d = ground (arith, lookup-remove_self k m d.1)

  pub insert-Distinct : (k : K) (v : V) (m : List (K × V)) → Distinct m → Distinct (insert k v m)
  unfolding lookup insert
  insert-Distinct k v [] d = (refl, tt)
  insert-Distinct k v (e ∷ m) d = ground (arith, insert-Distinct k v m d.1, lookup-insert e.0 k v m)

  pub lookup-remove_none :
      (q k : K) (m : List (K × V)) → lookup dec q m ≡ none → lookup dec q (remove k m) ≡ none
  unfolding lookup remove
  lookup-remove_none q k [] h = refl
  lookup-remove_none q k (e ∷ m) h = ground (arith, lookup-remove_none q k m)

  pub remove-Distinct : (k : K) (m : List (K × V)) → Distinct m → Distinct (remove k m)
  unfolding lookup remove
  remove-Distinct k [] d = tt
  remove-Distinct k (e ∷ m) d =
      ground (arith, remove-Distinct k m d.1, lookup-remove_none e.0 k m d.0)

  pub remove_absent : (k : K) (m : List (K × V)) → lookup dec k m ≡ none → remove k m ≡ m
  unfolding lookup remove
  remove_absent k [] h = refl
  remove_absent k (e ∷ m) h = ground (arith, remove_absent k m)

  pub total-insert_absent :
      (f : V → ℕ) (k : K) (v : V) (m : List (K × V))
      → lookup dec k m ≡ none
      → total f (insert k v m) ≡ total f m + f v
  unfolding lookup insert total
  total-insert_absent f k v [] h = omega arith
  total-insert_absent f k v (e ∷ m) h = ground (arith, total-insert_absent f k v m)

  pub total-remove :
      (f : V → ℕ) (k : K) (v : V) (m : List (K × V))
      → lookup dec k m ≡ some v
      → total f (remove k m) + f v ≡ total f m
  unfolding lookup remove total
  total-remove f k v [] h = cc
  total-remove f k v (e ∷ m) h = ground (arith, total-remove f k v m)

  pub length-insert_absent :
      (k : K) (v : V) (m : List (K × V))
      → lookup dec k m ≡ none
      → length (insert k v m) ≡ length m + 1
  unfolding lookup insert
  length-insert_absent k v [] h = omega arith
  length-insert_absent k v (e ∷ m) h = ground (arith, length-insert_absent k v m)

  pub length-insert_present :
      (k : K) (v w : V) (m : List (K × V))
      → lookup dec k m ≡ some w
      → length (insert k v m) ≡ length m
  unfolding lookup insert
  length-insert_present k v w [] h = cc
  length-insert_present k v w (e ∷ m) h = ground (arith, length-insert_present k v w m)

  pub length-remove :
      (k : K) (v : V) (m : List (K × V))
      → lookup dec k m ≡ some v
      → length (remove k m) + 1 ≡ length m
  unfolding lookup remove
  length-remove k v [] h = cc
  length-remove k v (e ∷ m) h = ground (arith, length-remove k v m)

  pub total-insert_present :
      (f : V → ℕ) (k : K) (v w : V) (m : List (K × V))
      → lookup dec k m ≡ some w
      → total f (insert k v m) + f w ≡ total f m + f v
  unfolding lookup insert total
  total-insert_present f k v w [] h = cc
  total-insert_present f k v w (e ∷ m) h = ground (arith, total-insert_present f k v w m)

  pub le-total :
      (f : V → ℕ) (k : K) (v : V) (m : List (K × V)) → lookup dec k m ≡ some v → f v ≤ total f m
  le-total f k v m h = omega (arith, total-remove f k v m h)

  pub length-remove-le : (k : K) (m : List (K × V)) → length (remove k m) ≤ length m
  unfolding remove
  length-remove-le k [] = omega arith
  length-remove-le k (e ∷ m) = ground (arith, length-remove-le k m)

  -- `retain`, on the values.
  unfoldable pub retain : (V → Bool) → List (K × V) → List (K × V)
  retain p [] = []
  retain p (e ∷ m) = if p e.1 then e ∷ retain p m else retain p m

  pub length-retain-le : (p : V → Bool) (m : List (K × V)) → length (retain p m) ≤ length m
  unfolding retain
  length-retain-le p [] = omega arith
  length-retain-le p (e ∷ m) = ground (arith, length-retain-le p m)

  pub lookup-retain-none :
      (k : K) (p : V → Bool) (m : List (K × V))
      → lookup dec k m ≡ none
      → lookup dec k (retain p m) ≡ none
  unfolding lookup retain
  lookup-retain-none k p [] h = refl
  lookup-retain-none k p (e ∷ m) h = elim (Bool-cases (p e.1)) [
    | inl y ↦ rw y (ground (arith, lookup-retain-none k p m))
    | inr n ↦ rw n (lookup-retain-none k p m (ground arith))
  ]

  pub retain-Distinct : (p : V → Bool) (m : List (K × V)) → Distinct m → Distinct (retain p m)
  unfolding retain
  retain-Distinct p [] d = tt
  retain-Distinct p (e ∷ m) d = elim (Bool-cases (p e.1)) [
    | inl y ↦ rw y (lookup-retain-none e.0 p m d.0, retain-Distinct p m d.1)
    | inr n ↦ rw n (retain-Distinct p m d.1)
  ]

  pub lookup-retain_kept :
      (k : K) (p : V → Bool) (m : List (K × V)) (v : V)
      → Distinct m
      → lookup dec k m ≡ some v
      → lookup dec k (retain p m) ≡ (if p v then some v else none)
  unfolding lookup retain
  lookup-retain_kept k p [] v d h = cc
  lookup-retain_kept k p (e ∷ m) v d h = elim (dec k e.0) [
    | yes q ↦ elim (Bool-cases (p e.1)) [
      | inl y ↦ rw y (ground arith)
      | inr n ↦ rw n (
          let value : e.1 ≡ v = ground arith in ground (arith, lookup-retain-none k p m (rw q d.0)))
    ]
    | no q ↦ elim (Bool-cases (p e.1)) [
      | inl y ↦ rw y (ground (arith, lookup-retain_kept k p m v d.1))
      | inr n ↦ rw n (lookup-retain_kept k p m v d.1 (ground arith))
    ]
  ]
