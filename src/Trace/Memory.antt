-- ===== src/Trace/Memory.antt =====
-- crates/llmtrace/src/trace/memory.rs: the byte budget of queued and replayed events. A
-- reservation and its release are single atomic operations, so a run of the program is a sequence
-- of them in any order.
use llmtrace.Base.{
  ℕ, ◌+◌, ◌≤◌, ◌<◌, max, ◌≡◌, ◌↔◌, List, [], ◌∷◌, ◌++◌, Option, none, some, arith, leb,
  if◌then◌else◌,
}
use llmtrace.Base.Words.{word_mod, checked_add, wrapping_sub}

pub record MemoryBudget : Type 0 where
  pub limit : ℕ
  pub used : ℕ

pub record Reservation : Type 0 where
  pub bytes : ℕ

unfoldable pub new : ℕ → MemoryBudget
new limit = record { limit = max limit 1; used = 0 }

-- `fetch_update` with `checked_add(bytes).filter(next <= limit)`.
unfoldable pub reserve : MemoryBudget → ℕ → Option (Reservation × MemoryBudget)
unfolding checked_add
reserve b bytes = elim (checked_add b.used bytes) [
  | none ↦ none
  | some total ↦
      if leb total b.limit then some (record { bytes = bytes }, record b { used = total }) else none
]

-- `Drop for Reservation`: `fetch_sub`, which wraps.
unfoldable pub release : Reservation → MemoryBudget → MemoryBudget
release r b = record b { used = wrapping_sub b.used r.bytes }

-- The budget with the reservations that are alive.
pub record Shared : Type 0 where
  pub budget : MemoryBudget
  pub held : List Reservation

unfoldable pub held_bytes : List Reservation → ℕ
held_bytes [] = 0
held_bytes (r ∷ rs) = r.bytes + held_bytes rs

-- One atomic operation of some thread.
pub data Step (s : Shared) : Shared → Type 0 where
  reserves :
      (bytes : ℕ) (r : Reservation) (b : MemoryBudget)
      → reserve s.budget bytes ≡ some (r, b)
      → Step s (record { budget = b; held = r ∷ s.held })
  refused : (bytes : ℕ) → reserve s.budget bytes ≡ none → Step s s
  drops :
      (r : Reservation) (before after : List Reservation)
      → s.held ≡ before ++ r ∷ after
      → Step s (record { budget = release r s.budget; held = before ++ after })

pub data Reach (limit : ℕ) : Shared → Type 0 where
  start : Reach limit (record { budget = new limit; held = [] })
  next : {s t : Shared} → Reach limit s → Step s t → Reach limit t

pub record IsAccounted (limit : ℕ) (s : Shared) : Type 0 where
  pub fixed : s.budget.limit ≡ max limit 1
  pub exact : s.budget.used ≡ held_bytes s.held
  pub bounded : s.budget.used ≤ s.budget.limit

held_bytes-append :
    (xs ys : List Reservation) → held_bytes (xs ++ ys) ≡ held_bytes xs + held_bytes ys
unfolding held_bytes
held_bytes-append [] ys = omega arith
held_bytes-append (x ∷ xs) ys = omega (arith, held_bytes-append xs ys)

held_bytes-split :
    (r : Reservation) (xs ys : List Reservation)
    → held_bytes (xs ++ r ∷ ys) ≡ r.bytes + held_bytes (xs ++ ys)
unfolding held_bytes
held_bytes-split r xs ys = omega (arith, held_bytes-append xs ys, held_bytes-append xs (r ∷ ys))

Step-IsAccounted :
    {limit : ℕ} {s t : Shared}
    → limit < word_mod
    → Step s t
    → IsAccounted limit s
    → IsAccounted limit t
unfolding held_bytes reserve release
Step-IsAccounted small (reserves bytes r b e) v = ground arith
Step-IsAccounted small (refused bytes e) v = v
Step-IsAccounted {s} small (drops r xs ys e) v =
    let sum : held_bytes s.held ≡ r.bytes + held_bytes (xs ++ ys) =
      rw e (held_bytes-split r xs ys) in
    record { fixed = v.fixed; exact = omega arith; bounded = omega arith }

-- Whatever the threads do and in whatever order, the counter is the sum of the reservations that
-- are alive, and never exceeds the configured limit (at least 1). The limit is a usize.
pub Reach-IsAccounted :
    (limit : ℕ) (s : Shared) → limit < word_mod → Reach limit s → IsAccounted limit s
unfolding new held_bytes
Reach-IsAccounted limit s small start = omega arith
Reach-IsAccounted limit s small (next r st) =
    Step-IsAccounted small st (Reach-IsAccounted limit _ small r)

-- In every reachable state a reservation fails exactly when the bytes alive and the bytes asked
-- for together exceed the limit (at least 1). The limit is a usize.
pub reserve-eq-none_iff :
    (limit bytes : ℕ) (s : Shared)
    → limit < word_mod
    → Reach limit s
    → (reserve s.budget bytes ≡ none) ↔ (max limit 1 < held_bytes s.held + bytes)
unfolding reserve
reserve-eq-none_iff limit bytes s small r =
    let v : IsAccounted limit s = Reach-IsAccounted limit s small r in ground arith
