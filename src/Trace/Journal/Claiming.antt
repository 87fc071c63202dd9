-- ===== src/Trace/Journal/Claiming.antt =====
-- crates/llmtrace/src/trace/journal.rs: which record `claim` hands to a worker.
use llmtrace.Base.{
  ℕ, suc, ◌+◌, ◌≡◌, refl, ap, ◌⊎◌, inl, inr, List, [], ◌∷◌, ◌++◌, Option, none, some, lookup, arith,
  length, ℕ_discrete, append-nil, append_assoc,
}
use native.Mathlib.Nat.{add-zero}
use llmtrace.Trace.Memory.{MemoryBudget, Reservation}
use llmtrace.Trace.Journal.Catalog.{Entry, Catalog, Seen, Claim, admit, claim_loop, claim}

-- The rounds that read `seen i`, `seen (i + 1)`, … all refuse: the records are not due, or the
-- budget has no room for them.
abbrev pub Refused : (ℕ → Seen) → ℕ → List (ℕ × Entry) → List ℕ → Type 0
Refused seen i entries [] = Unit
Refused seen i entries (id ∷ ids) =
    ((e : Entry) × (lookup ℕ_discrete id entries ≡ some e) × (admit (seen i) e ≡ none))
    × Refused seen (suc i) entries ids

-- Every id has an entry.
abbrev pub Known : List (ℕ × Entry) → List ℕ → Type 0
Known entries [] = Unit
Known entries (id ∷ ids) =
    ((e : Entry) × (lookup ℕ_discrete id entries ≡ some e)) × Known entries ids

-- What the rounds over `ids` come to, with `back` behind them in the queue.
pub data Outcome (seen : ℕ → Seen) (i : ℕ) (entries : List (ℕ × Entry)) (ids back : List ℕ)
    (out : Option Claim × List ℕ) : Type 0 where
  all_refused :
      Refused seen i entries ids → out ≡ (none, back ++ ids) → Outcome seen i entries ids back out
  first_admitted :
      (before after : List ℕ) (id : ℕ) (e : Entry) (r : Reservation) (b : MemoryBudget)
      → ids ≡ before ++ id ∷ after
      → Refused seen i entries before
      → lookup ℕ_discrete id entries ≡ some e
      → admit (seen (i + length before)) e ≡ some (r, b)
      → out ≡ (
        some (record { id = id; recovered = e.recovered; reservation = r; budget = b }),
        after ++ (back ++ before),
      )
      → Outcome seen i entries ids back out

admit-cases :
    (s : Seen) (e : Entry)
    → (admit s e ≡ none) ⊎ ((r : Reservation) × (b : MemoryBudget) × (admit s e ≡ some (r, b)))
admit-cases s e = go (admit s e) refl
  where
    go :
        (o : Option (Reservation × MemoryBudget))
        → admit s e ≡ o
        → (admit s e ≡ none) ⊎ ((r : Reservation) × (b : MemoryBudget) × (admit s e ≡ some (r, b)))
    go none p = inl p
    go (some (r, b)) p = inr (r, b, p)

step_refused :
    (seen : ℕ → Seen) (i : ℕ) (entries : List (ℕ × Entry)) (x : ℕ) (xs back : List ℕ) (e : Entry)
    (out : Option Claim × List ℕ)
    → lookup ℕ_discrete x entries ≡ some e
    → admit (seen i) e ≡ none
    → Outcome seen (suc i) entries xs (back ++ x ∷ []) out
    → Outcome seen i entries (x ∷ xs) back out
step_refused seen i entries x xs back e out p q (all_refused rs o) =
    all_refused ((e, p, q), rs) (rw append_assoc at o)
step_refused seen i entries x xs back e out p q (first_admitted before after id f r b s rs l a o) =
    first_admitted (x ∷ before) after id f r b (ap (◌∷◌ x) s) ((e, p, q), rs) l
      (let e : i + suc (length before) ≡ suc i + length before = omega arith in rw e a)
      (rw append_assoc at o)

claim_loop-Outcome :
    (seen : ℕ → Seen) (i : ℕ) (entries : List (ℕ × Entry)) (ids back : List ℕ)
    → Known entries ids
    → Outcome seen i entries ids back (claim_loop seen i (length ids) entries (ids ++ back))
unfolding claim_loop
claim_loop-Outcome seen i entries [] back k = all_refused tt (rw append-nil)
claim_loop-Outcome seen i entries (x ∷ xs) back ((e, p), k) = elim (admit-cases (seen i) e) [
  | inl q ↦
      rw (p, claim_loop, q, append_assoc)
        (step_refused seen i entries x xs back e _ p q
          (claim_loop-Outcome seen (suc i) entries xs (back ++ x ∷ []) k))
  | inr (r, b, q) ↦
      first_admitted [] xs x e r b refl tt p (rw add-zero q) (rw (p, claim_loop, q, append-nil))
]

-- When every queued id has an entry, `claim` takes the first record in the queue that is due and
-- that the memory budget admits, and moves those that it passed over to the back in their order;
-- if no record qualifies it returns nothing and leaves the catalog as it was.
pub claim-Outcome :
    (seen : ℕ → Seen) (c : Catalog)
    → Known c.entries c.ready
    → Outcome seen 0 c.entries c.ready [] ((claim seen c).0, (claim seen c).1.ready)
      × ((claim seen c).1 ≡ record c { ready = (claim seen c).1.ready })
unfolding claim
claim-Outcome seen c k =
    let o : Outcome seen 0 c.entries c.ready []
        (claim_loop seen 0 (length c.ready) c.entries (c.ready ++ [])) =
      claim_loop-Outcome seen 0 c.entries c.ready [] k in
    (rw append-nil at o, refl)
