-- ===== src/Tests/Memory.antt =====
-- A run of the budget of crates/llmtrace/src/trace/memory.rs.
use llmtrace.Base.{◌+◌, ◌<◌, max, ◌≡◌, refl, ◌↔◌, [], ◌∷◌, none, arith}
use llmtrace.Base.Words.{checked_add}
use llmtrace.Trace.Memory.{
  Shared, Reach, Step, reserves, start, next, new, reserve, IsAccounted, held_bytes,
  Reach-IsAccounted, reserve-eq-none_iff,
}

-- Two threads reserve, and the first lets go.
abbrev run : (s : Shared) × Reach 100 s
unfolding new reserve checked_add
run = (
  _,
  next (next (next start (reserves 60 _ _ refl)) (reserves 30 _ _ refl))
      (Step.drops _ (_ ∷ []) [] refl),
)

Reach-IsAccounted_example : IsAccounted 100 run.0
Reach-IsAccounted_example = Reach-IsAccounted 100 run.0 (omega arith) run.1

reserve-eq-none_iff_example :
    (reserve run.0.budget 71 ≡ none) ↔ (max 100 1 < held_bytes run.0.held + 71)
reserve-eq-none_iff_example = reserve-eq-none_iff 100 71 run.0 (omega arith) run.1
