-- ===== src/Tests/Recorder.antt =====
-- A run of the recorder and dispatcher of crates/llmtrace/src/trace.rs.
use llmtrace.Base.{ℕ, ◌≤◌, ◌≡◌, refl, arith}
use llmtrace.Base.Words.{checked_add}
use llmtrace.Trace.Memory.{new, reserve}
use llmtrace.Trace.Recorder.{
  Pipeline, Reach, start, next, records, works, receives, spawns, spawn, record_event,
}
use llmtrace.Trace.Recorder.Draining.{remaining, Run, IsIdle, Reach-drains}

-- One trace is taken by the only worker, another is received, and a third is refused.
abbrev busy : (p : Pipeline) × Reach 2 1 100 p
unfolding spawn record_event new reserve checked_add
busy = (
  _,
  next
      (next
        (next (next (next (next start (records 1 60 refl)) (records 2 30 refl)) (records 3 20 refl))
          (works (receives _ _ refl refl)))
        (works (spawns _ refl (omega arith))))
      (works (receives _ _ refl refl)),
)

Reach-drains_example :
    (n : ℕ) × ((n ≤ remaining busy.0)
      × ((q : Pipeline) × (Run busy.0 n q × (IsIdle q × (q.memory.used ≡ 0)))))
Reach-drains_example = Reach-drains 2 1 100 busy.0 (omega arith) busy.1
