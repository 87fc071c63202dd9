-- ===== src/Trace/Recorder.antt =====
-- crates/llmtrace/src/trace.rs: the recorder of traces and, without a journal, its dispatcher.
pub mod Accounts
pub mod Draining
use llmtrace.Base.{
  ℕ, zero, suc, max, ◌+◌, ◌^◌, ◌%◌, ◌≤◌, ◌<◌, ◌≡◌, Bool, true, false, List, [], ◌∷◌, ◌++◌, Option,
  none, some, arith, ltb, leb, ◌==◌, if◌then◌else◌, length,
}
use llmtrace.Base.Words.{word_mod}
use llmtrace.Trace.Memory.{MemoryBudget, Reservation, new, reserve, release}

-- `QueuedTrace`; an event is its id.
pub record QueuedTrace : Type 0 where
  pub event : ℕ
  pub reservation : Reservation

-- The counters of `RuntimeMetrics` that the recorder increments.
pub record Counters : Type 0 where
  pub enqueued : ℕ
  pub dropped_memory : ℕ
  pub dropped_full : ℕ
  pub dropped_closed : ℕ

-- The recorder with its channel, which is closed when its receiver is gone, and what the dispatcher holds: the trace that it has received and
-- not spawned, the running workers, and the workers that have ended and are not joined.
pub record Pipeline : Type 0 where
  pub memory : MemoryBudget
  pub queue_capacity : ℕ
  pub worker_count : ℕ
  pub closed : Bool
  pub recorders_gone : Bool
  pub queue : List QueuedTrace
  pub received : Option QueuedTrace
  pub running : List QueuedTrace
  pub ended : ℕ
  pub counters : Counters
  pub dropped : ℕ

-- `spawn`.
unfoldable pub spawn : ℕ → ℕ → ℕ → Pipeline
spawn trace_queue_capacity trace_worker_count trace_queue_max_bytes = record {
  memory = new trace_queue_max_bytes;
  queue_capacity = max trace_queue_capacity 1;
  worker_count = max trace_worker_count 1;
  closed = false;
  recorders_gone = false;
  queue = [];
  received = none;
  running = [];
  ended = 0;
  counters = record { enqueued = 0; dropped_memory = 0; dropped_full = 0; dropped_closed = 0 };
  dropped = 0;
}

-- `u64::is_power_of_two`, which decides whether a drop is logged.
unfoldable pub is_power_of_two : ℕ → ℕ → Bool
is_power_of_two zero n = false
is_power_of_two (suc bits) n =
    let rest = is_power_of_two bits n in if n == 2 ^ bits then true else rest

-- `warn_dropped`: the counter, and whether a warning is logged.
unfoldable pub warn_dropped : ℕ → ℕ × Bool
warn_dropped dropped = let count = (dropped + 1) % word_mod in (count, is_power_of_two 64 count)

-- `record`, for an event that takes a number of bytes.
unfoldable pub record_event : ℕ → ℕ → Pipeline → Pipeline
record_event event bytes p = elim (reserve p.memory bytes) [
  | none ↦ record p {
    counters = record p.counters { dropped_memory = p.counters.dropped_memory + 1 };
    dropped = (warn_dropped p.dropped).0;
  }
  | some (reservation, memory) ↦
      if p.closed
      then record p {
        memory = release reservation memory;
        counters = record p.counters { dropped_closed = p.counters.dropped_closed + 1 };
        dropped = (warn_dropped p.dropped).0;
      }
      else if leb p.queue_capacity (length p.queue)
      then record p {
        memory = release reservation memory;
        counters = record p.counters { dropped_full = p.counters.dropped_full + 1 };
        dropped = (warn_dropped p.dropped).0;
      }
      else record p {
        memory = memory;
        queue = p.queue ++ record { event = event; reservation = reservation } ∷ [];
        counters = record p.counters { enqueued = p.counters.enqueued + 1 };
      }
]

-- Where the dispatcher waits for a worker's end: all workers are taken, or all recorders are gone.
pub data IsJoining (p : Pipeline) : Type 0 where
  full :
      (q : QueuedTrace)
      → p.received ≡ some q
      → p.worker_count ≤ length p.running + p.ended
      → IsJoining p
  finishing : p.recorders_gone ≡ true → p.queue ≡ [] → p.received ≡ none → IsJoining p

-- What the dispatcher and its workers do between two points where others may run.
pub data Work (p : Pipeline) : Pipeline → Type 0 where
  receives :
      (q : QueuedTrace) (queue : List QueuedTrace)
      → p.received ≡ none
      → p.queue ≡ q ∷ queue
      → Work p (record p { queue = queue; received = some q })
  spawns :
      (q : QueuedTrace)
      → p.received ≡ some q
      → length p.running + p.ended < p.worker_count
      → Work p (record p { received = none; running = q ∷ p.running })
  ends :
      (q : QueuedTrace) (before after : List QueuedTrace)
      → p.running ≡ before ++ q ∷ after
      → Work p (record p {
        memory = release q.reservation p.memory;
        running = before ++ after;
        ended = suc p.ended;
      })
  joins : (ended : ℕ) → p.ended ≡ suc ended → IsJoining p → Work p (record p { ended = ended })

-- A step of the dispatcher or a worker, a trace that is recorded, or the end of the last recorder.
-- The dispatcher is not aborted.
pub data Step (p : Pipeline) : Pipeline → Type 0 where
  records : (event bytes : ℕ) → p.recorders_gone ≡ false → Step p (record_event event bytes p)
  works : {q : Pipeline} → Work p q → Step p q
  drops_recorders : Step p (record p { recorders_gone = true })

pub data Reach (capacity workers limit : ℕ) : Pipeline → Type 0 where
  start : Reach capacity workers limit (spawn capacity workers limit)
  next :
      {p q : Pipeline} → Reach capacity workers limit p → Step p q → Reach capacity workers limit q
