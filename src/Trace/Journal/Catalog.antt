-- ===== src/Trace/Journal/Catalog.antt =====
-- crates/llmtrace/src/trace/journal.rs: the catalog behind the journal's mutex. Each function is
-- what one operation does while it holds the lock. An id is a number; an instant is a number of
-- nanoseconds, and does not overflow.
use llmtrace.Base.{
  is_some, ℕ, zero, suc, ◌+◌, ◌-◌, ◌*◌, ◌/◌, max, Bool, true, not, ◌&&◌, ◌||◌, List, [], ◌∷◌, ◌++◌,
  Option, none, some, lookup, ltb, leb, if◌then◌else◌, length, contains, ℕ_discrete,
}
use llmtrace.Base.Words.{saturating_add, wrapping_add, wrapping_sub}
use llmtrace.Base.Assoc.{insert, remove}
use llmtrace.Base.Results.{Result, ok, err}
use llmtrace.Trace.Memory.{MemoryBudget, Reservation, reserve}

-- `JournalConfig`, without the directory.
pub record JournalConfig : Type 0 where
  pub enabled : Bool
  pub max_bytes : ℕ
  pub max_records : ℕ
  pub retry_interval_secs : ℕ

pub record Entry : Type 0 where
  pub size : ℕ
  pub memory : ℕ
  pub created : ℕ
  pub due : ℕ
  pub recovered : Bool

pub record Catalog : Type 0 where
  pub entries : List (ℕ × Entry)
  pub ready : List ℕ
  pub bytes : ℕ
  pub quarantined : ℕ
  pub quarantine_bytes : ℕ
  pub quarantine_ids : List ℕ

abbrev pub get : ℕ → Catalog → Option Entry
get id c = lookup ℕ_discrete id c.entries

pub data AppendError : Type 0 where
  metadata_too_large duplicate full : AppendError

-- The capacity test of `append`.
unfoldable pub exceeds : JournalConfig → ℕ → Catalog → Bool
exceeds config size c =
    ltb config.max_bytes (saturating_add (saturating_add c.bytes c.quarantine_bytes) size)
    || leb config.max_records (saturating_add (length c.entries) c.quarantined)

-- `append` before it writes: the entry holds its place in the catalog.
unfoldable pub enter : JournalConfig → ℕ → Entry → Catalog → Result AppendError Catalog
unfolding exceeds
enter config id entry c =
    if is_some (get id c)
    then err duplicate
    else if exceeds config entry.size c
    then err full
    else ok (record c {
      bytes = wrapping_add c.bytes entry.size;
      entries = insert ℕ_discrete id entry c.entries;
    })

-- `append` after the file is durable.
unfoldable pub publish : ℕ → Catalog → Catalog
publish id c = record c { ready = c.ready ++ id ∷ [] }

-- What one round of `claim` reads: the clock, and the memory budget as other threads left it.
pub record Seen : Type 0 where
  pub now : ℕ
  pub budget : MemoryBudget

-- The two conditions of a round: the entry is due, and the budget admits it.
unfoldable pub admit : Seen → Entry → Option (Reservation × MemoryBudget)
admit s e = if leb e.due s.now then reserve s.budget e.memory else none

-- `Claim`, with the budget after its reservation.
pub record Claim : Type 0 where
  pub id : ℕ
  pub recovered : Bool
  pub reservation : Reservation
  pub budget : MemoryBudget

-- The `for` loop of `claim`, with `n` rounds left; round `i` reads `seen i`.
unfoldable pub claim_loop : (ℕ → Seen) → ℕ → ℕ → List (ℕ × Entry) → List ℕ → Option Claim × List ℕ
claim_loop seen i zero entries ready = (none, ready)
claim_loop seen i (suc n) entries [] = (none, [])
claim_loop seen i (suc n) entries (id ∷ ready) = elim (lookup ℕ_discrete id entries) [
  | none ↦ (none, ready)
  | some entry ↦ elim (admit (seen i) entry) [
    | some (reservation, budget) ↦ (
      some (record {
        id = id;
        recovered = entry.recovered;
        reservation = reservation;
        budget = budget;
      }),
      ready,
    )
    | none ↦ claim_loop seen (suc i) n entries (ready ++ id ∷ [])
  ]
]

unfoldable pub claim : (ℕ → Seen) → Catalog → Option Claim × Catalog
claim seen c =
    let (claimed, ready) = claim_loop seen 0 (length c.ready) c.entries c.ready in
    (claimed, record c { ready = ready })

abbrev pub from_secs : ℕ → ℕ
from_secs s = s * 1000000000

-- `retry`, which dropping a claim runs.
unfoldable pub retry : JournalConfig → ℕ → ℕ → Catalog → Catalog
retry config now id c = elim (get id c) [
  | none ↦ c
  | some entry ↦
      let later = record entry { due = now + from_secs config.retry_interval_secs } in
      record c { entries = insert ℕ_discrete id later c.entries; ready = c.ready ++ id ∷ [] }
]

-- The end of `acknowledge` and of `quarantine`: `bytes -= entry.size` for a removed entry.
unfoldable pub forget : ℕ → Catalog → Catalog
forget id c = elim (get id c) [
  | none ↦ c
  | some entry ↦ record c {
    entries = remove ℕ_discrete id c.entries;
    bytes = wrapping_sub c.bytes entry.size;
  }
]

-- The counters of `quarantine`, when a file was moved aside.
unfoldable pub count_quarantined : ℕ → ℕ → Catalog → Catalog
count_quarantined id size c = record c {
  quarantined = wrapping_add c.quarantined 1;
  quarantine_bytes = wrapping_add c.quarantine_bytes size;
  quarantine_ids = id ∷ c.quarantine_ids;
}

unfoldable pub receipt_can_be_removed : ℕ → Catalog → Bool
receipt_can_be_removed id c = not (is_some (get id c)) && not (contains id c.quarantine_ids)

pub record JournalSnapshot : Type 0 where
  pub enabled : Bool
  pub pending_records : ℕ
  pub pending_bytes : ℕ
  pub max_bytes : ℕ
  pub max_records : ℕ
  pub quarantined_records : ℕ
  pub quarantined_bytes : ℕ
  pub oldest_pending_age_secs : ℕ
  pub blocked_records : ℕ

-- `SystemTime::elapsed` of the entries, where the clock has not gone back, and their greatest.
unfoldable pub oldest_age : ℕ → List (ℕ × Entry) → ℕ
oldest_age now [] = 0
oldest_age now ((_, e) ∷ es) =
    let rest = oldest_age now es in if leb e.created now then max (now - e.created) rest else rest

unfoldable pub blocked : ℕ → List (ℕ × Entry) → ℕ
blocked memory_limit [] = 0
blocked memory_limit ((_, e) ∷ es) =
    (if ltb memory_limit e.memory then 1 else 0) + blocked memory_limit es

unfoldable pub snapshot : JournalConfig → ℕ → ℕ → Catalog → JournalSnapshot
unfolding oldest_age blocked
snapshot config now memory_limit c = record {
  enabled = true;
  pending_records = length c.entries;
  pending_bytes = c.bytes;
  max_bytes = config.max_bytes;
  max_records = config.max_records;
  quarantined_records = c.quarantined;
  quarantined_bytes = c.quarantine_bytes;
  oldest_pending_age_secs = oldest_age now c.entries / 1000000000;
  blocked_records = blocked memory_limit c.entries;
}
