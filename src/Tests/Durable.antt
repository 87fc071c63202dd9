-- ===== src/Tests/Durable.antt =====
-- Events on their way through the journal of crates/llmtrace/src/trace/journal.rs and the workers
-- of crates/llmtrace/src/trace/durable.rs.
use llmtrace.Base.{
  ℕ, ◌+◌, ◌≤◌, ◌≡◌, ◌≢◌, refl, arith, ◌⊎◌, false, true, [], ◌∷◌, none, length, count, lookup, erase,
  inr, ltb, ℕ_discrete,
}
use llmtrace.Base.Assoc.{insert, total}
use llmtrace.Base.Results.{ok}
use llmtrace.Trace.Memory.{reserve}
use llmtrace.Trace.Journal.Disk.{
  WriteOutcome, MoveOutcome, RemoveOutcome, write_record, FileName-discrete,
}
use llmtrace.Trace.Journal.Catalog.{
  JournalConfig, Entry, Catalog, Seen, enter, publish, claim, claim_loop, admit, get, forget, retry,
  count_quarantined,
}
use llmtrace.Trace.Journal.Claiming.{Outcome, claim-Outcome}
use llmtrace.Trace.Journal.Capacity.{Fits, IsConfigured, enter-Fits, quarantine-Fits}
use llmtrace.Trace.Journal.Store.{empty, acknowledge}
use llmtrace.Trace.Durable.{
  System, Reach, start, enters, writes, publishes, claims, reads, persists, acknowledge_starts,
  acknowledges, aborts, drops, jobs, begin, later, In,
}
use llmtrace.Trace.Durable.Process.{Answers, process, read_file, duty, Run}
use llmtrace.Trace.Durable.Runs.{process-Run}
use llmtrace.Trace.Durable.Files.{OnDisk}
use llmtrace.Trace.Durable.Safety.{accepted-IsSafe}
use llmtrace.Trace.Durable.Placement.{waiting, places}
use llmtrace.Trace.Durable.Workers.{Reach-IsPlaced}

abbrev config : JournalConfig
config = record { enabled = true; max_bytes = 1000; max_records = 4; retry_interval_secs = 5 }

config-IsConfigured : IsConfigured config
config-IsConfigured = record { bytes_limit = omega arith; records_limit = omega arith }

abbrev entry : Entry
entry = record { size = 80; memory = 70000; created = 1; due = 1; recovered = false }

-- Not due before the second round.
abbrev late_entry : Entry
late_entry = record { size = 90; memory = 70000; created = 1; due = 5000; recovered = false }

abbrev seen : ℕ → Seen
seen i = record { now = 10 + i; budget = record { limit = 100000; used = 0 } }

-- Event 7 is taken, written and accepted.
abbrev accepted_run : (s : System) × Reach config s
unfolding start enter write_record publish count lookup empty FileName-discrete
accepted_run = (
  _,
  later
      (later (later begin (enters 7 entry _ refl refl))
        (writes 7 (1 ∷ 2 ∷ []) WriteOutcome.succeeds (omega arith) refl))
      (publishes 7 (omega arith)),
)

-- And a worker claims it.
abbrev claimed_run : (s : System) × Reach config s
unfolding start enter write_record publish count lookup empty FileName-discrete claim claim_loop
    admit reserve insert ℕ_discrete
claimed_run = (_, later accepted_run.1 (claims seen _ _ refl refl))

accepted-IsSafe_example : In 7 claimed_run.0.persisted ⊎ OnDisk 7 claimed_run.0.journal.disk
unfolding claimed_run count publish enter claim start empty write_record claim_loop admit reserve
    insert
accepted-IsSafe_example = accepted-IsSafe config claimed_run.0 7 claimed_run.1 (omega arith)

-- The worker stores the trace and starts to acknowledge the record; it is cancelled, and its claim
-- goes back to the queue before the acknowledgement is done.
abbrev late_run : (s : System) × Reach config s
unfolding start enter write_record publish count lookup empty FileName-discrete claim claim_loop
    admit reserve insert ℕ_discrete retry erase acknowledge forget
late_run = (
  _,
  later
      (later
        (later
          (later
            (later (later claimed_run.1 (reads 7 (1 ∷ 2 ∷ []) (omega arith) refl))
              (persists 7 (omega arith)))
            (acknowledge_starts 7 (omega arith) (omega arith) refl))
          aborts)
        (drops 7 30 (omega arith) (inr refl)))
      (acknowledges 7 RemoveOutcome.succeeds (omega arith)),
)

Reach-IsPlaced_example :
    (((get 7 late_run.0.journal.catalog ≢ none) × (places late_run.0 7 ≡ 1))
      ⊎ ((get 7 late_run.0.journal.catalog ≡ none)
          × (places late_run.0 7 ≤ 1)
          × ((late_run.0.aborted ≡ true) ⊎ (waiting late_run.0 7 ≡ 0))))
    × ((late_run.0.aborted ≡ true) ⊎ (jobs late_run.0 7 ≤ count 7 late_run.0.claimed))
Reach-IsPlaced_example = Reach-IsPlaced config late_run.0 7 late_run.1

abbrev answers : Answers
answers = record {
  query_fails = false;
  read_fails = false;
  build_fails = false;
  insert_fails = false;
  committed = true;
  fresh = 1;
  move = MoveOutcome.succeeds;
  remove = RemoveOutcome.succeeds;
}

process-Run_example :
    Run config claimed_run.0
      (duty answers
        (ltb 0 (count 7 claimed_run.0.persisted))
        (read_file (λ id bytes. ok bytes) answers 7 claimed_run.0.journal.disk))
      (process (λ id bytes. ok bytes) config answers 20 7 claimed_run.0)
unfolding claimed_run count publish enter claim start empty write_record claim_loop admit reserve
    insert
process-Run_example =
    process-Run (λ id bytes. ok bytes) config answers 20 7 claimed_run.0 (omega arith) refl

-- Two records in the queue, of which the second is due.
abbrev catalog : Catalog
catalog = record {
  entries = (3, late_entry) ∷ (4, entry) ∷ [];
  ready = 3 ∷ 4 ∷ [];
  bytes = 170;
  quarantined = 0;
  quarantine_bytes = 0;
  quarantine_ids = [];
}

claim-Outcome_example :
    Outcome seen 0 catalog.entries catalog.ready []
      ((claim seen catalog).0, (claim seen catalog).1.ready)
    × ((claim seen catalog).1 ≡ record catalog { ready = (claim seen catalog).1.ready })
unfolding lookup ℕ_discrete
claim-Outcome_example = claim-Outcome seen catalog ((late_entry, refl), ((entry, refl), tt))

catalog-Fits : Fits config catalog
unfolding lookup ℕ_discrete total length
catalog-Fits = record {
  distinct = (refl, (refl, tt));
  exact = refl;
  within_bytes = omega arith;
  within_records = omega arith;
}

-- The catalog once event 7 has its place.
abbrev entered : Catalog
entered = record catalog { entries = (3, late_entry) ∷ (4, entry) ∷ (7, entry) ∷ []; bytes = 250 }

enter-Fits_example : Fits config entered
unfolding enter insert lookup ℕ_discrete
enter-Fits_example = enter-Fits config-IsConfigured 7 entry catalog entered refl catalog-Fits

quarantine-Fits_example : Fits config (count_quarantined 4 60 (forget 4 catalog))
unfolding lookup ℕ_discrete
quarantine-Fits_example =
    quarantine-Fits config-IsConfigured 4 60 entry catalog refl (omega arith) catalog-Fits
