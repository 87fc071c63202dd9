-- ===== src/Tests/Admission.antt =====
-- An event for which the journal of crates/llmtrace/src/trace/journal.rs has no room.
use llmtrace.Base.{◌≤◌, ◌≡◌, ◌↔◌, refl, true, none, arith, length}
use llmtrace.Base.Assoc.{total}
use llmtrace.Trace.Journal.Header.{max_metadata_bytes}
use llmtrace.Trace.Journal.Record.{metadata, record_size}
use llmtrace.Trace.Journal.Catalog.{JournalConfig, AppendError, get}
use llmtrace.Trace.Journal.Capacity.{IsConfigured, Fits}
use llmtrace.Trace.Journal.Disk.{WriteOutcome, MoveOutcome}
use llmtrace.Trace.Journal.Store.{Appended, empty}
use llmtrace.Trace.Journal.Append.{append_event}
use llmtrace.Trace.Journal.Admission.{IsTooMuch, append_event-full}
use llmtrace.Tests.Records.{codec, event}

-- No record fits.
abbrev closed : JournalConfig
closed = record { enabled = true; max_bytes = 1000; max_records = 0; retry_interval_secs = 5 }

closed-IsConfigured : IsConfigured closed
closed-IsConfigured = record { bytes_limit = omega arith; records_limit = omega arith }

empty-Fits : Fits closed empty.catalog
unfolding empty total
empty-Fits = record {
  distinct = tt;
  exact = refl;
  within_bytes = omega arith;
  within_records = omega arith;
}

append_event-full_example :
    ((append_event codec closed WriteOutcome.succeeds MoveOutcome.succeeds 1 100 0 event empty).0
      ≡ Appended.refused AppendError.full)
    ↔ ((length (metadata codec event) ≤ max_metadata_bytes)
        × ((get event.id empty.catalog ≡ none)
            × IsTooMuch closed (record_size codec event) empty.catalog))
append_event-full_example =
    append_event-full codec closed WriteOutcome.succeeds MoveOutcome.succeeds 1 100 0 event empty
      closed-IsConfigured empty-Fits
