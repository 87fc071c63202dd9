-- ===== src/Trace/Journal/Append.antt =====
-- crates/llmtrace/src/trace/journal.rs: `append` of an event, from its serialisation to the queue,
-- and what `read` finds afterwards.
use llmtrace.Base.{
  ℕ, ◌≤◌, ◌≡◌, true, false, List, some, arith, inl, inr, ltb, if◌then◌else◌, length, Bool-cases,
}
use llmtrace.Base.Results.{ok}
use llmtrace.Trace.Journal.Header.{max_metadata_bytes, max_memory}
use llmtrace.Trace.Journal.Record.{
  Codec, TraceEvent, metadata, record_size, record_memory, record_bytes, read, read-record_bytes,
}
use llmtrace.Trace.Journal.Catalog.{JournalConfig, Entry, AppendError}
use llmtrace.Trace.Journal.Disk.{
  trace, FileName-discrete, Disk, put_self, WriteOutcome, write_record, finish_write, MoveOutcome,
}
use llmtrace.Trace.Journal.Store.{Journal, Appended, append}

module _ (c : Codec) where
  -- The entry that `append` makes of an event.
  abbrev pub entry_of : ℕ → ℕ → TraceEvent c → Entry
  entry_of event_bytes now e = record {
    size = record_size c e;
    memory = record_memory c event_bytes e;
    created = now;
    due = now;
    recovered = false;
  }

  -- `append`: an event whose metadata is too large is refused at once.
  unfoldable pub append_event :
      JournalConfig
      → WriteOutcome
      → MoveOutcome
      → ℕ
      → ℕ
      → ℕ
      → TraceEvent c
      → Journal
      → Appended × Journal
  append_event config write move fresh event_bytes now e j =
      if ltb max_metadata_bytes (length (metadata c e))
      then (Appended.refused AppendError.metadata_too_large, j)
      else append config write move fresh e.id (entry_of event_bytes now e)
          (record_bytes c (record_memory c event_bytes e) e) j

write_record-trace :
    (outcome : WriteOutcome) (id : ℕ) (bytes : List ℕ) (d : Disk)
    → (write_record outcome id bytes d).0 ≡ true
    → (write_record outcome id bytes d).1 (trace id) ≡ some bytes
unfolding write_record finish_write FileName-discrete
write_record-trace WriteOutcome.succeeds id bytes d h = ground (arith, put_self (trace id) bytes d)
write_record-trace _ id bytes d h = ground arith

append-accepted :
    (config : JournalConfig) (write : WriteOutcome) (move : MoveOutcome) (fresh id : ℕ)
    (entry : Entry) (bytes : List ℕ) (j : Journal)
    → (append config write move fresh id entry bytes j).0 ≡ Appended.accepted
    → (append config write move fresh id entry bytes j).1.disk (trace id) ≡ some bytes
unfolding append
append-accepted config write move fresh id entry bytes j h =
    let durable = write_record-trace write id bytes j.disk in ground (arith, durable)

-- An event that `append` has accepted is in the file of its id, and reading that file gives the
-- event back, with its fields and both bodies. The event's replay reservation is within the limit
-- of the format.
pub append_event-read :
    (c : Codec) (config : JournalConfig) (write : WriteOutcome) (move : MoveOutcome)
    (fresh event_bytes now : ℕ) (e : TraceEvent c) (j : Journal)
    → record_memory c event_bytes e ≤ max_memory
    → (append_event c config write move fresh event_bytes now e j).0 ≡ Appended.accepted
    → (bytes : List ℕ) × ((append_event c config write move fresh event_bytes now e j).1.disk
          (trace e.id)
        ≡ some bytes)
      × (read c e.id bytes ≡ ok e)
unfolding append_event
append_event-read c config write move fresh event_bytes now e j small h =
    elim (Bool-cases (ltb max_metadata_bytes (length (metadata c e)))) [
      | inl large ↦ absurd (ground arith)
      | inr fits ↦
          let h2 = rw fits at h in
          rw fits (
            record_bytes c (record_memory c event_bytes e) e,
            append-accepted config write move fresh e.id (entry_of c event_bytes now e) _ j h2,
            read-record_bytes c event_bytes e (ground arith) small,
          )
    ]
