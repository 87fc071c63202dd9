-- ===== src/Trace/Journal/Admission.antt =====
-- crates/llmtrace/src/trace/journal.rs: which events `append` refuses for want of room.
use llmtrace.Base.{
  ℕ, ◌+◌, ◌≤◌, ◌<◌, ◌≡◌, ◌↔◌, ◌⊎◌, inl, inr, true, none, arith, ltb, length, List, Bool-cases,
}
use llmtrace.Base.Results.{err}
use llmtrace.Trace.Journal.Header.{max_metadata_bytes}
use llmtrace.Trace.Journal.Record.{Codec, TraceEvent, metadata, record_size}
use llmtrace.Trace.Journal.Catalog.{JournalConfig, Entry, Catalog, AppendError, get, enter, exceeds}
use llmtrace.Trace.Journal.Capacity.{IsConfigured, Fits, sizes}
use llmtrace.Trace.Journal.Disk.{WriteOutcome, MoveOutcome}
use llmtrace.Trace.Journal.Store.{Journal, Appended, append}
use llmtrace.Trace.Journal.Append.{append_event, entry_of}

-- With an entry of this size the records would exceed a limit of the configuration.
abbrev pub IsTooMuch : JournalConfig → ℕ → Catalog → Type 0
IsTooMuch config size c =
    (config.max_bytes < sizes c.entries + c.quarantine_bytes + size)
    ⊎ (config.max_records ≤ length c.entries + c.quarantined)

exceeds_iff :
    (config : JournalConfig) (size : ℕ) (c : Catalog)
    → IsConfigured config
    → Fits config c
    → (exceeds config size c ≡ true) ↔ IsTooMuch config size c
unfolding exceeds
exceeds_iff config size c limits v = ground (arith, v.exact)

enter-full :
    (config : JournalConfig) (id : ℕ) (entry : Entry) (c : Catalog)
    → (enter config id entry c ≡ err AppendError.full)
      ↔ ((get id c ≡ none) × (exceeds config entry.size c ≡ true))
unfolding enter
enter-full config id entry c = ground arith

append-full :
    (config : JournalConfig) (write : WriteOutcome) (move : MoveOutcome) (fresh id : ℕ)
    (entry : Entry) (bytes : List ℕ) (j : Journal)
    → ((append config write move fresh id entry bytes j).0 ≡ Appended.refused AppendError.full)
      ↔ (enter config id entry j.catalog ≡ err AppendError.full)
unfolding append
append-full config write move fresh id entry bytes j = ground arith

-- In a well-formed catalog, under limits that validation allows, `append` refuses an event as one
-- too many exactly when its metadata is not too large, no record of its id is there, and with it
-- the exact sum of the sizes of all records and of the files set aside would exceed the limit on
-- bytes, or there are as many of them as the limit on records. The write that would follow has no
-- part in it.
pub append_event-full :
    (c : Codec) (config : JournalConfig) (write : WriteOutcome) (move : MoveOutcome)
    (fresh event_bytes now : ℕ) (e : TraceEvent c) (j : Journal)
    → IsConfigured config
    → Fits config j.catalog
    → ((append_event c config write move fresh event_bytes now e j).0
        ≡ Appended.refused AppendError.full)
      ↔ ((length (metadata c e) ≤ max_metadata_bytes)
          × ((get e.id j.catalog ≡ none) × IsTooMuch config (record_size c e) j.catalog))
unfolding append_event
append_event-full c config write move fresh event_bytes now e j limits v =
    elim (Bool-cases (ltb max_metadata_bytes (length (metadata c e)))) [
      | inl large ↦ rw large (λ h. absurd (ground arith), λ h. absurd (ground arith))
      | inr fits ↦
          let entry = entry_of c event_bytes now e in
          let refused = append-full config write move fresh e.id entry _ j in
          let full = enter-full config e.id entry j.catalog in
          let much = exceeds_iff config (record_size c e) j.catalog limits v in
          rw fits (
            λ h. (ground arith, ((full.0 (refused.0 h)).0, much.0 (full.0 (refused.0 h)).1)),
            λ h. refused.1 (full.1 (h.1.0, much.1 h.1.1)),
          )
    ]
