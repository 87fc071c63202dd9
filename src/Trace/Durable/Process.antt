-- ===== src/Trace/Durable/Process.antt =====
-- crates/llmtrace/src/trace/durable.rs: `process` and `process_inner`, what a replay worker does
-- with the record that it has claimed, where nothing cancels it.
use llmtrace.Base.{ℕ, Bool, false, List, [], some, none, if◌then◌else◌, ltb, ◌∷◌, count, erase}
use llmtrace.Base.Results.{Result, ok, err}
use llmtrace.Trace.Journal.Header.{Error}
use llmtrace.Trace.Journal.Disk.{trace, Disk, MoveOutcome, RemoveOutcome}
use llmtrace.Trace.Journal.Catalog.{JournalConfig, retry}
use llmtrace.Trace.Journal.Store.{quarantine_record, acknowledge}
use llmtrace.Trace.Durable.{
  System, Step, reads, persists, acknowledge_starts, acknowledges, quarantine_starts, quarantines,
  drops,
}

-- What the calls outside the journal's memory answer in one run. A transaction whose commit fails
-- may have been committed all the same.
pub record Answers : Type 0 where
  pub query_fails : Bool
  pub read_fails : Bool
  pub build_fails : Bool
  pub insert_fails : Bool
  pub committed : Bool
  pub fresh : ℕ
  pub move : MoveOutcome
  pub remove : RemoveOutcome

-- The record is retired. The database has its trace.
unfoldable pub retire : Answers → ℕ → System → Bool × System
retire a id s =
    let (acknowledged, journal) = acknowledge a.remove id s.journal in
    (acknowledged, record s { journal = journal })

-- A record that will not decode is set aside; one that cannot be read now is kept for later.
unfoldable pub unreadable : Answers → ℕ → Error → System → Bool × System
unreadable a id Error.io s = (false, s)
unreadable a id _ s =
    let (moved, journal) = quarantine_record a.move id a.fresh s.journal in
    (moved, record s { journal = journal })

unfoldable pub store : Answers → ℕ → System → Bool × System
store a id s =
    let stored = record s { inserting = id ∷ s.inserting; persisted = id ∷ s.persisted } in
    if a.build_fails
    then (false, record s { inserting = id ∷ s.inserting })
    else if a.insert_fails
    then (false, if a.committed then stored else record s { inserting = id ∷ s.inserting })
    else retire a id stored

-- `Drop for Claim`.
unfoldable pub drop_claim : JournalConfig → ℕ → ℕ → System → System
drop_claim config now id s = record s {
  journal = record { disk = s.journal.disk; catalog = retry config now id s.journal.catalog };
  claimed = erase id s.claimed;
}

module _ {Event : Type 0} (decode : ℕ → List ℕ → Result Error Event) where
  -- `Journal::read`: `decode` is its work on the contents of the file.
  unfoldable pub read_file : Answers → ℕ → Disk → Result Error Event
  read_file a id d = elim (d (trace id)) [
    | none ↦ err Error.io
    | some bytes ↦ if a.read_fails then err Error.io else decode id bytes
  ]

  -- `process_inner`: whether it returned `Ok`, and the state.
  unfoldable pub process_inner : Answers → ℕ → System → Bool × System
  process_inner a id s =
      if a.query_fails
      then (false, s)
      else if ltb 0 (count id s.persisted)
      then retire a id s
      else elim (read_file a id s.journal.disk) [
        | err e ↦ unreadable a id e s
        | ok event ↦ store a id s
      ]

  -- `process`, and the drop of its claim at a later moment.
  unfoldable pub process : JournalConfig → Answers → ℕ → ℕ → System → System
  process config a now id s = drop_claim config now id (process_inner a id s).1

-- The steps of the protocol that a worker takes.
pub data Act : Type 0 where
  file_read : Act
  committed : Act
  acknowledging : Act
  acknowledged : RemoveOutcome → Act
  quarantining : Act
  quarantined : MoveOutcome → Act
  dropped : Act
  elsewhere : Act

unfoldable pub act : {config : JournalConfig} {s t : System} → Step config s t → Act
act (reads id bytes i f) = file_read
act (persists id i) = committed
act (acknowledge_starts id i p n) = acknowledging
act (acknowledges id outcome i) = acknowledged outcome
act (quarantine_starts id i n) = quarantining
act (quarantines id fresh outcome i) = quarantined outcome
act (drops id now i n) = dropped
act _ = elsewhere

-- Steps of the protocol, one after the other, with what each of them is.
pub data Run (config : JournalConfig) : System → List Act → System → Type 0 where
  stays : {s : System} → Run config s [] s
  goes :
      {s t u : System} {acts : List Act} (step : Step config s t)
      → Run config t acts u
      → Run config s (act step ∷ acts) u

abbrev pub retirement : Answers → List Act
retirement a = acknowledging ∷ acknowledged a.remove ∷ dropped ∷ []

-- A record is stored only where it was read, and acknowledged only where it is stored; it is set
-- aside only where its file was read and is no record.
unfoldable pub handling : {Event : Type 0} → Answers → Result Error Event → List Act
handling a (err Error.io) = dropped ∷ []
handling a (err _) = quarantining ∷ quarantined a.move ∷ dropped ∷ []
handling a (ok event) =
    if a.build_fails
    then file_read ∷ dropped ∷ []
    else if a.insert_fails
    then (if a.committed then file_read ∷ committed ∷ dropped ∷ [] else file_read ∷ dropped ∷ [])
    else file_read ∷ committed ∷ retirement a

-- What the protocol asks of a worker, where the database has the trace already or not.
unfoldable pub duty : {Event : Type 0} → Answers → Bool → Result Error Event → List Act
duty a known content =
    if a.query_fails then dropped ∷ [] else if known then retirement a else handling a content
