-- ===== src/Trace/Durable.antt =====
-- crates/llmtrace/src/trace/durable.rs over crates/llmtrace/src/trace/journal.rs: the intake task
-- and the replay workers as a step relation. A step is what one thread does between two points
-- where others may run: a section under the catalog's lock, or file and database calls about one
-- record. A file operation of a worker runs on a thread of its own (`spawn_blocking`), which goes on
-- when the worker's task is cancelled; so its start and its work are two steps.
pub mod Process
pub mod Runs
pub mod Placement
pub mod Files
pub mod Safety
pub mod Exclusive
pub mod Workers
use llmtrace.Base.{
  ℕ, ◌+◌, ◌<◌, ◌≡◌, Bool, true, false, List, [], ◌∷◌, some, none, if◌then◌else◌, length, count,
  erase, ◌⊎◌,
}
use llmtrace.Base.Results.{ok}
use llmtrace.Trace.Journal.Header.{Error}
use llmtrace.Trace.Journal.Disk.{trace, WriteOutcome, write_record, MoveOutcome, RemoveOutcome}
use llmtrace.Trace.Journal.Catalog.{
  JournalConfig, Entry, Catalog, Seen, Claim, get, enter, publish, claim, retry,
}
use llmtrace.Trace.Journal.Store.{Journal, empty, quarantine_record, acknowledge}

-- The journal, where each record is, and what has become of it. Only `journal` is state of the
-- program: the lists name the records that a task or a file operation holds or has handled.
-- `inserting` has the records whose file was read for a database transaction, and `aborted` is set
-- once the task of `replay` is gone.
pub record System : Type 0 where
  pub journal : Journal
  pub writing : List ℕ
  pub synced : List ℕ
  pub failed : List ℕ
  pub stuck : List ℕ
  pub claimed : List ℕ
  pub used : List ℕ
  pub accepted : List ℕ
  pub inserting : List ℕ
  pub persisted : List ℕ
  pub acknowledging : List ℕ
  pub quarantining : List ℕ
  pub aborted : Bool

unfoldable pub start : System
start = record {
  journal = empty;
  writing = [];
  synced = [];
  failed = [];
  stuck = [];
  claimed = [];
  used = [];
  accepted = [];
  inserting = [];
  persisted = [];
  acknowledging = [];
  quarantining = [];
  aborted = false;
}

abbrev pub In : ℕ → List ℕ → Type 0
In id ids = 0 < count id ids

-- The file operations under way that change a record and its entry.
abbrev pub jobs : System → ℕ → ℕ
jobs s id = count id s.acknowledging + count id s.quarantining

pub data Step (config : JournalConfig) (s : System) : System → Type 0 where
  -- `append` takes a place in the catalog. The ids of events are fresh.
  enters :
      (id : ℕ) (entry : Entry) (c : Catalog)
      → count id s.used ≡ 0
      → enter config id entry s.journal.catalog ≡ ok c
      → Step config s (record s {
        journal = record { disk = s.journal.disk; catalog = c };
        writing = id ∷ s.writing;
        used = id ∷ s.used;
      })
  -- `append` writes the record: durable, or not.
  writes :
      (id : ℕ) (bytes : List ℕ) (outcome : WriteOutcome)
      → In id s.writing
      → (write_record outcome id bytes s.journal.disk).0 ≡ true
      → Step config s (record s {
        journal = record {
          disk = (write_record outcome id bytes s.journal.disk).1;
          catalog = s.journal.catalog;
        };
        writing = erase id s.writing;
        synced = id ∷ s.synced;
      })
  write_breaks :
      (id : ℕ) (bytes : List ℕ) (outcome : WriteOutcome)
      → In id s.writing
      → (write_record outcome id bytes s.journal.disk).0 ≡ false
      → Step config s (record s {
        journal = record {
          disk = (write_record outcome id bytes s.journal.disk).1;
          catalog = s.journal.catalog;
        };
        writing = erase id s.writing;
        failed = id ∷ s.failed;
      })
  -- `append` queues the durable record and returns `Ok`.
  publishes :
      (id : ℕ)
      → In id s.synced
      → Step config s (record s {
        journal = record { disk = s.journal.disk; catalog = publish id s.journal.catalog };
        synced = erase id s.synced;
        accepted = id ∷ s.accepted;
      })
  -- `append` quarantines what it could not write. If that fails too, the entry stays behind.
  gives_up :
      (id fresh : ℕ) (outcome : MoveOutcome)
      → In id s.failed
      → (quarantine_record outcome id fresh s.journal).0 ≡ true
      → Step config s (record s {
        journal = (quarantine_record outcome id fresh s.journal).1;
        failed = erase id s.failed;
      })
  leaves_behind :
      (id fresh : ℕ) (outcome : MoveOutcome)
      → In id s.failed
      → (quarantine_record outcome id fresh s.journal).0 ≡ false
      → Step config s (record s {
        journal = (quarantine_record outcome id fresh s.journal).1;
        failed = erase id s.failed;
        stuck = id ∷ s.stuck;
      })
  -- `replay` asks for a record.
  claims :
      (seen : ℕ → Seen) (k : Claim) (c : Catalog)
      → claim seen s.journal.catalog ≡ (some k, c)
      → s.aborted ≡ false
      → Step config s (record s {
        journal = record { disk = s.journal.disk; catalog = c };
        claimed = k.id ∷ s.claimed;
      })
  finds_none :
      (seen : ℕ → Seen) (c : Catalog)
      → claim seen s.journal.catalog ≡ (none, c)
      → s.aborted ≡ false
      → Step config s (record s { journal = record { disk = s.journal.disk; catalog = c } })
  -- `process_inner` has read the file for a transaction, which may commit at any later time, also
  -- when the worker is told of an error or is cancelled.
  reads :
      (id : ℕ) (bytes : List ℕ)
      → In id s.claimed
      → s.journal.disk (trace id) ≡ some bytes
      → Step config s (record s { inserting = id ∷ s.inserting })
  persists :
      (id : ℕ) → In id s.inserting → Step config s (record s { persisted = id ∷ s.persisted })
  -- `process_inner` retires a record that the database has.
  acknowledge_starts :
      (id : ℕ)
      → In id s.claimed
      → In id s.persisted
      → jobs s id ≡ 0
      → Step config s (record s { acknowledging = id ∷ s.acknowledging })
  acknowledges :
      (id : ℕ) (outcome : RemoveOutcome)
      → In id s.acknowledging
      → Step config s (record s {
        journal = (acknowledge outcome id s.journal).1;
        acknowledging = erase id s.acknowledging;
      })
  -- `process_inner` sets aside a record that it cannot read.
  quarantine_starts :
      (id : ℕ)
      → In id s.claimed
      → jobs s id ≡ 0
      → Step config s (record s { quarantining = id ∷ s.quarantining })
  quarantines :
      (id fresh : ℕ) (outcome : MoveOutcome)
      → In id s.quarantining
      → Step config s (record s {
        journal = (quarantine_record outcome id fresh s.journal).1;
        quarantining = erase id s.quarantining;
      })
  -- The claim is dropped: at the end of `process`, where no file operation is under way, or when
  -- its task is cancelled, which is only where `replay` has been.
  drops :
      (id now : ℕ)
      → In id s.claimed
      → (jobs s id ≡ 0) ⊎ (s.aborted ≡ true)
      → Step config s (record s {
        journal = record { disk = s.journal.disk; catalog = retry config now id s.journal.catalog };
        claimed = erase id s.claimed;
      })
  -- `replay` is cancelled, when the pipeline takes too long to drain. It claims no more.
  aborts : Step config s (record s { aborted = true })

pub data Reach (config : JournalConfig) : System → Type 0 where
  begin : Reach config start
  later : {s t : System} → Reach config s → Step config s t → Reach config t
