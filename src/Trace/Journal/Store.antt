-- ===== src/Trace/Journal/Store.antt =====
-- crates/llmtrace/src/trace/journal.rs: the journal's operations on its catalog and its directory.
-- What the file system answers is an argument of each operation.
use llmtrace.Base.{is_some, ℕ, Bool, true, false, List, [], none, some, if◌then◌else◌, length}
use llmtrace.Base.Results.{ok, err}
use llmtrace.Trace.Journal.Catalog.{
  JournalConfig, Entry, Catalog, AppendError, enter, publish, forget, count_quarantined,
}
use llmtrace.Trace.Journal.Disk.{
  FileName, trace, partial, quarantine, Disk, rename, unlink, WriteOutcome, write_record,
  MoveOutcome, RemoveOutcome,
}

pub record Journal : Type 0 where
  pub disk : Disk
  pub catalog : Catalog

unfoldable pub empty : Journal
empty = record {
  disk = λ n. none;
  catalog = record {
    entries = [];
    ready = [];
    bytes = 0;
    quarantined = 0;
    quarantine_bytes = 0;
    quarantine_ids = [];
  };
}

-- The end of `quarantine`: sync the directory, then settle the catalog.
unfoldable pub settle : MoveOutcome → ℕ → ℕ → ℕ → Journal → Bool × Journal
settle MoveOutcome.sync_directory_fails id fresh size j = (false, j)
settle _ id fresh size j =
    let c = forget id j.catalog in
    (
      true,
      record j {
        catalog = if is_some (j.disk (quarantine id fresh)) then count_quarantined id size c else c;
      },
    )

-- The file that `quarantine` moves: the record, or else the unfinished write.
abbrev pub source : ℕ → Disk → FileName
source id d = if is_some (d (trace id)) then trace id else partial id

unfoldable pub quarantine_record : MoveOutcome → ℕ → ℕ → Journal → Bool × Journal
quarantine_record outcome id fresh j = elim (j.disk (source id j.disk)) [
  | none ↦ settle outcome id fresh 0 j
  | some content ↦ elim outcome [
    | MoveOutcome.metadata_fails ↦ (false, j)
    | MoveOutcome.rename_fails ↦ (false, j)
    | later ↦
        settle later id fresh (length content)
          (record j { disk = rename (source id j.disk) (quarantine id fresh) content j.disk })
  ]
]

-- A file that is not there counts as removed.
unfoldable pub acknowledge : RemoveOutcome → ℕ → Journal → Bool × Journal
acknowledge RemoveOutcome.remove_fails id j = (false, j)
acknowledge RemoveOutcome.sync_directory_fails id j =
    (false, record j { disk = unlink (trace id) j.disk })
acknowledge RemoveOutcome.succeeds id j =
    (true, record { disk = unlink (trace id) j.disk; catalog = forget id j.catalog })

pub data Appended : Type 0 where
  accepted : Appended
  refused : AppendError → Appended
  failed : (quarantined : Bool) → Appended

-- `append` as one thread runs it: reserve, write, and publish, or else quarantine.
unfoldable pub append :
    JournalConfig
    → WriteOutcome
    → MoveOutcome
    → ℕ
    → ℕ
    → Entry
    → List ℕ
    → Journal
    → Appended × Journal
append config write move fresh id entry bytes j = elim (enter config id entry j.catalog) [
  | err e ↦ (refused e, j)
  | ok entered ↦
      let (written, disk) = write_record write id bytes j.disk in
      if written
      then (accepted, record { disk = disk; catalog = publish id entered })
      else (let (moved, after) =
            quarantine_record move id fresh (record { disk = disk; catalog = entered }) in
          (failed moved, after))
]
