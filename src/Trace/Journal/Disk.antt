-- ===== src/Trace/Journal/Disk.antt =====
-- The journal's directory, as far as the journal uses it: named files with their contents. Nobody
-- else writes there, since the journal holds the directory's lock file.
use llmtrace.Base.{
  is_some, ℕ, ◌≡◌, ◌≢◌, refl, Bool, true, false, if◌then◌else◌, List, Option, none, some, ite, take,
  ℕ_discrete, if_pos, if_neg,
}

-- `{id}.trace`, `{id}.partial` and `{id}.{uuid}.quarantine`.
pub data FileName : Type 0 where
  trace partial : ℕ → FileName
  quarantine : ℕ → ℕ → FileName

unfoldable pub FileName-discrete : Discrete FileName
FileName-discrete = hlevel ℕ_discrete

abbrev pub Disk : Type 0
Disk = FileName → Option (List ℕ)

abbrev pub put : FileName → List ℕ → Disk → Disk
put name content d n = ite (FileName-discrete n name) (some content) (d n)

abbrev pub unlink : FileName → Disk → Disk
unlink name d n = ite (FileName-discrete n name) none (d n)

-- `fs::rename` of a file with these contents.
abbrev pub rename : FileName → FileName → List ℕ → Disk → Disk
rename source target content d = put target content (unlink source d)

pub put_self :
    (name : FileName) (content : List ℕ) (d : Disk) → put name content d name ≡ some content
put_self name content d = if_pos (FileName-discrete name name) refl _ _

pub put_ne :
    (n name : FileName) (content : List ℕ) (d : Disk) → n ≢ name → put name content d n ≡ d n
put_ne n name content d h = if_neg (FileName-discrete n name) h _ _

-- How the write of a record goes: the first call that fails, if any.
pub data WriteOutcome : Type 0 where
  create_fails : WriteOutcome
  write_fails : ℕ → WriteOutcome
  sync_fails rename_fails sync_directory_fails succeeds : WriteOutcome

-- From the synced temporary file on: the destination must be new, then the rename, then the sync.
unfoldable pub finish_write : WriteOutcome → ℕ → List ℕ → Disk → Bool × Disk
finish_write rename_fails id bytes d = (false, d)
finish_write sync_directory_fails id bytes d =
    if is_some (d (trace id)) then (false, d) else (false, rename (partial id) (trace id) bytes d)
finish_write succeeds id bytes d =
    if is_some (d (trace id)) then (false, d) else (true, rename (partial id) (trace id) bytes d)
finish_write _ id bytes d = (false, d)

-- The file operations of `append`: whether they all went well, and what is on the disk.
unfoldable pub write_record : WriteOutcome → ℕ → List ℕ → Disk → Bool × Disk
unfolding finish_write
write_record outcome id bytes d = if is_some (d (partial id)) then (false, d) else elim outcome [
  | create_fails ↦ (false, d)
  | write_fails n ↦ (false, put (partial id) (take n bytes) d)
  | sync_fails ↦ (false, put (partial id) bytes d)
  | later ↦ finish_write later id bytes (put (partial id) bytes d)
]

pub data MoveOutcome : Type 0 where
  metadata_fails rename_fails sync_directory_fails succeeds : MoveOutcome

pub data RemoveOutcome : Type 0 where
  remove_fails sync_directory_fails succeeds : RemoveOutcome
