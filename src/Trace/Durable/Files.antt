-- ===== src/Trace/Durable/Files.antt =====
-- What becomes of a record's files: crates/llmtrace/src/trace/durable.rs and journal.rs.
use llmtrace.Base.{
  ℕ, ◌≡◌, ◌≢◌, true, List, some, none, arith, ◌⊎◌, inl, inr, ℕ_discrete, Option-cases,
}
use llmtrace.Trace.Journal.Disk.{
  trace, quarantine, Disk, rename, WriteOutcome, write_record, MoveOutcome, RemoveOutcome,
}
use llmtrace.Trace.Journal.Store.{Journal, quarantine_record, settle, source, acknowledge}

-- A file of the record is on the disk: the record itself, or one set aside.
abbrev pub OnDisk : ℕ → Disk → Type 0
OnDisk id d = (d (trace id) ≢ none) ⊎ ((u : ℕ) × (d (quarantine id u) ≢ none))

-- Writing a record touches no file that was set aside, and replaces no record.
write_record-quarantine :
    (outcome : WriteOutcome) (id i u : ℕ) (bytes : List ℕ) (d : Disk)
    → (write_record outcome id bytes d).1 (quarantine i u) ≡ d (quarantine i u)
unfolding write_record
write_record-quarantine WriteOutcome.create_fails id i u bytes d = ground arith
write_record-quarantine _ id i u bytes d = ground arith

write_record-trace_kept :
    (outcome : WriteOutcome) (id i : ℕ) (bytes : List ℕ) (d : Disk)
    → d (trace i) ≢ none
    → (write_record outcome id bytes d).1 (trace i) ≢ none
unfolding write_record
write_record-trace_kept WriteOutcome.create_fails id i bytes d h = ground arith
write_record-trace_kept _ id i bytes d h = ground arith

pub write_record-OnDisk :
    (outcome : WriteOutcome) (id i : ℕ) (bytes : List ℕ) (d : Disk)
    → OnDisk i d
    → OnDisk i (write_record outcome id bytes d).1
write_record-OnDisk outcome id i bytes d (inl t) =
    inl (write_record-trace_kept outcome id i bytes d t)
write_record-OnDisk outcome id i bytes d (inr (u, q)) =
    inr (u, rw (write_record-quarantine outcome id i u bytes d) q)

write_record-trace :
    (outcome : WriteOutcome) (id : ℕ) (bytes : List ℕ) (d : Disk)
    → (write_record outcome id bytes d).0 ≡ true
    → (write_record outcome id bytes d).1 (trace id) ≡ some bytes
unfolding write_record
write_record-trace WriteOutcome.create_fails id bytes d h = ground arith
write_record-trace _ id bytes d h = ground arith

pub write_record-OnDisk_self :
    (outcome : WriteOutcome) (i id : ℕ) (bytes : List ℕ) (d : Disk)
    → i ≡ id
    → (write_record outcome id bytes d).0 ≡ true
    → OnDisk i (write_record outcome id bytes d).1
write_record-OnDisk_self outcome i id bytes d e h =
    rw e (inl (λ n. cc (write_record-trace outcome id bytes d h)))

-- Setting a record aside moves one file of it, or none.
quarantine_record-disk :
    (outcome : MoveOutcome) (id fresh : ℕ) (j : Journal)
    → ((quarantine_record outcome id fresh j).1.disk ≡ j.disk)
      ⊎ ((content : List ℕ) × ((quarantine_record outcome id fresh j).1.disk
            ≡ rename (source id j.disk) (quarantine id fresh) content j.disk))
unfolding quarantine_record settle
quarantine_record-disk MoveOutcome.metadata_fails id fresh j = ground arith
quarantine_record-disk MoveOutcome.rename_fails id fresh j = ground arith
quarantine_record-disk MoveOutcome.sync_directory_fails id fresh j =
    elim (Option-cases (j.disk (source id j.disk))) [
      | inl e ↦ inl (rw (e, quarantine_record))
      | inr (content, e) ↦ inr (content, rw (e, quarantine_record))
    ]
quarantine_record-disk MoveOutcome.succeeds id fresh j =
    elim (Option-cases (j.disk (source id j.disk))) [
      | inl e ↦ inl (rw (e, quarantine_record))
      | inr (content, e) ↦ inr (content, rw (e, quarantine_record))
    ]

rename-OnDisk :
    (id fresh i : ℕ) (content : List ℕ) (d : Disk)
    → OnDisk i d
    → OnDisk i (rename (source id d) (quarantine id fresh) content d)
rename-OnDisk id fresh i content d (inl t) = elim (ℕ_discrete i id) [
  | yes e ↦ inr (fresh, ground arith)
  | no n ↦ inl (ground arith)
]
rename-OnDisk id fresh i content d (inr (u, q)) = inr (u, ground arith)

pub quarantine_record-OnDisk :
    (outcome : MoveOutcome) (id fresh i : ℕ) (j : Journal)
    → OnDisk i j.disk
    → OnDisk i (quarantine_record outcome id fresh j).1.disk
quarantine_record-OnDisk outcome id fresh i j h = elim (quarantine_record-disk outcome id fresh j) [
  | inl e ↦ rw e h
  | inr (content, e) ↦ rw e (rename-OnDisk id fresh i content j.disk h)
]

pub acknowledge-OnDisk :
    (outcome : RemoveOutcome) (id i : ℕ) (j : Journal)
    → i ≢ id
    → OnDisk i j.disk
    → OnDisk i (acknowledge outcome id j).1.disk
unfolding acknowledge
acknowledge-OnDisk outcome id i j n h = ground arith
