-- ===== src/Trace/Durable/Runs.antt =====
-- crates/llmtrace/src/trace/durable.rs: a worker keeps to the protocol.
use llmtrace.Base.{ℕ, ◌≡◌, List, [], ◌∷◌, some, arith, inl, inr, ltb, count, erase, Bool-cases}
use llmtrace.Base.Results.{Result, ok, err, Result-cases}
use llmtrace.Trace.Journal.Header.{Error}
use llmtrace.Trace.Journal.Disk.{trace, Disk}
use llmtrace.Trace.Journal.Catalog.{JournalConfig}
use llmtrace.Trace.Durable.{
  System, In, jobs, reads, persists, acknowledge_starts, acknowledges, quarantine_starts,
  quarantines, drops,
}
use llmtrace.Trace.Durable.Process.{
  Answers, retire, unreadable, store, read_file, process_inner, drop_claim, process, dropped, act,
  Run, stays, goes, retirement, handling, duty,
}

erase-cons : (id : ℕ) (ids : List ℕ) → erase id (id ∷ ids) ≡ ids
unfolding erase
erase-cons id ids = ground arith

module _ (config : JournalConfig) (a : Answers) (now id : ℕ) where
  drop-Run :
      (s : System)
      → In id s.claimed
      → jobs s id ≡ 0
      → Run config s (dropped ∷ []) (drop_claim config now id s)
  unfolding drop_claim act
  drop-Run s held free = goes (drops id now held (inl free)) stays

  retire-Run :
      (s : System)
      → In id s.claimed
      → In id s.persisted
      → jobs s id ≡ 0
      → Run config s (retirement a) (drop_claim config now id (retire a id s).1)
  unfolding retire act count
  retire-Run s held known free = goes (acknowledge_starts id held known free) (
      goes (acknowledges id a.remove (ground arith))
        (rw (erase-cons id s.acknowledging) (drop-Run _ held free)))

  unreadable-Run :
      (Event : Type 0) (e : Error) (s : System)
      → In id s.claimed
      → jobs s id ≡ 0
      → Run config s
          (handling {Event = Event} a (err e))
          (drop_claim config now id (unreadable a id e s).1)
  unfolding unreadable act count handling
  unreadable-Run Event Error.io s held free = drop-Run s held free
  unreadable-Run Event _ s held free = goes (quarantine_starts id held free) (
      goes (quarantines id a.fresh a.move (ground arith))
        (rw (erase-cons id s.quarantining) (drop-Run _ held free)))

  store-Run :
      {Event : Type 0} (event : Event) (s : System) (bytes : List ℕ)
      → In id s.claimed
      → jobs s id ≡ 0
      → s.journal.disk (trace id) ≡ some bytes
      → Run config s (handling a (ok event)) (drop_claim config now id (store a id s).1)
  unfolding store act count handling retire
  store-Run event s bytes held free file = elim (Bool-cases a.build_fails) [
    | inl f ↦ simp f (goes (reads id bytes held file) (drop-Run _ held free))
    | inr b ↦ elim (Bool-cases a.insert_fails) [
      | inl f ↦ elim (Bool-cases a.committed) [
        | inl y ↦
            simp (b, f, y)
              (goes (reads id bytes held file)
                (goes (persists id (ground arith)) (drop-Run _ held free)))
        | inr n ↦ simp (b, f, n) (goes (reads id bytes held file) (drop-Run _ held free))
      ]
      | inr f ↦
          simp (b, f)
            (goes (reads id bytes held file)
              (goes (persists id (ground arith)) (retire-Run _ held (ground arith) free)))
    ]
  ]

module _ {Event : Type 0} (decode : ℕ → List ℕ → Result Error Event) where
  read_file-eq-ok :
      (a : Answers) (id : ℕ) (d : Disk) (event : Event)
      → read_file decode a id d ≡ ok event
      → (bytes : List ℕ) × (d (trace id) ≡ some bytes)
  unfolding read_file
  read_file-eq-ok a id d event h = ground arith

  -- In any state in which a worker has a record and no file operation on it is under way, what the
  -- worker does with it until it drops its claim, whatever the database and the file system answer,
  -- is the sequence of protocol steps that its duty names: the record is acknowledged only where
  -- the database has told that it has the trace, it is set aside only where its file was read and
  -- is no record, and it is kept for later in all other cases, also where a transaction was
  -- committed although its commit failed.
  pub process-Run :
      (config : JournalConfig) (a : Answers) (now id : ℕ) (s : System)
      → In id s.claimed
      → jobs s id ≡ 0
      → Run config s
          (duty a (ltb 0 (count id s.persisted)) (read_file decode a id s.journal.disk))
          (process decode config a now id s)
  unfolding process process_inner duty
  process-Run config a now id s held free = elim (Bool-cases a.query_fails) [
    | inl f ↦ simp f (drop-Run config a now id s held free)
    | inr q ↦ elim (Bool-cases (ltb 0 (count id s.persisted))) [
      | inl known ↦ simp (q, known) (retire-Run config a now id s held (ground arith) free)
      | inr new ↦ elim (Result-cases (read_file decode a id s.journal.disk)) [
        | inl (e, f) ↦ simp (q, new, f) (unreadable-Run config a now id Event e s held free)
        | inr (event, f) ↦
            let (bytes, file) = read_file-eq-ok a id s.journal.disk event f in
            simp (q, new, f) (store-Run config a now id event s bytes held free file)
      ]
    ]
  ]
