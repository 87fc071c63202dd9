-- ===== src/Trace/Durable/Safety.antt =====
-- Where a captured event is: crates/llmtrace/src/trace/durable.rs and journal.rs.
use llmtrace.Base.{
  ℕ, ◌≡◌, List, ◌∷◌, arith, ◌⊎◌, inl, inr, ℕ_discrete, count, erase, count-erase_self,
  count-erase_ne,
}
use llmtrace.Trace.Journal.Disk.{write_record, MoveOutcome}
use llmtrace.Trace.Journal.Catalog.{JournalConfig}
use llmtrace.Trace.Journal.Store.{quarantine_record, acknowledge}
use llmtrace.Trace.Durable.Files.{
  OnDisk, write_record-OnDisk, write_record-OnDisk_self, quarantine_record-OnDisk,
  acknowledge-OnDisk,
}
use llmtrace.Trace.Durable.{
  System, start, Step, Reach, In, enters, writes, write_breaks, publishes, gives_up, leaves_behind,
  claims, finds_none, reads, persists, acknowledge_starts, acknowledges, quarantine_starts,
  quarantines, drops, aborts, begin, later,
}

abbrev IsSafe : System → ℕ → Type 0
IsSafe s id = In id s.persisted ⊎ OnDisk id s.journal.disk

-- What holds of one id in every reachable state.
record IsKept (s : System) (id : ℕ) : Type 0 where
  synced : In id s.synced → IsSafe s id
  accepted : In id s.accepted → IsSafe s id
  acknowledging : In id s.acknowledging → In id s.persisted

start-IsKept : (id : ℕ) → IsKept start id
unfolding start count
start-IsKept id = record {
  synced = λ h. absurd (omega arith);
  accepted = λ h. absurd (omega arith);
  acknowledging = λ h. absurd (omega arith);
}

or_map : {P A B : Type 0} → (A → B) → P ⊎ A → P ⊎ B
or_map f (inl p) = inl p
or_map f (inr a) = inr (f a)

In-cases : (id j : ℕ) (ids : List ℕ) → In id (j ∷ ids) → (id ≡ j) ⊎ In id ids
unfolding count
In-cases id j ids h = ground arith

In-erase : (id j : ℕ) (ids : List ℕ) → In id (erase j ids) → In id ids
In-erase id j ids h = elim (ℕ_discrete j id) [
  | yes e ↦ let e' : j ≡ id = e in omega (arith, count-erase_self id ids, rw e' at h)
  | no n ↦ omega (arith, count-erase_ne j id ids n)
]

set_aside :
    (s : System) (id j fresh : ℕ) (outcome : MoveOutcome)
    → IsKept s id
    → IsKept (record s { journal = (quarantine_record outcome j fresh s.journal).1 }) id
set_aside s id j fresh outcome k = record {
  synced = λ h. or_map (quarantine_record-OnDisk outcome j fresh id s.journal) (k.synced h);
  accepted = λ h. or_map (quarantine_record-OnDisk outcome j fresh id s.journal) (k.accepted h);
  acknowledging = k.acknowledging;
}

-- A step keeps every record safe that was synced or accepted.
Step-IsKept :
    {config : JournalConfig} {s t : System} (id : ℕ) → Step config s t → IsKept s id → IsKept t id
unfolding count
Step-IsKept id (enters j entry c fresh e) k = record {
  synced = k.synced;
  accepted = k.accepted;
  acknowledging = k.acknowledging;
}
Step-IsKept {s} id (writes j bytes outcome i e) k = record {
  synced = λ h. elim (In-cases id j s.synced h) [
    | inl p ↦ inr (write_record-OnDisk_self outcome id j bytes s.journal.disk p e)
    | inr old ↦ or_map after (k.synced old)
  ];
  accepted = λ h. or_map after (k.accepted h);
  acknowledging = k.acknowledging;
}
  where
    after : OnDisk id s.journal.disk → OnDisk id (write_record outcome j bytes s.journal.disk).1
    after = write_record-OnDisk outcome j id bytes s.journal.disk
Step-IsKept {s} id (write_breaks j bytes outcome i e) k = record {
  synced = λ h. or_map after (k.synced h);
  accepted = λ h. or_map after (k.accepted h);
  acknowledging = k.acknowledging;
}
  where
    after : OnDisk id s.journal.disk → OnDisk id (write_record outcome j bytes s.journal.disk).1
    after = write_record-OnDisk outcome j id bytes s.journal.disk
Step-IsKept {s} id (publishes j i) k = record {
  synced = λ h. k.synced (In-erase id j s.synced h);
  accepted = λ h. elim (In-cases id j s.accepted h) [
    | inl p ↦ k.synced (rw p i)
    | inr old ↦ k.accepted old
  ];
  acknowledging = k.acknowledging;
}
Step-IsKept {s} id (gives_up j fresh outcome i e) k =
    let moved = set_aside s id j fresh outcome k in
    record { synced = moved.synced; accepted = moved.accepted; acknowledging = moved.acknowledging }
Step-IsKept {s} id (leaves_behind j fresh outcome i e) k =
    let moved = set_aside s id j fresh outcome k in
    record { synced = moved.synced; accepted = moved.accepted; acknowledging = moved.acknowledging }
Step-IsKept id (claims seen c d e g) k = record {
  synced = k.synced;
  accepted = k.accepted;
  acknowledging = k.acknowledging;
}
Step-IsKept id (finds_none seen d e g) k = record {
  synced = k.synced;
  accepted = k.accepted;
  acknowledging = k.acknowledging;
}
Step-IsKept id (reads j bytes i f) k = record {
  synced = k.synced;
  accepted = k.accepted;
  acknowledging = k.acknowledging;
}
Step-IsKept {s} id (persists j i) k = record {
  synced = λ h. grow (k.synced h);
  accepted = λ h. grow (k.accepted h);
  acknowledging = λ h. omega (arith, k.acknowledging h);
}
  where
    grow : IsSafe s id → In id (j ∷ s.persisted) ⊎ OnDisk id s.journal.disk
    grow (inl p) = inl (omega arith)
    grow (inr d) = inr d
Step-IsKept {s} id (acknowledge_starts j i p n) k = record {
  synced = k.synced;
  accepted = k.accepted;
  acknowledging = λ h. elim (In-cases id j s.acknowledging h) [
    | inl e ↦ rw e p
    | inr old ↦ k.acknowledging old
  ];
}
Step-IsKept {s} id (acknowledges j outcome i) k = record {
  synced = λ h. after (k.synced h);
  accepted = λ h. after (k.accepted h);
  acknowledging = λ h. k.acknowledging (In-erase id j s.acknowledging h);
}
  where
    after : IsSafe s id → In id s.persisted ⊎ OnDisk id (acknowledge outcome j s.journal).1.disk
    after (inl h) = inl h
    after (inr d) = elim (ℕ_discrete id j) [
      | yes e ↦ inl (k.acknowledging (rw e i))
      | no n ↦ inr (acknowledge-OnDisk outcome j id s.journal n d)
    ]
Step-IsKept id (quarantine_starts j i n) k = record {
  synced = k.synced;
  accepted = k.accepted;
  acknowledging = k.acknowledging;
}
Step-IsKept {s} id (quarantines j fresh outcome i) k =
    let moved = set_aside s id j fresh outcome k in
    record { synced = moved.synced; accepted = moved.accepted; acknowledging = moved.acknowledging }
Step-IsKept id (drops j now i n) k = record {
  synced = k.synced;
  accepted = k.accepted;
  acknowledging = k.acknowledging;
}
Step-IsKept id aborts k = record {
  synced = k.synced;
  accepted = k.accepted;
  acknowledging = k.acknowledging;
}

Reach-IsKept : {config : JournalConfig} {s : System} (id : ℕ) → Reach config s → IsKept s id
Reach-IsKept id begin = start-IsKept id
Reach-IsKept id (later r st) = Step-IsKept id st (Reach-IsKept id r)

-- In every reachable state, whatever the file system and the workers do, an event for which
-- `append` has returned `Ok` is not lost: the database has its trace, or the disk has its record
-- or a file of it that was set aside.
pub accepted-IsSafe :
    (config : JournalConfig) (s : System) (id : ℕ)
    → Reach config s
    → In id s.accepted
    → In id s.persisted ⊎ OnDisk id s.journal.disk
accepted-IsSafe config s id r h = (Reach-IsKept id r).accepted h
