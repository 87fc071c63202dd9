-- ===== src/Trace/Durable/Workers.antt =====
-- The reachable states of the capture pipeline: crates/llmtrace/src/trace/durable.rs and journal.rs.
use llmtrace.Base.{
  ℕ, ◌+◌, ◌≤◌, ◌≡◌, ◌≢◌, refl, [], ◌∷◌, none, arith, ◌⊎◌, inl, inr, ℕ_discrete, count, count-append,
  count-erase, Option-cases, Bool-cases, clash, true, if◌then◌else◌, ◌==◌,
}
use llmtrace.Base.Assoc.{Distinct, insert-Distinct}
use llmtrace.Trace.Journal.Catalog.{JournalConfig, Catalog, get, publish, retry, from_secs, forget}
use llmtrace.Trace.Journal.Capacity.{enter-eq-ok}
use llmtrace.Trace.Journal.Disk.{MoveOutcome, RemoveOutcome}
use llmtrace.Trace.Journal.Store.{Journal, empty, quarantine_record, acknowledge}
use llmtrace.Trace.Durable.{
  System, In, start, Step, Reach, enters, writes, write_breaks, publishes, gives_up, leaves_behind,
  claims, finds_none, reads, persists, acknowledge_starts, acknowledges, quarantine_starts,
  quarantines, drops, aborts, jobs, begin, later,
}
use llmtrace.Trace.Durable.Placement.{
  waiting, places, IsPlaced, HasDistinct, forget-Distinct, quarantine_record-catalog, claim-ready,
  claim-ready_none,
}
use llmtrace.Trace.Durable.Exclusive.{
  unchanged, enters-IsPlaced, drops-IsPlaced, claims-IsPlaced, retires-IsPlaced, gives_up-IsPlaced,
  acknowledge-catalog, start-IsPlaced, queue-Known,
}

-- What `quarantine` leaves of the catalog, whether or not it returns an error.
quarantined-catalog :
    (outcome : MoveOutcome) (id fresh : ℕ) (j : Journal)
    → let after = (quarantine_record outcome id fresh j).1 in
      (after.catalog ≡ j.catalog)
      ⊎ ((after.catalog.entries ≡ (forget id j.catalog).entries)
          × (after.catalog.ready ≡ (forget id j.catalog).ready))
quarantined-catalog outcome id fresh j = elim (quarantine_record-catalog outcome id fresh j) [
  | inl (_, e) ↦ inl e
  | inr (_, e, r) ↦ inr (e, r)
]

acknowledged-catalog :
    (outcome : RemoveOutcome) (id : ℕ) (j : Journal)
    → let after = (acknowledge outcome id j).1 in
      (after.catalog ≡ j.catalog)
      ⊎ ((after.catalog.entries ≡ (forget id j.catalog).entries)
          × (after.catalog.ready ≡ (forget id j.catalog).ready))
acknowledged-catalog outcome id j = elim (acknowledge-catalog outcome id j) [
  | inl e ↦ inl e
  | inr e ↦ inr (rw e, rw e)
]

retires-Distinct :
    (s : System) (j : ℕ) (after : Journal)
    → HasDistinct s
    → (after.catalog ≡ s.journal.catalog)
      ⊎ ((after.catalog.entries ≡ (forget j s.journal.catalog).entries)
          × (after.catalog.ready ≡ (forget j s.journal.catalog).ready))
    → Distinct ℕ_discrete after.catalog.entries
retires-Distinct s j after d (inl e) = rw e d
retires-Distinct s j after d (inr (e, _)) = rw e (forget-Distinct j s.journal.catalog d)

retry-Distinct :
    (config : JournalConfig) (now id : ℕ) (c : Catalog)
    → Distinct ℕ_discrete c.entries
    → Distinct ℕ_discrete (retry config now id c).entries
unfolding retry
retry-Distinct config now id c d = elim (Option-cases (get id c)) [
  | inl e ↦ rw (e, retry) d
  | inr (v, e) ↦
      rw (e, retry)
        (insert-Distinct ℕ_discrete id
          (record v { due = now + from_secs config.retry_interval_secs }) c.entries d)
]

Step-HasDistinct :
    {config : JournalConfig} {s t : System}
    → Step config s t
    → ((i : ℕ) → IsPlaced s i)
    → HasDistinct s
    → HasDistinct t
unfolding publish
Step-HasDistinct {config} {s} (enters j entry c fresh e) all d =
    rw (enter-eq-ok config j entry s.journal.catalog c e).2
      (insert-Distinct ℕ_discrete j entry s.journal.catalog.entries d)
Step-HasDistinct (writes j bytes outcome i e) all d = d
Step-HasDistinct (write_breaks j bytes outcome i e) all d = d
Step-HasDistinct (publishes j i) all d = d
Step-HasDistinct {s = s} (gives_up j fresh outcome i e) all d =
    retires-Distinct s j (quarantine_record outcome j fresh s.journal).1 d
      (quarantined-catalog outcome j fresh s.journal)
Step-HasDistinct {s = s} (leaves_behind j fresh outcome i e) all d =
    retires-Distinct s j (quarantine_record outcome j fresh s.journal).1 d
      (quarantined-catalog outcome j fresh s.journal)
Step-HasDistinct {s = s} (claims seen k c e g) all d =
    rw (claim-ready seen s.journal.catalog c k (queue-Known s g all) e).4 d
Step-HasDistinct {s = s} (finds_none seen c e g) all d =
    rw (claim-ready_none seen s.journal.catalog c (queue-Known s g all) e) d
Step-HasDistinct (reads j bytes i f) all d = d
Step-HasDistinct (persists j i) all d = d
Step-HasDistinct (acknowledge_starts j i p n) all d = d
Step-HasDistinct (quarantine_starts j i n) all d = d
Step-HasDistinct aborts all d = d
Step-HasDistinct {s = s} (acknowledges j outcome i) all d =
    retires-Distinct s j (acknowledge outcome j s.journal).1 d
      (acknowledged-catalog outcome j s.journal)
Step-HasDistinct {s = s} (quarantines j fresh outcome i) all d =
    retires-Distinct s j (quarantine_record outcome j fresh s.journal).1 d
      (quarantined-catalog outcome j fresh s.journal)
Step-HasDistinct {config} {s} (drops j now i n) all d =
    retry-Distinct config now j s.journal.catalog d

-- A file operation that starts is the only one of its record, whose worker waits for it.
starts_working :
    (s : System) (id j : ℕ)
    → In j s.claimed
    → jobs s j ≡ 0
    → jobs s id ≤ count id s.claimed
    → jobs s id + (if id == j then 1 else 0) ≤ count id s.claimed
starts_working s id j i n h = elim (ℕ_discrete id j) [
  | yes q ↦ let held : In id s.claimed = rw q i in let free : jobs s id ≡ 0 = rw q n in ground arith
  | no m ↦ ground arith
]

Step-IsPlaced :
    {config : JournalConfig} {s t : System} (id : ℕ)
    → Step config s t
    → HasDistinct s
    → ((i : ℕ) → IsPlaced s i)
    → IsPlaced t id
unfolding count publish
Step-IsPlaced {config} {s} id (enters j entry c fresh e) d all =
    enters-IsPlaced config s id j entry c fresh e (all id)
Step-IsPlaced {s = s} id (writes j bytes outcome i e) d all =
    unchanged s _ id (omega (arith, count-erase j id s.writing i)) refl refl (λ h. h) (λ a. a)
      (λ a h. h) (all id)
Step-IsPlaced {s = s} id (write_breaks j bytes outcome i e) d all =
    unchanged s _ id (omega (arith, count-erase j id s.writing i)) refl refl (λ h. h) (λ a. a)
      (λ a h. h) (all id)
Step-IsPlaced {s = s} id (publishes j i) d all =
    unchanged s _ id
      (omega (arith, count-erase j id s.synced i, count-append id s.journal.catalog.ready (j ∷ [])))
      refl refl (λ h. h) (λ a. a) (λ a h. h) (all id)
Step-IsPlaced {s = s} id (gives_up j fresh outcome i e) d all =
    elim (quarantine_record-catalog outcome j fresh s.journal) [
      | inl (f, _) ↦ absurd (cc (e, f))
      | inr (_, entries, ready) ↦ gives_up-IsPlaced s id j _ d i entries ready (all id)
    ]
Step-IsPlaced {s = s} id (leaves_behind j fresh outcome i e) d all =
    elim (quarantine_record-catalog outcome j fresh s.journal) [
      | inr (f, _, _) ↦ absurd (cc (e, f))
      | inl (_, same) ↦
          unchanged s _ id (rw same (omega (arith, count-erase j id s.failed i))) refl (rw same)
            (λ h. h) (λ a. a) (λ a h. h) (all id)
    ]
Step-IsPlaced {s = s} id (claims seen k c e g) d all = claims-IsPlaced s id seen k c g all e
Step-IsPlaced {s = s} id (finds_none seen c e g) d all =
    let same = claim-ready_none seen s.journal.catalog c (queue-Known s g all) e in
    unchanged s _ id (rw same) refl (rw same) (λ h. h) (λ a. a) (λ a h. h) (all id)
Step-IsPlaced {s = s} id (reads j bytes i f) d all =
    unchanged s _ id refl refl refl (λ h. h) (λ a. a) (λ a h. h) (all id)
Step-IsPlaced {s = s} id (persists j i) d all =
    unchanged s _ id refl refl refl (λ h. h) (λ a. a) (λ a h. h) (all id)
Step-IsPlaced {s = s} id (acknowledge_starts j i p n) d all =
    unchanged s _ id refl refl refl (λ h. h) (λ a. a)
      (λ a h. omega (arith, starts_working s id j i n h)) (all id)
Step-IsPlaced {s = s} id (quarantine_starts j i n) d all =
    unchanged s _ id refl refl refl (λ h. h) (λ a. a)
      (λ a h. omega (arith, starts_working s id j i n h)) (all id)
Step-IsPlaced {s = s} id (acknowledges j outcome i) d all =
    retires-IsPlaced s id j _ _ _ d (omega arith)
      (omega (arith, count-erase j id s.acknowledging i)) (acknowledged-catalog outcome j s.journal)
      (all id)
Step-IsPlaced {s = s} id (quarantines j fresh outcome i) d all =
    retires-IsPlaced s id j _ _ _ d (omega arith) (omega (arith, count-erase j id s.quarantining i))
      (quarantined-catalog outcome j fresh s.journal) (all id)
Step-IsPlaced {config} {s} id (drops j now i n) d all =
    drops-IsPlaced config s id j now i n (all id)
Step-IsPlaced {s = s} id aborts d all =
    unchanged s _ id refl refl refl (λ h. h) (λ a. absurd (clash refl a)) (λ a h. h) (all id)

record IsOrdered (s : System) : Type 0 where
  distinct : HasDistinct s
  placed : (id : ℕ) → IsPlaced s id

Reach-IsOrdered : {config : JournalConfig} {s : System} → Reach config s → IsOrdered s
unfolding start empty
Reach-IsOrdered begin = record { distinct = tt; placed = start-IsPlaced }
Reach-IsOrdered (later r st) =
    let before = Reach-IsOrdered r in
    record {
      distinct = Step-HasDistinct st before.placed before.distinct;
      placed = λ id. Step-IsPlaced id st before.distinct before.placed;
    }

in_place :
    (s : System) (id : ℕ)
    → IsPlaced s id
    → (get id s.journal.catalog ≡ none → (s.aborted ≡ true) ⊎ (waiting s id ≡ 0))
    → ((get id s.journal.catalog ≢ none) × (places s id ≡ 1))
      ⊎ ((get id s.journal.catalog ≡ none)
          × (places s id ≤ 1)
          × ((s.aborted ≡ true) ⊎ (waiting s id ≡ 0)))
in_place s id p absent = elim (Option-cases (get id s.journal.catalog)) [
  | inl gone ↦ inr (gone, p.single, absent gone)
  | inr (entry, found) ↦
      let there : get id s.journal.catalog ≢ none = ground arith in inl (there, p.present there)
]

-- In every reachable state, whatever the file system, the clocks and the workers do, and also when
-- cancelled workers leave file operations behind, a record of the catalog is in exactly one place:
-- with the append that brought it, also where that has failed and could not set the record aside;
-- in the queue; or with one worker. So no two workers process it at once. Of a record that has left
-- the catalog at most one worker or place in the queue is left, and as long as `replay` is not
-- cancelled it is with no append and not in the queue, and a file operation is under way only on a
-- record that a worker has.
pub Reach-IsPlaced :
    (config : JournalConfig) (s : System) (id : ℕ)
    → Reach config s
    → (((get id s.journal.catalog ≢ none) × (places s id ≡ 1))
        ⊎ ((get id s.journal.catalog ≡ none)
            × (places s id ≤ 1)
            × ((s.aborted ≡ true) ⊎ (waiting s id ≡ 0))))
      × ((s.aborted ≡ true) ⊎ (jobs s id ≤ count id s.claimed))
Reach-IsPlaced config s id r =
    let p = (Reach-IsOrdered r).placed id in
    elim (Bool-cases s.aborted) [
      | inl b ↦ (in_place s id p (λ gone. inl b), inl b)
      | inr a ↦ (in_place s id p (λ gone. inr (p.absent a gone)), inr (p.working a))
    ]
