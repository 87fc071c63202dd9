-- ===== src/Trace/Durable/Placement.antt =====
-- Where each record of the journal is: crates/llmtrace/src/trace/durable.rs and journal.rs.
use llmtrace.Base.{
  ℕ, ◌+◌, ◌≤◌, ◌≡◌, ◌≢◌, refl, true, false, List, [], ◌∷◌, ◌++◌, some, none, arith, ◌↔◌, ◌⊎◌, inl,
  inr, ℕ_discrete, lookup, count, Option-cases,
}
use llmtrace.Base.Assoc.{
  Distinct, remove-Distinct, lookup-insert_self, lookup-insert_ne, lookup-remove_self,
  lookup-remove_ne,
}
use llmtrace.Base.Results.{ok}
use llmtrace.Trace.Journal.Disk.{MoveOutcome}
use llmtrace.Trace.Journal.Catalog.{
  JournalConfig, Entry, Catalog, Seen, Claim, get, enter, claim, retry, forget, count_quarantined,
  from_secs,
}
use llmtrace.Trace.Journal.Capacity.{enter-eq-ok}
use llmtrace.Trace.Journal.Claiming.{Known, Outcome, all_refused, first_admitted, claim-Outcome}
use llmtrace.Trace.Journal.Store.{Journal, quarantine_record, settle}
use llmtrace.Trace.Durable.{System, In, jobs}

-- How often an id stands in the queue or with a task that is not a worker.
abbrev pub waiting : System → ℕ → ℕ
waiting s id =
    count id s.writing
    + count id s.synced
    + count id s.failed
    + count id s.stuck
    + count id s.journal.catalog.ready

abbrev pub places : System → ℕ → ℕ
places s id = waiting s id + count id s.claimed

pub record IsPlaced (s : System) (id : ℕ) : Type 0 where
  pub single : places s id ≤ 1
  pub absent : s.aborted ≡ false → get id s.journal.catalog ≡ none → waiting s id ≡ 0
  pub present : get id s.journal.catalog ≢ none → places s id ≡ 1
  pub unused : count id s.used ≡ 0 → places s id ≡ 0
  pub working : s.aborted ≡ false → jobs s id ≤ count id s.claimed

abbrev pub HasDistinct : System → Type 0
HasDistinct s = Distinct ℕ_discrete s.journal.catalog.entries

pub forget-get_self :
    (id : ℕ) (c : Catalog) → Distinct ℕ_discrete c.entries → get id (forget id c) ≡ none
unfolding forget
forget-get_self id c d = elim (Option-cases (get id c)) [
  | inl e ↦ rw (e, forget) e
  | inr (v, e) ↦ rw (e, forget) (lookup-remove_self ℕ_discrete id c.entries d)
]

pub forget-get_ne : (i id : ℕ) (c : Catalog) → i ≢ id → get i (forget id c) ≡ get i c
unfolding forget
forget-get_ne i id c n = elim (Option-cases (get id c)) [
  | inl e ↦ rw (e, forget)
  | inr (v, e) ↦ rw (e, forget) (lookup-remove_ne ℕ_discrete c.entries n)
]

pub forget-Distinct :
    (id : ℕ) (c : Catalog)
    → Distinct ℕ_discrete c.entries
    → Distinct ℕ_discrete (forget id c).entries
unfolding forget
forget-Distinct id c d = elim (Option-cases (get id c)) [
  | inl e ↦ rw (e, forget) d
  | inr (v, e) ↦ rw (e, forget) (remove-Distinct ℕ_discrete id c.entries d)
]

pub forget-ready : (id : ℕ) (c : Catalog) → (forget id c).ready ≡ c.ready
unfolding forget
forget-ready id c = ground arith

-- The catalog after `quarantine`: as it was if an error is returned, else without the entry.
pub quarantine_record-catalog :
    (outcome : MoveOutcome) (id fresh : ℕ) (j : Journal)
    → let (moved, after) = quarantine_record outcome id fresh j in
      ((moved ≡ false) × (after.catalog ≡ j.catalog))
      ⊎ ((moved ≡ true)
          × (after.catalog.entries ≡ (forget id j.catalog).entries)
          × (after.catalog.ready ≡ (forget id j.catalog).ready))
unfolding quarantine_record settle count_quarantined
quarantine_record-catalog MoveOutcome.metadata_fails id fresh j = ground arith
quarantine_record-catalog MoveOutcome.rename_fails id fresh j = ground arith
quarantine_record-catalog MoveOutcome.sync_directory_fails id fresh j = ground arith
quarantine_record-catalog MoveOutcome.succeeds id fresh j = ground arith

pub Known-of_count :
    (entries : List (ℕ × Entry)) (ids : List ℕ)
    → ((id : ℕ) → In id ids → lookup ℕ_discrete id entries ≢ none)
    → Known entries ids
unfolding count
Known-of_count entries [] h = tt
Known-of_count entries (x ∷ xs) h = (
  elim (Option-cases (lookup ℕ_discrete x entries)) [
    | inl e ↦ absurd (h x (ground arith) e)
    | inr found ↦ found
  ],
  Known-of_count entries xs (λ id i. h id (ground arith)),
)

-- What a successful claim does to the queue.
pub claim-ready :
    (seen : ℕ → Seen) (c d : Catalog) (k : Claim)
    → Known c.entries c.ready
    → claim seen c ≡ (some k, d)
    → (before : List ℕ) × (after : List ℕ) × (c.ready ≡ before ++ k.id ∷ after)
      × (d.ready ≡ after ++ before)
      × (d.entries ≡ c.entries)
claim-ready seen c d k known h = go (claim-Outcome seen c known).0
  where
    go :
        Outcome seen 0 c.entries c.ready [] ((claim seen c).0, (claim seen c).1.ready)
        → (before : List ℕ) × (after : List ℕ) × (c.ready ≡ before ++ k.id ∷ after)
          × (d.ready ≡ after ++ before)
          × (d.entries ≡ c.entries)
    go (all_refused r e) = absurd (ground arith)
    go (first_admitted before after id v r b e rs f a o) =
        (before, after, ground arith, ground arith, ground (arith, (claim-Outcome seen c known).1))

pub claim-ready_none :
    (seen : ℕ → Seen) (c d : Catalog) → Known c.entries c.ready → claim seen c ≡ (none, d) → d ≡ c
claim-ready_none seen c d known h = go (claim-Outcome seen c known).0
  where
    go : Outcome seen 0 c.entries c.ready [] ((claim seen c).0, (claim seen c).1.ready) → d ≡ c
    go (all_refused r e) = ground (arith, (claim-Outcome seen c known).1)
    go (first_admitted before after id v r b e rs f a o) = absurd (ground arith)

pub enter-get :
    (config : JournalConfig) (id i : ℕ) (entry : Entry) (c d : Catalog)
    → enter config id entry c ≡ ok d
    → (get id c ≡ none) × (get id d ≢ none) × (d.ready ≡ c.ready) × (i ≢ id → get i d ≡ get i c)
enter-get config id i entry c d h =
    let (new, room, e) = enter-eq-ok config id entry c d h in
    (
      new,
      rw e (λ n. cc (lookup-insert_self ℕ_discrete id entry c.entries)),
      rw e refl,
      λ n. rw e (lookup-insert_ne ℕ_discrete entry c.entries n),
    )

pub retry-get :
    (config : JournalConfig) (now id i : ℕ) (c : Catalog)
    → (get i c ≡ none) ↔ (get i (retry config now id c) ≡ none)
unfolding retry
retry-get config now id i c = elim (Option-cases (get id c)) [
  | inl e ↦ rw (e, retry) (λ h. h, λ h. h)
  | inr (v, e) ↦
      let later = record v { due = now + from_secs config.retry_interval_secs } in
      rw (e, retry)
        (elim (ℕ_discrete i id) [
          | yes p ↦
              (λ h. cc (rw p at h), λ h. cc (lookup-insert_self ℕ_discrete id later c.entries))
          | no n ↦ rw (lookup-insert_ne ℕ_discrete later c.entries n) (λ h. h, λ h. h)
        ])
]

pub retry-ready :
    (config : JournalConfig) (now id : ℕ) (c : Catalog)
    → ((get id c ≡ none) × ((retry config now id c).ready ≡ c.ready))
      ⊎ ((get id c ≢ none) × ((retry config now id c).ready ≡ c.ready ++ id ∷ []))
unfolding retry
retry-ready config now id c = ground arith
