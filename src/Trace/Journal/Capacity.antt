-- ===== src/Trace/Journal/Capacity.antt =====
-- crates/llmtrace/src/trace/journal.rs: the catalog's accounts, and its limits on bytes and records.
use llmtrace.Base.{
  ℕ, ◌+◌, ◌-◌, ◌^◌, ◌≤◌, ◌<◌, ◌≡◌, List, false, none, some, arith, length, ℕ_discrete, Option-cases,
  inl, inr,
}
use llmtrace.Base.Words.{wrapping_add, wrapping_sub}
use llmtrace.Base.Assoc.{
  insert, remove, total, Distinct, insert-Distinct, remove-Distinct, total-insert_absent,
  total-insert_present, total-remove, length-insert_absent, length-insert_present, length-remove,
}
use llmtrace.Base.Results.{ok}
use llmtrace.Trace.Journal.Catalog.{
  JournalConfig, Entry, Catalog, Seen, get, enter, exceeds, publish, claim, retry, forget,
  count_quarantined, from_secs,
}

abbrev pub sizes : List (ℕ × Entry) → ℕ
sizes = total ℕ_discrete (λ (e : Entry). e.size)

-- The limits that the configuration's validation allows.
pub record IsConfigured (config : JournalConfig) : Type 0 where
  pub bytes_limit : config.max_bytes ≤ 2 ^ 40
  pub records_limit : config.max_records ≤ 1000000

-- One entry for each id, the byte count exact, and both limits kept.
pub record Fits (config : JournalConfig) (c : Catalog) : Type 0 where
  pub distinct : Distinct ℕ_discrete c.entries
  pub exact : c.bytes ≡ sizes c.entries
  pub within_bytes : c.bytes + c.quarantine_bytes ≤ config.max_bytes
  pub within_records : length c.entries + c.quarantined ≤ config.max_records

-- What `append` has checked once it holds its place.
pub enter-eq-ok :
    (config : JournalConfig) (id : ℕ) (entry : Entry) (c d : Catalog)
    → enter config id entry c ≡ ok d
    → (get id c ≡ none)
      × (exceeds config entry.size c ≡ false)
      × (d ≡ record c {
        bytes = wrapping_add c.bytes entry.size;
        entries = insert ℕ_discrete id entry c.entries;
      })
unfolding enter
enter-eq-ok config id entry c d h = ground arith

not-exceeds :
    (config : JournalConfig) (size : ℕ) (c : Catalog)
    → IsConfigured config
    → exceeds config size c ≡ false
    → (c.bytes + c.quarantine_bytes + size ≤ config.max_bytes)
      × (length c.entries + c.quarantined < config.max_records)
unfolding exceeds
not-exceeds config size c limits h = ground arith

module _ {config : JournalConfig} (limits : IsConfigured config) where
  -- An entry that `append` lets in keeps a well-formed catalog well formed, under limits that
  -- validation allows: one entry for each id, the byte count the exact sum of the sizes, and what
  -- is pending and what is set aside together within both limits.
  pub enter-Fits :
      (id : ℕ) (entry : Entry) (c d : Catalog)
      → enter config id entry c ≡ ok d
      → Fits config c
      → Fits config d
  enter-Fits id entry c d h v =
      let (new, room, e) = enter-eq-ok config id entry c d h in
      let fits : (c.bytes + c.quarantine_bytes + entry.size ≤ config.max_bytes)
          × (length c.entries + c.quarantined < config.max_records) =
        not-exceeds config entry.size c limits room in
      let bytes : wrapping_add c.bytes entry.size ≡ c.bytes + entry.size = omega arith in
      rw (e, bytes)
        (record {
          distinct = insert-Distinct ℕ_discrete id entry c.entries v.distinct;
          exact = omega (
            arith,
            total-insert_absent ℕ_discrete (λ (e : Entry). e.size) id entry c.entries new,
          );
          within_bytes = omega arith;
          within_records = omega (arith, length-insert_absent ℕ_discrete id entry c.entries new);
        })

  pub publish-Fits : (id : ℕ) (c : Catalog) → Fits config c → Fits config (publish id c)
  unfolding publish
  publish-Fits id c v = record {
    distinct = v.distinct;
    exact = v.exact;
    within_bytes = v.within_bytes;
    within_records = v.within_records;
  }

  pub claim-Fits : (seen : ℕ → Seen) (c : Catalog) → Fits config c → Fits config (claim seen c).1
  unfolding claim
  claim-Fits seen c v = record {
    distinct = v.distinct;
    exact = v.exact;
    within_bytes = v.within_bytes;
    within_records = v.within_records;
  }

  pub retry-Fits : (now id : ℕ) (c : Catalog) → Fits config c → Fits config (retry config now id c)
  unfolding retry
  retry-Fits now id c v = elim (Option-cases (get id c)) [
    | inl absent ↦ rw (absent, retry) v
    | inr (entry, found) ↦
        let later = record entry { due = now + from_secs config.retry_interval_secs } in
        rw (found, retry)
          (record {
            distinct = insert-Distinct ℕ_discrete id later c.entries v.distinct;
            exact = omega (
              arith,
              total-insert_present ℕ_discrete (λ (e : Entry). e.size) id later entry c.entries
                  found,
            );
            within_bytes = v.within_bytes;
            within_records =
                omega (arith, length-insert_present ℕ_discrete id later entry c.entries found);
          })
  ]

  forget_parts :
      (id : ℕ) (entry : Entry) (c : Catalog)
      → get id c ≡ some entry
      → Fits config c
      → Fits config (record c {
        entries = remove ℕ_discrete id c.entries;
        bytes = wrapping_sub c.bytes entry.size;
      })
  forget_parts id entry c found v =
      let rest : sizes (remove ℕ_discrete id c.entries) + entry.size ≡ sizes c.entries =
        total-remove ℕ_discrete (λ (e : Entry). e.size) id entry c.entries found in
      let bytes : wrapping_sub c.bytes entry.size ≡ c.bytes - entry.size = omega arith in
      record {
        distinct = remove-Distinct ℕ_discrete id c.entries v.distinct;
        exact = omega arith;
        within_bytes = omega arith;
        within_records = omega (arith, length-remove ℕ_discrete id entry c.entries found);
      }

  pub forget-Fits : (id : ℕ) (c : Catalog) → Fits config c → Fits config (forget id c)
  unfolding forget
  forget-Fits id c v = elim (Option-cases (get id c)) [
    | inl absent ↦ rw (absent, forget) v
    | inr (entry, found) ↦ rw (found, forget) (forget_parts id entry c found v)
  ]

  -- Moving a record of a well-formed catalog aside, whose file is no longer than its entry says,
  -- counts its file in place of its entry: the catalog stays well formed and within both limits,
  -- which validation allows.
  pub quarantine-Fits :
      (id size : ℕ) (e : Entry) (c : Catalog)
      → get id c ≡ some e
      → size ≤ e.size
      → Fits config c
      → Fits config (count_quarantined id size (forget id c))
  unfolding forget count_quarantined
  quarantine-Fits id size e c p q v =
      let f = forget_parts id e c p v in
      let shorter = length-remove ℕ_discrete id e c.entries p in
      let rest : sizes (remove ℕ_discrete id c.entries) + e.size ≡ sizes c.entries =
        total-remove ℕ_discrete (λ (e : Entry). e.size) id e c.entries p in
      rw (p, forget)
        (record {
          distinct = f.distinct;
          exact = f.exact;
          within_bytes = omega arith;
          within_records = omega arith;
        })
