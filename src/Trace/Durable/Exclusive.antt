-- ===== src/Trace/Durable/Exclusive.antt =====
-- One worker for each record: crates/llmtrace/src/trace/durable.rs and journal.rs.
use llmtrace.Base.{
  ℕ, ◌+◌, ◌≡◌, ◌≢◌, refl, [], ◌∷◌, some, none, arith, ◌↔◌, ◌⊎◌, inl, inr, if◌then◌else◌, ◌==◌,
  lookup, ℕ_discrete, count, count-append, erase, count-erase, clash, true, false, ◌≤◌, List, ◌<◌,
}
use llmtrace.Base.Results.{ok}
use llmtrace.Trace.Journal.Disk.{RemoveOutcome}
use llmtrace.Trace.Journal.Catalog.{
  JournalConfig, Entry, Catalog, Seen, Claim, get, enter, claim, retry, forget,
}
use llmtrace.Trace.Journal.Claiming.{Known}
use llmtrace.Trace.Journal.Store.{Journal, empty, acknowledge}
use llmtrace.Trace.Durable.{System, start, In, jobs}
use llmtrace.Trace.Durable.Placement.{
  waiting, places, IsPlaced, HasDistinct, forget-get_self, forget-get_ne, forget-ready,
  Known-of_count, claim-ready, enter-get, retry-get, retry-ready,
}

pub start-IsPlaced : (id : ℕ) → IsPlaced start id
unfolding start empty count lookup
start-IsPlaced id = record {
  single = omega arith;
  absent = λ a h. omega arith;
  present = λ h. absurd (h refl);
  unused = λ h. omega arith;
  working = λ a. omega arith;
}

-- What a step that does not concern the id leaves as it is.
pub unchanged :
    (s t : System) (id : ℕ)
    → waiting t id ≡ waiting s id
    → count id t.claimed ≡ count id s.claimed
    → get id t.journal.catalog ≡ get id s.journal.catalog
    → (count id t.used ≡ 0 → count id s.used ≡ 0)
    → (t.aborted ≡ false → s.aborted ≡ false)
    → (s.aborted ≡ false → jobs s id ≤ count id s.claimed → jobs t id ≤ count id s.claimed)
    → IsPlaced s id
    → IsPlaced t id
unchanged s t id w c g u a j p = record {
  single = omega (arith, p.single);
  absent = λ going h. omega (arith, p.absent (a going) (ground arith));
  present = λ h. omega (arith, p.present (ground arith));
  unused = λ h. omega (arith, p.unused (u h));
  working = λ going. omega (arith, c, j (a going) (p.working (a going)));
}

pub enters-IsPlaced :
    (config : JournalConfig) (s : System) (id j : ℕ) (entry : Entry) (c : Catalog)
    → count j s.used ≡ 0
    → enter config j entry s.journal.catalog ≡ ok c
    → IsPlaced s id
    → IsPlaced
        (record s {
          journal = record { disk = s.journal.disk; catalog = c };
          writing = j ∷ s.writing;
          used = j ∷ s.used;
        })
        id
unfolding count
enters-IsPlaced config s id j entry c fresh e p =
    let (new, has, queue, other) = enter-get config j id entry s.journal.catalog c e in
    elim (ℕ_discrete id j) [
      | no n ↦
          unchanged s _ id (rw queue (ground arith)) refl (other n) (λ h. ground arith) (λ a. a)
            (λ a h. h) p
      | yes q ↦
          let nowhere : places s id ≡ 0 = p.unused (rw q fresh) in
          let here : count id (j ∷ s.writing) ≡ 1 + count id s.writing = ground arith in
          let queued : count id c.ready ≡ count id s.journal.catalog.ready = rw queue in
          record {
            single = omega arith;
            absent = λ a h. absurd (has (rw q at h));
            present = λ h. omega arith;
            unused = λ h. absurd (ground arith);
            working = p.working;
          }
    ]

pub drops-IsPlaced :
    (config : JournalConfig) (s : System) (id j now : ℕ)
    → In j s.claimed
    → (jobs s j ≡ 0) ⊎ (s.aborted ≡ true)
    → IsPlaced s id
    → IsPlaced
        (record s {
          journal = record {
            disk = s.journal.disk;
            catalog = retry config now j s.journal.catalog;
          };
          claimed = erase j s.claimed;
        })
        id
unfolding count
drops-IsPlaced config s id j now i idle p =
    let c = s.journal.catalog in
    let same : (get id c ≡ none) ↔ (get id (retry config now j c) ≡ none) =
      retry-get config now j id c in
    let taken : count id (erase j s.claimed) + (if id == j then 1 else 0) ≡ count id s.claimed =
      count-erase j id s.claimed i in
    let working : s.aborted ≡ false → jobs s id ≤ count id (erase j s.claimed) = λ a. elim idle [
      | inr b ↦ absurd (clash b a)
      | inl none_left ↦ elim (ℕ_discrete id j) [
        | yes q ↦ omega (arith, rw (← q) at none_left)
        | no n ↦ ground (arith, p.working a)
      ]
    ] in
    elim (retry-ready config now j c) [
      | inl (gone, queue) ↦
          let queued : count id (retry config now j c).ready ≡ count id c.ready = rw queue in
          record {
            single = omega (arith, p.single);
            absent = λ a h. omega (arith, p.absent a (same.1 h));
            present = λ h.
                let n : id ≢ j = λ q. h (same.0 (rw q gone)) in
                ground (arith, p.present (λ m. h (same.0 m)));
            unused = λ h. omega (arith, p.unused h);
            working = working;
          }
      | inr (kept, queue) ↦
          let queued : count id (retry config now j c).ready
              ≡ count id c.ready + (if id == j then 1 else 0) =
            rw queue (ground (arith, count-append id c.ready (j ∷ []))) in
          record {
            single = omega (arith, p.single);
            absent = λ a h.
                let n : id ≢ j = λ q. kept (rw q at (same.1 h)) in
                ground (arith, p.absent a (same.1 h));
            present = λ h. omega (arith, p.present (λ m. h (same.0 m)));
            unused = λ h. omega (arith, p.unused h);
            working = working;
          }
    ]

pub queue-Known :
    (s : System)
    → s.aborted ≡ false
    → ((i : ℕ) → IsPlaced s i)
    → Known s.journal.catalog.entries s.journal.catalog.ready
queue-Known s going all =
    Known-of_count s.journal.catalog.entries s.journal.catalog.ready
      (λ i h n. omega (arith, (all i).absent going n))

pub claims-IsPlaced :
    (s : System) (id : ℕ) (seen : ℕ → Seen) (k : Claim) (d : Catalog)
    → s.aborted ≡ false
    → ((i : ℕ) → IsPlaced s i)
    → claim seen s.journal.catalog ≡ (some k, d)
    → IsPlaced
        (record s {
          journal = record { disk = s.journal.disk; catalog = d };
          claimed = k.id ∷ s.claimed;
        })
        id
unfolding count
claims-IsPlaced s id seen k d going all e =
    let c = s.journal.catalog in
    let p = all id in
    let (before, after, whole, rest, entries) =
      claim-ready seen c d k (queue-Known s going all) e in
    let was : count id c.ready
        ≡ count id before + ((if id == k.id then 1 else 0) + count id after) =
      rw whole (count-append id before (k.id ∷ after)) in
    let now : count id d.ready ≡ count id after + count id before =
      rw rest (count-append id after before) in
    let same : get id d ≡ get id c = rw entries in
    record {
      single = omega (arith, p.single);
      absent = λ a h. omega (arith, p.absent a (rw same at h));
      present = λ h. omega (arith, p.present (λ n. h (rw same n)));
      unused = λ h. omega (arith, p.unused h);
      working = λ a. ground (arith, p.working a);
    }

-- The entry of an id goes, with its last place outside the workers; where `replay` is cancelled, the
-- id may stay in the queue.
pub forgets-IsPlaced :
    (s t : System) (id j : ℕ)
    → HasDistinct s
    → t.journal.catalog.entries ≡ (forget j s.journal.catalog).entries
    → (s.aborted ≡ false → id ≡ j → waiting t id ≡ 0)
    → waiting t id ≤ waiting s id
    → (id ≢ j → waiting t id ≡ waiting s id)
    → t.claimed ≡ s.claimed
    → t.used ≡ s.used
    → t.aborted ≡ s.aborted
    → jobs t id ≤ jobs s id
    → IsPlaced s id
    → IsPlaced t id
forgets-IsPlaced s t id j distinct entries here less there c u a w p =
    let claims : count id t.claimed ≡ count id s.claimed = rw c in
    elim (ℕ_discrete id j) [
      | no n ↦
          unchanged s t id (there n) claims (rw entries (forget-get_ne id j s.journal.catalog n))
            (λ h. rw u at h) (λ h. rw a at h) (λ b h. omega arith) p
      | yes q ↦
          let gone : get id t.journal.catalog ≡ none =
            rw (entries, q) (forget-get_self j s.journal.catalog distinct) in
          record {
            single = omega (arith, p.single);
            absent = λ b h. here (rw a at b) q;
            present = λ h. absurd (h gone);
            unused = λ h. omega (arith, p.unused (rw u at h));
            working = λ b. omega (arith, p.working (rw a at b));
          }
    ]

pub acknowledge-catalog :
    (outcome : RemoveOutcome) (id : ℕ) (j : Journal)
    → ((acknowledge outcome id j).1.catalog ≡ j.catalog)
      ⊎ ((acknowledge outcome id j).1.catalog ≡ forget id j.catalog)
unfolding acknowledge
acknowledge-catalog RemoveOutcome.remove_fails id j = inl refl
acknowledge-catalog RemoveOutcome.sync_directory_fails id j = inl refl
acknowledge-catalog RemoveOutcome.succeeds id j = inr refl

-- A file operation of a worker drops the entry of the record: no other task has it.
pub retires-IsPlaced :
    (s : System) (id j : ℕ) (after : Journal) (acknowledging quarantining : List ℕ)
    → HasDistinct s
    → 0 < jobs s j
    → count id acknowledging + count id quarantining ≤ jobs s id
    → (after.catalog ≡ s.journal.catalog)
      ⊎ ((after.catalog.entries ≡ (forget j s.journal.catalog).entries)
          × (after.catalog.ready ≡ (forget j s.journal.catalog).ready))
    → IsPlaced s id
    → IsPlaced
        (record s { journal = after; acknowledging = acknowledging; quarantining = quarantining })
        id
retires-IsPlaced s id j after acknowledging quarantining distinct i fewer (inl e) p =
    let queued : count id after.catalog.ready ≡ count id s.journal.catalog.ready = rw e in
    unchanged s _ id (omega arith) refl (rw e) (λ h. h) (λ a. a) (λ a h. omega arith) p
retires-IsPlaced s id j after acknowledging quarantining distinct i fewer (inr (entries, ready)) p =
    let queued : count id after.catalog.ready ≡ count id s.journal.catalog.ready =
      rw (ready, forget-ready j s.journal.catalog) in
    forgets-IsPlaced s _ id j distinct entries
      (λ a q. let busy : 0 < jobs s id = rw q i in omega (arith, p.single, p.working a))
      (omega arith) (λ n. omega arith) refl refl refl fewer p

pub gives_up-IsPlaced :
    (s : System) (id j : ℕ) (after : Journal)
    → HasDistinct s
    → In j s.failed
    → after.catalog.entries ≡ (forget j s.journal.catalog).entries
    → after.catalog.ready ≡ (forget j s.journal.catalog).ready
    → IsPlaced s id
    → IsPlaced (record s { journal = after; failed = erase j s.failed }) id
gives_up-IsPlaced s id j after distinct i entries ready p =
    let queued : count id after.catalog.ready ≡ count id s.journal.catalog.ready =
      rw (ready, forget-ready j s.journal.catalog) in
    let less : count id (erase j s.failed) + (if id == j then 1 else 0) ≡ count id s.failed =
      count-erase j id s.failed i in
    forgets-IsPlaced s _ id j distinct entries (λ a q. ground (arith, p.single)) (omega arith)
      (λ n. ground arith) refl refl refl (omega arith) p
