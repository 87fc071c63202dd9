-- ===== src/Trace/Recorder/Accounts.antt =====
-- crates/llmtrace/src/trace.rs: the bytes reserved are those of the traces in the pipeline.
use llmtrace.Base.{
  ℕ, suc, max, ◌+◌, ◌≤◌, ◌<◌, ◌≡◌, refl, inl, inr, Bool, true, false, List, [], ◌∷◌, ◌++◌, Option,
  none, some, arith, leb, if◌then◌else◌, length, length-append, Option-cases,
}
use llmtrace.Base.Words.{word_mod, checked_add}
use llmtrace.Trace.Memory.{MemoryBudget, Reservation, new, reserve, release}
use llmtrace.Trace.Recorder.{
  QueuedTrace, Counters, Pipeline, spawn, record_event, Work, receives, spawns, ends, joins,
  records, works, drops_recorders, Reach, start, next,
}

unfoldable pub sum : List QueuedTrace → ℕ
sum [] = 0
sum (q ∷ qs) = q.reservation.bytes + sum qs

abbrev pub one : Option QueuedTrace → ℕ
one none = 0
one (some q) = q.reservation.bytes

sum-append : (xs ys : List QueuedTrace) → sum (xs ++ ys) ≡ sum xs + sum ys
unfolding sum
sum-append [] ys = omega arith
sum-append (x ∷ xs) ys = omega (arith, sum-append xs ys)

-- The counter of the budget is exact, and the bounds of the configuration are kept.
pub record IsAccounted (capacity workers limit : ℕ) (p : Pipeline) : Type 0 where
  pub capacity_fixed : p.queue_capacity ≡ max capacity 1
  pub workers_fixed : p.worker_count ≡ max workers 1
  pub limit_fixed : p.memory.limit ≡ max limit 1
  pub exact : p.memory.used ≡ sum p.queue + one p.received + sum p.running
  pub bounded : p.memory.used ≤ p.memory.limit
  pub queue_bounded : length p.queue ≤ p.queue_capacity
  pub workers_bounded : length p.running + p.ended ≤ p.worker_count

pub Work-IsAccounted :
    {capacity workers limit : ℕ} {p q : Pipeline}
    → limit < word_mod
    → Work p q
    → IsAccounted capacity workers limit p
    → IsAccounted capacity workers limit q
unfolding sum release
Work-IsAccounted {p = p} small (receives q queue e f) v =
    let total : sum p.queue ≡ q.reservation.bytes + sum queue = rw f refl in
    let none_yet : one p.received ≡ 0 = rw e refl in
    let size : length p.queue ≡ suc (length queue) = rw f refl in
    record {
      capacity_fixed = v.capacity_fixed;
      workers_fixed = v.workers_fixed;
      limit_fixed = v.limit_fixed;
      exact = omega arith;
      bounded = v.bounded;
      queue_bounded = omega arith;
      workers_bounded = v.workers_bounded;
    }
Work-IsAccounted {p = p} small (spawns q e h) v =
    let held : one p.received ≡ q.reservation.bytes = rw e refl in
    record {
      capacity_fixed = v.capacity_fixed;
      workers_fixed = v.workers_fixed;
      limit_fixed = v.limit_fixed;
      exact = omega arith;
      bounded = v.bounded;
      queue_bounded = v.queue_bounded;
      workers_bounded = omega arith;
    }
Work-IsAccounted {p = p} small (ends q xs ys e) v =
    let total : sum p.running ≡ q.reservation.bytes + sum (xs ++ ys) =
      rw e (omega (arith, sum-append xs ys, sum-append xs (q ∷ ys))) in
    let size : length p.running ≡ suc (length (xs ++ ys)) =
      rw e (omega (arith, length-append xs ys, length-append xs (q ∷ ys))) in
    record {
      capacity_fixed = v.capacity_fixed;
      workers_fixed = v.workers_fixed;
      limit_fixed = v.limit_fixed;
      exact = omega arith;
      bounded = omega arith;
      queue_bounded = v.queue_bounded;
      workers_bounded = omega arith;
    }
Work-IsAccounted {p = p} small (joins n e j) v = record {
  capacity_fixed = v.capacity_fixed;
  workers_fixed = v.workers_fixed;
  limit_fixed = v.limit_fixed;
  exact = v.exact;
  bounded = v.bounded;
  queue_bounded = v.queue_bounded;
  workers_bounded = omega arith;
}

-- A reservation adds its bytes, within the limit.
reserve-some :
    (b : MemoryBudget) (bytes : ℕ) (r : Reservation) (c : MemoryBudget)
    → reserve b bytes ≡ some (r, c)
    → (c.used ≡ b.used + r.bytes) × ((c.used ≤ b.limit) × (c.limit ≡ b.limit))
unfolding reserve checked_add
reserve-some b bytes r c h = ground arith

-- A refused trace leaves all but the counters; its reservation, if there was one, is released.
refused-IsAccounted :
    {capacity workers limit : ℕ} (counters : Counters) (dropped : ℕ) (m : MemoryBudget)
    (p : Pipeline)
    → m.used ≡ p.memory.used
    → m.limit ≡ p.memory.limit
    → IsAccounted capacity workers limit p
    → IsAccounted capacity workers limit
        (record p { memory = m; counters = counters; dropped = dropped })
refused-IsAccounted counters dropped m p used same v = record {
  capacity_fixed = v.capacity_fixed;
  workers_fixed = v.workers_fixed;
  limit_fixed = omega (arith, v.limit_fixed);
  exact = omega (arith, v.exact);
  bounded = omega (arith, v.bounded);
  queue_bounded = v.queue_bounded;
  workers_bounded = v.workers_bounded;
}

queued-IsAccounted :
    {capacity workers limit : ℕ} (counters : Counters) (event : ℕ) (r : Reservation)
    (m : MemoryBudget) (p : Pipeline)
    → m.used ≡ p.memory.used + r.bytes
    → m.used ≤ p.memory.limit
    → m.limit ≡ p.memory.limit
    → length p.queue < p.queue_capacity
    → IsAccounted capacity workers limit p
    → IsAccounted capacity workers limit (record p {
      memory = m;
      queue = p.queue ++ record { event = event; reservation = r } ∷ [];
      counters = counters;
    })
unfolding sum
queued-IsAccounted counters event r m p used fits same room v =
    let q : QueuedTrace = record { event = event; reservation = r } in
    record {
      capacity_fixed = v.capacity_fixed;
      workers_fixed = v.workers_fixed;
      limit_fixed = omega (arith, v.limit_fixed);
      exact = omega (arith, v.exact, sum-append p.queue (q ∷ []));
      bounded = omega (arith, v.bounded);
      queue_bounded = omega (arith, length-append p.queue (q ∷ []));
      workers_bounded = v.workers_bounded;
    }

if-IsAccounted :
    {capacity workers limit : ℕ} (b : Bool) {p q : Pipeline}
    → (b ≡ true → IsAccounted capacity workers limit p)
    → (b ≡ false → IsAccounted capacity workers limit q)
    → IsAccounted capacity workers limit (if b then p else q)
if-IsAccounted true f g = f refl
if-IsAccounted false f g = g refl

record_event-IsAccounted :
    {capacity workers limit : ℕ} (event bytes : ℕ) (p : Pipeline)
    → limit < word_mod
    → IsAccounted capacity workers limit p
    → IsAccounted capacity workers limit (record_event event bytes p)
unfolding record_event release
record_event-IsAccounted {limit = limit} event bytes p small v =
    elim (Option-cases (reserve p.memory bytes)) [
      | inl e ↦ rw (e, record_event) (refused-IsAccounted _ _ p.memory p refl refl v)
      | inr ((r, c), e) ↦
          let facts = reserve-some p.memory bytes r c e in
          let used : c.used ≡ p.memory.used + r.bytes = facts.0 in
          let fits : c.used ≤ p.memory.limit = facts.1.0 in
          let same : c.limit ≡ p.memory.limit = facts.1.1 in
          let word : c.used < word_mod = omega (arith, v.limit_fixed) in
          let back : (release r c).used ≡ p.memory.used = omega arith in
          rw (e, record_event)
            (if-IsAccounted p.closed (λ _. refused-IsAccounted _ _ (release r c) p back same v)
              (λ _.
                if-IsAccounted (leb p.queue_capacity (length p.queue))
                  (λ _. refused-IsAccounted _ _ (release r c) p back same v)
                  (λ free.
                    let room : length p.queue < p.queue_capacity = ground arith in
                    queued-IsAccounted _ event r c p used fits same room v)))
    ]

spawn-IsAccounted :
    (capacity workers limit : ℕ) → IsAccounted capacity workers limit (spawn capacity workers limit)
unfolding spawn sum new
spawn-IsAccounted capacity workers limit = record {
  capacity_fixed = refl;
  workers_fixed = refl;
  limit_fixed = refl;
  exact = refl;
  bounded = omega arith;
  queue_bounded = omega arith;
  workers_bounded = omega arith;
}

pub Reach-IsAccounted :
    {capacity workers limit : ℕ} {p : Pipeline}
    → limit < word_mod
    → Reach capacity workers limit p
    → IsAccounted capacity workers limit p
Reach-IsAccounted small start = spawn-IsAccounted _ _ _
Reach-IsAccounted small (next r (records event bytes open_still)) =
    record_event-IsAccounted event bytes _ small (Reach-IsAccounted small r)
Reach-IsAccounted small (next r (works w)) = Work-IsAccounted small w (Reach-IsAccounted small r)
Reach-IsAccounted small (next {p = p} r drops_recorders) =
    let v = Reach-IsAccounted small r in
    record {
      capacity_fixed = v.capacity_fixed;
      workers_fixed = v.workers_fixed;
      limit_fixed = v.limit_fixed;
      exact = v.exact;
      bounded = v.bounded;
      queue_bounded = v.queue_bounded;
      workers_bounded = v.workers_bounded;
    }
