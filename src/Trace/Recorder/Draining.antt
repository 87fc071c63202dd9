-- ===== src/Trace/Recorder/Draining.antt =====
-- crates/llmtrace/src/trace.rs: the dispatcher and its workers bring every queued trace to an end.
use llmtrace.Base.{
  ℕ, zero, suc, ◌+◌, ◌*◌, ◌≤◌, ◌<◌, ◌≡◌, refl, ◌⊎◌, inl, inr, List, [], ◌∷◌, ◌++◌, Option, none,
  some, arith, length, leb, Bool-cases, length-append, Option-cases,
}
use llmtrace.Base.Words.{word_mod}
use llmtrace.Trace.Recorder.Accounts.{sum, one, IsAccounted, Work-IsAccounted, Reach-IsAccounted}
use llmtrace.Trace.Recorder.{
  QueuedTrace, Pipeline, Work, receives, spawns, ends, joins, full, Reach,
}

abbrev pub present : Option QueuedTrace → ℕ
present none = 0
present (some q) = 1

-- How much the dispatcher and its workers have yet to do.
unfoldable pub remaining : Pipeline → ℕ
remaining p = 4 * length p.queue + 3 * present p.received + 2 * length p.running + p.ended

-- A run of the dispatcher and its workers, with its length.
pub data Run : Pipeline → ℕ → Pipeline → Type 0 where
  stop : {p : Pipeline} → Run p 0 p
  more : {n : ℕ} {p q r : Pipeline} → Work p q → Run q n r → Run p (suc n) r

pub record IsIdle (p : Pipeline) : Type 0 where
  pub queue : p.queue ≡ []
  pub received : p.received ≡ none
  pub running : p.running ≡ []

Work-remaining : {p q : Pipeline} → Work p q → remaining q < remaining p
unfolding remaining
Work-remaining {p = p} (receives q queue e f) =
    let size : length p.queue ≡ suc (length queue) = rw f refl in
    let none_yet : present p.received ≡ 0 = rw e refl in omega arith
Work-remaining {p = p} (spawns q e h) = let held : present p.received ≡ 1 = rw e refl in omega arith
Work-remaining {p = p} (ends q xs ys e) =
    let size : length p.running ≡ suc (length (xs ++ ys)) =
      rw e (omega (arith, length-append xs ys, length-append xs (q ∷ ys))) in
    omega arith
Work-remaining (joins n e j) = omega arith

List-cases {ℓ} :
    {A : Type ℓ} (xs : List A) → (xs ≡ []) ⊎ ((x : A) × ((rest : List A) × (xs ≡ x ∷ rest)))
List-cases [] = inl refl
List-cases (x ∷ xs) = inr (x, (xs, refl))

ℕ-cases : (n : ℕ) → (n ≡ 0) ⊎ ((m : ℕ) × (n ≡ suc m))
ℕ-cases zero = inl refl
ℕ-cases (suc n) = inr (n, refl)

Work-worker_count : {p q : Pipeline} → Work p q → q.worker_count ≡ p.worker_count
Work-worker_count (receives q queue e f) = refl
Work-worker_count (spawns q e h) = refl
Work-worker_count (ends q xs ys e) = refl
Work-worker_count (joins n e j) = refl

-- With no worker running, a received trace is spawned, or an ended worker is joined.
progress_received :
    (p : Pipeline) (q : QueuedTrace)
    → 0 < p.worker_count
    → p.running ≡ []
    → p.received ≡ some q
    → (r : Pipeline) × Work p r
progress_received p q some_worker none_running e =
    let none : length p.running ≡ 0 = rw none_running refl in
    elim (Bool-cases (leb p.worker_count p.ended)) [
      | inl taken ↦
          let enough : p.worker_count ≤ p.ended = ground arith in
          elim (ℕ-cases p.ended) [
            | inl nothing ↦ ground arith
            | inr (n, f) ↦ (_, joins n f (full q e (omega arith)))
          ]
      | inr free ↦
          let less : p.ended < p.worker_count = ground arith in (_, spawns q e (omega arith))
    ]

-- Where something is left to do, somebody can do it.
Work-progress : (p : Pipeline) → 0 < p.worker_count → IsIdle p ⊎ ((q : Pipeline) × Work p q)
Work-progress p some_worker = elim (List-cases p.running) [
  | inr (q, (rest, e)) ↦ inr (_, ends q [] rest e)
  | inl none_running ↦ elim (Option-cases p.received) [
    | inr (q, e) ↦ inr (progress_received p q some_worker none_running e)
    | inl none_received ↦ elim (List-cases p.queue) [
      | inr (q, (rest, e)) ↦ inr (_, receives q rest none_received e)
      | inl empty ↦ inl (record { queue = empty; received = none_received; running = none_running })
    ]
  ]
]

-- A run that leads to an idle state, within a number of steps.
unfoldable pub DrainsWithin : ℕ → Pipeline → Type 0
DrainsWithin bound p = (n : ℕ) × ((n ≤ bound) × ((q : Pipeline) × (Run p n q × IsIdle q)))

DrainsWithin-more :
    (bound : ℕ) {p q : Pipeline} → Work p q → DrainsWithin bound q → DrainsWithin (suc bound) p
unfolding DrainsWithin
DrainsWithin-more bound w (n, (h, (r, (run, idle)))) =
    (suc n, (omega arith, (r, (more w run, idle))))

run_out : (fuel : ℕ) (p : Pipeline) → 0 < p.worker_count → remaining p ≤ fuel → DrainsWithin fuel p
unfolding DrainsWithin
run_out zero p some_worker h = elim (Work-progress p some_worker) [
  | inl idle ↦ (0, (omega arith, (p, (stop, idle))))
  | inr (q, w) ↦ let less : remaining q < remaining p = Work-remaining w in ground arith
]
run_out (suc fuel) p some_worker h = elim (Work-progress p some_worker) [
  | inl idle ↦ (0, (omega arith, (p, (stop, idle))))
  | inr (q, w) ↦
      let left : 0 < q.worker_count = rw (Work-worker_count w) some_worker in
      DrainsWithin-more fuel w (run_out fuel q left (omega (arith, Work-remaining w)))
]

Run-IsAccounted :
    {capacity workers limit n : ℕ} {p q : Pipeline}
    → limit < word_mod
    → Run p n q
    → IsAccounted capacity workers limit p
    → IsAccounted capacity workers limit q
Run-IsAccounted small stop v = v
Run-IsAccounted small (more w run) v = Run-IsAccounted small run (Work-IsAccounted small w v)

idle_used :
    {capacity workers limit : ℕ} {p : Pipeline}
    → IsAccounted capacity workers limit p
    → IsIdle p
    → p.memory.used ≡ 0
unfolding sum
idle_used {p = p} v idle =
    let a : sum p.queue ≡ 0 = rw idle.queue refl in
    let b : one p.received ≡ 0 = rw idle.received refl in
    let c : sum p.running ≡ 0 = rw idle.running refl in omega (arith, v.exact)

-- From every state that the recorder and its dispatcher reach, the dispatcher and its workers alone
-- have a run to a state in which no trace is queued, received or running and no byte is reserved.
-- It takes at most four steps for each queued trace, three for the received one, two for each
-- running worker and one for each that has ended. The limit is a usize, and a worker's trace ends.
pub Reach-drains :
    (capacity workers limit : ℕ) (p : Pipeline)
    → limit < word_mod
    → Reach capacity workers limit p
    → (n : ℕ) × ((n ≤ remaining p)
        × ((q : Pipeline) × (Run p n q × (IsIdle q × (q.memory.used ≡ 0)))))
unfolding DrainsWithin
Reach-drains capacity workers limit p small r =
    let v : IsAccounted capacity workers limit p = Reach-IsAccounted small r in
    let some_worker : 0 < p.worker_count = omega (arith, v.workers_fixed) in
    let (n, (h, (q, (run, idle)))) = run_out (remaining p) p some_worker (omega arith) in
    (n, (h, (q, (run, (idle, idle_used (Run-IsAccounted small run v) idle)))))
