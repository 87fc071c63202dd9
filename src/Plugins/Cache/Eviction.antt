-- ===== src/Plugins/Cache/Eviction.antt =====
-- crates/llmtrace/src/plugins/cache.rs: the cache's invariant, and what `put` drops to make room.
use llmtrace.Base.{
  ℕ, ◌≤◌, ◌<◌, ◌≡◌, refl, List, [], ◌∷◌, Option, none, some, lookup, arith, inl, inr, leb, length,
  Option-cases, Bool-cases,
}
use llmtrace.Base.Assoc.{
  remove, Distinct, insert-Distinct, remove-Distinct, lookup-insert_self, lookup-insert_ne,
  lookup-remove_self, lookup-remove_ne, length-insert_absent, length-insert_present, length-remove,
}
use llmtrace.Base.Queue.{count, count-append, erase, count-erase_self, count-erase_ne}
use llmtrace.Plugins.Cache.{
  Digest, Digest-discrete, CachedValue, CacheState, find, evict, make_room, store,
}

abbrev pub present : Option CachedValue → ℕ
present none = 0
present (some v) = 1

-- One entry for each key; the order holds exactly the keys, each once; at most `capacity` entries.
pub record IsValid (capacity : ℕ) (s : CacheState) : Type 0 where
  pub distinct : Distinct Digest-discrete s.entries
  pub mirrors : (d : Digest) → count Digest-discrete d s.order ≡ present (find d s)
  pub bounded : length s.entries ≤ capacity

evict_below :
    (capacity : ℕ) (order : List Digest) (entries : List (Digest × CachedValue))
    → length entries < capacity
    → evict capacity order entries ≡ record { entries = entries; order = order }
unfolding evict
evict_below capacity [] entries h = refl
evict_below capacity (d ∷ order) entries h = ground arith

evict_full :
    (capacity : ℕ) (d : Digest) (order : List Digest) (entries : List (Digest × CachedValue))
    (v : CachedValue)
    → lookup Digest-discrete d entries ≡ some v
    → length entries ≡ capacity
    → evict capacity (d ∷ order) entries
      ≡ record { entries = remove Digest-discrete d entries; order = order }
unfolding evict
evict_full capacity d order entries v p q =
    let shorter = length-remove Digest-discrete d v entries p in
    ground (arith, evict_below capacity order (remove Digest-discrete d entries))

-- A full cache has an oldest key.
oldest :
    (capacity : ℕ) (s : CacheState)
    → IsValid capacity s
    → 0 < capacity
    → length s.entries ≡ capacity
    → (d : Digest) × (rest : List Digest) × (v : CachedValue) × (s.order ≡ d ∷ rest)
      × (find d s ≡ some v)
unfolding lookup count
oldest capacity s valid pos full = go s.order s.entries refl refl
  where
    go :
        (order : List Digest) (entries : List (Digest × CachedValue))
        → s.order ≡ order
        → s.entries ≡ entries
        → (d : Digest) × (rest : List Digest) × (v : CachedValue) × (s.order ≡ d ∷ rest)
          × (find d s ≡ some v)
    go [] [] p q = absurd (ground arith)
    go [] ((d, v) ∷ m) p q = let both = rw (p, q) at (valid.mirrors d) in absurd (ground arith)
    go (d ∷ rest) entries p q = elim (Option-cases (find d s)) [
      | inr (v, e) ↦ (d, rest, v, p, e)
      | inl e ↦ let both = rw (p, e) at (valid.mirrors d) in absurd (ground arith)
    ]

-- What becomes of the cache when room is made for a new key.
pub data Room (capacity : ℕ) (s out : CacheState) : Type 0 where
  kept : length s.entries < capacity → out ≡ s → Room capacity s out
  evicted :
      (victim : Digest) (rest : List Digest) (v : CachedValue)
      → length s.entries ≡ capacity
      → s.order ≡ victim ∷ rest
      → find victim s ≡ some v
      → out ≡ record { entries = remove Digest-discrete victim s.entries; order = rest }
      → Room capacity s out

pub make_room-Room :
    (capacity : ℕ) (d : Digest) (s : CacheState)
    → 0 < capacity
    → IsValid capacity s
    → find d s ≡ none
    → Room capacity s (make_room capacity d s)
unfolding make_room
make_room-Room capacity d s pos valid new = elim (Bool-cases (leb capacity (length s.entries))) [
  | inr below ↦
      let small : length s.entries < capacity = ground arith in
      kept small (rw (new, make_room) (evict_below capacity s.order s.entries small))
  | inl above ↦
      let full : length s.entries ≡ capacity = ground (arith, valid.bounded) in
      let (victim, rest, v, p, e) = oldest capacity s valid pos full in
      evicted victim rest v full p e
        (rw (new, make_room, p) (evict_full capacity victim rest s.entries v e full))
]

pub Room-IsValid :
    {capacity : ℕ} {s out : CacheState}
    → IsValid capacity s
    → Room capacity s out
    → IsValid capacity out × (length out.entries < capacity)
unfolding count
Room-IsValid valid (kept small e) = (rw e valid, rw e small)
Room-IsValid {capacity} {s} valid (evicted victim rest v full p e out) =
    let shorter = length-remove Digest-discrete victim v s.entries e in
    rw out (
      record {
        distinct = remove-Distinct Digest-discrete victim s.entries valid.distinct;
        mirrors = λ q. elim (Digest-discrete q victim) [
          | yes same ↦
              let was = rw (p, e) at (valid.mirrors victim) in
              rw (same, lookup-remove_self Digest-discrete victim s.entries valid.distinct)
                (ground arith)
          | no other ↦
              let was = rw p at (valid.mirrors q) in
              rw (lookup-remove_ne Digest-discrete s.entries other) (ground arith)
        ];
        bounded = omega arith;
      },
      omega arith,
    )

pub store-IsValid :
    (capacity : ℕ) (d : Digest) (v : CachedValue) (s : CacheState)
    → IsValid capacity s
    → (find d s ≡ none → length s.entries < capacity)
    → IsValid capacity (store d v s)
unfolding store count
store-IsValid capacity d v s valid room = elim (Option-cases (find d s)) [
  | inl new ↦
      rw (new, store)
        (record {
          distinct = insert-Distinct Digest-discrete d v s.entries valid.distinct;
          mirrors = λ q. elim (Digest-discrete q d) [
            | yes same ↦
                let was = rw (same, new) at (valid.mirrors q) in
                rw (same, lookup-insert_self Digest-discrete d v s.entries)
                  (ground (arith, count-append Digest-discrete d s.order (d ∷ [])))
            | no other ↦
                rw (lookup-insert_ne Digest-discrete v s.entries other)
                  (ground (arith, count-append Digest-discrete q s.order (d ∷ []), valid.mirrors q))
          ];
          bounded = omega (arith, room new, length-insert_absent Digest-discrete d v s.entries new);
        })
  | inr (old, e) ↦
      rw (e, store)
        (record {
          distinct = insert-Distinct Digest-discrete d v s.entries valid.distinct;
          mirrors = λ q. elim (Digest-discrete q d) [
            | yes same ↦
                let was = rw e at (valid.mirrors d) in
                rw (same, lookup-insert_self Digest-discrete d v s.entries)
                  (ground (
                    arith,
                    count-append Digest-discrete d (erase Digest-discrete d s.order) (d ∷ []),
                    count-erase_self Digest-discrete d s.order,
                  ))
            | no other ↦ rw (lookup-insert_ne Digest-discrete v s.entries other) (
                ground (
                  arith,
                  count-append Digest-discrete q (erase Digest-discrete d s.order) (d ∷ []),
                  count-erase_ne Digest-discrete d q s.order other,
                  valid.mirrors q,
                ))
          ];
          bounded =
              omega
                (arith, valid.bounded, length-insert_present Digest-discrete d v old s.entries e);
        })
]
