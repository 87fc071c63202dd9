-- ===== src/Plugins/Cache/Effects.antt =====
-- crates/llmtrace/src/plugins/cache.rs: what `put` does to the cache and to later reads.
use llmtrace.Base.{
  ℕ, ◌+◌, ◌<◌, ◌≡◌, ◌≢◌, refl, List, ◌∷◌, none, some, arith, ◌⊎◌, inl, inr, ◌∙◌, lookup, ltb,
  length, Option-cases, if◌then◌else◌, true, false, Bool-cases, ◌==◌,
}
use llmtrace.Base.Assoc.{lookup-insert_self, lookup-insert_ne, lookup-remove_self, lookup-remove_ne}
use llmtrace.Plugins.Cache.{
  Digest, Digest-discrete, new, Metrics, CachedValue, CacheState, PluginCache, find, make_room,
  store, get_digest, get, put, rejects, effective_ttl,
}
use llmtrace.Base.Queue.{count}
use llmtrace.Plugins.Cache.Eviction.{
  IsValid, Room, kept, evicted, make_room-Room, Room-IsValid, store-IsValid,
}

accepted_capacity :
    (c : PluginCache) (key value : List ℕ) (ttl_secs : ℕ)
    → rejects c key value ttl_secs ≡ false
    → 0 < c.capacity
unfolding rejects
accepted_capacity c key value ttl_secs h = ground arith

room_found :
    (capacity : ℕ) (d : Digest) (v : CachedValue) (s : CacheState)
    → find d s ≡ some v
    → make_room capacity d s ≡ s
unfolding make_room
room_found capacity d v s e = rw (e, make_room)

find-store_self : (d : Digest) (v : CachedValue) (s : CacheState) → find d (store d v s) ≡ some v
unfolding store
find-store_self d v s = lookup-insert_self Digest-discrete d v s.entries

find-store_ne :
    (q d : Digest) (v : CachedValue) (s : CacheState) → q ≢ d → find q (store d v s) ≡ find q s
unfolding store
find-store_ne q d v s n = lookup-insert_ne Digest-discrete v s.entries n

stored-IsValid :
    (capacity : ℕ) (d : Digest) (v : CachedValue) (s : CacheState)
    → 0 < capacity
    → IsValid capacity s
    → IsValid capacity (store d v (make_room capacity d s))
stored-IsValid capacity d v s pos valid = elim (Option-cases (find d s)) [
  | inr (old, e) ↦
      rw (room_found capacity d old s e) (store-IsValid capacity d v s valid (λ n. cc (n, e)))
  | inl new ↦
      let (after, below) = Room-IsValid valid (make_room-Room capacity d s pos valid new) in
      store-IsValid capacity d v (make_room capacity d s) after (λ _. below)
]

-- A lookup of another key before and after a store.
stored_other :
    (capacity : ℕ) (q d : Digest) (v : CachedValue) (s : CacheState)
    → 0 < capacity
    → IsValid capacity s
    → q ≢ d
    → (find q (store d v (make_room capacity d s)) ≡ find q s)
      ⊎ ((rest : List Digest) × (s.order ≡ q ∷ rest)
          × (length s.entries ≡ capacity)
          × (find d s ≡ none)
          × (find q (store d v (make_room capacity d s)) ≡ none))
stored_other capacity q d v s pos valid n = elim (Option-cases (find d s)) [
  | inr (old, e) ↦ inl (rw (room_found capacity d old s e) (find-store_ne q d v s n))
  | inl new ↦ go (make_room-Room capacity d s pos valid new) new
]
  where
    out : CacheState
    out = make_room capacity d s

    go :
        Room capacity s out
        → find d s ≡ none
        → (find q (store d v out) ≡ find q s)
          ⊎ ((rest : List Digest) × (s.order ≡ q ∷ rest)
              × (length s.entries ≡ capacity)
              × (find d s ≡ none)
              × (find q (store d v out) ≡ none))
    go (kept small e) new = inl (find-store_ne q d v out n ∙ rw e)
    go (evicted victim rest w full p f e) new = elim (Digest-discrete q victim) [
      | no other ↦
          inl (find-store_ne q d v out n ∙ rw e (lookup-remove_ne Digest-discrete s.entries other))
      | yes same ↦ inr (
        rest,
        rw same p,
        full,
        new,
        find-store_ne q d v out n
            ∙ rw (e, same) (lookup-remove_self Digest-discrete victim s.entries valid.distinct),
      )
    ]

pub get_digest_found :
    (now : ℕ) (d : Digest) (c : PluginCache) (e : CachedValue)
    → find d c.state ≡ some e
    → (get_digest now d c).0 ≡ (if ltb now e.expires_at then some e.value else none)
unfolding get_digest
get_digest_found now d c e h = ground arith

-- A value that `put` has accepted is what a `get` of its key right after it returns until the
-- value's lifetime is over, and nothing is returned from then on. The lifetime is the default one
-- where 0 is given.
pub get-put :
    (sha256_hex : List ℕ → Digest) (c : PluginCache) (now later : ℕ) (key value : List ℕ)
    (ttl_secs : ℕ)
    → (put sha256_hex now key value ttl_secs c).0 ≡ true
    → (get sha256_hex later key (put sha256_hex now key value ttl_secs c).1).0
      ≡ (if ltb later (now + effective_ttl c ttl_secs) then some value else none)
unfolding put get
get-put sha256_hex c now later key value ttl_secs h =
    elim (Bool-cases (rejects c key value ttl_secs)) [
      | inl r ↦ absurd (ground arith)
      | inr a ↦
          let pos = accepted_capacity c key value ttl_secs a in
          let open_for : (c.capacity == 0) ≡ false = ground arith in
          simp (a, open_for)
            (get_digest_found later (sha256_hex key) _ _ (find-store_self (sha256_hex key) _ _))
    ]

-- The empty cache is well formed.
pub new-IsValid :
    (capacity default_ttl_secs : ℕ) (metrics : Metrics)
    → IsValid capacity (new capacity default_ttl_secs metrics).state
unfolding new count lookup
new-IsValid capacity default_ttl_secs metrics = record {
  distinct = tt;
  mirrors = λ d. refl;
  bounded = omega arith;
}

module _ (sha256_hex : List ℕ → Digest) (c : PluginCache) (valid : IsValid c.capacity c.state) where
  -- `put` keeps a well-formed cache well formed: never more than `capacity` entries, and an order
  -- that holds exactly the stored keys, each once. It does not change the capacity.
  pub put-IsValid :
      (now : ℕ) (key value : List ℕ) (ttl_secs : ℕ)
      → let after = (put sha256_hex now key value ttl_secs c).1 in
        (after.capacity ≡ c.capacity) × IsValid c.capacity after.state
  unfolding put
  put-IsValid now key value ttl_secs = elim (Bool-cases (rejects c key value ttl_secs)) [
    | inl r ↦ simp r (refl, valid)
    | inr a ↦ simp a (
      refl,
      stored-IsValid c.capacity (sha256_hex key) _ c.state
          (accepted_capacity c key value ttl_secs a) valid,
    )
  ]

  -- In a well-formed cache, `put` changes what is stored under its own key only, but that a new
  -- key in a full cache costs the least recently used one.
  pub put_other :
      (now : ℕ) (key value : List ℕ) (ttl_secs : ℕ) (q : Digest)
      → q ≢ sha256_hex key
      → let after = (put sha256_hex now key value ttl_secs c).1 in
        (find q after.state ≡ find q c.state)
        ⊎ ((rest : List Digest) × (c.order ≡ q ∷ rest)
            × (length c.entries ≡ c.capacity)
            × (find (sha256_hex key) c.state ≡ none)
            × (find q after.state ≡ none))
  unfolding put
  put_other now key value ttl_secs q n = elim (Bool-cases (rejects c key value ttl_secs)) [
    | inl r ↦ simp r (inl refl)
    | inr a ↦ simp a (
        stored_other c.capacity q (sha256_hex key) _ c.state
          (accepted_capacity c key value ttl_secs a) valid n)
  ]
