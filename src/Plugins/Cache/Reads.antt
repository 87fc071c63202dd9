-- ===== src/Plugins/Cache/Reads.antt =====
-- crates/llmtrace/src/plugins/cache.rs: what `get` does to the cache.
use llmtrace.Base.{
  ℕ, ◌<◌, ◌≡◌, ◌≢◌, refl, List, [], ◌∷◌, ◌++◌, some, arith, ◌⊎◌, inl, inr, ◌∙◌, if◌then◌else◌, true,
  Bool-cases, ◌==◌,
}
use llmtrace.Base.Assoc.{
  remove, remove-Distinct, lookup-remove_self, lookup-remove_ne, length-remove-le,
}
use llmtrace.Base.Queue.{
  count, count-append, erase, without, contains, count-erase_self, count-erase_ne,
  count-without_self, count-without_ne, contains_of_count, count_of_contains,
}
use llmtrace.Plugins.Cache.{
  Digest, Digest-discrete, CachedValue, PluginCache, find, get_digest, get,
}
use llmtrace.Plugins.Cache.Eviction.{IsValid}

touch : Digest → List Digest → List Digest
touch d order =
    if contains Digest-discrete d order then erase Digest-discrete d order ++ d ∷ [] else order

count-touch :
    (q d : Digest) (order : List Digest)
    → count Digest-discrete q (touch d order) ≡ count Digest-discrete q order
unfolding touch count
count-touch q d order = elim (Bool-cases (contains Digest-discrete d order)) [
  | inr off ↦ rw off
  | inl on ↦ rw on (
      ground (
        arith,
        count_of_contains Digest-discrete d order on,
        count-append Digest-discrete q (erase Digest-discrete d order) (d ∷ []),
        count-erase_self Digest-discrete d order,
        count-erase_ne Digest-discrete d q order,
      ))
]

get_digest-state :
    (now : ℕ) (d : Digest) (c : PluginCache)
    → let after = (get_digest now d c).1.state in
      (after ≡ c.state)
      ⊎ (after ≡ record { entries = c.entries; order = touch d c.order })
      ⊎ (after ≡ record {
        entries = remove Digest-discrete d c.entries;
        order = without Digest-discrete d c.order;
      })
unfolding get_digest touch
get_digest-state now d c = ground arith

get_digest-IsValid :
    (now : ℕ) (d : Digest) (c : PluginCache)
    → IsValid c.capacity c.state
    → IsValid c.capacity (get_digest now d c).1.state
get_digest-IsValid now d c valid = elim (get_digest-state now d c) [
  | inl e ↦ rw e valid
  | inr (inl e) ↦ rw e (record {
    distinct = valid.distinct;
    mirrors = λ q. count-touch q d c.order ∙ valid.mirrors q;
    bounded = valid.bounded;
  })
  | inr (inr e) ↦ rw e (record {
    distinct = remove-Distinct Digest-discrete d c.entries valid.distinct;
    mirrors = λ q. elim (Digest-discrete q d) [
      | yes same ↦
          rw (same, lookup-remove_self Digest-discrete d c.entries valid.distinct)
            (count-without_self Digest-discrete d c.order)
      | no other ↦
          rw (lookup-remove_ne Digest-discrete c.entries other)
            (count-without_ne Digest-discrete d q c.order other ∙ valid.mirrors q)
    ];
    bounded = omega (arith, length-remove-le Digest-discrete d c.entries, valid.bounded);
  })
]

get_digest_other :
    (now : ℕ) (q d : Digest) (c : PluginCache)
    → q ≢ d
    → find q (get_digest now d c).1.state ≡ find q c.state
get_digest_other now q d c n = elim (get_digest-state now d c) [
  | inl e ↦ rw e
  | inr (inl e) ↦ rw e
  | inr (inr e) ↦ rw e (lookup-remove_ne Digest-discrete c.entries n)
]

module _ (sha256_hex : List ℕ → Digest) (c : PluginCache) (valid : IsValid c.capacity c.state) where
  pub get_fresh :
      (now : ℕ) (key : List ℕ) (e : CachedValue)
      → find (sha256_hex key) c.state ≡ some e
      → 0 < c.capacity
      → now < e.expires_at
      → let after = (get sha256_hex now key c).1 in
        (after.state ≡ record {
          entries = c.entries;
          order = erase Digest-discrete (sha256_hex key) c.order ++ sha256_hex key ∷ [];
        })
        × (after.capacity ≡ c.capacity)
  unfolding get get_digest
  get_fresh now key e found pos fresh =
      let listed : contains Digest-discrete (sha256_hex key) c.order ≡ true =
        contains_of_count Digest-discrete (sha256_hex key) c.order
          (omega (arith, rw found at (valid.mirrors (sha256_hex key)))) in
      ground arith

  -- `get` keeps a well-formed cache well formed: never more than `capacity` entries, and an order
  -- that holds exactly the stored keys, each once.
  pub get-IsValid : (now : ℕ) (key : List ℕ) → IsValid c.capacity (get sha256_hex now key c).1.state
  unfolding get
  get-IsValid now key = elim (Bool-cases (c.capacity == 0)) [
    | inl off ↦ simp off valid
    | inr on ↦ simp on (get_digest-IsValid now (sha256_hex key) c valid)
  ]

-- `get` never changes what is stored under another key.
pub get_other :
    (sha256_hex : List ℕ → Digest) (c : PluginCache) (now : ℕ) (key : List ℕ) (q : Digest)
    → q ≢ sha256_hex key
    → find q (get sha256_hex now key c).1.state ≡ find q c.state
unfolding get
get_other sha256_hex c now key q n = elim (Bool-cases (c.capacity == 0)) [
  | inl off ↦ simp off refl
  | inr on ↦ simp on (get_digest_other now q (sha256_hex key) c n)
]
