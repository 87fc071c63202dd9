-- ===== src/Plugins/Cache/Recency.antt =====
-- crates/llmtrace/src/plugins/cache.rs: a value that was read is kept.
use llmtrace.Base.{
  ℕ, ◌≤◌, ◌<◌, ◌≡◌, ◌≢◌, refl, List, [], ◌∷◌, ◌++◌, none, some, arith, inl, inr, ◌∙◌, if◌then◌else◌,
  false, ap, lookup, length, ltb, ◌==◌, Option-cases,
}
use llmtrace.Base.Assoc.{Distinct}
use llmtrace.Base.Queue.{count, erase, count-append}
use llmtrace.Plugins.Cache.{
  Digest, Digest-discrete, CachedValue, PluginCache, CacheState, find, get, put,
}
use llmtrace.Plugins.Cache.Eviction.{IsValid}
use llmtrace.Plugins.Cache.Effects.{put_other, put-IsValid, get_digest_found}
use llmtrace.Plugins.Cache.Reads.{get_fresh, get-IsValid}

only_key :
    (q : Digest) (entries : List (Digest × CachedValue))
    → Distinct Digest-discrete entries
    → ((k : Digest) → lookup Digest-discrete k entries ≢ none → k ≡ q)
    → length entries ≤ 1
unfolding lookup
only_key q [] d h = omega arith
only_key q (e ∷ []) d h = omega arith
only_key q (e ∷ f ∷ m) d h =
    let first : e.0 ≡ q = h e.0 (ground arith) in
    let second : f.0 ≡ q = h f.0 (ground arith) in absurd (ground (arith, d.0))

-- Where the front of the order is also its back, it is the only key.
front_is_back :
    (q : Digest) (before rest : List Digest)
    → before ++ q ∷ [] ≡ q ∷ rest
    → count Digest-discrete q (before ++ q ∷ []) ≤ 1
    → before ≡ []
unfolding count
front_is_back q [] rest e h = refl
front_is_back q (x ∷ before) rest e h =
    let same : x ≡ q = cc in absurd (ground (arith, count-append Digest-discrete q before (q ∷ [])))

listed_once :
    (capacity : ℕ) (k : Digest) (s : CacheState)
    → IsValid capacity s
    → count Digest-discrete k s.order ≤ 1
listed_once capacity k s valid = elim (Option-cases (find k s)) [
  | inl e ↦ omega (arith, rw e at (valid.mirrors k))
  | inr (v, e) ↦ omega (arith, rw e at (valid.mirrors k))
]

unlisted_none :
    (capacity : ℕ) (k : Digest) (s : CacheState)
    → IsValid capacity s
    → count Digest-discrete k s.order ≡ 0
    → find k s ≡ none
unlisted_none capacity k s valid h = elim (Option-cases (find k s)) [
  | inl e ↦ e
  | inr (v, e) ↦ absurd (omega (arith, h, rw e at (valid.mirrors k)))
]

-- Where the back of the order is also its front, there is no other key.
alone :
    (capacity : ℕ) (q : Digest) (before rest : List Digest) (s : CacheState)
    → IsValid capacity s
    → s.order ≡ before ++ q ∷ []
    → s.order ≡ q ∷ rest
    → length s.entries ≤ 1
unfolding count
alone capacity q before rest s valid e f = only_key q s.entries valid.distinct (λ k there.
    elim (Digest-discrete k q) [
      | yes same ↦ same
      | no other ↦
          let once : count Digest-discrete q s.order ≤ 1 = listed_once capacity q s valid in
          let none_before : before ≡ [] = front_is_back q before rest (cc (e, f)) (rw e at once) in
          let unlisted : count Digest-discrete k s.order ≡ 0 = rw (e, none_before) (ground arith) in
          absurd (there (unlisted_none capacity k s valid unlisted))
    ])

read_found :
    (sha256_hex : List ℕ → Digest) (now : ℕ) (key : List ℕ) (e : CachedValue) (c : PluginCache)
    → 0 < c.capacity
    → find (sha256_hex key) c.state ≡ some e
    → (get sha256_hex now key c).0 ≡ (if ltb now e.expires_at then some e.value else none)
unfolding get
read_found sha256_hex now key e c pos found =
    let open_for : (c.capacity == 0) ≡ false = ground arith in
    simp open_for (get_digest_found now (sha256_hex key) c e found)

module _ (sha256_hex : List ℕ → Digest) (c : PluginCache) (valid : IsValid c.capacity c.state) where
  -- In a well-formed cache with room for two entries, a `get` that finds a fresh value protects it
  -- from the next `put` of another key, also where the cache is full and the key was the least
  -- recently used one: a later `get` returns the value until its lifetime is over, and nothing from
  -- then on.
  pub get-put-get :
      (now between later : ℕ) (key other value : List ℕ) (ttl_secs : ℕ) (e : CachedValue)
      → find (sha256_hex key) c.state ≡ some e
      → 1 < c.capacity
      → now < e.expires_at
      → sha256_hex key ≢ sha256_hex other
      → (get sha256_hex later key
          (put sha256_hex between other value ttl_secs (get sha256_hex now key c).1).1).0
        ≡ (if ltb later e.expires_at then some e.value else none)
  get-put-get now between later key other value ttl_secs e found room fresh n =
      let q = sha256_hex key in
      let read : PluginCache = (get sha256_hex now key c).1 in
      let written : PluginCache = (put sha256_hex between other value ttl_secs read).1 in
      let (state, capacity) = get_fresh sha256_hex c valid now key e found (omega arith) fresh in
      let well : IsValid read.capacity read.state =
        rw capacity (get-IsValid sha256_hex c valid now key) in
      let order : read.state.order ≡ erase Digest-discrete q c.order ++ q ∷ [] =
        ap (λ s. s.order) state in
      let entries : read.state.entries ≡ c.entries = ap (λ s. s.entries) state in
      let size : written.capacity ≡ read.capacity =
        (put-IsValid sha256_hex read well between other value ttl_secs).0 in
      let kept : find q written.state ≡ some e =
        elim (put_other sha256_hex read well between other value ttl_secs q n) [
          | inl same ↦ same ∙ rw entries found
          | inr (rest, front, full, _, _) ↦
              absurd (omega (arith, alone read.capacity q _ rest read.state well order front))
        ] in
      read_found sha256_hex later key e written (omega arith) kept
