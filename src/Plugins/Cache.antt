-- ===== src/Plugins/Cache.antt =====
-- crates/llmtrace/src/plugins/cache.rs: the bounded key/value store that plugins share. The clock
-- is an argument, in nanoseconds; SHA-256 of a key, as text, is a parameter.
pub mod Eviction
pub mod Effects
pub mod Reads
pub mod Recency
use llmtrace.Base.{
  ℕ, ◌+◌, ◌*◌, Bool, true, false, ◌||◌, List, [], ◌∷◌, ◌++◌, Option, none, some, lookup, ltb, leb,
  ◌==◌, if◌then◌else◌, length, ℕ_discrete,
}
use llmtrace.Base.Assoc.{insert, remove}
use llmtrace.Base.Queue.{erase, without, contains}

abbrev pub max_key_bytes : ℕ
max_key_bytes = 256

abbrev pub max_value_bytes : ℕ
max_value_bytes = 16 * 1024

abbrev pub max_entry_ttl_secs : ℕ
max_entry_ttl_secs = 3600

-- The digest of a key, as the bytes of its text.
abbrev pub Digest : Type 0
Digest = List ℕ

unfoldable pub Digest-discrete : Discrete Digest
Digest-discrete = hlevel ℕ_discrete

pub record CachedValue : Type 0 where
  pub value : List ℕ
  pub expires_at : ℕ

-- The front of `order` is the least recently used key.
pub record CacheState : Type 0 where
  pub entries : List (Digest × CachedValue)
  pub order : List Digest

-- The counters of `RuntimeMetrics` that the cache moves.
pub record Metrics : Type 0 where
  pub hits : ℕ
  pub misses : ℕ
  pub stores : ℕ

pub record PluginCache : Type 0 where
  pub state : CacheState
  pub open state use *
  pub capacity : ℕ
  pub default_ttl : ℕ
  pub metrics : Metrics

abbrev pub from_secs : ℕ → ℕ
from_secs s = s * 1000000000

unfoldable pub new : ℕ → ℕ → Metrics → PluginCache
new capacity default_ttl_secs metrics = record {
  state = record { entries = []; order = [] };
  capacity = capacity;
  default_ttl = from_secs default_ttl_secs;
  metrics = metrics;
}

abbrev pub find : Digest → CacheState → Option CachedValue
find d s = lookup Digest-discrete d s.entries

abbrev hit : Metrics → Metrics
hit m = record m { hits = m.hits + 1 }

abbrev miss : Metrics → Metrics
miss m = record m { misses = m.misses + 1 }

-- A hit goes to the back of the order; a stale entry goes.
unfoldable pub get_digest : ℕ → Digest → PluginCache → Option (List ℕ) × PluginCache
get_digest now d c = elim (find d c.state) [
  | none ↦ (none, record c { metrics = miss c.metrics })
  | some entry ↦
      if ltb now entry.expires_at
      then (
        some entry.value,
        record c {
          state = record {
            entries = c.entries;
            order =
                if contains Digest-discrete d c.order
                then erase Digest-discrete d c.order ++ d ∷ []
                else c.order;
          };
          metrics = hit c.metrics;
        },
      )
      else (
        none,
        record c {
          state = record {
            entries = remove Digest-discrete d c.entries;
            order = without Digest-discrete d c.order;
          };
          metrics = miss c.metrics;
        },
      )
]

-- The `while` loop of `put`.
unfoldable pub evict : ℕ → List Digest → List (Digest × CachedValue) → CacheState
evict capacity [] entries = record { entries = entries; order = [] }
evict capacity (d ∷ order) entries =
    if leb capacity (length entries)
    then evict capacity order (remove Digest-discrete d entries)
    else record { entries = entries; order = d ∷ order }

-- Room for a key that is not there.
unfoldable pub make_room : ℕ → Digest → CacheState → CacheState
make_room capacity d s = elim (find d s) [ none ↦ evict capacity s.order s.entries | some _ ↦ s ]

-- The insertion, and the key's place in the order.
unfoldable pub store : Digest → CachedValue → CacheState → CacheState
store d v s = record {
  entries = insert Digest-discrete d v s.entries;
  order = elim (find d s) [ none ↦ s.order | some _ ↦ erase Digest-discrete d s.order ] ++ d ∷ [];
}

unfoldable pub effective_ttl : PluginCache → ℕ → ℕ
effective_ttl c ttl_secs = if ttl_secs == 0 then c.default_ttl else from_secs ttl_secs

unfoldable pub rejects : PluginCache → List ℕ → List ℕ → ℕ → Bool
rejects c key value ttl_secs =
    c.capacity == 0
    || ltb max_key_bytes (length key)
    || ltb max_value_bytes (length value)
    || ltb max_entry_ttl_secs ttl_secs

module _ (sha256_hex : List ℕ → Digest) where
  unfoldable pub get : ℕ → List ℕ → PluginCache → Option (List ℕ) × PluginCache
  get now key c = if c.capacity == 0 then (none, c) else get_digest now (sha256_hex key) c

  unfoldable pub put : ℕ → List ℕ → List ℕ → ℕ → PluginCache → Bool × PluginCache
  put now key value ttl_secs c =
      let d = sha256_hex key in
      let entry : CachedValue = record {
        value = value;
        expires_at = now + effective_ttl c ttl_secs;
      } in
      if rejects c key value ttl_secs then (false, c) else (
        true,
        record c {
          state = store d entry (make_room c.capacity d c.state);
          metrics = record c.metrics { stores = c.metrics.stores + 1 };
        },
      )
