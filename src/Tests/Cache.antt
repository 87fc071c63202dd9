-- ===== src/Tests/Cache.antt =====
-- A cache of two entries, of crates/llmtrace/src/plugins/cache.rs; a key stands for its digest.
use llmtrace.Base.{
  ℕ, ◌+◌, ◌≡◌, ◌≢◌, ◌⊎◌, refl, List, [], ◌∷◌, none, some, length, arith, ltb, if◌then◌else◌, lookup,
  ℕ_discrete,
}
use llmtrace.Base.Assoc.{insert}
use llmtrace.Plugins.Cache.{
  Digest, Digest-discrete, PluginCache, find, get, put, effective_ttl, new, make_room, evict, store,
  rejects,
}
use llmtrace.Plugins.Cache.Eviction.{IsValid}
use llmtrace.Plugins.Cache.Effects.{new-IsValid, get-put, put-IsValid, put_other}
use llmtrace.Plugins.Cache.Reads.{get-IsValid, get_other}
use llmtrace.Plugins.Cache.Recency.{get-put-get}

abbrev digest : List ℕ → Digest
digest key = key

abbrev cache : PluginCache
cache = record {
  state = record { entries = []; order = [] };
  capacity = 2;
  default_ttl = 60000000000;
  metrics = record { hits = 0; misses = 0; stores = 0 };
}

abbrev key : List ℕ
key = b'k' ∷ []

abbrev other : List ℕ
other = b'o' ∷ []

abbrev third : List ℕ
third = b't' ∷ []

-- The cache with two keys, and no room.
abbrev full : PluginCache
full = (put digest 2 other (2 ∷ []) 0 (put digest 1 key (1 ∷ []) 0 cache).1).1

cache-IsValid : IsValid 2 cache.state
unfolding new
cache-IsValid = new-IsValid 2 60 (record { hits = 0; misses = 0; stores = 0 })

one-IsValid : IsValid 2 (put digest 1 key (1 ∷ []) 0 cache).1.state
one-IsValid = (put-IsValid digest cache cache-IsValid 1 key (1 ∷ []) 0).1

third-differs : key ≢ third
third-differs e = ground arith

other-differs : key ≢ other
other-differs e = ground arith

put-IsValid_example :
    let after = (put digest 1 key (1 ∷ []) 0 cache).1 in
    (after.capacity ≡ 2) × IsValid 2 after.state
put-IsValid_example = put-IsValid digest cache cache-IsValid 1 key (1 ∷ []) 0

full-IsValid : IsValid 2 full.state
unfolding put rejects
full-IsValid =
    (put-IsValid digest (put digest 1 key (1 ∷ []) 0 cache).1 one-IsValid 2 other (2 ∷ []) 0).1

-- A third key costs the first one.
put_other_example :
    let after = (put digest 3 third (3 ∷ []) 0 full).1 in
    (find key after.state ≡ find key full.state)
    ⊎ ((rest : List Digest) × (full.order ≡ key ∷ rest)
        × (length full.entries ≡ full.capacity)
        × (find third full.state ≡ none)
        × (find key after.state ≡ none))
unfolding put rejects
put_other_example = put_other digest full full-IsValid 3 third (3 ∷ []) 0 key third-differs

get-put_example :
    (get digest 5 key (put digest 1 key (1 ∷ []) 0 cache).1).0
    ≡ (if ltb 5 (1 + effective_ttl cache 0) then some (1 ∷ []) else none)
unfolding put rejects new
get-put_example = get-put digest cache 1 5 key (1 ∷ []) 0 refl

-- The read saves the first key, which was the least recently used one, from the third.
get-put-get_example :
    (get digest 8 key (put digest 6 third (3 ∷ []) 0 (get digest 5 key full).1).1).0
    ≡ (if ltb 8 60000000001 then some (1 ∷ []) else none)
unfolding put rejects new make_room evict store effective_ttl lookup insert Digest-discrete
    ℕ_discrete
get-put-get_example =
    get-put-get digest full full-IsValid 5 6 8 key third (3 ∷ []) 0
      (record { value = 1 ∷ []; expires_at = 60000000001 }) refl (omega arith) (omega arith)
      third-differs

get-IsValid_example : IsValid 2 (get digest 5 key full).1.state
unfolding put rejects
get-IsValid_example = get-IsValid digest full full-IsValid 5 key

get_other_example : find key (get digest 5 other full).1.state ≡ find key full.state
get_other_example = get_other digest full 5 other key other-differs
