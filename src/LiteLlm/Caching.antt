-- ===== src/LiteLlm/Caching.antt =====
-- crates/litellm-user-plugin/src/lib.rs: a cached answer gives the output of the lookups.
use llmtrace.Base.{
  ℕ, ◌≡◌, refl, ◌∙◌, inl, inr, true, List, [], ◌++◌, Option, none, some, arith, Option-cases,
  eq_bytes,
}
use llmtrace.Base.Text.{Str, text, utf8}
use llmtrace.Base.Json.{lt_text, Value, Map, get, insert}
use llmtrace.LiteLlm.Texts.{nonempty, percent_encode}
use llmtrace.LiteLlm.Documents.{
  emit_cached, compatible, key_fields, user_fields, Resolution, base_fields, cache_document,
}
use llmtrace.LiteLlm.Identity.{
  Host, user_info_path, key_info_path, user_info, after_user, resolve_key, finish, cached_identity,
  lookup_json, resolve_user, resolve, identify, key_hash_of, identity, credential_of,
  upstream_origin,
}
use llmtrace.LiteLlm.Cacheable.{
  Grows, IsCacheable, emit_cached-cache_document, Grows-base, Grows-key_fields, Grows-user_fields,
  user_nonempty,
}

after_user-IsCacheable :
    (base : Map) (user : Str) (fields : Map) (warnings : List Str) (info : Option Map)
    → warnings ≡ []
    → nonempty (some user) ≡ some user
    → Grows base fields
    → ((m : Map) → Grows base (user_fields m fields).0)
    → (after_user user fields warnings info).complete ≡ true
    → IsCacheable base (after_user user fields warnings info)
unfolding after_user
after_user-IsCacheable base user fields warnings none quiet u g more h = cc
after_user-IsCacheable base user fields warnings (some info) quiet u g more h = record {
  user = u;
  quiet = quiet;
  fields = more info;
}

incomplete :
    (user : Str) (fields : Map) (warnings : List Str)
    → (after_user user fields warnings none).complete ≡ true
    → warnings ≡ []
unfolding after_user
incomplete user fields warnings h = cc

answered-IsCacheable :
    (base : Map) (user : Str) (fields : Map) (warnings : List Str) (document : Option Value)
    → ((d : Value) → document ≡ some d → warnings ≡ [])
    → nonempty (some user) ≡ some user
    → Grows base fields
    → ((m : Map) → Grows base (user_fields m fields).0)
    → (after_user user fields warnings (user_info document)).complete ≡ true
    → IsCacheable base (after_user user fields warnings (user_info document))
answered-IsCacheable base user fields warnings none quiet u g more h =
    after_user-IsCacheable base user fields warnings none (incomplete user fields warnings h) u g
      more h
answered-IsCacheable base user fields warnings (some d) quiet u g more h =
    after_user-IsCacheable base user fields warnings (user_info (some d)) (quiet d refl) u g more h

module _ {W : Type 0} (host : Host W) where
  -- A lookup that found a document warned of nothing.
  lookup_json-quiet :
      (url what : Str) (warnings : List Str) (w : W) (document : Value)
      → (lookup_json host url what warnings w).0 ≡ some document
      → (lookup_json host url what warnings w).1.0 ≡ warnings
  unfolding lookup_json
  lookup_json-quiet url what warnings w document h = ground arith

  resolve_user-IsCacheable :
      (base : Map) (origin user : Str) (fields : Map) (w : W)
      → nonempty (some user) ≡ some user
      → Grows base fields
      → ((m : Map) → Grows base (user_fields m fields).0)
      → (resolve_user host origin user fields [] w).0.complete ≡ true
      → IsCacheable base (resolve_user host origin user fields [] w).0
  unfolding resolve_user
  resolve_user-IsCacheable base origin user fields w u g more h =
      let url = origin ++ user_info_path ++ text "?user_id=" ++ percent_encode user in
      let found = lookup_json host url (text "litellm user lookup") [] w in
      answered-IsCacheable base user fields found.1.0 found.0
        (lookup_json-quiet url (text "litellm user lookup") [] w) u g more h

  resolve_key-IsCacheable :
      (key_hash origin : Str) (document : Value) (w : W)
      → (resolve_key host key_hash origin (some document) [] w).0.complete ≡ true
      → IsCacheable (base_fields key_hash) (resolve_key host key_hash origin (some document) [] w).0
  unfolding resolve_key
  resolve_key-IsCacheable key_hash origin document w h =
      let fields = (key_fields document (base_fields key_hash)).0 in
      let grows = Grows-key_fields key_hash document in
      let u = user_nonempty document (base_fields key_hash) in
      elim (Option-cases (key_fields document (base_fields key_hash)).1) [
        | inl e ↦ rw (resolve_key, e) (record { user = refl; quiet = refl; fields = grows })
        | inr (user, e) ↦
            rw (resolve_key, e)
              (resolve_user-IsCacheable (base_fields key_hash) origin user fields w (rw e at u)
                grows (λ m. Grows-user_fields key_hash m fields grows) (rw (resolve_key, e) at h))
      ]

  key_resolution-IsCacheable :
      (key_hash origin : Str) (document : Option Value) (warnings : List Str) (w : W)
      → ((d : Value) → document ≡ some d → warnings ≡ [])
      → (resolve_key host key_hash origin document warnings w).0.complete ≡ true
      → IsCacheable (base_fields key_hash) (resolve_key host key_hash origin document warnings w).0
  unfolding resolve_key
  key_resolution-IsCacheable key_hash origin none warnings w quiet h = cc
  key_resolution-IsCacheable key_hash origin (some document) warnings w quiet h =
      let none_yet = quiet document refl in
      rw none_yet (resolve_key-IsCacheable key_hash origin document w (rw none_yet at h))

  resolve-IsCacheable :
      (key_hash origin : Str) (w : W)
      → (resolve host key_hash origin w).0.complete ≡ true
      → IsCacheable (base_fields key_hash) (resolve host key_hash origin w).0
  unfolding resolve
  resolve-IsCacheable key_hash origin w h =
      let url = origin ++ key_info_path ++ text "?key=" ++ key_hash in
      let found = lookup_json host url (text "litellm key lookup") [] w in
      key_resolution-IsCacheable key_hash origin found.0 found.1.0 found.1.1
        (lookup_json-quiet url (text "litellm key lookup") [] w) h

  compatible-cache_document : (r : Resolution) → compatible (cache_document r) ≡ true
  unfolding cache_document get insert eq_bytes lt_text
  compatible-cache_document r = refl

  cached_identity-hit :
      (key : List ℕ) (bytes : List ℕ) (r : Resolution) (w : W)
      → (host.cache_get key w).0 ≡ some bytes
      → host.from_slice bytes ≡ some (cache_document r)
      → (cached_identity host key w).0 ≡ some (cache_document r)
  unfolding cached_identity
  cached_identity-hit key bytes r w stored decoded =
      simp (stored, decoded, compatible-cache_document r)

  identify-cached :
      (key_hash : Str) (origin : Option Str) (document : Value) (w : W)
      → (cached_identity host (utf8 key_hash) w).0 ≡ some document
      → identify host key_hash origin w
        ≡ (emit_cached document (base_fields key_hash) [] [], (host.cache_get (utf8 key_hash) w).1)
  unfolding cached_identity identify emit_cached utf8
  identify-cached key_hash origin document w h = rw (identify, h) refl

  identify-fresh :
      (key_hash origin : Str) (w : W)
      → (cached_identity host (utf8 key_hash) w).0 ≡ none
      → identify host key_hash (some origin) w
        ≡ finish host key_hash
            (resolve host key_hash origin (cached_identity host (utf8 key_hash) w).1)
  unfolding identify
  identify-fresh key_hash origin w h = rw (identify, h) refl

  identity-identify :
      (input : Value) (credential : Str × Str) (w : W)
      → credential_of input ≡ some credential
      → identity host input w
        ≡ identify host (key_hash_of host credential) (upstream_origin input) w
  unfolding identity
  identity-identify input credential w h = rw (identity, h) refl

  -- The resolution of a run that finds nothing in the cache.
  abbrev pub fresh : Str → Str → W → Resolution
  fresh key_hash origin w =
      (resolve host key_hash origin (cached_identity host (utf8 key_hash) w).1).0

  -- Where a run has found a credential and an origin and nothing readable in the cache, and has
  -- resolved the identity completely, a later run on the same input whose cache gives bytes that
  -- decode to the document of that resolution has the same output, without a lookup.
  pub identity-hit :
      (input : Value) (credential : Str × Str) (origin : Str) (w later : W) (bytes : List ℕ)
      → credential_of input ≡ some credential
      → upstream_origin input ≡ some origin
      → (cached_identity host (utf8 (key_hash_of host credential)) w).0 ≡ none
      → (fresh (key_hash_of host credential) origin w).complete ≡ true
      → (host.cache_get (utf8 (key_hash_of host credential)) later).0 ≡ some bytes
      → host.from_slice bytes ≡ some (cache_document (fresh (key_hash_of host credential) origin w))
      → identity host input later
        ≡ ((identity host input w).0, (host.cache_get (utf8 (key_hash_of host credential)) later).1)
  unfolding finish
  identity-hit input credential origin w later bytes c o miss complete stored decoded =
      let key_hash = key_hash_of host credential in
      let after = (cached_identity host (utf8 key_hash) w).1 in
      let r = fresh key_hash origin w in
      let hit = cached_identity-hit (utf8 key_hash) bytes r later stored decoded in
      let same =
        emit_cached-cache_document (base_fields key_hash) r (Grows-base key_hash).sorted
          (resolve-IsCacheable key_hash origin after complete) in
      let first : identity host input w
          ≡ finish host key_hash (resolve host key_hash origin after) =
        identity-identify input credential w c ∙ rw o (identify-fresh key_hash origin w miss) in
      let second =
        identity-identify input credential later c
        ∙ identify-cached key_hash (upstream_origin input) (cache_document r) later hit in
      rw (second, first, same) refl
