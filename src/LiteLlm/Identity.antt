-- ===== src/LiteLlm/Identity.antt =====
-- crates/litellm-user-plugin/src/lib.rs: the run of the plugin.
use llmtrace.Base.{
  ℕ, true, false, not, List, [], ◌∷◌, ◌++◌, Option, none, some, ◌==◌, if◌then◌else◌,
}
use llmtrace.Base.Text.{Str, text, utf8, decimal}
use llmtrace.Base.Json.{Value, Map, end, member, as_str, as_object}
use llmtrace.LiteLlm.Texts.{
  and_then, or_empty, find_credential, bare_key, origin_of, percent_encode,
}
use llmtrace.LiteLlm.Documents.{
  hook_output, emit_cached, compatible, key_fields, user_fields, Resolution, base_fields,
  cache_document,
}

abbrev pub key_info_path : Str
key_info_path = text "/key/info"

abbrev pub user_info_path : Str
user_info_path = text "/user/info"

abbrev pub identity_cache_ttl_secs : ℕ
identity_cache_ttl_secs = 3600

pub record LookupResponse : Type 0 where
  pub status : ℕ
  pub body : Str

-- What the plugin uses of its host (`http_get`, `cache_get`, `cache_put`), of the digest and of
-- serde_json; `from_str` reads the bytes of a text.
pub record Host (W : Type 0) : Type 0 where
  pub http_get : Str → List (Str × Str) → W → Option LookupResponse × W
  pub cache_get : List ℕ → W → Option (List ℕ) × W
  pub cache_put : List ℕ → List ℕ → ℕ → W → W
  pub digest : List ℕ → List ℕ
  pub hex_encode : List ℕ → Str
  pub from_slice : List ℕ → Option Value
  pub to_string : Value → Str

abbrev pub check_compatible : Value → Option Value
check_compatible document = if compatible document then some document else none

-- `document.get("user_info").and_then(Value::as_object)`.
abbrev pub user_info : Option Value → Option Map
user_info document = and_then (and_then document (member (text "user_info"))) as_object

abbrev pub credential_of : Value → Option (Str × Str)
credential_of input = and_then (and_then (member (text "headers") input) as_object) find_credential

abbrev pub upstream_origin : Value → Option Str
upstream_origin input = origin_of (or_empty (and_then (member (text "upstream_url") input) as_str))

-- The resolution after the user lookup.
unfoldable pub after_user : Str → Map → List Str → Option Map → Resolution
after_user user_id fields warnings none = record {
  user_id = some user_id;
  user_name = none;
  custom_fields = fields;
  tags = [];
  warnings = warnings;
  complete = false;
}
after_user user_id fields warnings (some info) = record {
  user_id = some user_id;
  user_name = (user_fields info fields).1;
  custom_fields = (user_fields info fields).0;
  tags = [];
  warnings = warnings;
  complete = true;
}

module _ {W : Type 0} (host : Host W) where
  unfoldable pub cached_identity : List ℕ → W → Option Value × W
  cached_identity key w =
      let (stored, after) = host.cache_get key w in
      (and_then (and_then stored host.from_slice) check_compatible, after)

  unfoldable pub lookup_json : Str → Str → List Str → W → Option Value × (List Str × W)
  lookup_json url what warnings w =
      let (answer, after) = host.http_get url [] w in
      elim answer [
        | none ↦ (none, (warnings ++ (what ++ text " failed") ∷ [], after))
        | some response ↦
            if not (response.status == 200)
            then (
              none,
              (
                warnings ++ (what ++ text " returned status " ++ decimal response.status) ∷ [],
                after,
              ),
            )
            else elim (host.from_slice (utf8 response.body)) [
              | none ↦
                  (none, (warnings ++ (what ++ text " returned an unparseable body") ∷ [], after))
              | some document ↦ (some document, (warnings, after))
            ]
      ]

  -- For a key that has a user.
  unfoldable pub resolve_user : Str → Str → Map → List Str → W → Resolution × W
  resolve_user origin user_id fields warnings w =
      let url = origin ++ user_info_path ++ text "?user_id=" ++ percent_encode user_id in
      let (document, (warned, after)) = lookup_json url (text "litellm user lookup") warnings w in
      (after_user user_id fields warned (user_info document), after)

  -- The resolution from the answer to the key lookup on.
  unfoldable pub resolve_key : Str → Str → Option Value → List Str → W → Resolution × W
  resolve_key key_hash origin none warnings w = (
    record {
      user_id = none;
      user_name = none;
      custom_fields = base_fields key_hash;
      tags = text "litellm_identity_lookup_failed" ∷ [];
      warnings = warnings;
      complete = false;
    },
    w,
  )
  resolve_key key_hash origin (some document) warnings w =
      let (fields, user) = key_fields document (base_fields key_hash) in
      elim user [
        | none ↦ (
          record {
            user_id = none;
            user_name = none;
            custom_fields = fields;
            tags = text "litellm_key_without_user" ∷ [];
            warnings = warnings;
            complete = true;
          },
          w,
        )
        | some user_id ↦ resolve_user origin user_id fields warnings w
      ]

  unfoldable pub resolve : Str → Str → W → Resolution × W
  resolve key_hash origin w =
      let url = origin ++ key_info_path ++ text "?key=" ++ key_hash in
      let (document, (warnings, after)) = lookup_json url (text "litellm key lookup") [] w in
      resolve_key key_hash origin document warnings after

  -- The end of the run: what is complete is cached.
  unfoldable pub finish : Str → Resolution × W → Value × W
  finish key_hash (r, w) = (
    hook_output r.user_id r.user_name r.custom_fields r.tags r.warnings,
    if r.complete
        then host.cache_put (utf8 key_hash) (utf8 (host.to_string (cache_document r)))
            identity_cache_ttl_secs w
        else w,
  )

  unfoldable pub no_origin : Str → Value
  no_origin key_hash =
      hook_output none none (base_fields key_hash) []
        (text "litellm plugin could not derive an origin from upstream_url" ∷ [])

  -- The run once the credential is found.
  unfoldable pub identify : Str → Option Str → W → Value × W
  identify key_hash origin w =
      let (cached, after) = cached_identity (utf8 key_hash) w in
      elim cached [
        | some document ↦ (emit_cached document (base_fields key_hash) [] [], after)
        | none ↦ elim origin [
          | none ↦ (no_origin key_hash, after)
          | some origin' ↦ finish key_hash (resolve key_hash origin' after)
        ]
      ]

  abbrev pub key_hash_of : Str × Str → Str
  key_hash_of (header, value) = host.hex_encode (host.digest (utf8 (bare_key header value)))

  unfoldable pub identity : Value → W → Value × W
  identity input w = elim (credential_of input) [
    | none ↦ (hook_output none none end (text "litellm_no_credential" ∷ []) [], w)
    | some credential ↦ identify (key_hash_of credential) (upstream_origin input) w
  ]
