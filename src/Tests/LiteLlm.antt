-- ===== src/Tests/LiteLlm.antt =====
-- A run of the plugin with two lookups, and the run from the cache after it.
use llmtrace.Base.{
  ◌+◌, ℕ, ◌≡◌, refl, true, false, All, [], none, some, arith, eq_bytes, if◌then◌else◌, ◌==◌, any,
}
use llmtrace.Base.Text.{text, truncate_utf8, utf8, split_once, has_prefix, trim, trim_start}
use llmtrace.Base.Json.{
  Value, string, object, array, end, field, cons, nil, lt_text, get, insert, strings, texts,
}
use llmtrace.LiteLlm.Texts.{
  find_header, bare_key, authority_of, origin_of, encode_bytes, percent_encode, bounded_from,
  bounded, max_field_bytes,
}
use llmtrace.LiteLlm.Documents.{
  copy_string_field, key_fields, bounded_all, user_fields, Resolution, base_fields, cache_document,
}
use llmtrace.LiteLlm.Identity.{
  Host, after_user, cached_identity, lookup_json, resolve_user, resolve_key, resolve, finish,
  identify, identity,
}
use llmtrace.LiteLlm.Caching.{identity-hit}
use llmtrace.LiteLlm.Urls.{percent_decode, is_special, percent_decode-percent_encode}
use llmtrace.LiteLlm.Limits.{bounded_lem}

percent_decode-percent_encode_example :
    (percent_decode (percent_encode (text "a+b@é")) ≡ utf8 (text "a+b@é"))
    × All (λ c. is_special c ≡ false) (percent_encode (text "a+b@é"))
percent_decode-percent_encode_example =
    percent_decode-percent_encode (text "a+b@é")
      (omega arith, (omega arith, (omega arith, (omega arith, (omega arith, tt)))))

bounded_lem_example :
    bounded (text "alice@example.com") ≡ truncate_utf8 (text "alice@example.com") max_field_bytes
bounded_lem_example = bounded_lem (text "alice@example.com")

abbrev key_document : Value
key_document =
    object (field (text "info") (object (field (text "user_id") (string (text "u1")) end)) end)

abbrev user_document : Value
user_document = object (
    field (text "user_info")
      (object (
        field (text "teams") (array (cons (string (text "core")) nil))
          (field (text "user_email") (string (text "a@b")) end)))
      end)

abbrev resolved : Resolution
resolved = record {
  user_id = some (text "u1");
  user_name = some (text "a@b");
  custom_fields = field (text "identity_source") (string (text "litellm")) (
      field (text "litellm_key_hash") (string (text "sk")) (
        field (text "teams") (array (cons (string (text "core")) nil))
          (field (text "user_email") (string (text "a@b")) end)));
  tags = [];
  warnings = [];
  complete = true;
}

-- The state counts the lookups; 9 is a later time, when the document is stored.
abbrev small_host : Host ℕ
small_host = record {
  http_get = λ url headers w.
      (some (record { status = 200; body = if w == 0 then text "k" else text "u" }), w + 1);
  cache_get = λ key w. (if w == 9 then some (text "c") else none, w);
  cache_put = λ key value ttl w. 9;
  digest = λ bytes. bytes;
  hex_encode = λ bytes. bytes;
  from_slice = λ bytes.
      if eq_bytes bytes (text "k")
      then some key_document
      else if eq_bytes bytes (text "u")
      then some user_document
      else if eq_bytes bytes (text "c")
      then some (cache_document resolved)
      else none;
  to_string = λ document. text "c";
}

abbrev small_input : Value
small_input = object (
    field (text "headers") (object (field (text "authorization") (string (text "Bearer sk")) end))
      (field (text "upstream_url") (string (text "https://gw/v1/chat")) end))

first_run : (identity small_host small_input 0).1 ≡ 9
unfolding identity find_header get eq_bytes has_prefix split_once trim trim_start bare_key utf8
    origin_of authority_of identify cached_identity finish resolve lookup_json resolve_key
    key_fields copy_string_field base_fields insert lt_text resolve_user after_user user_fields
    bounded_from any
first_run = refl

identity-hit_example :
    identity small_host small_input 9 ≡ ((identity small_host small_input 0).0, 9)
unfolding find_header get eq_bytes has_prefix split_once trim trim_start bare_key utf8 origin_of
    authority_of cached_identity resolve lookup_json resolve_key key_fields copy_string_field
    base_fields insert lt_text resolve_user after_user user_fields bounded_from any bounded_all
    texts strings encode_bytes cache_document
identity-hit_example =
    identity-hit small_host small_input (text "authorization", text "Bearer sk") (text "https://gw")
      0 9 (text "c") refl refl refl refl refl refl
