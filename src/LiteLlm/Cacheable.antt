-- ===== src/LiteLlm/Cacheable.antt =====
-- crates/litellm-user-plugin/src/lib.rs: the documents of complete resolutions, and what they give back.
use llmtrace.Base.{
  ◌+◌, ◌≡◌, refl, ap, inl, inr, false, List, [], ◌∷◌, Option, none, some, arith, ltb, Bool-cases,
  Option-cases, eq_bytes,
}
use llmtrace.Base.Text.{Str, text, is_empty, len_utf8}
use llmtrace.Base.Truncation.{len_utf8-le}
use llmtrace.Base.Json.{
  lt_text, Value, string, Map, get, insert, member, as_str, as_object, optional, strings, texts,
}
use llmtrace.Base.Json.Maps.{IsSorted, insert-IsSorted, Within, Within-insert, extend-Within}
use llmtrace.LiteLlm.Texts.{and_then, nonempty, bounded, bounded_from}
use llmtrace.LiteLlm.Documents.{
  hook_output, emit_cached, copy_string_field, bounded_option, key_fields, insert_text,
  insert_teams, user_fields, Resolution, base_fields, cache_document,
}

texts-strings : (xs : List Str) → texts (strings xs) ≡ xs
unfolding texts strings
texts-strings [] = refl
texts-strings (s ∷ xs) = ap (◌∷◌ s) (texts-strings xs)

bounded-nonempty : (s : Str) → is_empty s ≡ false → is_empty (bounded s) ≡ false
unfolding bounded_from
bounded-nonempty [] h = cc
bounded-nonempty (c ∷ s) h =
    let short : ltb 256 (0 + len_utf8 c) ≡ false = ground (arith, len_utf8-le c) in rw short refl

nonempty-bounded_option :
    (o : Option Str) → nonempty (bounded_option (nonempty o)) ≡ bounded_option (nonempty o)
nonempty-bounded_option none = refl
nonempty-bounded_option (some s) = elim (Bool-cases (is_empty s)) [
  | inl y ↦ rw y refl
  | inr n ↦ rw n (rw (bounded-nonempty s n) refl)
]

as_str-optional : (o : Option Str) → as_str (optional o) ≡ o
as_str-optional none = refl
as_str-optional (some s) = refl

-- What the fields of a resolution keep of the fields that it began with.
pub record Grows (base fields : Map) : Type 0 where
  pub sorted : IsSorted fields
  pub within : Within base fields

Grows-insert :
    (base fields : Map) (name : Str) (value : Value)
    → get name base ≡ none
    → Grows base fields
    → Grows base (insert name value fields)
Grows-insert base fields name value absent g = record {
  sorted = insert-IsSorted name value fields g.sorted;
  within = Within-insert name value base fields g.within absent;
}

Grows-copy :
    (base info fields : Map) (name : Str)
    → get name base ≡ none
    → Grows base fields
    → Grows base (copy_string_field info name fields)
unfolding copy_string_field
Grows-copy base info fields name absent g =
    elim (Option-cases (nonempty (and_then (get name info) as_str))) [
      | inl e ↦ rw (e, copy_string_field) g
      | inr (value, e) ↦
          rw (e, copy_string_field)
            (Grows-insert base fields name (string (bounded value)) absent g)
    ]

Grows-insert_text :
    (base fields : Map) (name : Str) (value : Option Str)
    → get name base ≡ none
    → Grows base fields
    → Grows base (insert_text name value fields)
Grows-insert_text base fields name none absent g = g
Grows-insert_text base fields name (some value) absent g =
    Grows-insert base fields name (string value) absent g

Grows-insert_teams :
    (base fields : Map) (teams : List Str)
    → get (text "teams") base ≡ none
    → Grows base fields
    → Grows base (insert_teams teams fields)
Grows-insert_teams base fields [] absent g = g
Grows-insert_teams base fields (team ∷ teams) absent g =
    Grows-insert base fields (text "teams") _ absent g

module _ (key_hash : Str) where
  pub Grows-base : Grows (base_fields key_hash) (base_fields key_hash)
  unfolding base_fields insert eq_bytes lt_text
  Grows-base = record { sorted = ((refl, tt), (tt, tt)); within = λ k v e. e }

  absent_lem :
      (name : Str)
      → eq_bytes (text "litellm_key_hash") name ≡ false
      → eq_bytes (text "identity_source") name ≡ false
      → get name (base_fields key_hash) ≡ none
  unfolding base_fields get insert eq_bytes lt_text
  absent_lem name p q = rw (q, p) refl

  pub Grows-key_fields :
      (document : Value)
      → Grows (base_fields key_hash) (key_fields document (base_fields key_hash)).0
  unfolding eq_bytes key_fields base_fields
  Grows-key_fields document =
      elim (Option-cases (and_then (member (text "info") document) as_object)) [
        | inl e ↦ rw (key_fields, e) Grows-base
        | inr (info, e) ↦
            rw (key_fields, e)
              (Grows-copy _ info _ (text "org_id") (absent_lem _ refl refl) (
                Grows-copy _ info _ (text "team_id") (absent_lem _ refl refl)
                  (Grows-copy _ info _ (text "key_alias") (absent_lem _ refl refl) Grows-base)))
      ]

  pub Grows-user_fields :
      (info fields : Map)
      → Grows (base_fields key_hash) fields
      → Grows (base_fields key_hash) (user_fields info fields).0
  unfolding eq_bytes user_fields
  Grows-user_fields info fields g = Grows-insert_teams _ _ _ (absent_lem _ refl refl) (
      Grows-copy _ info _ (text "user_role") (absent_lem _ refl refl) (
        Grows-insert_text _ _ (text "user_alias") _ (absent_lem _ refl refl)
          (Grows-insert_text _ fields (text "user_email") _ (absent_lem _ refl refl) g)))

pub user_nonempty :
    (document : Value) (fields : Map)
    → nonempty (key_fields document fields).1 ≡ (key_fields document fields).1
unfolding key_fields
user_nonempty document fields =
    elim (Option-cases (and_then (member (text "info") document) as_object)) [
      | inl e ↦ rw (key_fields, e) refl
      | inr (info, e) ↦
          rw (key_fields, e) (nonempty-bounded_option (and_then (get (text "user_id") info) as_str))
    ]

-- What makes a resolution's cached document give its output again.
pub record IsCacheable (base : Map) (r : Resolution) : Type 0 where
  pub user : nonempty r.user_id ≡ r.user_id
  pub quiet : r.warnings ≡ []
  pub fields : Grows base r.custom_fields

pub emit_cached-cache_document :
    (base : Map) (r : Resolution)
    → IsSorted base
    → IsCacheable base r
    → emit_cached (cache_document r) base [] []
      ≡ hook_output r.user_id r.user_name r.custom_fields r.tags r.warnings
unfolding emit_cached cache_document get insert eq_bytes lt_text
emit_cached-cache_document base r s c = simp (
  as_str-optional r.user_id,
  as_str-optional r.user_name,
  c.user,
  c.quiet,
  texts-strings r.tags,
  extend-Within base r.custom_fields s c.fields.sorted c.fields.within,
)
