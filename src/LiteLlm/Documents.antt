-- ===== src/LiteLlm/Documents.antt =====
-- crates/litellm-user-plugin/src/lib.rs: what the lookups' answers say, the cached document and the output.
use llmtrace.Base.{
  ℕ, Bool, false, ◌&&◌, List, [], ◌∷◌, ◌++◌, Option, none, some, ◌==◌, take, is_some,
}
use llmtrace.Base.Text.{Str, text}
use llmtrace.Base.Int.{ℤ, pos, negsuc}
use llmtrace.Base.Json.{
  Value, integer, string, array, object, Map, end, get, insert, extend, member, as_str, as_i64,
  as_array, as_object, optional, strings, texts,
}
use llmtrace.LiteLlm.Texts.{and_then, nonempty, bounded}

abbrev pub max_teams : ℕ
max_teams = 16

abbrev pub cache_doc_version : ℤ
cache_doc_version = pos 1

unfoldable pub hook_output : Option Str → Option Str → Map → List Str → List Str → Value
hook_output user_id user_name custom_fields tags warnings = object (
    insert (text "user_id") (optional user_id) (
      insert (text "user_name") (optional user_name) (
        insert (text "custom_fields") (object custom_fields) (
          insert (text "tags") (array (strings tags))
            (insert (text "warnings") (array (strings warnings)) end)))))

abbrev pub is_version : Option ℤ → Bool
is_version none = false
is_version (some (pos n)) = n == 1
is_version (some (negsuc n)) = false

abbrev pub compatible : Value → Bool
compatible document =
    is_version (and_then (member (text "v") document) as_i64)
    && is_some (and_then (member (text "custom_fields") document) as_object)

unfoldable pub emit_cached : Value → Map → List Str → List Str → Value
emit_cached document custom_fields tags warnings =
    let user_id = nonempty (and_then (member (text "user_id") document) as_str) in
    let user_name = and_then (member (text "user_name") document) as_str in
    let fields : Map = elim (and_then (member (text "custom_fields") document) as_object) [
      | none ↦ custom_fields
      | some cached ↦ extend custom_fields cached
    ] in
    let cached_tags : List Str = elim (and_then (member (text "tags") document) as_array) [
      | none ↦ []
      | some items ↦ texts items
    ] in
    hook_output user_id user_name fields (tags ++ cached_tags) warnings

unfoldable pub copy_string_field : Map → Str → Map → Map
copy_string_field source name target = elim (nonempty (and_then (get name source) as_str)) [
  | none ↦ target
  | some value ↦ insert name (string (bounded value)) target
]

abbrev pub bounded_option : Option Str → Option Str
bounded_option none = none
bounded_option (some value) = some (bounded value)

-- What the answer to the key lookup says: the fields, and the user.
unfoldable pub key_fields : Value → Map → Map × Option Str
key_fields document fields = elim (and_then (member (text "info") document) as_object) [
  | none ↦ (fields, none)
  | some info ↦ (
    copy_string_field info (text "org_id") (
        copy_string_field info (text "team_id") (copy_string_field info (text "key_alias") fields)),
    bounded_option (nonempty (and_then (get (text "user_id") info) as_str)),
  )
]

abbrev pub insert_text : Str → Option Str → Map → Map
insert_text name none fields = fields
insert_text name (some value) fields = insert name (string value) fields

unfoldable pub bounded_all : List Str → List Str
bounded_all [] = []
bounded_all (s ∷ xs) = bounded s ∷ bounded_all xs

abbrev pub insert_teams : List Str → Map → Map
insert_teams [] fields = fields
insert_teams (team ∷ teams) fields = insert (text "teams") (array (strings (team ∷ teams))) fields

-- What the answer to the user lookup says: the fields, and the user's name.
unfoldable pub user_fields : Map → Map → Map × Option Str
user_fields info fields =
    let email = bounded_option (and_then (get (text "user_email") info) as_str) in
    let alias = bounded_option (and_then (get (text "user_alias") info) as_str) in
    let teams : List Str = elim (and_then (get (text "teams") info) as_array) [
      | none ↦ []
      | some items ↦ take max_teams (bounded_all (texts items))
    ] in
    let named =
      insert_text (text "user_alias") alias (insert_text (text "user_email") email fields) in
    (
      insert_teams teams (copy_string_field info (text "user_role") named),
      elim email [ none ↦ alias | some value ↦ some value ],
    )

-- What a lookup found, and whether it may be cached.
pub record Resolution : Type 0 where
  pub user_id : Option Str
  pub user_name : Option Str
  pub custom_fields : Map
  pub tags : List Str
  pub warnings : List Str
  pub complete : Bool

unfoldable pub base_fields : Str → Map
base_fields key_hash =
    insert (text "identity_source") (string (text "litellm"))
      (insert (text "litellm_key_hash") (string key_hash) end)

-- The document that is cached.
unfoldable pub cache_document : Resolution → Value
cache_document r = object (
    insert (text "v") (integer cache_doc_version) (
      insert (text "user_id") (optional r.user_id) (
        insert (text "user_name") (optional r.user_name) (
          insert (text "custom_fields") (object r.custom_fields)
            (insert (text "tags") (array (strings r.tags)) end)))))
