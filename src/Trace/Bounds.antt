-- ===== src/Trace/Bounds.antt =====
-- crates/llmtrace/src/trace.rs: the bounds on what a trace stores of texts that clients and plugins
-- choose: identity fields, tags and session messages.
pub mod Tags
pub mod Completeness
pub mod Messages
use llmtrace.Base.{
  ℕ, ◌+◌, ◌-◌, ◌*◌, ◌/◌, Bool, true, false, not, ◌||◌, List, [], ◌∷◌, ◌++◌, Option, none, some, ltb,
  leb, if◌then◌else◌, length, take, drop, contains, eq_bytes,
}
use llmtrace.Base.Text.{Str, text, byte_len, slice_to, floor_char_boundary, remove_char, is_empty}

abbrev pub max_session_messages_per_trace : ℕ
max_session_messages_per_trace = 128

abbrev pub max_session_message_role_bytes : ℕ
max_session_message_role_bytes = 64

abbrev pub max_session_message_content_bytes : ℕ
max_session_message_content_bytes = 16 * 1024

abbrev pub max_trace_session_key_bytes : ℕ
max_trace_session_key_bytes = 1024

abbrev pub max_trace_identity_bytes : ℕ
max_trace_identity_bytes = 1024

abbrev pub max_trace_tags : ℕ
max_trace_tags = 64

abbrev pub max_trace_tag_bytes : ℕ
max_trace_tag_bytes = 128

unfoldable pub session_messages_truncated_tag : Str
session_messages_truncated_tag = text "session_messages_truncated"

unfoldable pub trace_enrichment_truncated_tag : Str
trace_enrichment_truncated_tag = text "trace_enrichment_truncated"

unfoldable pub truncate_utf8_owned : Str → ℕ → Str × Bool
truncate_utf8_owned value max_bytes =
    if leb (byte_len value) max_bytes
    then (value, false)
    else (slice_to value (floor_char_boundary value max_bytes), true)

unfoldable pub strip_nul_bytes_owned : Str → Str × Bool
strip_nul_bytes_owned value =
    if not (contains 0 value) then (value, false) else (remove_char 0 value, true)

unfoldable pub bound_optional_text : Option Str → ℕ → Option Str × Bool
bound_optional_text none max_bytes = (none, false)
bound_optional_text (some value) max_bytes =
    let (stripped, modified) = strip_nul_bytes_owned value in
    let (cut, truncated) = truncate_utf8_owned stripped max_bytes in
    if is_empty stripped then (none, modified) else (some cut, modified || truncated)

-- What `bound_trace_identity_fields` returns.
pub record IdentityFields : Type 0 where
  pub session_key : Option Str
  pub user_id : Option Str
  pub user_name : Option Str
  pub truncated : Bool

unfoldable pub bound_trace_identity_fields : Option Str → Option Str → Option Str → IdentityFields
bound_trace_identity_fields session_key user_id user_name =
    let (key, key_truncated) = bound_optional_text session_key max_trace_session_key_bytes in
    let (id, id_truncated) = bound_optional_text user_id max_trace_identity_bytes in
    let (name, name_truncated) = bound_optional_text user_name max_trace_identity_bytes in
    record {
      session_key = key;
      user_id = id;
      user_name = name;
      truncated = key_truncated || id_truncated || name_truncated;
    }

-- `normalized.contains(&tag)`.
unfoldable pub has_tag : Str → List Str → Bool
has_tag tag [] = false
has_tag tag (t ∷ tags) = eq_bytes t tag || has_tag tag tags

abbrev pub push_new : Str → List Str → List Str
push_new tag tags = if has_tag tag tags then tags else tags ++ tag ∷ []

-- One round of the first loop of `bound_trace_tags`: the tags so far, and whether one was changed.
unfoldable pub normalize_tag : Str → List Str × Bool → List Str × Bool
normalize_tag tag (normalized, tags_truncated) =
    let (stripped, tag_stripped) = strip_nul_bytes_owned tag in
    let (cut, tag_truncated) = truncate_utf8_owned stripped max_trace_tag_bytes in
    if is_empty tag
    then (normalized, tags_truncated)
    else if is_empty stripped
    then (normalized, tags_truncated || tag_stripped)
    else (push_new cut normalized, tags_truncated || (tag_stripped || tag_truncated))

unfoldable pub normalize_tags : List Str → List Str × Bool → List Str × Bool
normalize_tags [] state = state
normalize_tags (tag ∷ tags) state = normalize_tags tags (normalize_tag tag state)

abbrev pub message_marker : Bool → List Str
message_marker messages_truncated =
    if messages_truncated then session_messages_truncated_tag ∷ [] else []

-- The tags that the result must have.
unfoldable pub required_tags : Bool → Bool → List Str × Bool → List Str
required_tags messages_truncated identity_truncated (normalized, tags_truncated) =
    let required = message_marker messages_truncated in
    if identity_truncated
      || tags_truncated
      || ltb (max_trace_tags - length required) (length normalized)
    then required ++ trace_enrichment_truncated_tag ∷ []
    else required

-- The second loop: the user's tags that fit.
unfoldable pub keep_tags : List Str → ℕ → List Str → List Str → List Str
keep_tags required user_capacity [] bounded = bounded
keep_tags required user_capacity (tag ∷ tags) bounded = keep_tags required user_capacity tags (
    if has_tag tag required
    then bounded
    else if leb user_capacity (length bounded)
    then bounded
    else bounded ++ tag ∷ [])

-- The third loop.
unfoldable pub add_tags : List Str → List Str → List Str
add_tags [] bounded = bounded
add_tags (tag ∷ tags) bounded = add_tags tags (push_new tag bounded)

unfoldable pub bound_trace_tags : List Str → Bool → Bool → List Str
bound_trace_tags tags messages_truncated identity_truncated =
    let state = normalize_tags tags ([], false) in
    let required = required_tags messages_truncated identity_truncated state in
    add_tags required (keep_tags required (max_trace_tags - length required) state.0 [])

pub record ParsedMessage : Type 0 where
  pub role : Str
  pub content : Str
  pub content_truncated : Bool

-- One round of the loop of `bound_session_messages`: the message, and whether it was changed.
unfoldable pub bound_message : ParsedMessage → ParsedMessage × Bool
bound_message message =
    let (stripped_role, role_nul) = strip_nul_bytes_owned message.role in
    let (stripped_content, content_nul) = strip_nul_bytes_owned message.content in
    let (role, role_truncated) = truncate_utf8_owned stripped_role max_session_message_role_bytes in
    let (content, content_truncated) =
      truncate_utf8_owned stripped_content max_session_message_content_bytes in
    (
      record {
        role = role;
        content = content;
        content_truncated = message.content_truncated || content_nul || content_truncated;
      },
      role_nul || content_nul || role_truncated || content_truncated || message.content_truncated,
    )

unfoldable pub bound_messages : List ParsedMessage → Bool → List ParsedMessage × Bool
bound_messages [] truncated = ([], truncated)
bound_messages (message ∷ messages) truncated =
    let (bounded, changed) = bound_message message in
    let (rest, any) = bound_messages messages (truncated || changed) in (bounded ∷ rest, any)

-- `drain`: the first and the last messages, where there are too many.
unfoldable pub drain_middle : List ParsedMessage → List ParsedMessage
drain_middle messages =
    let keep_start = max_session_messages_per_trace / 2 in
    let keep_end = length messages - (max_session_messages_per_trace - keep_start) in
    if ltb max_session_messages_per_trace (length messages)
    then take keep_start messages ++ drop keep_end messages
    else messages

unfoldable pub bound_session_messages : List ParsedMessage → List ParsedMessage × Bool
bound_session_messages messages =
    bound_messages (take max_session_messages_per_trace (drain_middle messages))
      (ltb max_session_messages_per_trace (length messages))
