-- ===== src/Tests/Bounds.antt =====
-- Tags and messages that a trace stores.
use llmtrace.Base.{◌≤◌, ◌≡◌, refl, true, false, List, [], ◌∷◌, length, All, contains, eq_bytes}
use llmtrace.Base.Text.{Str, text, byte_len, remove_char}
use llmtrace.Trace.Bounds.{
  ParsedMessage, max_trace_tags, session_messages_truncated_tag, trace_enrichment_truncated_tag,
  truncate_utf8_owned, strip_nul_bytes_owned, has_tag, normalize_tag, normalize_tags, required_tags,
  keep_tags, add_tags, bound_trace_tags, bound_session_messages, max_session_messages_per_trace,
}
use llmtrace.Trace.Bounds.Tags.{IsTagList, bound_trace_tags-IsTagList}
use llmtrace.Trace.Bounds.Completeness.{bound_trace_tags_complete}
use llmtrace.Trace.Bounds.Messages.{IsMessage, bound_session_messages-IsMessage}

abbrev some_tags : List Str
some_tags = text "team" ∷ [] ∷ (b'a' ∷ 0 ∷ []) ∷ text "team" ∷ []

tags_run :
    bound_trace_tags some_tags true false
    ≡ text "team" ∷ text "a" ∷ session_messages_truncated_tag ∷ trace_enrichment_truncated_tag ∷ []
unfolding bound_trace_tags truncate_utf8_owned strip_nul_bytes_owned normalize_tag normalize_tags
    required_tags keep_tags add_tags session_messages_truncated_tag trace_enrichment_truncated_tag
    has_tag contains eq_bytes byte_len remove_char
tags_run = refl

bound_trace_tags-IsTagList_example :
    IsTagList (bound_trace_tags some_tags true false)
    × (length (bound_trace_tags some_tags true false) ≤ max_trace_tags)
bound_trace_tags-IsTagList_example = bound_trace_tags-IsTagList some_tags true false

abbrev plain_tags : List Str
plain_tags = text "team" ∷ text "production" ∷ []

bound_trace_tags_complete_example :
    has_tag (text "production") (bound_trace_tags plain_tags false false) ≡ true
unfolding bound_trace_tags truncate_utf8_owned strip_nul_bytes_owned normalize_tag normalize_tags
    required_tags keep_tags add_tags session_messages_truncated_tag trace_enrichment_truncated_tag
    has_tag contains eq_bytes byte_len
bound_trace_tags_complete_example =
    bound_trace_tags_complete plain_tags false false (text "production") refl refl refl

abbrev long_message : ParsedMessage
long_message = record { role = text "user"; content = 0 ∷ text "hello"; content_truncated = false }

bound_session_messages-IsMessage_example :
    All IsMessage (bound_session_messages (long_message ∷ [])).0
    × (length (bound_session_messages (long_message ∷ [])).0 ≤ max_session_messages_per_trace)
bound_session_messages-IsMessage_example = bound_session_messages-IsMessage (long_message ∷ [])
