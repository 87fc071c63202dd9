-- ===== src/Tests/Effects.antt =====
-- Cleaning of a plugin's metadata, and the merge of two plugins' effects.
use llmtrace.Base.{◌≡◌, refl, [], ◌∷◌, none, some, contains, eq_bytes}
use llmtrace.Base.Text.{text, remove_char}
use llmtrace.Base.Json.{
  Value, string, object, array, nil, cons, end, field, lt_text, get, insert, extend,
}
use llmtrace.Trace.Bounds.{strip_nul_bytes_owned}
use llmtrace.Trace.Effects.{
  strip_nul_bytes_from_value, PluginEffects, Enrichment, merge_field, merge_metadata, append_items,
  add_warnings, merge_effects,
}
use llmtrace.Trace.Effects.Cleaning.{IsStorable, strip_nul_bytes_from_value-IsStorable}

abbrev poisoned : Value
poisoned = object (field (b'a' ∷ 0 ∷ []) (array (cons (string (0 ∷ text "x")) nil)) end)

cleaned :
    strip_nul_bytes_from_value poisoned
    ≡ object (field (text "a") (array (cons (string (text "x")) nil)) end)
unfolding strip_nul_bytes_from_value strip_nul_bytes_owned contains remove_char insert
cleaned = refl

strip_nul_bytes_from_value-IsStorable_example : IsStorable (strip_nul_bytes_from_value poisoned)
strip_nul_bytes_from_value-IsStorable_example = strip_nul_bytes_from_value-IsStorable poisoned

abbrev before : Enrichment
before = record {
  metadata = field (text "user") (object (field (text "a") (string (text "1")) end)) end;
  tags = [];
  session_key = none;
  user_id = some (text "u1");
  user_name = none;
}

abbrev effects : PluginEffects
effects = record {
  metadata = field (text "user") (object (field (text "b") (string (text "2")) end)) end;
  tags = text "t" ∷ [];
  session_key = none;
  user_id = some (text "u2");
  user_name = some (text "n");
  warnings = text "w" ∷ [];
}

merged : merge_effects before effects ≡ record {
  metadata = field (text "plugin_warnings") (array (cons (string (text "w")) nil)) (
      field
        (text "user")
        (object (field (text "a") (string (text "1")) (field (text "b") (string (text "2")) end)))
        end);
  tags = text "t" ∷ [];
  session_key = none;
  user_id = some (text "u1");
  user_name = some (text "n");
}
unfolding merge_effects merge_metadata merge_field add_warnings append_items get insert extend
    lt_text eq_bytes
merged = refl
