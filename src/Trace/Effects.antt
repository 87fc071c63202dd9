-- ===== src/Trace/Effects.antt =====
-- crates/llmtrace/src/trace.rs: what a trace takes over from its plugins, and how it is cleaned of NULs,
-- which PostgreSQL cannot store.
pub mod Cleaning
pub mod Merging
use llmtrace.Base.{
  Bool, true, false, List, [], ◌∷◌, ◌++◌, Option, none, some, if◌then◌else◌, is_some,
}
use llmtrace.Base.Text.{Str, text, is_empty}
use llmtrace.Base.Json.{
  Value, null, boolean, integer, float, string, array, object, Items, nil, cons, Map, end, field,
  get, insert, extend,
}
use llmtrace.Trace.Bounds.{strip_nul_bytes_owned}

pub record ToolCall : Type 0 where
  pub id : Str
  pub name : Str
  pub arguments : Str

unfoldable pub strip_tool_call_nul_bytes : List ToolCall → List ToolCall
strip_tool_call_nul_bytes [] = []
strip_tool_call_nul_bytes (call ∷ calls) =
    record {
      id = (strip_nul_bytes_owned call.id).0;
      name = (strip_nul_bytes_owned call.name).0;
      arguments = (strip_nul_bytes_owned call.arguments).0;
    }
    ∷ strip_tool_call_nul_bytes calls

-- The members of an object are collected into `cleaned`, in order.
unfoldable mutual
  pub strip_nul_bytes_from_value : Value → Value
  strip_nul_bytes_from_value null = null
  strip_nul_bytes_from_value (boolean b) = boolean b
  strip_nul_bytes_from_value (integer z) = integer z
  strip_nul_bytes_from_value (float bits) = float bits
  strip_nul_bytes_from_value (string s) = string (strip_nul_bytes_owned s).0
  strip_nul_bytes_from_value (array items) = array (strip_items items)
  strip_nul_bytes_from_value (object map) = object (strip_map map end)

  pub strip_items : Items → Items
  strip_items nil = nil
  strip_items (cons item items) = cons (strip_nul_bytes_from_value item) (strip_items items)

  pub strip_map : Map → Map → Map
  strip_map end cleaned = cleaned
  strip_map (field key item map) cleaned =
      strip_map map (insert (strip_nul_bytes_owned key).0 (strip_nul_bytes_from_value item) cleaned)

unfoldable pub object_or_empty : Value → Map
object_or_empty (object map) = map
object_or_empty null = end
object_or_empty (boolean b) = insert (text "value") (boolean b) end
object_or_empty (integer z) = insert (text "value") (integer z) end
object_or_empty (float bits) = insert (text "value") (float bits) end
object_or_empty (string s) = insert (text "value") (string s) end
object_or_empty (array items) = insert (text "value") (array items) end

pub record PluginEffects : Type 0 where
  pub metadata : Map
  pub tags : List Str
  pub session_key : Option Str
  pub user_id : Option Str
  pub user_name : Option Str
  pub warnings : List Str

-- What a trace has so far, changed in place by `merge_effects`.
pub record Enrichment : Type 0 where
  pub metadata : Map
  pub tags : List Str
  pub session_key : Option Str
  pub user_id : Option Str
  pub user_name : Option Str

-- One round of the loop over the metadata: objects are merged, all else is replaced.
unfoldable pub merge_field : Str → Value → Option Value → Map → Map
merge_field key (object fields) (some (object existing)) metadata =
    insert key (object (extend existing fields)) metadata
merge_field key value existing metadata = insert key value metadata

unfoldable pub merge_metadata : Map → Map → Map
merge_metadata metadata end = metadata
merge_metadata metadata (field key value map) =
    merge_metadata (merge_field key value (get key metadata) metadata) map

unfoldable pub append_items : Items → List Str → Items
append_items nil [] = nil
append_items nil (warning ∷ warnings) = cons (string warning) (append_items nil warnings)
append_items (cons item items) warnings = cons item (append_items items warnings)

-- The warnings go to the array `plugin_warnings`, which is made where it is missing; where the
-- field is not an array they are lost.
unfoldable pub add_warnings : List Str → Option Value → Map → Map
add_warnings warnings none metadata =
    insert (text "plugin_warnings") (array (append_items nil warnings)) metadata
add_warnings warnings (some (array items)) metadata =
    insert (text "plugin_warnings") (array (append_items items warnings)) metadata
add_warnings warnings (some value) metadata = metadata

abbrev pub or_else {ℓ} : {A : Type ℓ} → Option A → Option A → Option A
or_else (some a) other = some a
or_else none other = other

unfoldable pub merge_effects : Enrichment → PluginEffects → Enrichment
merge_effects e effects =
    let merged = merge_metadata e.metadata effects.metadata in
    record {
      metadata =
          if is_empty effects.warnings
          then merged
          else add_warnings effects.warnings (get (text "plugin_warnings") merged) merged;
      tags = e.tags ++ effects.tags;
      session_key = or_else e.session_key effects.session_key;
      user_id = or_else e.user_id effects.user_id;
      user_name = or_else e.user_name effects.user_name;
    }
