-- ===== src/Trace/Effects/Merging.antt =====
-- crates/llmtrace/src/trace.rs: the merge of a plugin's effects.
use llmtrace.Base.{◌≡◌, refl, List, [], ◌∷◌, some}
use llmtrace.Base.Text.{Str}
use llmtrace.Trace.Effects.{PluginEffects, Enrichment, merge_effects}

-- The effects of several plugins, one after the other.
unfoldable pub merge_all : Enrichment → List PluginEffects → Enrichment
merge_all e [] = e
merge_all e (effects ∷ others) = merge_all (merge_effects e effects) others

-- A user that is known stays, whatever later plugins say.
pub merge_all_user :
    (e : Enrichment) (others : List PluginEffects) (user : Str)
    → e.user_id ≡ some user
    → (merge_all e others).user_id ≡ some user
unfolding merge_all merge_effects
merge_all_user e [] user h = h
merge_all_user e (effects ∷ others) user h =
    merge_all_user (merge_effects e effects) others user (rw h refl)
