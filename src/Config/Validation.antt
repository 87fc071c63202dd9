-- ===== src/Config/Validation.antt =====
-- crates/llmtrace/src/config.rs: the validation of the whole configuration.
use llmtrace.Base.{not, ◌||◌, List, [], ◌∷◌, ◌++◌}
use llmtrace.Base.Text.{Str, text, trim, is_empty}
use llmtrace.Pricing.{Floats, ModelPrice, valid}
use llmtrace.Config.Types.{Config, Externals}
use llmtrace.Config.Reports.{report, concat}
use llmtrace.Config.Storage.{validate_storage, validate_archive, validate_plugin_cache}
use llmtrace.Config.Auth.{validate_auth, validate_observability}
use llmtrace.Config.Server.{validate_server, validate_proxy, validate_redaction}
use llmtrace.Config.Plugins.{validate_plugins}

module _ {Url Socket F : Type 0} (x : Externals Url Socket) (f : Floats F) where
  unfoldable pub validate_pricing : List (Str × ModelPrice F) → List Str
  validate_pricing [] = []
  validate_pricing ((model, price) ∷ prices) =
      report (is_empty (trim model) || not (valid f price))
        (text "pricing requires a model name and finite nonnegative USD rates up to 1000000")
      ++ validate_pricing prices

  -- The errors, none of which is `Ok(())`; `pricing` is that field of the configuration.
  unfoldable pub validate : Config → List (Str × ModelPrice F) → List Str
  validate config pricing = concat (
      validate_server x config.server
      ∷ validate_proxy x config.server.deployment config.proxy
      ∷ validate_storage x config.server.deployment config.storage
      ∷ validate_archive config.archive
      ∷ validate_auth x config.server.deployment config.server.public_url config.auth
      ∷ validate_observability config.server.deployment config.observability
      ∷ validate_redaction x config.redaction
      ∷ validate_plugins x config.plugins
      ∷ validate_plugin_cache config.plugin_cache
      ∷ validate_pricing pricing
      ∷ [])
