-- ===== src/Config/Names.antt =====
-- crates/llmtrace/src/config.rs: the names of validated plugins.
use llmtrace.Base.{
  ℕ, suc, ◌≡◌, ◌≤◌, refl, inl, inr, false, not, ◌||◌, List, [], ◌∷◌, arith, ltb, eq_bytes,
  eq_bytes→eq, any, Bool-cases, length,
}
use llmtrace.Base.Text.{Str, trim, is_empty, byte_len}
use llmtrace.Config.Types.{PluginConfig, Externals}
use llmtrace.Config.Reports.{report, concat-Clean, append-nil, report-nil, cons_nil}
use llmtrace.Config.Auth.{is_ascii, is_ascii_control}
use llmtrace.Config.Upstreams.{is_one_of}
use llmtrace.Config.Plugins.{
  max_plugins, max_plugin_name_bytes, validate_name, validate_plugin, validate_each_plugin,
  validate_plugins,
}

-- The names of the plugins are new, and none twice.
abbrev pub Fresh : List Str → List PluginConfig → Type 0
Fresh names [] = Unit
Fresh names (plugin ∷ plugins) =
    ((is_one_of plugin.name names ≡ false)
      × ((is_empty plugin.name ≡ false) × (byte_len plugin.name ≤ max_plugin_name_bytes)))
    × Fresh (plugin.name ∷ names) plugins

within : {a b : ℕ} → ltb a b ≡ false → b ≤ a
within h = ground arith

module _ {Url Socket : Type 0} (x : Externals Url Socket) where
  -- A name that is not reported joins the names as it is.
  validate_name-Empty :
      (index : ℕ) (name : Str) (names : List Str)
      → (validate_name x index name names).0 ≡ []
      → ((is_one_of name names ≡ false)
          × ((is_empty name ≡ false) × (byte_len name ≤ max_plugin_name_bytes)))
        × ((validate_name x index name names).1 ≡ name ∷ names)
  unfolding validate_name
  validate_name-Empty index name names h = elim (Bool-cases (is_empty (trim name))) [
    | inl y ↦ absurd (cons_nil (rw y at h))
    | inr n ↦ elim (Bool-cases (eq_bytes name (trim name))) [
      | inr d ↦ absurd (cons_nil (rw (n, d) at h))
      | inl e ↦ elim (Bool-cases (ltb max_plugin_name_bytes (byte_len (trim name)))) [
        | inl y ↦ absurd (cons_nil (rw (n, e, y) at h))
        | inr short ↦
            elim (Bool-cases (not (is_ascii (trim name)) || any is_ascii_control (trim name))) [
              | inl y ↦ absurd (cons_nil (rw (n, e, short, y) at h))
              | inr plain ↦ elim (Bool-cases (is_one_of (trim name) names)) [
                | inl y ↦ absurd (cons_nil (rw (n, e, short, plain, y) at h))
                | inr new ↦
                    let same = eq_bytes→eq name (trim name) e in
                    rw (n, e, short, plain, new)
                      ((rw same new, (rw same n, rw same (within short))), rw (← same) refl)
              ]
            ]
      ]
    ]
  ]

  validate_plugin-name :
      (index : ℕ) (plugin : PluginConfig) (name_errors : List Str)
      → validate_plugin x index plugin name_errors ≡ []
      → name_errors ≡ []
  unfolding validate_plugin
  validate_plugin-name index plugin name_errors h =
      let (urls, (endpoints, (auth, (name, others)))) = concat-Clean _ h in name

  validate_each_plugin-Fresh :
      (index : ℕ) (names : List Str) (plugins : List PluginConfig)
      → validate_each_plugin x index names plugins ≡ []
      → Fresh names plugins
  unfolding validate_each_plugin
  validate_each_plugin-Fresh index names [] h = tt
  validate_each_plugin-Fresh index names (plugin ∷ plugins) h =
      let named = validate_name x index plugin.name names in
      let (reported, rest) =
        append-nil (validate_plugin x index plugin named.0)
          (validate_each_plugin x (suc index) named.1 plugins) h in
      let (new, seen) =
        validate_name-Empty index plugin.name names
          (validate_plugin-name index plugin named.0 reported) in
      (new, validate_each_plugin-Fresh (suc index) (plugin.name ∷ names) plugins (rw seen at rest))

  -- Where validation reports nothing of the plugins, they are at most 64, and their names are not
  -- empty, at most 128 bytes long, and different.
  pub validate_plugins-Fresh :
      (plugins : List PluginConfig)
      → validate_plugins x plugins ≡ []
      → (length plugins ≤ max_plugins) × Fresh [] plugins
  unfolding validate_plugins
  validate_plugins-Fresh plugins h =
      let (count, rest) =
        append-nil (report (ltb max_plugins (length plugins)) _)
          (validate_each_plugin x 0 [] plugins) h in
      (within (report-nil _ _ count), validate_each_plugin-Fresh 0 [] plugins rest)
