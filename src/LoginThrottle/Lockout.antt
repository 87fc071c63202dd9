-- ===== src/LoginThrottle/Lockout.antt =====
-- crates/llmtrace/src/login_throttle.rs: when a key is locked, and until when.
use llmtrace.Base.{
  ℕ, ◌+◌, ◌-◌, ◌≤◌, ◌<◌, ◌^◌, ◌≡◌, refl, ap, ◌∙◌, All, inl, inr, true, List, [], ◌∷◌, ◌++◌, Option,
  none, some, lookup, arith, length, replicate, Option-cases, if◌then◌else◌,
}
use llmtrace.Base.Assoc.{Distinct, lookup-insert_self, lookup-retain_kept}
use llmtrace.Base.Text.{Str}
use llmtrace.LoginThrottle.{
  LoginRateLimitConfig, LoginThrottleKey, Key-discrete, LoginThrottleState, Attempts, LoginThrottle,
  new_key, secs, is_enabled, limited_until, is_current, prune_expired, make_room, or_first, restart,
  count_failure, fail, record_failure_at,
}
use llmtrace.LoginThrottle.Tracking.{
  IsValid, make_room_present, lookup-make_room_absent, operations-IsValid,
}

lookup-make_room_self :
    (config : LoginRateLimitConfig) (key : LoginThrottleKey) (attempts : Attempts)
    → lookup Key-discrete key (make_room config key attempts) ≡ lookup Key-discrete key attempts
lookup-make_room_self config key attempts = elim (Option-cases (lookup Key-discrete key attempts)) [
  | inl new ↦ rw (new, lookup-make_room_absent config key key attempts new) refl
  | inr (s, found) ↦ rw (make_room_present config key s attempts found) refl
]

-- A failure acts on the entry of its key, or on a new one.
record_failure-fail :
    (username remote_addr : Str) (now : ℕ) (t : LoginThrottle)
    → is_enabled t.config ≡ true
    → let key = new_key username remote_addr in
      let s = or_first now (lookup Key-discrete key (prune_expired t.config now t.inner)) in
      let out = record_failure_at username remote_addr now t in
      (out.0 ≡ (fail t.config now s).0)
      × (out.1.config ≡ t.config)
      × (lookup Key-discrete key out.1.inner ≡ some (fail t.config now s).1)
unfolding record_failure_at
record_failure-fail username remote_addr now t on =
    let key = new_key username remote_addr in
    rw (on, lookup-make_room_self t.config key (prune_expired t.config now t.inner))
      (refl, refl, lookup-insert_self Key-discrete key _ _)

-- An entry of `n` failures since `first`, without a lock.
abbrev Counted : ℕ → ℕ → LoginThrottleState → Type 0
Counted first n s = (s.failures ≡ n) × (s.first_failure ≡ first) × (s.locked_until ≡ none)

not_limited : (o : Option ℕ) (now : ℕ) → o ≡ none → limited_until o now ≡ none
unfolding limited_until
not_limited none now h = refl
not_limited (some u) now h = cc

not_restarted :
    (config : LoginRateLimitConfig) (now : ℕ) (s : LoginThrottleState)
    → now - s.first_failure ≤ secs config.window_secs
    → restart config now s ≡ s
unfolding restart
not_restarted config now s h = ground arith

-- Within the window of an entry without a lock, a failure is counted.
fail_open :
    (config : LoginRateLimitConfig) (first n now : ℕ) (s : LoginThrottleState)
    → Counted first n s
    → now - first ≤ secs config.window_secs
    → fail config now s ≡ count_failure config now s
unfolding fail
fail_open config first n now s c w =
    let open_entry : limited_until s.locked_until now ≡ none = not_limited s.locked_until now c.2 in
    let same : restart config now s ≡ s = not_restarted config now s (rw c.1 w) in
    rw (open_entry, fail) (ap (count_failure config now) same)

fail-counts :
    (config : LoginRateLimitConfig) (first n now : ℕ) (s : LoginThrottleState)
    → Counted first n s
    → now - first ≤ secs config.window_secs
    → config.max_failures < 2 ^ 32
    → n + 1 < config.max_failures
    → ((fail config now s).0 ≡ none) × Counted first (n + 1) (fail config now s).1
unfolding count_failure
fail-counts config first n now s c w small h =
    rw (fail_open config first n now s c w) (ground arith)

fail-locks :
    (config : LoginRateLimitConfig) (first n now : ℕ) (s : LoginThrottleState)
    → Counted first n s
    → now - first ≤ secs config.window_secs
    → config.max_failures < 2 ^ 32
    → 0 < config.lockout_secs
    → n + 1 ≡ config.max_failures
    → ((fail config now s).0 ≡ some (secs config.lockout_secs))
      × ((fail config now s).1.locked_until ≡ some (now + secs config.lockout_secs))
unfolding count_failure limited_until
fail-locks config first n now s c w small pos h =
    rw (fail_open config first n now s c w) (ground arith)

is_current_within :
    (config : LoginRateLimitConfig) (now : ℕ) (s : LoginThrottleState)
    → now - s.first_failure ≤ secs config.window_secs
    → is_current config now s ≡ true
unfolding is_current
is_current_within config now s h = ground arith

-- The entry of a key outlives a look inside its window.
lookup-prune-Counted :
    (config : LoginRateLimitConfig) (key : LoginThrottleKey) (first n now : ℕ)
    (s : LoginThrottleState) (attempts : Attempts)
    → Distinct Key-discrete attempts
    → lookup Key-discrete key attempts ≡ some s
    → Counted first n s
    → now - first ≤ secs config.window_secs
    → lookup Key-discrete key (prune_expired config now attempts) ≡ some s
unfolding prune_expired
lookup-prune-Counted config key first n now s attempts d found c w =
    let current : is_current config now s ≡ true = is_current_within config now s (rw c.1 w) in
    lookup-retain_kept Key-discrete key (is_current config now) attempts s d found
    ∙ ap (λ b. if b then some s else none) current

-- One failure for each of the instants.
unfoldable pub record_failures :
    Str → Str → List ℕ → LoginThrottle → List (Option ℕ) × LoginThrottle
record_failures username remote_addr [] t = ([], t)
record_failures username remote_addr (now ∷ times) t =
    let (answer, after) = record_failure_at username remote_addr now t in
    let (answers, final) = record_failures username remote_addr times after in
    (answer ∷ answers, final)

abbrev pub Within : ℕ → LoginRateLimitConfig → List ℕ → Type 0
Within first config = All (λ now. now - first ≤ secs config.window_secs)

-- The last of `now` and the instants after it.
unfoldable pub last : ℕ → List ℕ → ℕ
last now [] = now
last now (next ∷ times) = last next times

cons-eq : {a b : Option ℕ} {xs ys : List (Option ℕ)} → a ≡ b → xs ≡ ys → a ∷ xs ≡ b ∷ ys
cons-eq p q = rw (p, q) refl

module _ (username remote_addr : Str) (config : LoginRateLimitConfig)
    (on : is_enabled config ≡ true) (small : config.max_failures < 2 ^ 32) where
  abbrev key : LoginThrottleKey
  key = new_key username remote_addr

  one_failure :
      (now : ℕ) (t : LoginThrottle)
      → t.config ≡ config
      → IsValid config t.inner
      → let s = or_first now (lookup Key-discrete key (prune_expired config now t.inner)) in
        let out = record_failure_at username remote_addr now t in
        (out.0 ≡ (fail config now s).0)
        × (out.1.config ≡ config)
        × IsValid config out.1.inner
        × (lookup Key-discrete key out.1.inner ≡ some (fail config now s).1)
  one_failure now t same valid =
      let (answer, kept, entry) =
        record_failure-fail username remote_addr now t (ap is_enabled same ∙ on) in
      let after = (operations-IsValid username remote_addr now t (simp same valid)).0 in
      (simp same at answer, kept ∙ same, simp same at after, simp same at entry)

  lockout_positive : 0 < config.lockout_secs
  unfolding is_enabled
  lockout_positive = ground arith

  pub Counted-locks :
      (first n now : ℕ) (times : List ℕ) (t : LoginThrottle)
      → t.config ≡ config
      → IsValid config t.inner
      → Counted first n (or_first now (lookup Key-discrete key (prune_expired config now t.inner)))
      → Within first config (now ∷ times)
      → n + 1 + length times ≡ config.max_failures
      → let out = record_failures username remote_addr (now ∷ times) t in
        (out.0 ≡ replicate (length times) none ++ some (secs config.lockout_secs) ∷ [])
        × (out.1.config ≡ config)
        × IsValid config out.1.inner
        × ((s : LoginThrottleState) × (lookup Key-discrete key out.1.inner ≡ some s)
            × (s.locked_until ≡ some (last now times + secs config.lockout_secs)))
  unfolding record_failures last
  Counted-locks first n now [] t same valid counted within enough =
      let (answer, kept, after_valid, entry) = one_failure now t same valid in
      let (locks, until) =
        fail-locks config first n now _ counted within.0 small lockout_positive (omega arith) in
      (ap (λ a. a ∷ []) (answer ∙ locks), kept, after_valid, (_, entry, until))
  Counted-locks first n now (next ∷ times) t same valid counted within enough =
      let (answer, kept, after_valid, entry) = one_failure now t same valid in
      let (silent, counts) =
        fail-counts config first n now _ counted within.0 small (omega arith) in
      let after = (record_failure_at username remote_addr now t).1 in
      let tracked =
        lookup-prune-Counted config key first (n + 1) next _ after.inner after_valid.distinct entry
          counts within.1.0 in
      let (answers, config_kept, final_valid, locked) =
        Counted-locks first (n + 1) next times after kept after_valid (rw tracked counts) within.1
          (omega arith) in
      (cons-eq (answer ∙ silent) answers, config_kept, final_valid, locked)
