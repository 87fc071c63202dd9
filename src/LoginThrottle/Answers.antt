-- ===== src/LoginThrottle/Answers.antt =====
-- crates/llmtrace/src/login_throttle.rs: what the throttle answers after failures and successes.
use llmtrace.Base.{
  Option-cases, sym, Bool, ◌≢◌, List, ℕ, ◌+◌, ◌-◌, ◌<◌, ◌^◌, ◌≡◌, refl, ap, ◌∙◌, inl, inr, true,
  false, List, [], ◌∷◌, ◌++◌, none, some, lookup, arith, ltb, leb, max, length, replicate,
  Bool-cases, if◌then◌else◌,
}
use llmtrace.Base.Assoc.{
  retain, remove-Distinct, lookup-remove_ne, Distinct, remove, lookup-remove_self,
  lookup-retain-none, lookup-retain_kept,
}
use llmtrace.Base.Text.{Str}
use llmtrace.LoginThrottle.{
  LoginThrottleKey, LoginRateLimitConfig, Key-discrete, LoginThrottleState, Attempts, LoginThrottle,
  new_key, secs, is_enabled, limited_until, is_current, prune_expired, check_at, record_success_at,
  decide, allowed, limited,
}
use llmtrace.LoginThrottle.Tracking.{IsValid}
use llmtrace.LoginThrottle.Lockout.{record_failures, Within, last, Counted-locks}

limited_until_over : (until now : ℕ) → leb until now ≡ true → limited_until (some until) now ≡ none
unfolding limited_until
limited_until_over until now h = rw h refl

limited_until_closed :
    (until now : ℕ)
    → leb until now ≡ false
    → limited_until (some until) now ≡ some (max (until - now) (secs 1))
unfolding limited_until
limited_until_closed until now h = rw h refl

is_current_limited :
    (config : LoginRateLimitConfig) (now : ℕ) (s : LoginThrottleState) (d : ℕ)
    → limited_until s.locked_until now ≡ some d
    → is_current config now s ≡ true
unfolding is_current
is_current_limited config now s d h = rw h refl

decide_locked :
    (config : LoginRateLimitConfig) (until later : ℕ) (s : LoginThrottleState)
    → limited_until s.locked_until later ≡ limited_until (some until) later
    → decide later (if is_current config later s then some s else none)
      ≡ (if ltb later until then limited (max (until - later) (secs 1)) else allowed)
unfolding decide
decide_locked config until later s lock = elim (Bool-cases (leb until later)) [
  | inl over ↦
      let free : limited_until s.locked_until later ≡ none =
        lock ∙ limited_until_over until later over in
      elim (Bool-cases (is_current config later s)) [
        | inl kept ↦ rw (kept, free, decide) (ground arith)
        | inr dropped ↦ rw dropped (ground arith)
      ]
  | inr closed ↦
      let shut : limited_until s.locked_until later ≡ some (max (until - later) (secs 1)) =
        lock ∙ limited_until_closed until later closed in
      rw (is_current_limited config later s _ shut, shut, decide) (ground arith)
]

-- What a check finds where the entry of its key has a lock.
check_locked :
    (username remote_addr : Str) (until later : ℕ) (s : LoginThrottleState) (t : LoginThrottle)
    → is_enabled t.config ≡ true
    → Distinct Key-discrete t.inner
    → lookup Key-discrete (new_key username remote_addr) t.inner ≡ some s
    → s.locked_until ≡ some until
    → (check_at username remote_addr later t).0
      ≡ (if ltb later until then limited (max (until - later) (secs 1)) else allowed)
unfolding check_at prune_expired
check_locked username remote_addr until later s t on d found lock =
    let kept =
      lookup-retain_kept Key-discrete (new_key username remote_addr) (is_current t.config later)
        t.inner s d found in
    simp (on, kept) (decide_locked t.config until later s (ap (λ o. limited_until o later) lock))

-- Where a key has no entry in a well-formed throttle, `max_failures` failures of it in a row, all
-- within the window of the first, are answered with nothing but the last, which is answered with
-- the lockout. A check of the key after them is limited, for the rest of the lockout and at least
-- a second, and allowed when the lockout is over. Throttling is enabled, and `max_failures` is a
-- u32.
pub failures-lock :
    (username remote_addr : Str) (t : LoginThrottle) (first later : ℕ) (times : List ℕ)
    → is_enabled t.config ≡ true
    → t.config.max_failures < 2 ^ 32
    → IsValid t.config t.inner
    → lookup Key-discrete (new_key username remote_addr) t.inner ≡ none
    → Within first t.config times
    → 1 + length times ≡ t.config.max_failures
    → let out = record_failures username remote_addr (first ∷ times) t in
      let until = last first times + secs t.config.lockout_secs in
      (out.0 ≡ replicate (length times) none ++ some (secs t.config.lockout_secs) ∷ [])
      × ((check_at username remote_addr later out.1).0
          ≡ (if ltb later until then limited (max (until - later) (secs 1)) else allowed))
unfolding prune_expired
failures-lock username remote_addr t first later times on small valid new within enough =
    let fresh =
      lookup-retain-none Key-discrete (new_key username remote_addr) (is_current t.config first)
        t.inner new in
    let (answers, kept, final_valid, (s, found, lock)) =
      Counted-locks username remote_addr t.config on small first 0 first times t refl valid
        (rw fresh (refl, refl, refl)) (omega arith, within) enough in
    (
      answers,
      check_locked username remote_addr _ later s _ (ap is_enabled kept ∙ on) final_valid.distinct
          found lock,
    )

-- After a success of a key in a well-formed throttle, a check of the key allows it.
pub check-record_success :
    (username remote_addr : Str) (t : LoginThrottle) (later : ℕ)
    → IsValid t.config t.inner
    → (check_at username remote_addr later (record_success_at username remote_addr t)).0 ≡ allowed
unfolding check_at record_success_at decide prune_expired
check-record_success username remote_addr t later valid = elim (Bool-cases (is_enabled t.config)) [
  | inl on ↦
      let gone =
        lookup-remove_self Key-discrete (new_key username remote_addr) t.inner valid.distinct in
      let pruned =
        lookup-retain-none Key-discrete (new_key username remote_addr) (is_current t.config later)
          (remove Key-discrete (new_key username remote_addr) t.inner) gone in
      simp (on, pruned) refl
  | inr off ↦ simp off refl
]

lookup-retain-eq :
    (q : LoginThrottleKey) (p : LoginThrottleState → Bool) (xs ys : Attempts)
    → Distinct Key-discrete xs
    → Distinct Key-discrete ys
    → lookup Key-discrete q xs ≡ lookup Key-discrete q ys
    → lookup Key-discrete q (retain Key-discrete p xs)
      ≡ lookup Key-discrete q (retain Key-discrete p ys)
lookup-retain-eq q p xs ys dx dy same = elim (Option-cases (lookup Key-discrete q ys)) [
  | inl none_y ↦
      lookup-retain-none Key-discrete q p xs (same ∙ none_y)
      ∙ sym (lookup-retain-none Key-discrete q p ys none_y)
  | inr (s, found) ↦
      lookup-retain_kept Key-discrete q p xs s dx (same ∙ found)
      ∙ sym (lookup-retain_kept Key-discrete q p ys s dy found)
]

-- A success of one key in a well-formed throttle changes the answer of a check for no other key.
pub check-record_success_other :
    (username remote_addr other_name other_addr : Str) (t : LoginThrottle) (later : ℕ)
    → IsValid t.config t.inner
    → new_key other_name other_addr ≢ new_key username remote_addr
    → (check_at other_name other_addr later (record_success_at username remote_addr t)).0
      ≡ (check_at other_name other_addr later t).0
unfolding check_at record_success_at prune_expired
check-record_success_other username remote_addr other_name other_addr t later valid differ =
    elim (Bool-cases (is_enabled t.config)) [
      | inl on ↦
          let without = remove Key-discrete (new_key username remote_addr) t.inner in
          simp on (
            ap (decide later) (
              lookup-retain-eq (new_key other_name other_addr) (is_current t.config later) without
                t.inner
                (remove-Distinct Key-discrete (new_key username remote_addr) t.inner valid.distinct)
                valid.distinct (lookup-remove_ne Key-discrete t.inner differ)))
      | inr off ↦ simp off refl
    ]
