-- ===== src/LoginThrottle.antt =====
-- crates/llmtrace/src/login_throttle.rs: failed logins per user name and address, and the lock
-- that too many of them bring. Instants are in nanoseconds and do not overflow; the operations
-- hold the mutex from start to end, so each is one step.
pub mod Tracking
pub mod Lockout
pub mod Answers
use llmtrace.Base.{
  is_some, ℕ, zero, suc, ◌+◌, ◌-◌, ◌*◌, max, Bool, true, false, not, ◌&&◌, ◌||◌, List, [], ◌∷◌,
  Option, none, some, lookup, ltb, leb, if◌then◌else◌, length, ℕ_discrete,
}
use llmtrace.Base.Assoc.{insert, remove, retain}
use llmtrace.Base.Text.{Str, trim, to_ascii_lowercase, truncate_utf8}
use llmtrace.Base.Words.{saturating_add_u32}

pub record LoginRateLimitConfig : Type 0 where
  pub enabled : Bool
  pub max_failures : ℕ
  pub window_secs : ℕ
  pub lockout_secs : ℕ
  pub max_tracked_entries : ℕ

-- `LoginThrottleKey`: user name and remote address.
abbrev pub LoginThrottleKey : Type 0
LoginThrottleKey = Str × Str

unfoldable pub Key-discrete : Discrete LoginThrottleKey
Key-discrete = hlevel ℕ_discrete

pub record LoginThrottleState : Type 0 where
  pub failures : ℕ
  pub first_failure : ℕ
  pub locked_until : Option ℕ
  pub last_seen : ℕ

abbrev pub Attempts : Type 0
Attempts = List (LoginThrottleKey × LoginThrottleState)

pub record LoginThrottle : Type 0 where
  pub config : LoginRateLimitConfig
  pub inner : Attempts

pub data LoginThrottleDecision : Type 0 where
  allowed : LoginThrottleDecision
  limited : (retry_after : ℕ) → LoginThrottleDecision

abbrev max_login_throttle_username_bytes : ℕ
max_login_throttle_username_bytes = 320

abbrev pub secs : ℕ → ℕ
secs s = s * 1000000000

unfoldable pub new : LoginRateLimitConfig → LoginThrottle
new config = record { config = config; inner = [] }

unfoldable pub new_key : Str → Str → LoginThrottleKey
new_key username remote_addr = (
  truncate_utf8 (to_ascii_lowercase (trim username)) max_login_throttle_username_bytes,
  trim remote_addr,
)

unfoldable pub is_enabled : LoginRateLimitConfig → Bool
is_enabled config =
    config.enabled
    && ltb 0 config.max_failures
    && ltb 0 config.window_secs
    && ltb 0 config.lockout_secs
    && ltb 0 config.max_tracked_entries

-- What is left of a lock, and at least a second.
unfoldable pub limited_until : Option ℕ → ℕ → Option ℕ
limited_until none now = none
limited_until (some until) now = if leb until now then none else some (max (until - now) (secs 1))

-- `duration_since` is 0 for an instant that is still to come.
unfoldable pub is_current : LoginRateLimitConfig → ℕ → LoginThrottleState → Bool
is_current config now s =
    is_some (limited_until s.locked_until now)
    || leb (now - s.first_failure) (secs config.window_secs)

unfoldable pub prune_expired : LoginRateLimitConfig → ℕ → Attempts → Attempts
prune_expired config now attempts = retain Key-discrete (is_current config now) attempts

-- The entry that was seen least recently, as `min_by_key` finds it. The order of a `HashMap` is
-- that of the list here.
unfoldable pub oldest : Attempts → Option (LoginThrottleKey × LoginThrottleState)
oldest [] = none
oldest (e ∷ attempts) = elim (oldest attempts) [
  | none ↦ some e
  | some other ↦ if leb e.1.last_seen other.1.last_seen then some e else some other
]

unfoldable pub remove_oldest : Attempts → Attempts
remove_oldest attempts = elim (oldest attempts) [
  | none ↦ attempts
  | some e ↦ remove Key-discrete e.0 attempts
]

unfoldable pub make_room : LoginRateLimitConfig → LoginThrottleKey → Attempts → Attempts
make_room config key attempts =
    if not (is_some (lookup Key-discrete key attempts))
      && leb config.max_tracked_entries (length attempts)
    then remove_oldest attempts
    else attempts

-- `or_insert_with`.
abbrev pub or_first : ℕ → Option LoginThrottleState → LoginThrottleState
or_first now none = record {
  failures = 0;
  first_failure = now;
  locked_until = none;
  last_seen = now;
}
or_first now (some s) = s

-- The window has passed: the count starts again.
unfoldable pub restart : LoginRateLimitConfig → ℕ → LoginThrottleState → LoginThrottleState
restart config now s =
    if ltb (secs config.window_secs) (now - s.first_failure)
    then record s { failures = 0; first_failure = now; locked_until = none }
    else s

-- One more failure, which may bring the lock.
unfoldable pub count_failure :
    LoginRateLimitConfig → ℕ → LoginThrottleState → Option ℕ × LoginThrottleState
count_failure config now s =
    let failures = saturating_add_u32 s.failures 1 in
    let until = now + secs config.lockout_secs in
    if leb config.max_failures failures
    then (
      limited_until (some until) now,
      record s { failures = failures; last_seen = now; locked_until = some until },
    )
    else (none, record s { failures = failures; last_seen = now })

-- What a failure does to the entry of its key.
unfoldable pub fail : LoginRateLimitConfig → ℕ → LoginThrottleState → Option ℕ × LoginThrottleState
fail config now s = elim (limited_until s.locked_until now) [
  | some retry_after ↦ (some retry_after, record s { last_seen = now })
  | none ↦ count_failure config now (restart config now s)
]

unfoldable pub record_failure_at : Str → Str → ℕ → LoginThrottle → Option ℕ × LoginThrottle
record_failure_at username remote_addr now t =
    let key = new_key username remote_addr in
    let attempts = make_room t.config key (prune_expired t.config now t.inner) in
    let (answer, state) = fail t.config now (or_first now (lookup Key-discrete key attempts)) in
    if is_enabled t.config
    then (answer, record t { inner = insert Key-discrete key state attempts })
    else (none, t)

unfoldable pub decide : ℕ → Option LoginThrottleState → LoginThrottleDecision
decide now none = allowed
decide now (some s) = elim (limited_until s.locked_until now) [
  | none ↦ allowed
  | some retry_after ↦ limited retry_after
]

unfoldable pub check_at : Str → Str → ℕ → LoginThrottle → LoginThrottleDecision × LoginThrottle
check_at username remote_addr now t =
    let attempts = prune_expired t.config now t.inner in
    if is_enabled t.config
    then (
      decide now (lookup Key-discrete (new_key username remote_addr) attempts),
      record t { inner = attempts },
    )
    else (allowed, t)

unfoldable pub record_success_at : Str → Str → LoginThrottle → LoginThrottle
record_success_at username remote_addr t =
    if is_enabled t.config
    then record t { inner = remove Key-discrete (new_key username remote_addr) t.inner }
    else t
