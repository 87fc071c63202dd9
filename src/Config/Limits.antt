-- ===== src/Config/Limits.antt =====
-- crates/llmtrace/src/config.rs: what a validated storage and login throttle keep to.
use llmtrace.Base.{
  ℕ, ◌*◌, ◌≡◌, refl, ◌≤◌, ◌<◌, inl, inr, Bool, true, false, [], Option, none, some, arith, ltb,
  ◌==◌, Bool-cases, is_some,
}
use llmtrace.Base.Int.{ℤ, pos, negsuc, is_positive, exceeds, magnitude}
use llmtrace.Base.Text.{Str}
use llmtrace.LoginThrottle.{LoginRateLimitConfig}
use llmtrace.Trace.Journal.Capacity.{IsConfigured}
use llmtrace.Config.Types.{DeploymentMode, is_production, StorageConfig, Externals}
use llmtrace.Config.Reports.{validate_positive_range-Empty, concat-Clean, cons_nil}
use llmtrace.Config.Storage.{validate_signed, validate_retention_days, validate_storage}
use llmtrace.Config.Auth.{validate_enabled, validate_login_rate_limit}

-- A number that is positive and within a bound.
abbrev pub Within : ℕ → ℕ → Type 0
Within max value = (0 < value) × (value ≤ max)

pub record IsStorage (production : Bool) (storage : StorageConfig) : Type 0 where
  pub queue : Within 1000000 storage.trace_queue_capacity
  pub budget : Within (64 * 1024 * 1024 * 1024) storage.trace_queue_max_bytes
  pub workers : Within 128 storage.trace_worker_count
  pub journal : IsConfigured storage.journal
  pub retry : Within 3600 storage.journal.retry_interval_secs
  pub retention : production ≡ true → is_some storage.retention_days ≡ true

retention_days-some :
    (production : Bool) (days : Option ℤ)
    → validate_retention_days production days ≡ []
    → production ≡ true
    → is_some days ≡ true
unfolding validate_retention_days
retention_days-some production (some days) h p = refl
retention_days-some true none h p = cc
retention_days-some false none h p = cc

module _ {Url Socket : Type 0} (x : Externals Url Socket) where
  pub validate_storage-IsStorage :
      (deployment : DeploymentMode) (storage : StorageConfig)
      → validate_storage x deployment storage ≡ []
      → IsStorage (is_production deployment) storage
  unfolding validate_storage
  validate_storage-IsStorage deployment storage h =
      let (
        rotate,
        (
          interval,
          (
            url,
            (
              connections,
              (
                acquire,
                (
                  capacity,
                  (
                    queue_bytes,
                    (worker_count, (bytes, (records, (retry_secs, (directory, (days, others)))))),
                  ),
                ),
              ),
            ),
          ),
        ),
      ) =
        concat-Clean _ h in
      record {
        queue = validate_positive_range-Empty _ _ _ capacity;
        budget = validate_positive_range-Empty _ _ _ queue_bytes;
        workers = validate_positive_range-Empty _ _ _ worker_count;
        journal = record {
          bytes_limit = (validate_positive_range-Empty _ _ _ bytes).1;
          records_limit = (validate_positive_range-Empty _ _ _ records).1;
        };
        retry = validate_positive_range-Empty _ _ _ retry_secs;
        retention = retention_days-some (is_production deployment) storage.retention_days days;
      }

not-exceeds : (value : ℤ) (max : ℕ) → exceeds max value ≡ false → magnitude value ≤ max
not-exceeds (pos n) max h = ground arith
not-exceeds (negsuc n) max h = omega arith

pub validate_signed-Empty :
    (field : Str) (value : ℤ) (max : ℕ)
    → validate_signed field value max ≡ []
    → (is_positive value ≡ true) × (magnitude value ≤ max)
unfolding validate_signed
validate_signed-Empty field value max h = elim (Bool-cases (is_positive value)) [
  | inr n ↦ absurd (cons_nil (rw n at h))
  | inl y ↦ elim (Bool-cases (exceeds max value)) [
    | inl above ↦ absurd (cons_nil (rw (y, above) at h))
    | inr within ↦ (y, not-exceeds value max within)
  ]
]

validate_enabled-Empty :
    (field : Str) (value max : ℕ) → validate_enabled field value max ≡ [] → Within max value
unfolding validate_enabled
validate_enabled-Empty field value max h = elim (Bool-cases (value == 0)) [
  | inl y ↦ absurd (cons_nil (rw y at h))
  | inr n ↦ elim (Bool-cases (ltb max value)) [
    | inl above ↦ absurd (cons_nil (rw (n, above) at h))
    | inr within ↦ (ground arith, ground arith)
  ]
]

-- The limits that an enabled throttle works with.
pub record IsLimited (config : LoginRateLimitConfig) : Type 0 where
  pub failures : Within 1000 config.max_failures
  pub window : Within (24 * 60 * 60) config.window_secs
  pub lockout : Within (24 * 60 * 60) config.lockout_secs
  pub tracked : Within 1000000 config.max_tracked_entries

pub validate_login_rate_limit-IsLimited :
    (config : LoginRateLimitConfig)
    → validate_login_rate_limit config ≡ []
    → config.enabled ≡ true
    → IsLimited config
unfolding validate_login_rate_limit
validate_login_rate_limit-IsLimited config h on =
    let all = rw on at h in
    let (failures, (window, (lockout, (tracked, others)))) = concat-Clean _ all in
    record {
      failures = validate_enabled-Empty _ _ _ failures;
      window = validate_enabled-Empty _ _ _ window;
      lockout = validate_enabled-Empty _ _ _ lockout;
      tracked = validate_enabled-Empty _ _ _ tracked;
    }
