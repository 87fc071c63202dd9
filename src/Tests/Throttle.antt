-- ===== src/Tests/Throttle.antt =====
-- Logins under the throttle of crates/llmtrace/src/login_throttle.rs.
use llmtrace.Base.{
  ◌+◌, ◌-◌, ◌≡◌, ◌≢◌, refl, ap, true, [], ◌∷◌, ◌++◌, none, some, arith, lookup, replicate, ltb,
  if◌then◌else◌, max,
}
use llmtrace.Base.Text.{Str, trim, trim_start, to_ascii_lowercase, truncate_utf8, byte_len}
use llmtrace.LoginThrottle.{
  LoginThrottle, new_key, secs, is_enabled, record_failure_at, check_at, record_success_at, allowed,
  limited,
}
use llmtrace.LoginThrottle.Tracking.{IsValid, operations-IsValid}
use llmtrace.LoginThrottle.Lockout.{record_failures, last}
use llmtrace.LoginThrottle.Answers.{failures-lock, check-record_success, check-record_success_other}

abbrev throttle : LoginThrottle
throttle = record {
  config = record {
    enabled = true;
    max_failures = 3;
    window_secs = 60;
    lockout_secs = 120;
    max_tracked_entries = 16;
  };
  inner = [];
}

throttle-IsValid : IsValid throttle.config throttle.inner
throttle-IsValid = record { distinct = tt; bounded = omega arith }

abbrev admin : Str
admin = b'a' ∷ b'd' ∷ []

abbrev guest : Str
guest = b'g' ∷ []

abbrev address : Str
address = b'1' ∷ []

operations-IsValid_example :
    IsValid throttle.config (record_failure_at admin address 5 throttle).1.inner
    × IsValid throttle.config (check_at admin address 5 throttle).1.inner
    × IsValid throttle.config (record_success_at admin address throttle).inner
operations-IsValid_example = operations-IsValid admin address 5 throttle throttle-IsValid

failures-lock_example :
    let out = record_failures admin address (0 ∷ 1000000000 ∷ 2000000000 ∷ []) throttle in
    let until = last 0 (1000000000 ∷ 2000000000 ∷ []) + secs 120 in
    (out.0 ≡ replicate 2 none ++ some (secs 120) ∷ [])
    × ((check_at admin address 3000000000 out.1).0
        ≡ (if ltb 3000000000 until then limited (max (until - 3000000000) (secs 1)) else allowed))
unfolding is_enabled lookup
failures-lock_example =
    failures-lock admin address throttle 0 3000000000 (1000000000 ∷ 2000000000 ∷ []) refl
      (omega arith) throttle-IsValid refl (omega arith, (omega arith, tt)) refl

check-record_success_example :
    (check_at admin address 9 (record_success_at admin address throttle)).0 ≡ allowed
check-record_success_example = check-record_success admin address throttle 9 throttle-IsValid

keys-differ : new_key guest address ≢ new_key admin address
unfolding new_key trim trim_start to_ascii_lowercase truncate_utf8 byte_len
keys-differ e = names (ap (λ k. k.0) e)
  where
    names : guest ≢ admin
    names p = ground arith

check-record_success_other_example :
    (check_at guest address 9 (record_success_at admin address throttle)).0
    ≡ (check_at guest address 9 throttle).0
check-record_success_other_example =
    check-record_success_other admin address guest address throttle 9 throttle-IsValid keys-differ
