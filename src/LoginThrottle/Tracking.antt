-- ===== src/LoginThrottle/Tracking.antt =====
-- crates/llmtrace/src/login_throttle.rs: what is tracked, and for whom.
use llmtrace.Base.{
  ℕ, ◌+◌, ◌≤◌, ◌<◌, ◌≡◌, refl, inl, inr, [], ◌∷◌, none, some, lookup, arith, length, Bool-cases,
  Option-cases,
}
use llmtrace.Base.Assoc.{
  Distinct, insert, insert-Distinct, remove-Distinct, retain-Distinct, length-retain-le,
  length-insert_absent, length-insert_present, length-remove, length-remove-le, lookup-remove_none,
}
use llmtrace.Base.Text.{Str}
use llmtrace.LoginThrottle.{
  LoginRateLimitConfig, LoginThrottleKey, Key-discrete, LoginThrottleState, Attempts, LoginThrottle,
  new_key, is_enabled, is_current, prune_expired, oldest, remove_oldest, make_room,
  record_failure_at, check_at, record_success_at,
}

-- One entry for each key, and no more entries than are allowed.
pub record IsValid (config : LoginRateLimitConfig) (attempts : Attempts) : Type 0 where
  pub distinct : Distinct Key-discrete attempts
  pub bounded : length attempts ≤ config.max_tracked_entries

prune-IsValid :
    (config : LoginRateLimitConfig) (now : ℕ) (attempts : Attempts)
    → IsValid config attempts
    → IsValid config (prune_expired config now attempts)
unfolding prune_expired
prune-IsValid config now attempts v = record {
  distinct = retain-Distinct Key-discrete (is_current config now) attempts v.distinct;
  bounded =
      omega (arith, length-retain-le Key-discrete (is_current config now) attempts, v.bounded);
}

-- The oldest entry is one of the entries, and none was seen before it.
oldest-found :
    (attempts : Attempts) (e : LoginThrottleKey × LoginThrottleState)
    → Distinct Key-discrete attempts
    → oldest attempts ≡ some e
    → lookup Key-discrete e.0 attempts ≡ some e.1
unfolding oldest lookup
oldest-found [] e d h = cc
oldest-found (a ∷ attempts) e d h = elim (Option-cases (oldest attempts)) [
  | inl n ↦ ground (arith)
  | inr (other, found) ↦ ground (arith, oldest-found attempts other d.1 found)
]

oldest-none : (attempts : Attempts) → oldest attempts ≡ none → length attempts ≡ 0
unfolding oldest
oldest-none [] h = refl
oldest-none (a ∷ attempts) h = ground arith

remove_oldest-Distinct :
    (attempts : Attempts)
    → Distinct Key-discrete attempts
    → Distinct Key-discrete (remove_oldest attempts)
unfolding remove_oldest
remove_oldest-Distinct attempts d = elim (Option-cases (oldest attempts)) [
  | inl n ↦ rw (n, remove_oldest) d
  | inr (e, found) ↦ rw (found, remove_oldest) (remove-Distinct Key-discrete e.0 attempts d)
]

length-remove_oldest :
    (attempts : Attempts)
    → Distinct Key-discrete attempts
    → 0 < length attempts
    → length (remove_oldest attempts) + 1 ≡ length attempts
unfolding remove_oldest
length-remove_oldest attempts d pos = elim (Option-cases (oldest attempts)) [
  | inl n ↦ absurd (omega (arith, oldest-none attempts n))
  | inr (e, found) ↦
      rw (found, remove_oldest)
        (length-remove Key-discrete e.0 e.1 attempts (oldest-found attempts e d found))
]

-- A new key finds room, and a key that is there keeps its entry.
make_room-room :
    (config : LoginRateLimitConfig) (key : LoginThrottleKey) (attempts : Attempts)
    → 0 < config.max_tracked_entries
    → IsValid config attempts
    → lookup Key-discrete key attempts ≡ none
    → length (make_room config key attempts) < config.max_tracked_entries
unfolding make_room
make_room-room config key attempts pos v new =
    let bounded = v.bounded in
    let shorter = length-remove_oldest attempts v.distinct in ground (arith, shorter)

pub make_room_present :
    (config : LoginRateLimitConfig) (key : LoginThrottleKey) (s : LoginThrottleState)
    (attempts : Attempts)
    → lookup Key-discrete key attempts ≡ some s
    → make_room config key attempts ≡ attempts
unfolding make_room
make_room_present config key s attempts h = rw h refl

pub lookup-make_room_absent :
    (config : LoginRateLimitConfig) (q key : LoginThrottleKey) (attempts : Attempts)
    → lookup Key-discrete q attempts ≡ none
    → lookup Key-discrete q (make_room config key attempts) ≡ none
unfolding make_room remove_oldest
lookup-make_room_absent config q key attempts h = elim (Option-cases (oldest attempts)) [
  | inl n ↦ ground (arith, n)
  | inr (e, found) ↦
      let r = lookup-remove_none Key-discrete q e.0 attempts h in ground (arith, r, found)
]

make_room-Distinct :
    (config : LoginRateLimitConfig) (key : LoginThrottleKey) (attempts : Attempts)
    → Distinct Key-discrete attempts
    → Distinct Key-discrete (make_room config key attempts)
unfolding make_room
make_room-Distinct config key attempts d =
    let removed = remove_oldest-Distinct attempts d in ground (arith, removed)

stored-IsValid :
    (config : LoginRateLimitConfig) (key : LoginThrottleKey) (s : LoginThrottleState)
    (attempts : Attempts)
    → 0 < config.max_tracked_entries
    → IsValid config attempts
    → IsValid config (insert Key-discrete key s (make_room config key attempts))
stored-IsValid config key s attempts pos v =
    elim (Option-cases (lookup Key-discrete key attempts)) [
      | inl new ↦
          let room = make_room-room config key attempts pos v new in
          record {
            distinct =
                insert-Distinct Key-discrete key s _
                  (make_room-Distinct config key attempts v.distinct);
            bounded = omega (
              arith,
              room,
              length-insert_absent Key-discrete key s (make_room config key attempts)
                  (lookup-make_room_absent config key key attempts new),
            );
          }
      | inr (old, found) ↦ rw (make_room_present config key old attempts found) (record {
        distinct = insert-Distinct Key-discrete key s attempts v.distinct;
        bounded =
            omega (arith, v.bounded, length-insert_present Key-discrete key s old attempts found);
      })
    ]

module _ (username remote_addr : Str) (now : ℕ) (t : LoginThrottle)
    (valid : IsValid t.config t.inner) where
  failure-IsValid : IsValid t.config (record_failure_at username remote_addr now t).1.inner
  unfolding record_failure_at is_enabled
  failure-IsValid = elim (Bool-cases (is_enabled t.config)) [
    | inl on ↦
        rw on
          (stored-IsValid t.config _ _ _ (ground arith) (prune-IsValid t.config now t.inner valid))
    | inr off ↦ simp off valid
  ]

  check-IsValid : IsValid t.config (check_at username remote_addr now t).1.inner
  unfolding check_at
  check-IsValid = elim (Bool-cases (is_enabled t.config)) [
    | inl on ↦ simp on (prune-IsValid t.config now t.inner valid)
    | inr off ↦ simp off valid
  ]

  success-IsValid : IsValid t.config (record_success_at username remote_addr t).inner
  unfolding record_success_at
  success-IsValid = elim (Bool-cases (is_enabled t.config)) [
    | inl on ↦ simp on (record {
      distinct = remove-Distinct Key-discrete (new_key username remote_addr) t.inner valid.distinct;
      bounded = omega (
        arith,
        valid.bounded,
        length-remove-le Key-discrete (new_key username remote_addr) t.inner,
      );
    })
    | inr off ↦ simp off valid
  ]

  -- A failure, a check and a success each keep a throttle well formed: no more keys than
  -- configured, and one entry for each.
  pub operations-IsValid :
      IsValid t.config (record_failure_at username remote_addr now t).1.inner
      × IsValid t.config (check_at username remote_addr now t).1.inner
      × IsValid t.config (record_success_at username remote_addr t).inner
  operations-IsValid = (failure-IsValid, check-IsValid, success-IsValid)
