-- ===== src/Trace/Bounds/Messages.antt =====
-- crates/llmtrace/src/trace.rs: the session messages of a trace keep within their bounds.
use llmtrace.Base.{
  ℕ, zero, suc, ap, ◌≤◌, ◌≡◌, refl, inl, inr, Bool, true, false, ◌||◌, List, [], ◌∷◌, arith, ltb,
  length, take, contains, Bool-cases, clash, All,
}
use llmtrace.Base.Text.{Str, byte_len}
use llmtrace.Base.Truncation.{byte_len-truncate-le, contains-truncate}
use llmtrace.Trace.Bounds.{
  max_session_messages_per_trace, max_session_message_role_bytes, max_session_message_content_bytes,
  truncate_utf8_owned, strip_nul_bytes_owned, ParsedMessage, bound_message, bound_messages,
  drain_middle, bound_session_messages,
}
use llmtrace.Trace.Bounds.Tags.{truncate_utf8_owned_lem, strip_nul_bytes_owned-clean}

-- A message that can be stored.
pub record IsMessage (message : ParsedMessage) : Type 0 where
  pub role_short : byte_len message.role ≤ max_session_message_role_bytes
  pub content_short : byte_len message.content ≤ max_session_message_content_bytes
  pub role_clean : contains 0 message.role ≡ false
  pub content_clean : contains 0 message.content ≡ false

cut_short : (s : Str) (n : ℕ) → byte_len (truncate_utf8_owned s n).0 ≤ n
cut_short s n = rw (truncate_utf8_owned_lem s n) (byte_len-truncate-le s n)

cut_clean :
    (s : Str) (n : ℕ) → contains 0 s ≡ false → contains 0 (truncate_utf8_owned s n).0 ≡ false
cut_clean s n h = rw (truncate_utf8_owned_lem s n) (contains-truncate 0 s n h)

bound_message-IsMessage : (message : ParsedMessage) → IsMessage (bound_message message).0
unfolding bound_message
bound_message-IsMessage message = record {
  role_short = cut_short _ max_session_message_role_bytes;
  content_short = cut_short _ max_session_message_content_bytes;
  role_clean =
      cut_clean _ max_session_message_role_bytes (strip_nul_bytes_owned-clean message.role);
  content_clean =
      cut_clean _ max_session_message_content_bytes (strip_nul_bytes_owned-clean message.content);
}

bound_messages-IsMessage :
    (messages : List ParsedMessage) (flag : Bool) → All IsMessage (bound_messages messages flag).0
unfolding bound_messages
bound_messages-IsMessage [] flag = tt
bound_messages-IsMessage (message ∷ messages) flag =
    (bound_message-IsMessage message, bound_messages-IsMessage messages _)

length-bound_messages :
    (messages : List ParsedMessage) (flag : Bool)
    → length (bound_messages messages flag).0 ≡ length messages
unfolding bound_messages
length-bound_messages [] flag = refl
length-bound_messages (message ∷ messages) flag =
    omega (arith, length-bound_messages messages (flag || (bound_message message).1))

-- A text that neither step changes is stored as it is.
pub cut_same :
    (s : Str) (n : ℕ)
    → ((strip_nul_bytes_owned s).1 || (truncate_utf8_owned (strip_nul_bytes_owned s).0 n).1) ≡ false
    → (truncate_utf8_owned (strip_nul_bytes_owned s).0 n).0 ≡ s
unfolding strip_nul_bytes_owned truncate_utf8_owned
cut_same s n h = ground arith

pub ltb-false : {a b : ℕ} → ltb a b ≡ false → b ≤ a
ltb-false h = ground arith

take_all {ℓ} : {A : Type ℓ} → (n : ℕ) (xs : List A) → length xs ≤ n → take n xs ≡ xs
take_all zero [] h = refl
take_all zero (x ∷ xs) h = absurd (omega arith)
take_all (suc n) [] h = refl
take_all (suc n) (x ∷ xs) h = ap (◌∷◌ x) (take_all n xs (omega arith))

length-take-le {ℓ} : {A : Type ℓ} → (n : ℕ) (xs : List A) → length (take n xs) ≤ n
length-take-le zero xs = omega arith
length-take-le (suc n) [] = omega arith
length-take-le (suc n) (x ∷ xs) = omega (arith, length-take-le n xs)

bound_message_same :
    (message : ParsedMessage)
    → (bound_message message).1 ≡ false
    → (bound_message message).0 ≡ message
unfolding bound_message
bound_message_same message h =
    let role = cut_same message.role max_session_message_role_bytes (ground arith) in
    let content = cut_same message.content max_session_message_content_bytes (ground arith) in
    let flag : (message.content_truncated
          || (strip_nul_bytes_owned message.content).1
          || (truncate_utf8_owned (strip_nul_bytes_owned message.content).0
              max_session_message_content_bytes).1)
        ≡ message.content_truncated =
      ground arith in
    simp (role, content, flag)

flag_stays : (messages : List ParsedMessage) → (bound_messages messages true).1 ≡ true
unfolding bound_messages
flag_stays [] = refl
flag_stays (message ∷ messages) = flag_stays messages

flag_true :
    (messages : List ParsedMessage) {flag : Bool}
    → flag ≡ true
    → (bound_messages messages flag).1 ≡ true
flag_true messages h = rw h (flag_stays messages)

bound_messages_same :
    (messages : List ParsedMessage)
    → (bound_messages messages false).1 ≡ false
    → (bound_messages messages false).0 ≡ messages
unfolding bound_messages
bound_messages_same [] h = refl
bound_messages_same (message ∷ messages) h = elim (Bool-cases (bound_message message).1) [
  | inl y ↦
      let all : (bound_messages messages true).1 ≡ false = rw y at h in
      absurd (clash (flag_stays messages) all)
  | inr n ↦
      let rest : (bound_messages messages false).1 ≡ false = rw n at h in
      simp (bound_message_same message n, n, bound_messages_same messages rest)
]

-- At most 128 messages are stored, each with a role of at most 64 bytes and a content of at most
-- 16 KiB, both without a NUL.
pub bound_session_messages-IsMessage :
    (messages : List ParsedMessage)
    → All IsMessage (bound_session_messages messages).0
      × (length (bound_session_messages messages).0 ≤ max_session_messages_per_trace)
unfolding bound_session_messages
bound_session_messages-IsMessage messages =
    let kept = take max_session_messages_per_trace (drain_middle messages) in
    (
      bound_messages-IsMessage kept _,
      omega (
        arith,
        length-bound_messages kept (ltb max_session_messages_per_trace (length messages)),
        length-take-le max_session_messages_per_trace (drain_middle messages),
      ),
    )

-- Where the messages are not reported as truncated, they are stored as they came.
pub bound_session_messages_same :
    (messages : List ParsedMessage)
    → (bound_session_messages messages).1 ≡ false
    → (bound_session_messages messages).0 ≡ messages
unfolding bound_session_messages drain_middle
bound_session_messages_same messages h =
    elim (Bool-cases (ltb max_session_messages_per_trace (length messages))) [
      | inl y ↦
          let kept = take max_session_messages_per_trace (drain_middle messages) in
          absurd (clash (flag_true kept y) h)
      | inr n ↦
          let all : take max_session_messages_per_trace messages ≡ messages =
            take_all max_session_messages_per_trace messages (ltb-false n) in
          let rest : (bound_messages messages false).1 ≡ false = rw (n, all) at h in
          rw (n, all) (bound_messages_same messages rest)
    ]
