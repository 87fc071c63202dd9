-- ===== src/Trace/Bounds/Completeness.antt =====
-- crates/llmtrace/src/trace.rs: a trace says so where it does not store all of its tags.
use llmtrace.Base.{
  ℕ, ◌+◌, ◌-◌, ◌≤◌, ◌≡◌, inl, inr, Bool, true, false, ◌||◌, List, [], ◌∷◌, ◌++◌, arith, ltb, leb,
  length, length-append, eq_bytes, eq_bytes→eq, eq_bytes_refl, Bool-cases, clash,
}
use llmtrace.Base.Text.{Str, is_empty}
use llmtrace.Trace.Bounds.{
  max_trace_tags, max_trace_tag_bytes, trace_enrichment_truncated_tag, truncate_utf8_owned,
  strip_nul_bytes_owned, has_tag, push_new, normalize_tag, normalize_tags, message_marker,
  required_tags, keep_tags, add_tags, bound_trace_tags,
}
use llmtrace.Trace.Bounds.Tags.{has_tag-append}
use llmtrace.Trace.Bounds.Messages.{cut_same, ltb-false}

has_tag-push_new_self : (tag : Str) (tags : List Str) → has_tag tag (push_new tag tags) ≡ true
unfolding has_tag
has_tag-push_new_self tag tags =
    ground (arith, has_tag-append tag tags (tag ∷ []), eq_bytes_refl tag)

has_tag-push_new :
    (x tag : Str) (tags : List Str) → has_tag x tags ≡ true → has_tag x (push_new tag tags) ≡ true
has_tag-push_new x tag tags h = ground (arith, has_tag-append x tags (tag ∷ []))

has_tag-add_tags :
    (x : Str) (required taken : List Str)
    → has_tag x taken ≡ true
    → has_tag x (add_tags required taken) ≡ true
unfolding add_tags
has_tag-add_tags x [] taken h = h
has_tag-add_tags x (tag ∷ required) taken h =
    has_tag-add_tags x required (push_new tag taken) (has_tag-push_new x tag taken h)

required-add_tags :
    (x : Str) (required taken : List Str)
    → has_tag x required ≡ true
    → has_tag x (add_tags required taken) ≡ true
unfolding add_tags has_tag
required-add_tags x [] taken h = cc
required-add_tags x (tag ∷ required) taken h = elim (Bool-cases (eq_bytes tag x)) [
  | inl y ↦
      let same = eq_bytes→eq tag x y in
      has_tag-add_tags x required (push_new tag taken)
        (rw (← same) (has_tag-push_new_self tag taken))
  | inr n ↦ required-add_tags x required (push_new tag taken) (ground arith)
]

-- The marker of a change is among the required tags.
enrichment_required :
    (messages identity : Bool) (tags : List Str) (changed : Bool)
    → (identity || changed || ltb (max_trace_tags - length (message_marker messages)) (length tags))
      ≡ true
    → has_tag trace_enrichment_truncated_tag (required_tags messages identity (tags, changed))
      ≡ true
unfolding required_tags has_tag
enrichment_required messages identity tags changed h =
    let self = eq_bytes_refl trace_enrichment_truncated_tag in
    let put =
      has_tag-append trace_enrichment_truncated_tag (message_marker messages)
        (trace_enrichment_truncated_tag ∷ []) in
    rw h (ground (arith, put, self))

kept-keep_tags :
    (x : Str) (required : List Str) (n : ℕ) (tags taken : List Str)
    → has_tag x taken ≡ true
    → has_tag x (keep_tags required n tags taken) ≡ true
unfolding keep_tags
kept-keep_tags x required n [] taken h = h
kept-keep_tags x required n (tag ∷ tags) taken h =
    kept-keep_tags x required n tags _ (ground (arith, has_tag-append x taken (tag ∷ [])))

-- Where they all fit, the second loop takes every tag that is not required.
has_tag-keep_tags :
    (x : Str) (required : List Str) (n : ℕ) (tags taken : List Str)
    → length taken + length tags ≤ n
    → has_tag x required ≡ false
    → has_tag x tags ≡ true
    → has_tag x (keep_tags required n tags taken) ≡ true
unfolding keep_tags has_tag
has_tag-keep_tags x required n [] taken h r p = cc
has_tag-keep_tags x required n (tag ∷ tags) taken h r p =
    let space : leb n (length taken) ≡ false = ground arith in
    let pushed = length-append taken (tag ∷ []) in
    let put = has_tag-append x taken (tag ∷ []) in
    elim (Bool-cases (eq_bytes tag x)) [
      | inl y ↦
          let free : has_tag tag required ≡ false = rw (eq_bytes→eq tag x y) r in
          rw (free, space)
            (kept-keep_tags x required n tags (taken ++ tag ∷ []) (ground (arith, put)))
      | inr m ↦ has_tag-keep_tags x required n tags _ (ground (arith, pushed)) r (ground arith)
    ]

kept-normalize_tag :
    (x tag : Str) (state : List Str × Bool)
    → has_tag x state.0 ≡ true
    → has_tag x (normalize_tag tag state).0 ≡ true
unfolding normalize_tag
kept-normalize_tag x tag (tags, changed) h =
    let put =
      has_tag-append x tags
        ((truncate_utf8_owned (strip_nul_bytes_owned tag).0 max_trace_tag_bytes).0 ∷ []) in
    ground (arith, put)

kept-normalize_tags :
    (x : Str) (tags : List Str) (state : List Str × Bool)
    → has_tag x state.0 ≡ true
    → has_tag x (normalize_tags tags state).0 ≡ true
unfolding normalize_tags
kept-normalize_tags x [] state h = h
kept-normalize_tags x (tag ∷ tags) state h =
    kept-normalize_tags x tags (normalize_tag tag state) (kept-normalize_tag x tag state h)

-- Once a tag was changed, the first loop says so.
changed-normalize_tags :
    (tags : List Str) (state : List Str × Bool)
    → state.1 ≡ true
    → (normalize_tags tags state).1 ≡ true
unfolding normalize_tags normalize_tag
changed-normalize_tags [] state h = h
changed-normalize_tags (tag ∷ tags) state h =
    changed-normalize_tags tags (normalize_tag tag state) (ground arith)

strip_same : (s : Str) → (strip_nul_bytes_owned s).1 ≡ false → (strip_nul_bytes_owned s).0 ≡ s
unfolding strip_nul_bytes_owned
strip_same s h = ground arith

-- A tag that is not reported as changed is taken as it is.
unchanged-normalize_tag :
    (tag : Str) (state : List Str × Bool)
    → is_empty tag ≡ false
    → (normalize_tag tag state).1 ≡ false
    → has_tag tag (normalize_tag tag state).0 ≡ true
unfolding normalize_tag
unchanged-normalize_tag tag (tags, changed) e h =
    elim (Bool-cases (is_empty (strip_nul_bytes_owned tag).0)) [
      | inl y ↦
          let none_changed : (changed || (strip_nul_bytes_owned tag).1) ≡ false = rw (e, y) at h in
          let same = strip_same tag (ground arith) in
          let empty : is_empty tag ≡ true = rw same at y in absurd (clash empty e)
      | inr n ↦
          let none_changed : (changed
                || ((strip_nul_bytes_owned tag).1
                    || (truncate_utf8_owned (strip_nul_bytes_owned tag).0 max_trace_tag_bytes).1))
              ≡ false =
            rw (e, n) at h in
          let same = cut_same tag max_trace_tag_bytes (ground arith) in
          rw (e, n, same) (has_tag-push_new_self tag tags)
    ]

complete-normalize_tags :
    (x : Str) (tags : List Str) (state : List Str × Bool)
    → is_empty x ≡ false
    → (normalize_tags tags state).1 ≡ false
    → has_tag x tags ≡ true
    → has_tag x (normalize_tags tags state).0 ≡ true
unfolding normalize_tags has_tag
complete-normalize_tags x [] state e h p = cc
complete-normalize_tags x (tag ∷ tags) state e h p = elim (Bool-cases (eq_bytes tag x)) [
  | inl y ↦
      let same = eq_bytes→eq tag x y in
      elim (Bool-cases (normalize_tag tag state).1) [
        | inl c ↦ absurd (clash (changed-normalize_tags tags (normalize_tag tag state) c) h)
        | inr u ↦
            let taken = unchanged-normalize_tag tag state (rw same e) u in
            kept-normalize_tags x tags (normalize_tag tag state) (rw (← same) taken)
      ]
  | inr n ↦ complete-normalize_tags x tags (normalize_tag tag state) e h (ground arith)
]

all_fit :
    (messages identity : Bool) (state : List Str × Bool)
    → (identity
        || state.1
        || ltb (max_trace_tags - length (message_marker messages)) (length state.0))
      ≡ false
    → length state.0 ≤ max_trace_tags - length (required_tags messages identity state)
unfolding required_tags
all_fit messages identity (tags, changed) h =
    let short : ltb (max_trace_tags - length (message_marker messages)) (length tags) ≡ false =
      ground arith in
    rw h (ltb-false short)

-- Where the result lacks the marker `trace_enrichment_truncated`, every tag that the trace came
-- with is in the result, the empty ones aside.
pub bound_trace_tags_complete :
    (tags : List Str) (messages identity : Bool) (x : Str)
    → has_tag trace_enrichment_truncated_tag (bound_trace_tags tags messages identity) ≡ false
    → is_empty x ≡ false
    → has_tag x tags ≡ true
    → has_tag x (bound_trace_tags tags messages identity) ≡ true
unfolding bound_trace_tags
bound_trace_tags_complete tags messages identity x h e p =
    let state = normalize_tags tags ([], false) in
    let required = required_tags messages identity state in
    let n = max_trace_tags - length required in
    let kept = keep_tags required n state.0 [] in
    elim (Bool-cases (
      identity
      || state.1
      || ltb (max_trace_tags - length (message_marker messages)) (length state.0))) [
        | inl y ↦
            let marked = enrichment_required messages identity state.0 state.1 y in
            absurd (clash (required-add_tags trace_enrichment_truncated_tag required kept marked) h)
        | inr m ↦
            let same = all_fit messages identity state m in
            let taken = complete-normalize_tags x tags ([], false) e (ground arith) p in
            elim (Bool-cases (has_tag x required)) [
              | inl r ↦ required-add_tags x required kept r
              | inr r ↦
                  has_tag-add_tags x required kept
                    (has_tag-keep_tags x required n state.0 [] (omega (arith, same)) r taken)
            ]
      ]
