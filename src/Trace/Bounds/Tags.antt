-- ===== src/Trace/Bounds/Tags.antt =====
-- crates/llmtrace/src/trace.rs: the tags of a trace keep within their bounds.
use llmtrace.Base.{
  ℕ, ◌+◌, ◌-◌, ◌≤◌, ◌≡◌, refl, inl, inr, Bool, true, false, ◌||◌, List, [], ◌∷◌, ◌++◌, arith, ltb,
  leb, length, length-append, contains, eq_bytes_sym, Bool-cases, All,
}
use llmtrace.Base.Text.{Str, byte_len, truncate_utf8, is_empty}
use llmtrace.Base.Truncation.{
  byte_len-truncate-le, contains-truncate, truncate-nonempty, contains-remove_char,
}
use llmtrace.Trace.Bounds.{
  max_trace_tags, max_trace_tag_bytes, session_messages_truncated_tag,
  trace_enrichment_truncated_tag, truncate_utf8_owned, strip_nul_bytes_owned, has_tag, push_new,
  normalize_tag, normalize_tags, message_marker, required_tags, keep_tags, add_tags,
  bound_trace_tags,
}

pub truncate_utf8_owned_lem : (s : Str) (n : ℕ) → (truncate_utf8_owned s n).0 ≡ truncate_utf8 s n
unfolding truncate_utf8_owned truncate_utf8
truncate_utf8_owned_lem s n = ground arith

pub strip_nul_bytes_owned-clean : (s : Str) → contains 0 (strip_nul_bytes_owned s).0 ≡ false
unfolding strip_nul_bytes_owned
strip_nul_bytes_owned-clean s = ground (arith, contains-remove_char 0 s)

-- A tag that can be stored.
pub record IsTag (tag : Str) : Type 0 where
  pub nonempty : is_empty tag ≡ false
  pub short : byte_len tag ≤ max_trace_tag_bytes
  pub clean : contains 0 tag ≡ false

-- No tag twice.
abbrev pub Different : List Str → Type 0
Different [] = Unit
Different (tag ∷ tags) = (has_tag tag tags ≡ false) × Different tags

-- Tags that can be stored, none twice.
pub record IsTagList (tags : List Str) : Type 0 where
  pub storable : All IsTag tags
  pub different : Different tags

pub has_tag-append :
    (tag : Str) (xs ys : List Str) → has_tag tag (xs ++ ys) ≡ (has_tag tag xs || has_tag tag ys)
unfolding has_tag
has_tag-append tag [] ys = refl
has_tag-append tag (x ∷ xs) ys = ground (arith, has_tag-append tag xs ys)

Different-push :
    (tag : Str) (tags : List Str)
    → has_tag tag tags ≡ false
    → Different tags
    → Different (tags ++ tag ∷ [])
unfolding has_tag
Different-push tag [] new d = (refl, tt)
Different-push tag (t ∷ tags) new d =
    let other = eq_bytes_sym t tag in
    (
      ground (arith, has_tag-append t tags (tag ∷ []), other),
      Different-push tag tags (ground arith) d.1,
    )

All-push : (tag : Str) (tags : List Str) → IsTag tag → All IsTag tags → All IsTag (tags ++ tag ∷ [])
All-push tag [] t a = (t, tt)
All-push tag (x ∷ tags) t a = (a.0, All-push tag tags t a.1)

IsTagList-push :
    (tag : Str) (tags : List Str)
    → IsTag tag
    → has_tag tag tags ≡ false
    → IsTagList tags
    → IsTagList (tags ++ tag ∷ [])
IsTagList-push tag tags t new v = record {
  storable = All-push tag tags t v.storable;
  different = Different-push tag tags new v.different;
}

push_new-IsTagList :
    (tag : Str) (tags : List Str) → IsTag tag → IsTagList tags → IsTagList (push_new tag tags)
push_new-IsTagList tag tags t v = elim (Bool-cases (has_tag tag tags)) [
  | inl old ↦ rw old v
  | inr new ↦ rw new (IsTagList-push tag tags t new v)
]

-- What the first loop makes of a tag.
cut-IsTag :
    (tag : Str)
    → is_empty (strip_nul_bytes_owned tag).0 ≡ false
    → IsTag (truncate_utf8_owned (strip_nul_bytes_owned tag).0 max_trace_tag_bytes).0
cut-IsTag tag h =
    let stripped = (strip_nul_bytes_owned tag).0 in
    rw (truncate_utf8_owned_lem stripped max_trace_tag_bytes) (record {
      nonempty = truncate-nonempty stripped max_trace_tag_bytes h (omega arith);
      short = byte_len-truncate-le stripped max_trace_tag_bytes;
      clean = contains-truncate 0 stripped max_trace_tag_bytes (strip_nul_bytes_owned-clean tag);
    })

normalize_tag-IsTagList :
    (tag : Str) (state : List Str × Bool)
    → IsTagList state.0
    → IsTagList (normalize_tag tag state).0
unfolding normalize_tag
normalize_tag-IsTagList tag (tags, changed) v = elim (Bool-cases (is_empty tag)) [
  | inl y ↦ rw y v
  | inr n ↦ elim (Bool-cases (is_empty (strip_nul_bytes_owned tag).0)) [
    | inl y ↦ rw (n, y) v
    | inr m ↦ rw (n, m) (push_new-IsTagList _ tags (cut-IsTag tag m) v)
  ]
]

normalize_tags-IsTagList :
    (tags : List Str) (state : List Str × Bool)
    → IsTagList state.0
    → IsTagList (normalize_tags tags state).0
unfolding normalize_tags
normalize_tags-IsTagList [] state v = v
normalize_tags-IsTagList (tag ∷ tags) state v =
    normalize_tags-IsTagList tags _ (normalize_tag-IsTagList tag state v)

-- None of the tags yet to come is among those taken.
Apart : List Str → List Str → Type 0
Apart tags taken = All (λ t. has_tag t taken ≡ false) tags

Apart-nil : (tags : List Str) → Apart tags []
unfolding Apart has_tag
Apart-nil [] = tt
Apart-nil (t ∷ tags) = (refl, Apart-nil tags)

Apart-push :
    (tag : Str) (tags taken : List Str)
    → has_tag tag tags ≡ false
    → Apart tags taken
    → Apart tags (taken ++ tag ∷ [])
unfolding Apart has_tag
Apart-push tag [] taken new apart = tt
Apart-push tag (t ∷ tags) taken new apart =
    let other = eq_bytes_sym t tag in
    (
      ground (arith, has_tag-append t taken (tag ∷ []), other),
      Apart-push tag tags taken (ground arith) apart.1,
    )

keep_tags-IsTagList :
    (required : List Str) (n : ℕ) (tags taken : List Str)
    → IsTagList tags
    → Apart tags taken
    → IsTagList taken
    → IsTagList (keep_tags required n tags taken)
unfolding keep_tags Apart
keep_tags-IsTagList required n [] taken v apart w = w
keep_tags-IsTagList required n (tag ∷ tags) taken v apart w =
    let rest : IsTagList tags = record { storable = v.storable.1; different = v.different.1 } in
    elim (Bool-cases (has_tag tag required)) [
      | inl y ↦ rw y (keep_tags-IsTagList required n tags taken rest apart.1 w)
      | inr m ↦ elim (Bool-cases (leb n (length taken))) [
        | inl full ↦ rw (m, full) (keep_tags-IsTagList required n tags taken rest apart.1 w)
        | inr space ↦
            rw (m, space)
              (keep_tags-IsTagList required n tags (taken ++ tag ∷ []) rest
                (Apart-push tag tags taken v.different.0 apart.1)
                (IsTagList-push tag taken v.storable.0 apart.0 w))
      ]
    ]

length-keep_tags :
    (required : List Str) (n : ℕ) (tags taken : List Str)
    → length taken ≤ n
    → length (keep_tags required n tags taken) ≤ n
unfolding keep_tags
length-keep_tags required n [] taken h = h
length-keep_tags required n (tag ∷ tags) taken h = elim (Bool-cases (has_tag tag required)) [
  | inl y ↦ rw y (length-keep_tags required n tags taken h)
  | inr m ↦ elim (Bool-cases (leb n (length taken))) [
    | inl full ↦ rw (m, full) (length-keep_tags required n tags taken h)
    | inr space ↦
        rw (m, space)
          (length-keep_tags required n tags (taken ++ tag ∷ [])
            (ground (arith, length-append taken (tag ∷ []))))
  ]
]

add_tags-IsTagList :
    (required taken : List Str)
    → All IsTag required
    → IsTagList taken
    → IsTagList (add_tags required taken)
unfolding add_tags
add_tags-IsTagList [] taken r w = w
add_tags-IsTagList (tag ∷ required) taken r w =
    add_tags-IsTagList required _ r.1 (push_new-IsTagList tag taken r.0 w)

length-add_tags :
    (required taken : List Str) → length (add_tags required taken) ≤ length taken + length required
unfolding add_tags
length-add_tags [] taken = omega arith
length-add_tags (tag ∷ required) taken =
    let rest = length-add_tags required (push_new tag taken) in
    ground (arith, rest, length-append taken (tag ∷ []))

marker-IsTag : IsTag session_messages_truncated_tag
unfolding session_messages_truncated_tag contains byte_len
marker-IsTag = record { nonempty = refl; short = omega arith; clean = refl }

enrichment-IsTag : IsTag trace_enrichment_truncated_tag
unfolding trace_enrichment_truncated_tag contains byte_len
enrichment-IsTag = record { nonempty = refl; short = omega arith; clean = refl }

message_marker-IsTag : (messages : Bool) → All IsTag (message_marker messages)
message_marker-IsTag true = (marker-IsTag, tt)
message_marker-IsTag false = tt

length-message_marker : (messages : Bool) → length (message_marker messages) ≤ 1
length-message_marker true = omega arith
length-message_marker false = omega arith

required_tags-IsTag :
    (messages identity : Bool) (state : List Str × Bool)
    → All IsTag (required_tags messages identity state)
unfolding required_tags
required_tags-IsTag messages identity (tags, changed) =
    elim (Bool-cases (
      identity
      || changed
      || ltb (max_trace_tags - length (message_marker messages)) (length tags))) [
        | inl y ↦
            rw y (
              All-push _ (message_marker messages) enrichment-IsTag (message_marker-IsTag messages))
        | inr n ↦ rw n (message_marker-IsTag messages)
      ]

length-required_tags :
    (messages identity : Bool) (state : List Str × Bool)
    → length (required_tags messages identity state) ≤ 2
unfolding required_tags
length-required_tags messages identity (tags, changed) =
    let short = length-message_marker messages in
    let pushed = length-append (message_marker messages) (trace_enrichment_truncated_tag ∷ []) in
    elim (Bool-cases (
      identity
      || changed
      || ltb (max_trace_tags - length (message_marker messages)) (length tags))) [
        | inl y ↦ rw y (omega (arith, short, pushed))
        | inr n ↦ rw n (omega (arith, short))
      ]

-- Whatever tags a trace comes with, at most 64 are stored, none of them is empty, longer than 128
-- bytes or has a NUL, and none occurs twice.
pub bound_trace_tags-IsTagList :
    (tags : List Str) (messages identity : Bool)
    → IsTagList (bound_trace_tags tags messages identity)
      × (length (bound_trace_tags tags messages identity) ≤ max_trace_tags)
unfolding bound_trace_tags Apart
bound_trace_tags-IsTagList tags messages identity =
    let state = normalize_tags tags ([], false) in
    let required = required_tags messages identity state in
    let n = max_trace_tags - length required in
    let empty : IsTagList [] = record { storable = tt; different = tt } in
    let normal = normalize_tags-IsTagList tags ([], false) empty in
    let kept = keep_tags required n state.0 [] in
    (
      add_tags-IsTagList required kept (required_tags-IsTag messages identity state)
          (keep_tags-IsTagList required n state.0 [] normal (Apart-nil state.0) empty),
      omega (
        arith,
        length-add_tags required kept,
        length-keep_tags required n state.0 [] (omega arith),
        length-required_tags messages identity state,
      ),
    )
