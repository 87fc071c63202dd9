-- ===== src/Storage/Archive/Segments.antt =====
-- crates/llmtrace/src/storage/archive.rs: every record of a segment is found at its offset.
use llmtrace.Base.{
  ℕ, ◌<◌, ◌^◌, ◌≡◌, ◌∙◌, List, [], ◌∷◌, ◌++◌, arith, ltb, length, append_assoc, append-nil, inl,
  inr, Bool-cases,
}
use llmtrace.Base.Words.{word_mod}
use llmtrace.Base.Results.{ok, Result-cases}
use llmtrace.Storage.Archive.{
  pos, encode_archive_frame, decode_archive_frame_body, ArchiveRecordWrite, PreparedArchiveRecord,
  usize_to_i64_checked, prepare_archive_record, join_records, prepare_archive_segment,
}
use llmtrace.Storage.Archive.Frames.{decode-encode_archive_frame}

-- The records that were prepared from these headers and bodies.
abbrev pub Prepared : List (List ℕ × List ℕ) → List PreparedArchiveRecord → Type 0
Prepared [] [] = Unit
Prepared [] (r ∷ records) = ⊥
Prepared (p ∷ payloads) [] = ⊥
Prepared ((header, body) ∷ payloads) (r ∷ records) =
    (prepare_archive_record header body ≡ ok r) × Prepared payloads records

-- Each write leads to its body in the segment.
abbrev pub Found : List ℕ → List (List ℕ × List ℕ) → List ArchiveRecordWrite → Type 0
Found segment [] [] = Unit
Found segment [] (w ∷ writes) = ⊥
Found segment (p ∷ payloads) [] = ⊥
Found segment ((header, body) ∷ payloads) (w ∷ writes) =
    (decode_archive_frame_body segment (pos w.uncompressed_offset) ≡ ok body)
    × (w.uncompressed_len ≡ length body)
    × Found segment payloads writes

-- What the first round of the loop leaves to the others.
join_records-cons :
    (r : PreparedArchiveRecord) (records : List PreparedArchiveRecord) (buffer segment : List ℕ)
    (writes : List ArchiveRecordWrite)
    → join_records (r ∷ records) buffer ≡ ok (segment, writes)
    → (others : List ArchiveRecordWrite) × (join_records records (buffer ++ r.frame)
        ≡ ok (segment, others))
      × (writes
          ≡ record { uncompressed_offset = length buffer; uncompressed_len = r.uncompressed_len }
            ∷ others)
unfolding join_records usize_to_i64_checked
join_records-cons r records buffer segment writes h =
    elim (Bool-cases (ltb (length buffer) (2 ^ 63))) [
      | inr large ↦ absurd (ground arith)
      | inl small ↦ elim (Result-cases (join_records records (buffer ++ r.frame))) [
        | inl (e, f) ↦ absurd (ground arith)
        | inr ((whole, others), f) ↦ (others, ground arith, ground arith)
      ]
    ]

join_records-prefix :
    (records : List PreparedArchiveRecord) (buffer segment : List ℕ)
    (writes : List ArchiveRecordWrite)
    → join_records records buffer ≡ ok (segment, writes)
    → (rest : List ℕ) × (segment ≡ buffer ++ rest)
unfolding join_records
join_records-prefix [] buffer segment writes h = ([], ground (arith, append-nil buffer))
join_records-prefix (r ∷ records) buffer segment writes h =
    let (others, later, _) = join_records-cons r records buffer segment writes h in
    let (rest, e) = join_records-prefix records (buffer ++ r.frame) segment others later in
    (r.frame ++ rest, e ∙ append_assoc buffer r.frame rest)

prepare_archive_record-eq-ok :
    (header body : List ℕ) (r : PreparedArchiveRecord)
    → prepare_archive_record header body ≡ ok r
    → (encode_archive_frame header body ≡ ok r.frame) × (r.uncompressed_len ≡ length body)
unfolding prepare_archive_record usize_to_i64_checked
prepare_archive_record-eq-ok header body r h = ground arith

join_records-Found :
    (payloads : List (List ℕ × List ℕ)) (records : List PreparedArchiveRecord)
    (buffer segment : List ℕ) (writes : List ArchiveRecordWrite)
    → Prepared payloads records
    → join_records records buffer ≡ ok (segment, writes)
    → length segment < word_mod
    → Found segment payloads writes
unfolding join_records
join_records-Found [] [] buffer segment writes p h small =
    let none_left : writes ≡ [] = ground arith in rw none_left tt
join_records-Found [] (r ∷ records) buffer segment writes p h small = absurd p
join_records-Found (q ∷ payloads) [] buffer segment writes p h small = absurd p
join_records-Found ((header, body) ∷ payloads) (r ∷ records) buffer segment writes p h small =
    let (others, later, shape) = join_records-cons r records buffer segment writes h in
    let (rest, e) = join_records-prefix records (buffer ++ r.frame) segment others later in
    let (framed, len) = prepare_archive_record-eq-ok header body r p.0 in
    let found =
      join_records-Found payloads records (buffer ++ r.frame) segment others p.1 later small in
    let whole : segment ≡ buffer ++ (r.frame ++ rest) = e ∙ append_assoc buffer r.frame rest in
    let here : decode_archive_frame_body segment (pos (length buffer)) ≡ ok body =
      rw whole
        (decode-encode_archive_frame header body r.frame buffer rest framed (rw whole at small)) in
    rw shape (here, len, found)

prepare_archive_segment-eq-ok :
    (records : List PreparedArchiveRecord) (segment : List ℕ) (writes : List ArchiveRecordWrite)
    → prepare_archive_segment records ≡ ok (segment, writes)
    → (join_records records [] ≡ ok (segment, writes)) × (length segment < word_mod)
unfolding prepare_archive_segment usize_to_i64_checked
prepare_archive_segment-eq-ok records segment writes h =
    elim (Result-cases (join_records records [])) [
      | inl (e, f) ↦ absurd (ground arith)
      | inr ((whole, others), f) ↦ (ground arith, ground arith)
    ]

-- A segment that was prepared from the records of some payloads has one write for each payload, in
-- order, with the length of its body, and decoding the segment at the write's offset gives the body.
pub prepare_archive_segment-Found :
    (payloads : List (List ℕ × List ℕ)) (records : List PreparedArchiveRecord) (segment : List ℕ)
    (writes : List ArchiveRecordWrite)
    → Prepared payloads records
    → prepare_archive_segment records ≡ ok (segment, writes)
    → Found segment payloads writes
prepare_archive_segment-Found payloads records segment writes p h =
    let (joined, small) = prepare_archive_segment-eq-ok records segment writes h in
    join_records-Found payloads records [] segment writes p joined small
