-- ===== src/Storage/Archive/Frames.antt =====
-- crates/llmtrace/src/storage/archive.rs: a body is found again at the offset of its frame.
use llmtrace.Base.{
  ◌&&◌, true, ℕ, ◌+◌, ◌-◌, ◌<◌, ◌^◌, ◌≡◌, refl, sym, List, ◌++◌, arith, ltb, leb, length, take,
  drop, length-append, take_of_length, drop_of_length, append_assoc, ◌∙◌, ap,
}
use llmtrace.Base.Words.{word_mod, checked_add, be_bytes, length-be_bytes, of_be_bytes-be_bytes}
use llmtrace.Base.Results.{ok}
use llmtrace.Storage.Archive.{
  pos, encode_archive_frame, get_range, field, cursor_of, decode_archive_frame_body,
}

field_found :
    (before xs after : List ℕ) (cursor n : ℕ)
    → cursor ≡ length before
    → n ≡ length xs
    → length (before ++ (xs ++ after)) < word_mod
    → field (before ++ (xs ++ after)) cursor n ≡ ok (xs, cursor + n)
unfolding field get_range checked_add
field_found before xs after cursor n p q small =
    let sizes = length-append before (xs ++ after) in
    let rest = length-append xs after in
    let dropped : drop cursor (before ++ (xs ++ after)) ≡ xs ++ after =
      drop_of_length cursor before (xs ++ after) (sym p) in
    let taken : take (cursor + n - cursor) (xs ++ after) ≡ xs =
      take_of_length (cursor + n - cursor) xs after (omega arith) in
    let no_overflow : ltb (cursor + n) word_mod ≡ true = ground (arith, sizes, rest) in
    let inside : (leb cursor (cursor + n) && leb (cursor + n) (length (before ++ (xs ++ after))))
        ≡ true =
      ground (arith, sizes, rest) in
    rw (no_overflow, inside, dropped, taken) refl

-- The same with the segment written in any way.
field_at :
    (segment before xs after : List ℕ) (cursor n : ℕ)
    → segment ≡ before ++ (xs ++ after)
    → cursor ≡ length before
    → n ≡ length xs
    → length segment < word_mod
    → field segment cursor n ≡ ok (xs, cursor + n)
field_at segment before xs after cursor n e p q small =
    rw e (field_found before xs after cursor n p q (rw e at small))

-- A frame, with what stands before it and after it.
abbrev framed : List ℕ → List ℕ → List ℕ → List ℕ → List ℕ
framed before header body after =
    before
    ++ (be_bytes 4 (length header) ++ (header ++ (be_bytes 8 (length body) ++ (body ++ after))))

decode-framed :
    (before header body after : List ℕ)
    → length header < 2 ^ 32
    → length (framed before header body after) < word_mod
    → decode_archive_frame_body (framed before header body after) (pos (length before)) ≡ ok body
unfolding decode_archive_frame_body cursor_of
decode-framed before header body after h small =
    let segment = framed before header body after in
    let size : List ℕ = be_bytes 4 (length header) in
    let count : List ℕ = be_bytes 8 (length body) in
    let size_length : length size ≡ 4 = length-be_bytes 4 (length header) in
    let count_length : length count ≡ 8 = length-be_bytes 8 (length body) in
    let e2 : segment ≡ (before ++ size) ++ (header ++ (count ++ (body ++ after))) =
      sym (append_assoc before size _) in
    let e3 : segment ≡ ((before ++ size) ++ header) ++ (count ++ (body ++ after)) =
      e2 ∙ sym (append_assoc (before ++ size) header _) in
    let e4 : segment ≡ (((before ++ size) ++ header) ++ count) ++ (body ++ after) =
      e3 ∙ sym (append_assoc ((before ++ size) ++ header) count _) in
    let l2 = length-append before size in
    let l3 = length-append (before ++ size) header in
    let l4 = length-append ((before ++ size) ++ header) count in
    let l5 = length-append (((before ++ size) ++ header) ++ count) (body ++ after) in
    let l6 = length-append body after in
    let whole : length segment
        ≡ length ((((before ++ size) ++ header) ++ count) ++ (body ++ after)) =
      ap length e4 in
    rw (
      field_at segment before size _ (length before) 4 refl refl (sym size_length) small,
      of_be_bytes-be_bytes 4 (length header) h,
      field_at segment (before ++ size) header _ (length before + 4) (length header) e2
          (omega arith) refl small,
      field_at segment ((before ++ size) ++ header) count _ (length before + 4 + length header) 8 e3
          (omega arith) (sym count_length) small,
      of_be_bytes-be_bytes 8 (length body) (omega arith),
      field_at segment (((before ++ size) ++ header) ++ count) body after
          (length before + 4 + length header + 8) (length body) e4 (omega arith) refl small,
    )

encode_archive_frame-eq-ok :
    (header body frame : List ℕ)
    → encode_archive_frame header body ≡ ok frame
    → (length header < 2 ^ 32)
      × (frame ≡ be_bytes 4 (length header) ++ (header ++ (be_bytes 8 (length body) ++ body)))
unfolding encode_archive_frame
encode_archive_frame-eq-ok header body frame e = (ground arith, ground arith)

framed-frame :
    (before header body after : List ℕ)
    → before
        ++ ((be_bytes 4 (length header) ++ (header ++ (be_bytes 8 (length body) ++ body))) ++ after)
      ≡ framed before header body after
framed-frame before header body after =
    ap (λ s. before ++ s)
      (append_assoc (be_bytes 4 (length header)) _ after
        ∙ ap (λ s. be_bytes 4 (length header) ++ s)
            (append_assoc header _ after
              ∙ ap (λ s. header ++ s) (append_assoc (be_bytes 8 (length body)) body after)))

-- Wherever a frame stands in a segment, decoding at its offset gives the body that was encoded.
-- The segment's length is a usize.
pub decode-encode_archive_frame :
    (header body frame before after : List ℕ)
    → encode_archive_frame header body ≡ ok frame
    → length (before ++ (frame ++ after)) < word_mod
    → decode_archive_frame_body (before ++ (frame ++ after)) (pos (length before)) ≡ ok body
decode-encode_archive_frame header body frame before after e small =
    let (fits, shape) = encode_archive_frame-eq-ok header body frame e in
    let whole : before ++ (frame ++ after) ≡ framed before header body after =
      ap (λ f. before ++ (f ++ after)) shape ∙ framed-frame before header body after in
    rw whole (decode-framed before header body after fits (rw whole at small))
