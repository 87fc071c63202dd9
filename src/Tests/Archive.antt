-- ===== src/Tests/Archive.antt =====
-- A small segment of crates/llmtrace/src/storage/archive.rs.
use llmtrace.Base.{ℕ, ◌≡◌, refl, List, [], ◌∷◌, ◌++◌, arith}
use llmtrace.Base.Words.{be_bytes, le_bytes}
use llmtrace.Base.Results.{ok}
use llmtrace.Storage.Archive.{
  pos, encode_archive_frame, decode_archive_frame_body, ArchiveRecordWrite, PreparedArchiveRecord,
  usize_to_i64_checked, prepare_archive_record, join_records, prepare_archive_segment,
}
use llmtrace.Storage.Archive.Frames.{decode-encode_archive_frame}
use llmtrace.Storage.Archive.Segments.{Found, prepare_archive_segment-Found}

abbrev header : List ℕ
header = b'{' ∷ b'}' ∷ []

abbrev body : List ℕ
body = b'h' ∷ b'i' ∷ []

abbrev frame : List ℕ
frame = be_bytes 4 2 ++ (header ++ (be_bytes 8 2 ++ body))

abbrev empty_frame : List ℕ
empty_frame = be_bytes 4 2 ++ (header ++ (be_bytes 8 0 ++ []))

decode-encode_archive_frame_example :
    decode_archive_frame_body ((1 ∷ 2 ∷ []) ++ (frame ++ 9 ∷ [])) (pos 2) ≡ ok body
unfolding encode_archive_frame be_bytes le_bytes
decode-encode_archive_frame_example =
    decode-encode_archive_frame header body frame (1 ∷ 2 ∷ []) (9 ∷ []) refl (omega arith)

abbrev records : List PreparedArchiveRecord
records =
    record { uncompressed_len = 2; frame = frame }
    ∷ record { uncompressed_len = 0; frame = empty_frame }
    ∷ []

abbrev writes : List ArchiveRecordWrite
writes =
    record { uncompressed_offset = 0; uncompressed_len = 2 }
    ∷ record { uncompressed_offset = 16; uncompressed_len = 0 }
    ∷ []

prepare_archive_segment-Found_example :
    Found (frame ++ empty_frame) ((header, body) ∷ (header, []) ∷ []) writes
unfolding encode_archive_frame be_bytes le_bytes prepare_archive_record usize_to_i64_checked
    join_records prepare_archive_segment
prepare_archive_segment-Found_example =
    prepare_archive_segment-Found ((header, body) ∷ (header, []) ∷ []) records
      (frame ++ empty_frame) writes (refl, (refl, tt)) refl
