-- ===== src/Storage/Archive.antt =====
-- crates/llmtrace/src/storage/archive.rs: the frames of an archive segment. The serialised header of
-- a frame is an argument.
pub mod Frames
pub mod Segments
use llmtrace.Base.{
  ℕ, ◌+◌, ◌-◌, ◌^◌, Bool, ◌&&◌, List, [], ◌∷◌, ◌++◌, Option, none, some, ltb, leb, if◌then◌else◌,
  length, take, drop,
}
use llmtrace.Base.Words.{checked_add, be_bytes, of_be_bytes}
use llmtrace.Base.Results.{Result, ok, err, ◌>>=◌, ◌>>◌, ensure, ok_or}

pub data ArchiveError : Type 0 where
  header_too_large negative_offset overflows out_of_bounds exceeds_i64 : ArchiveError

-- An `i64`.
pub data ℤ : Type 0 where
  pos : ℕ → ℤ
  negsuc : ℕ → ℤ

unfoldable pub encode_archive_frame : List ℕ → List ℕ → Result ArchiveError (List ℕ)
encode_archive_frame header body = do
  ensure (ltb (length header) (2 ^ 32)) header_too_large
  ok (be_bytes 4 (length header) ++ (header ++ (be_bytes 8 (length body) ++ body)))

-- `segment.get(from..to)`.
unfoldable pub get_range : List ℕ → ℕ → ℕ → Option (List ℕ)
get_range segment from to =
    if leb from to && leb to (length segment)
    then some (take (to - from) (drop from segment))
    else none

-- The next `n` bytes at a cursor, and the cursor after them.
unfoldable pub field : List ℕ → ℕ → ℕ → Result ArchiveError (List ℕ × ℕ)
field segment cursor n = do
  end ← ok_or (checked_add cursor n) overflows
  bytes ← ok_or (get_range segment cursor end) out_of_bounds
  ok (bytes, end)

unfoldable pub cursor_of : ℤ → Result ArchiveError ℕ
cursor_of (pos n) = ok n
cursor_of (negsuc n) = err negative_offset

unfoldable pub decode_archive_frame_body : List ℕ → ℤ → Result ArchiveError (List ℕ)
decode_archive_frame_body segment offset = do
  start ← cursor_of offset
  (header_len, after_header_len) ← field segment start 4
  (header, after_header) ← field segment after_header_len (of_be_bytes header_len)
  (body_len, after_body_len) ← field segment after_header 8
  (body, end) ← field segment after_body_len (of_be_bytes body_len)
  ok body

-- What a record is in its segment: the frame's offset and the body's length.
pub record ArchiveRecordWrite : Type 0 where
  pub uncompressed_offset : ℕ
  pub uncompressed_len : ℕ

pub record PreparedArchiveRecord : Type 0 where
  pub uncompressed_len : ℕ
  pub frame : List ℕ

unfoldable pub usize_to_i64_checked : ℕ → Result ArchiveError ℕ
usize_to_i64_checked value = if ltb value (2 ^ 63) then ok value else err exceeds_i64

unfoldable pub prepare_archive_record : List ℕ → List ℕ → Result ArchiveError PreparedArchiveRecord
prepare_archive_record header body = do
  frame ← encode_archive_frame header body
  len ← usize_to_i64_checked (length body)
  ok (record { uncompressed_len = len; frame = frame })

-- The loop of `prepare_archive_segment`: the buffer, and the writes so far.
unfoldable pub join_records :
    List PreparedArchiveRecord → List ℕ → Result ArchiveError (List ℕ × List ArchiveRecordWrite)
join_records [] buffer = ok (buffer, [])
join_records (r ∷ records) buffer = do
  offset ← usize_to_i64_checked (length buffer)
  (whole, writes) ← join_records records (buffer ++ r.frame)
  ok (
    whole,
    record { uncompressed_offset = offset; uncompressed_len = r.uncompressed_len } ∷ writes,
  )

-- `prepare_archive_segment` up to its compression: the segment, its size and its writes.
unfoldable pub prepare_archive_segment :
    List PreparedArchiveRecord → Result ArchiveError (List ℕ × List ArchiveRecordWrite)
prepare_archive_segment records = do
  (buffer, writes) ← join_records records []
  size ← usize_to_i64_checked (length buffer)
  ok (buffer, writes)
