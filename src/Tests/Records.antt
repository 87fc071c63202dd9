-- ===== src/Tests/Records.antt =====
-- A record of crates/llmtrace/src/trace/journal.rs, with a small codec in place of serde and SHA-256.
use llmtrace.Base.{ℕ, ◌+◌, ◌≡◌, refl, List, [], ◌∷◌, ◌++◌, Option, none, some, arith}
use llmtrace.Base.Words.{le_bytes, of_le_bytes, length-le_bytes}
use llmtrace.Base.Results.{ok}
use llmtrace.Trace.Journal.Header.{
  header_bytes, header_prefix, read_header, read_header-header_prefix,
}
use llmtrace.Trace.Journal.Record.{
  Codec, TraceEvent, read, record_bytes, record_memory, read-record_bytes,
}
use llmtrace.Base.{lookup, true}
use llmtrace.Trace.Journal.Record.{record_size}
use llmtrace.Trace.Journal.Catalog.{JournalConfig, enter, exceeds}
use llmtrace.Trace.Journal.Disk.{
  trace, WriteOutcome, MoveOutcome, write_record, finish_write, FileName-discrete,
}
use llmtrace.Trace.Journal.Store.{empty, append}
use llmtrace.Trace.Journal.Append.{append_event, append_event-read}

abbrev split : List ℕ → Option (ℕ × List ℕ)
split [] = none
split (id ∷ fields) = some (id, fields)

abbrev pub codec : Codec
codec = record {
  Fields = List ℕ;
  to_vec = λ id fields. id ∷ fields;
  from_slice = split;
  sha256 = λ bytes. le_bytes 32 (of_le_bytes bytes);
  from_slice-to_vec = λ id fields. refl;
  length-sha256 = λ bytes. length-le_bytes 32 (of_le_bytes bytes);
}

abbrev pub event : TraceEvent codec
event = record {
  id = 7;
  fields = 1 ∷ 2 ∷ [];
  request_body = b'h' ∷ b'i' ∷ [];
  response_body = b'o' ∷ [];
}

read-record_bytes_example :
    read codec 7 (record_bytes codec (record_memory codec 100 event) event) ≡ ok event
unfolding record_memory
read-record_bytes_example = read-record_bytes codec 100 event (omega arith) (omega arith)

read_header-header_prefix_example :
    read_header
      (header_prefix 3 2 1 70000 ++ (le_bytes 32 5 ++ b'o' ∷ []))
      (header_bytes + 3 + 2 + 1)
    ≡ ok (
      record { metadata = 3; request = 2; response = 1; memory = 70000; checksum = le_bytes 32 5 },
      b'o' ∷ [],
    )
read_header-header_prefix_example =
    read_header-header_prefix 3 2 1 70000 (le_bytes 32 5) (b'o' ∷ []) (omega arith) (omega arith)
      (omega arith) (length-le_bytes 32 5)

abbrev config : JournalConfig
config = record { enabled = true; max_bytes = 1000; max_records = 4; retry_interval_secs = 5 }

append_event-read_example :
    (bytes : List ℕ) × ((append_event codec config WriteOutcome.succeeds MoveOutcome.succeeds 1 100
          0 event empty).1.disk
        (trace 7)
      ≡ some bytes)
    × (read codec 7 bytes ≡ ok event)
unfolding append_event append enter exceeds lookup empty write_record record_size record_memory
    record_bytes le_bytes finish_write FileName-discrete
append_event-read_example =
    append_event-read codec config WriteOutcome.succeeds MoveOutcome.succeeds 1 100 0 event empty
      (omega arith) refl
