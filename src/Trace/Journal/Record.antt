-- ===== src/Trace/Journal/Record.antt =====
-- crates/llmtrace/src/trace/journal.rs: the bytes of a journal file, as `append` writes them and
-- `read` checks them.
use llmtrace.Base.{
  ℕ, ◌+◌, ◌≤◌, max, ◌≡◌, refl, List, ◌++◌, Option, some, arith, ◌==◌, ==_refl, eq_bytes,
  eq_bytes_refl, length, length-append,
}
use llmtrace.Base.Words.{saturating_add, saturating_mul}
use llmtrace.Base.Results.{Result, ok, ◌>>=◌, ◌>>◌, ensure, ok_or}
use llmtrace.Trace.Journal.Header.{
  Error, header_bytes, max_metadata_bytes, max_memory, header_prefix, read_header, read_exact,
  read_exact-append, read_exact_all, length-header_prefix, read_header-header_prefix,
}

-- `serde_json` on the serialised fields of an event (its bodies are skipped) and SHA-256. The
-- program relies on what was serialised being read back, and on the length of a digest.
pub record Codec : Type 1 where
  pub Fields : Type 0
  pub to_vec : ℕ → Fields → List ℕ
  pub from_slice : List ℕ → Option (ℕ × Fields)
  pub sha256 : List ℕ → List ℕ
  pub from_slice-to_vec : (id : ℕ) (f : Fields) → from_slice (to_vec id f) ≡ some (id, f)
  pub length-sha256 : (bytes : List ℕ) → length (sha256 bytes) ≡ 32

module _ (c : Codec) where
  open c use {Fields, to_vec, from_slice, sha256, from_slice-to_vec, length-sha256}

  -- `TraceEvent`: its id, the other serialised fields, and the two bodies.
  pub record TraceEvent : Type 0 where
    pub id : ℕ
    pub fields : Fields
    pub request_body : List ℕ
    pub response_body : List ℕ

  abbrev pub metadata : TraceEvent → List ℕ
  metadata e = to_vec e.id e.fields

  -- `size` of `append`.
  unfoldable pub record_size : TraceEvent → ℕ
  record_size e =
      header_bytes + length (metadata e) + length e.request_body + length e.response_body

  -- `memory` of `append`; `event_bytes` is what the event has allocated.
  unfoldable pub record_memory : ℕ → TraceEvent → ℕ
  record_memory event_bytes e = max event_bytes (
      saturating_add
        (saturating_add (saturating_add (length e.request_body) (length e.response_body))
          (saturating_mul (length (metadata e)) 8))
        65536)

  -- The digest covers the first 40 bytes and everything after the checksum.
  unfoldable pub digest : ℕ → ℕ → ℕ → ℕ → List ℕ → List ℕ → List ℕ → List ℕ
  digest m q s memory meta request response =
      sha256 (header_prefix m q s memory ++ (meta ++ (request ++ response)))

  -- What `append` writes to the file, given the replay reservation.
  unfoldable pub record_bytes : ℕ → TraceEvent → List ℕ
  unfolding digest
  record_bytes memory e =
      let meta = metadata e in
      let m = length meta in
      let q = length e.request_body in
      let s = length e.response_body in
      header_prefix m q s memory
      ++ (digest m q s memory meta e.request_body e.response_body
          ++ (meta ++ (e.request_body ++ e.response_body)))

  -- `read`, on the contents of the file that it has opened.
  unfoldable pub read : ℕ → List ℕ → Result Error TraceEvent
  read id file = do
    (header, after_header) ← read_header file (length file)
    (meta, after_meta) ← read_exact header.metadata after_header
    (request, after_request) ← read_exact header.request after_meta
    (response, _) ← read_exact header.response after_request
    ensure
        (eq_bytes
          (digest header.metadata header.request header.response header.memory meta request
            response)
          header.checksum)
        Error.checksum_mismatch
    (event_id, fields) ← ok_or (from_slice meta) Error.invalid_metadata
    ensure (event_id == id) Error.id_mismatch
    ok (record { id = event_id; fields = fields; request_body = request; response_body = response })

  length-record_bytes :
      (memory : ℕ) (e : TraceEvent) → length (record_bytes memory e) ≡ record_size e
  unfolding record_bytes record_size
  length-record_bytes memory e = omega (
    arith,
    length-append prefix (checksum ++ (meta ++ (e.request_body ++ e.response_body))),
    length-header_prefix (length meta) (length e.request_body) (length e.response_body) memory,
    length-append checksum (meta ++ (e.request_body ++ e.response_body)),
    length-sha256 (prefix ++ (meta ++ (e.request_body ++ e.response_body))),
    length-append meta (e.request_body ++ e.response_body),
    length-append e.request_body e.response_body,
  )
    where
      meta : List ℕ
      meta = metadata e

      prefix : List ℕ
      prefix = header_prefix (length meta) (length e.request_body) (length e.response_body) memory

      checksum : List ℕ
      checksum = sha256 (prefix ++ (meta ++ (e.request_body ++ e.response_body)))

  read_header-record_bytes :
      (event_bytes : ℕ) (e : TraceEvent)
      → length (metadata e) ≤ max_metadata_bytes
      → record_memory event_bytes e ≤ max_memory
      → read_header (record_bytes (record_memory event_bytes e) e) (record_size e)
        ≡ ok (
          record {
            metadata = length (metadata e);
            request = length e.request_body;
            response = length e.response_body;
            memory = record_memory event_bytes e;
            checksum =
                digest
                  (length (metadata e))
                  (length e.request_body)
                  (length e.response_body)
                  (record_memory event_bytes e)
                  (metadata e)
                  e.request_body
                  e.response_body;
          },
          metadata e ++ (e.request_body ++ e.response_body),
        )
  unfolding record_bytes record_size record_memory
  read_header-record_bytes event_bytes e p q =
      read_header-header_prefix _ _ _ _ _ _ p (omega arith) q (length-sha256 _)

  -- A captured event that `append` wrote is read back as it was: id, fields and both bodies. The
  -- metadata is within its limit, and the replay reservation within that of the format.
  pub read-record_bytes :
      (event_bytes : ℕ) (e : TraceEvent)
      → length (metadata e) ≤ max_metadata_bytes
      → record_memory event_bytes e ≤ max_memory
      → read e.id (record_bytes (record_memory event_bytes e) e) ≡ ok e
  unfolding read
  read-record_bytes event_bytes e p q = rw (
    length-record_bytes (record_memory event_bytes e) e,
    read_header-record_bytes event_bytes e p q,
    read_exact-append _ (metadata e) (e.request_body ++ e.response_body) refl,
    read_exact-append _ e.request_body e.response_body refl,
    read_exact_all e.response_body,
    eq_bytes_refl _,
    from_slice-to_vec e.id e.fields,
    ==_refl e.id,
  )
