-- ===== src/Lib.antt =====
-- A verification library for llmtrace, a recording proxy for model traffic.
--
-- The program. The proxy hands every finished exchange, a `TraceEvent`, to a bounded queue. Where
-- the capture journal is enabled, an intake task takes events from the queue and appends each to a
-- directory of files (`Journal::append`); replay workers claim the records (`Journal::claim`), read
-- and check their files, store their traces in PostgreSQL and acknowledge them, or set a record
-- aside that they cannot read (`Journal::quarantine`). A claim that is dropped puts its record back
-- in the queue (`Journal::retry`). A byte budget bounds what is queued and replayed. Plugins run in
-- WebAssembly and share a bounded cache. A throttle locks out a user name and address after too many
-- failed logins. Of the requests, only paths under configured prefixes are forwarded, and of these
-- only some are captured.
--
-- The files and the code that each is about, from the repository's root:
--   Base, and the files below it: Boolean tests, lists over the native numbers, machine words with
--     their wrap-around, association lists, queues of keys, results, text. They stand for the
--     operations of Rust's standard library that the code uses.
--   Trace/Memory: crates/llmtrace/src/trace/memory.rs. `MemoryBudget::new` is `new`, `reserve` is
--     `reserve`, the drop of a `Reservation` is `release`.
--   Trace/Recorder: the recorder of crates/llmtrace/src/trace.rs, where `record` is `record_event`, and
--     `run_dispatcher`, which runs without a journal, as the relation `Work`: one constructor for each
--     thing that it or a worker does. A trace is its id and the bytes it takes. Accounts and Draining
--     have the proofs.
--   Trace/Journal/Header, Record: the file format of crates/llmtrace/src/trace/journal.rs
--     (`header_prefix`, `read_header`, the bytes that `append` writes, `read`).
--   Trace/Journal/Catalog: the catalog behind the journal's mutex; one function for what each
--     operation does while it holds the lock (`append`: `enter` and `publish`; `claim`; `retry`;
--     `acknowledge` and `quarantine`: `forget` and `count_quarantined`; `snapshot`).
--   Trace/Journal/Disk, Store, Append: the directory, and the operations on both: `acknowledge`,
--     `quarantine_record` for `quarantine`, `append_event` for `append`.
--   Trace/Journal/Claiming, Capacity, Admission: what `claim` selects, the limits of the catalog, and
--     what they refuse.
--   Trace/Durable: crates/llmtrace/src/trace/durable.rs. `Step` has one constructor for each thing
--     that a thread does between two points where others may run; Trace/Durable/Process has
--     `process` and `process_inner` as functions, and the protocol that Runs shows them to keep;
--     Placement, Exclusive, Workers, Files and Safety have the invariants of the reachable states. A file
--     operation that outlives its cancelled worker and a commit whose answer is lost are steps.
--   Trace/Bounds: the bounds in crates/llmtrace/src/trace.rs on the identity fields, tags and session
--     messages of a trace; Tags, Completeness and Messages have the proofs.
--   Trace/Effects: what a trace takes over from its plugins (`merge_effects`), and the removal of NULs
--     from it; Cleaning and Merging have the proofs.
--   LiteLlm, and the files below it: crates/litellm-user-plugin/src/lib.rs. Texts and Documents have its
--     helpers, Identity the run (`identity`), over a `Host` for its imports; the state of the host
--     is passed from call to call. Cacheable and Caching are about the cached answers, Limits and
--     Urls about its texts.
--   Config, and the files below it: crates/llmtrace/src/config.rs. Storage, Auth, Server, Plugins and
--     Validation have `Config::validate` and its parts, each of which gives the list of the errors
--     that it pushes; Upstreams has the upstream allowlist, Prefixes the path prefixes with their
--     defaults of crates/llmtrace/src/routing.rs. Limits, Accepted, Names and Allowing have the proofs.
--   Pricing, Pricing/Estimates: crates/llmtrace/src/pricing.rs.
--   Redaction, and the files below it: crates/llmtrace/src/redaction.rs, Queries for query strings
--     and URIs, Headers for headers.
--   Plugins/Cache, and the files below it: crates/llmtrace/src/plugins/cache.rs.
--   LoginThrottle, and the files below it: crates/llmtrace/src/login_throttle.rs.
--   Routing, and the files below it: crates/llmtrace/src/routing.rs and the path prefixes of
--     crates/llmtrace/src/config.rs.
--   Storage/Archive, and the files below it: crates/llmtrace/src/storage/archive.rs, whose segments
--     hold the captured bodies: frames, offsets, and the decoding of a body.
--   Tests, and the files below it: runs of the models on small inputs.
--
-- Conventions and bounds. A `usize` and a `u64` are 64 bits wide and wrap as the release build's
-- do; the theorems show where they do not. An instant is a number of nanoseconds that does not
-- overflow. An id (a UUID) is a number, and the ids of captured events are fresh. What the file
-- system, the database and the clock answer is an argument of the operation that asks, so a
-- theorem holds for all their answers; a call that fails may have done its work in part, as far as
-- `WriteOutcome`, `MoveOutcome` and `RemoveOutcome` say. Nobody else writes in the journal's
-- directory, whose lock file the process holds. `serde_json` and SHA-256 are the record `Codec`:
-- what was serialised is read back, and a digest has 32 bytes; SHA-256 of the plugin cache's keys
-- is a parameter without hypotheses. The bytes that an event has allocated (`event_bytes`) are an
-- argument. Every loop is structural recursion on what the source's loop consumes, so there is no
-- fuel. The order of a `HashMap` is the order of a list, which decides among entries seen last at
-- the same instant. A fresh `System` has an empty directory. A path and a method are
-- their bytes; other text is the list of its scalar values, measured in bytes of UTF-8. A JSON
-- value is `Value`, whose objects are sorted by their keys as serde_json's maps are; the cached
-- document's codec is a hypothesis on that document alone. The header of an archive frame is its serialised text.
--
-- Not modelled: the recovery of a journal's directory at start-up, the cleaning of receipts, the
-- abort of the dispatcher without a journal when its drain takes too long, metrics, and the rest of
-- the program: HTTP, SQL, WebAssembly, authentication, the loading of the configuration from a file
-- and the environment, the parsers of model traffic and the web interface. They are input and output through libraries, or text processing beside the parts above.
pub mod Base
pub mod Trace
pub mod Plugins
pub mod Config
pub mod LiteLlm
pub mod LoginThrottle
pub mod Pricing
pub mod Redaction
pub mod Routing
pub mod Storage
mod Tests
