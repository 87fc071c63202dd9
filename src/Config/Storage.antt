-- ===== src/Config/Storage.antt =====
-- crates/llmtrace/src/config.rs: the storage, the archive and the plugins' cache.
use llmtrace.Base.{
  ℕ, ◌-◌, ◌*◌, ◌^◌, Bool, true, false, not, ◌&&◌, List, [], ◌∷◌, ◌++◌, Option, none, some, ltb,
  if◌then◌else◌,
}
use llmtrace.Base.Int.{ℤ, is_positive, exceeds}
use llmtrace.Base.Text.{Str, text, is_empty, decimal}
use llmtrace.Config.Types.{
  DeploymentMode, is_production, StorageConfig, ArchiveStorageBackend, filesystem, postgres,
  ArchiveConfig, PluginCacheConfig, Externals,
}
use llmtrace.Config.Reports.{report, report_err, concat, validate_positive_range}
use llmtrace.Config.Upstreams.{parse_url}

abbrev pub max_retention_days : ℕ
max_retention_days = 36500

abbrev pub max_retention_prune_batch_size : ℕ
max_retention_prune_batch_size = 100000

abbrev pub max_archive_segment_uncompressed_bytes : ℕ
max_archive_segment_uncompressed_bytes = 2 * 1024 * 1024 * 1024

abbrev pub max_archive_compression_level : ℕ
max_archive_compression_level = 10

abbrev pub max_storage_connections : ℕ
max_storage_connections = 1024

abbrev pub max_storage_acquire_timeout_secs : ℕ
max_storage_acquire_timeout_secs = 300

abbrev pub max_trace_queue_capacity : ℕ
max_trace_queue_capacity = 1000000

abbrev pub max_trace_worker_count : ℕ
max_trace_worker_count = 128

abbrev pub max_retention_prune_interval_secs : ℕ
max_retention_prune_interval_secs = 24 * 60 * 60

abbrev pub max_plugin_cache_capacity : ℕ
max_plugin_cache_capacity = 100000

abbrev pub max_plugin_cache_ttl_secs : ℕ
max_plugin_cache_ttl_secs = 3600

-- A setting that must be positive and at most a bound.
unfoldable pub validate_signed : Str → ℤ → ℕ → List Str
validate_signed field value max =
    if not (is_positive value)
    then (field ++ text " must be greater than 0") ∷ []
    else report (exceeds max value) (field ++ text " must be at most " ++ decimal max)

unfoldable pub validate_retention_days : Bool → Option ℤ → List Str
validate_retention_days production (some days) =
    if not (is_positive days)
    then text "storage.retention_days must be greater than 0 when set" ∷ []
    else report (exceeds max_retention_days days)
        (text "storage.retention_days must be at most " ++ decimal max_retention_days)
validate_retention_days production none =
    report production
      (text "storage.retention_days is required when server.deployment is production")

module _ {Url Socket : Type 0} (x : Externals Url Socket) where
  unfoldable pub validate_storage : DeploymentMode → StorageConfig → List Str
  validate_storage deployment storage = concat (
      report (ltb (2 ^ 63 - 1) storage.rotate_size_bytes)
        (text "storage.rotate_size_bytes must fit in a signed 64-bit integer")
      ∷ validate_positive_range (text "storage.rotate_check_interval_secs")
          storage.rotate_check_interval_secs max_retention_prune_interval_secs
      ∷ report_err (
          parse_url x.urls x.parse_error (text "storage.postgres_url") storage.postgres_url
            (text "postgres" ∷ text "postgresql" ∷ []))
      ∷ validate_positive_range (text "storage.max_connections") storage.max_connections
          max_storage_connections
      ∷ validate_positive_range (text "storage.acquire_timeout_secs") storage.acquire_timeout_secs
          max_storage_acquire_timeout_secs
      ∷ validate_positive_range (text "storage.trace_queue_capacity") storage.trace_queue_capacity
          max_trace_queue_capacity
      ∷ validate_positive_range (text "storage.trace_queue_max_bytes") storage.trace_queue_max_bytes
          (64 * 1024 * 1024 * 1024)
      ∷ validate_positive_range (text "storage.trace_worker_count") storage.trace_worker_count
          max_trace_worker_count
      ∷ validate_positive_range (text "storage.journal.max_bytes") storage.journal.max_bytes
          (1024 * 1024 * 1024 * 1024)
      ∷ validate_positive_range (text "storage.journal.max_records") storage.journal.max_records
          1000000
      ∷ validate_positive_range (text "storage.journal.retry_interval_secs")
          storage.journal.retry_interval_secs 3600
      ∷ report (is_empty storage.journal_directory)
          (text "storage.journal.directory must not be empty")
      ∷ validate_retention_days (is_production deployment) storage.retention_days
      ∷ validate_positive_range (text "storage.retention_prune_interval_secs")
          storage.retention_prune_interval_secs max_retention_prune_interval_secs
      ∷ validate_signed (text "storage.retention_prune_batch_size")
          storage.retention_prune_batch_size max_retention_prune_batch_size
      ∷ [])

abbrev pub is_filesystem : ArchiveStorageBackend → Bool
is_filesystem filesystem = true
is_filesystem postgres = false

unfoldable pub validate_archive : ArchiveConfig → List Str
validate_archive archive = concat (
    report (is_filesystem archive.storage_backend && is_empty archive.filesystem_root)
      (text "archive.filesystem_root must not be empty when archive.storage_backend is filesystem")
    ∷ validate_positive_range (text "archive.segment_uncompressed_bytes")
        archive.segment_uncompressed_bytes max_archive_segment_uncompressed_bytes
    ∷ validate_signed (text "archive.compression_level") archive.compression_level
        max_archive_compression_level
    ∷ [])

unfoldable pub validate_plugin_cache : PluginCacheConfig → List Str
validate_plugin_cache cache = concat (
    report (ltb max_plugin_cache_capacity cache.capacity)
      (text "plugin_cache.capacity must be at most " ++ decimal max_plugin_cache_capacity)
    ∷ (if ltb 0 cache.capacity
        then validate_positive_range (text "plugin_cache.ttl_secs") cache.ttl_secs
            max_plugin_cache_ttl_secs
        else [])
    ∷ [])
