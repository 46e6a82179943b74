-- ===== src/AuditZip/Types.antt =====
-- The schema types of apps/api/internal/auditzip/api.gen.go, the configuration of config.go and
-- the errors of queue.go.
use prompt_pack.Base.{ℕ, String, Bool, Option, List}
use prompt_pack.Base.Int.{ℤ}

-- An instant: nanoseconds on one clock.
abbrev pub Time : Type 0
Time = ℕ

-- A calendar date as `time.Parse("2006-01-02", _)` gives it: days since 0000-01-01.
abbrev pub Date : Type 0
Date = ℕ

-- A float64, by its 64 bits; what the code does with one is a parameter.
abbrev pub Float64 : Type 0
Float64 = ℕ

pub data AuditZipJobStatus : Type 0 where
  queued running succeeded failed canceled : AuditZipJobStatus

pub data ConflictReason : Type 0 where
  duplicate_job idempotency_body_mismatch idempotency_replay not_cancelable : ConflictReason

pub record InternalError : Type 0 where
  pub code : String
  pub corr_id : String
  pub message : String
  pub retryable : Bool

pub record AuditZipResult : Type 0 where
  pub expires_at : Time
  pub signed_url : String
  pub size : ℕ

pub record AuditZipJob : Type 0 where
  pub can_cancel : Option Bool
  pub criteria_hash : Option String
  pub error : Option InternalError
  pub finished_at : Option Time
  pub job_id : String
  pub progress : ℕ
  pub requested_at : Time
  pub result : Option AuditZipResult
  pub retry_count : ℕ
  pub started_at : Option Time
  pub status : AuditZipJobStatus

pub record AuditZipRequest : Type 0 where
  pub format : String
  pub from_date : Date
  pub max_amount : Option Float64
  pub min_amount : Option Float64
  pub partner : Option String
  pub to_date : Date

-- The durations and counts are Go's signed integers.
pub record Config : Type 0 where
  pub s3_endpoint : String
  pub s3_bucket : String
  pub sign_url_ttl : ℤ
  pub retention_period : ℤ
  pub max_range_days : ℤ
  pub estimated_mb_per_day : Float64
  pub split_chunk_mb : Float64
  pub max_queue_depth : ℤ
  pub max_concurrent_jobs : ℤ
  pub max_retries : ℤ
  pub retry_base_delay : ℤ
  pub rate_limit_per_minute : ℤ
  pub queue_retry_after : ℤ
  pub default_locale : String
  pub default_time_zone : String
  pub enable_sse : Bool
  pub kms_key_id : String
  pub allowed_origins : List String

-- The errors that `Enqueue` and `Cancel` return.
pub data QueueError : Type 0 where
  conflict : ConflictReason → String → QueueError
  rate_limited : ℤ → QueueError
  not_found : QueueError

-- The errors that end an attempt of a job: `context.Canceled`, `ErrNotFound`, the storage's.
pub data JobError : Type 0 where
  context_canceled job_missing : JobError
  storage_failed : String → JobError
