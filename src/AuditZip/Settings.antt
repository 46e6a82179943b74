-- ===== src/AuditZip/Settings.antt =====
-- apps/api/internal/auditzip/config.go: the configuration that an environment gives.
use prompt_pack.Base.{ℕ, ◌≤◌, true, arith}
use prompt_pack.Base.Int.{ℤ, pos, negsuc, pos_part, mul_suc, wrap_int64}
use prompt_pack.Base.Env.{Env, getenv, get_duration, get_int, get_float, get_bool, max, split_list}
use prompt_pack.AuditZip.Types.{Config}

-- The float64s 5.0 and 100.0; durations are nanoseconds. A day is 86400 * 10^9, and the product is
-- an `int64`.
unfoldable pub load_config : Env → Config
unfolding max
load_config env = record {
  s3_endpoint = getenv env "S3_ENDPOINT" "https://s3.example.com";
  s3_bucket = getenv env "AUDIT_S3_BUCKET" "audit-archives";
  sign_url_ttl = get_duration env "AUDIT_SIGN_URL_TTL" (pos 600000000000);
  retention_period =
      wrap_int64 (mul_suc (get_int env "AUDIT_RETENTION_DAYS" (pos 7)) 86399999999999);
  max_range_days = get_int env "AUDIT_MAX_RANGE_DAYS" (pos 92);
  estimated_mb_per_day = get_float env "AUDIT_EST_MB_PER_DAY" 4617315517961601024;
  split_chunk_mb = get_float env "AUDIT_SPLIT_CHUNK_MB" 4636737291354636288;
  max_queue_depth = get_int env "AUDIT_MAX_QUEUE_DEPTH" (pos 100);
  max_concurrent_jobs = max (pos 1) (get_int env "AUDIT_MAX_CONCURRENCY" (pos 4));
  max_retries = max (pos 1) (get_int env "AUDIT_MAX_RETRIES" (pos 3));
  retry_base_delay = get_duration env "AUDIT_RETRY_BASE_DELAY" (pos 2000000000);
  rate_limit_per_minute = get_int env "AUDIT_RATE_PER_MIN" (pos 60);
  queue_retry_after = get_duration env "AUDIT_RETRY_AFTER" (pos 30000000000);
  default_locale = getenv env "DEFAULT_LOCALE" "ja-JP";
  default_time_zone = getenv env "DEFAULT_TZ" "Asia/Tokyo";
  enable_sse = get_bool env "AUDIT_SSE_ENABLED" true;
  kms_key_id = getenv env "AUDIT_KMS_KEY" "";
  allowed_origins = split_list (getenv env "AUDIT_ALLOWED_ORIGINS" "http://localhost:3000");
}

max_pos : (n : ℕ) (b : ℤ) → n ≤ pos_part (max (pos n) b)
unfolding max
max_pos n (pos m) = ground arith
max_pos n (negsuc m) = ground arith

-- Whatever the environment holds, at least one job may run, and each job has at least one attempt.
pub load_config_least :
    (env : Env)
    → (1 ≤ pos_part (load_config env).max_concurrent_jobs)
      × (1 ≤ pos_part (load_config env).max_retries)
unfolding load_config
load_config_least env = (
  max_pos 1 (get_int env "AUDIT_MAX_CONCURRENCY" (pos 4)),
  max_pos 1 (get_int env "AUDIT_MAX_RETRIES" (pos 3)),
)
