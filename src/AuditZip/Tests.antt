-- ===== src/AuditZip/Tests.antt =====
-- Runs of the audit log's hash chain, the rate limiter and the validation of requests.
use prompt_pack.Base.{
  ℕ, ◌+◌, String, ◌≡◌, refl, List, [], ◌∷◌, ◌++◌, arith, ◌==◌, some, ◌↔◌, ◌≤◌, ◌*◌, none, ◌-◌, ◌<◌,
  true,
}
use prompt_pack.Base.Tests.{if◌then◌else◌, ltb}
use prompt_pack.Base.Dict.{find, put}
use prompt_pack.Base.Lists.{length}
use prompt_pack.Base.Int.{pos}
use prompt_pack.AuditZip.Audit.{
  AuditLog, AuditRecorder, Digest, IsChain, entries_of, hash_chain, hash_chain-IsChain,
}
use prompt_pack.AuditZip.Types.{AuditZipRequest, Config}
use prompt_pack.AuditZip.Validator.{FloatOps, validate_request, split_hint_if_needed}
use prompt_pack.AuditZip.Validator.Accepted.{IsProper, validate_request_iff, split_hint_least}
use prompt_pack.AuditZip.RateLimiter.Window.{granted_exact}
use prompt_pack.AuditZip.RateLimiter.{RateLimiter, new_rate_limiter, allow, granted, asked, min_ℕ}

abbrev digest : Digest
digest = record { time_string = λ t. "now"; sha256_hex = λ s. s }

abbrev entry : AuditLog
entry = record {
  audit_id = "a1";
  corr_id = "c1";
  tenant_id = "acme";
  actor = "system";
  action = "enqueue";
  criteria_hash = "h1";
  ts = 5;
  hash = "";
  prev_hash = "";
}

abbrev recorder : AuditRecorder
recorder = (hash_chain digest [] "acme" entry).0

recorder_test : length (entries_of recorder "acme") ≡ 1
unfolding hash_chain find put
recorder_test = refl

recorder-IsChain : IsChain digest (entries_of recorder "acme")
recorder-IsChain = (hash_chain-IsChain digest [] entry "acme" (unfold find in tt)).0

hash_chain-IsChain_example :
    IsChain digest (entries_of (hash_chain digest recorder "acme" entry).0 "acme")
    × (entries_of (hash_chain digest recorder "acme" entry).0 "acme" ≡ (
        if "acme" == "acme"
        then entries_of recorder "acme" ++ (hash_chain digest recorder "acme" entry).1 ∷ []
        else entries_of recorder "acme"))
hash_chain-IsChain_example = hash_chain-IsChain digest recorder entry "acme" recorder-IsChain

-- Two requests in a window of 60, from time 10; the tenant has made its first.
abbrev limiter : RateLimiter
limiter = (allow (new_rate_limiter (pos 2) (pos 60)) 10 "acme").0

abbrev calls : List (String × ℕ)
calls = ("acme", 11) ∷ ("other", 12) ∷ ("acme", 13) ∷ []

granted_test : granted limiter "acme" calls ≡ 1
unfolding granted allow new_rate_limiter find put
granted_test = refl

granted_exact_example : 1 + granted limiter "acme" calls ≡ min_ℕ (1 + asked "acme" calls) 2
unfolding allow new_rate_limiter find put
granted_exact_example =
    granted_exact "acme" 2 10 60 (omega arith) limiter 1 calls
      (record { stored = refl; is_limit = refl; is_window = refl }) (omega arith)
      (
        λ e. (omega arith, omega arith),
        (λ e. (omega arith, omega arith), (λ e. (omega arith, omega arith), tt)),
      )

-- Comparisons and arithmetic on whole numbers in place of float64s.
abbrev whole : FloatOps
whole = record {
  lt = λ a b. ltb a b;
  mul = λ a b. a * b;
  div = λ a b. a;
  ceil = λ a. a;
  of_int = λ n. 1;
}

abbrev limits : Config
limits = record {
  s3_endpoint = "https://s3";
  s3_bucket = "audit";
  sign_url_ttl = pos 60;
  retention_period = pos 60;
  max_range_days = pos 31;
  estimated_mb_per_day = 3;
  split_chunk_mb = 0;
  max_queue_depth = pos 1;
  max_concurrent_jobs = pos 1;
  max_retries = pos 2;
  retry_base_delay = pos 1;
  rate_limit_per_minute = pos 10;
  queue_retry_after = pos 30;
  default_locale = "ja-JP";
  default_time_zone = "Asia/Tokyo";
  enable_sse = true;
  kms_key_id = "";
  allowed_origins = [];
}

abbrev month : AuditZipRequest
month = record {
  format = "zip";
  from_date = 1000;
  max_amount = some 9;
  min_amount = none;
  partner = some "Acme";
  to_date = 1030;
}

split_test :
    split_hint_if_needed whole limits 1000 1093
    ≡ some (record { approx_size_mb = 3; chunks = pos 4 })
unfolding split_hint_if_needed
split_test = refl

validate_request_iff_example : ((validate_request whole limits month).0 ≡ []) ↔ IsProper whole month
validate_request_iff_example = validate_request_iff whole limits month

split_hint_least_example : (n : ℕ) × (pos 4 ≡ pos n) × (2 ≤ n) × (94 ≤ n * 31) × ((n - 1) * 31 < 94)
split_hint_least_example =
    split_hint_least whole limits 1000 1093 31 (record { approx_size_mb = 3; chunks = pos 4 }) refl
      (omega arith) (omega arith) split_test
