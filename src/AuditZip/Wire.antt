-- ===== src/AuditZip/Wire.antt =====
-- The replies of apps/api/internal/auditzip/service.go, and the schema types of their bodies from
-- api.gen.go.
use prompt_pack.Base.{ℕ, ◌/◌, String, Bool, true, false, Option, none, some, List, [], ◌∷◌}
use prompt_pack.Base.Tests.{if◌then◌else◌, ltb, eqb}
use prompt_pack.Base.Decimal.{decimal}
use prompt_pack.Base.Int.{ℤ, pos, negsuc}
use prompt_pack.AuditZip.Types.{
  AuditZipJob, ConflictReason, InternalError, QueueError, conflict, rate_limited, not_found,
  duplicate_job, idempotency_body_mismatch, idempotency_replay, not_cancelable,
}
use prompt_pack.AuditZip.Validator.{SplitHint, ValidationErrorItem}

pub record ConflictError : Type 0 where
  pub code : String
  pub conflict_reason : ConflictReason
  pub corr_id : String
  pub message : String
  pub retryable : Bool

pub record NotFoundError : Type 0 where
  pub code : String
  pub corr_id : String
  pub message : String
  pub retryable : Bool

pub record RateLimitError : Type 0 where
  pub code : String
  pub corr_id : String
  pub message : String
  pub retry_after_seconds : ℕ
  pub retryable : Bool

pub record RequestTooLargeError : Type 0 where
  pub code : String
  pub corr_id : String
  pub message : String
  pub retryable : Bool
  pub split_hint : SplitHint

pub record ValidationError : Type 0 where
  pub code : String
  pub corr_id : String
  pub errors : List ValidationErrorItem
  pub message : String
  pub retryable : Bool

pub data Body : Type 0 where
  job_body : AuditZipJob → Body
  conflict_body : ConflictError → Body
  not_found_body : NotFoundError → Body
  rate_body : RateLimitError → Body
  too_large_body : RequestTooLargeError → Body
  invalid_body : ValidationError → Body
  internal_body : InternalError → Body

-- `extra`: the headers that the handler adds.
pub record Response : Type 0 where
  pub status : ℕ
  pub corr_id : String
  pub extra : List (String × String)
  pub body : Body

unfoldable pub write_json : ℕ → String → Body → List (String × String) → Response
write_json status corr_id body extra = record {
  status = status;
  corr_id = corr_id;
  extra = extra;
  body = body;
}

unfoldable pub conflict_message : ConflictReason → String
conflict_message idempotency_body_mismatch = "idempotency key already used with different payload"
conflict_message duplicate_job = "duplicate request exists for the same criteria"
conflict_message not_cancelable = "job is not cancelable in current state"
conflict_message _ = "duplicate request"

unfoldable pub deref : Option String → String
deref none = ""
deref (some s) = s

-- The job is a copy, its error too.
unfoldable pub decorate_job : AuditZipJob → String → AuditZipJob
decorate_job job corr_id = elim job.error [
  | none ↦ job
  | some e ↦ record job { error = some (record e { corr_id = corr_id }) }
]

-- `int(d.Seconds())`: below 2^24 seconds the float64 stays below the next whole number.
unfoldable pub to_retry_seconds : ℤ → ℕ
to_retry_seconds (pos d) = if eqb d 0 then 1 else d / 1000000000
to_retry_seconds (negsuc d) = 1

unfoldable pub format_retry_after : ℤ → String
unfolding to_retry_seconds
format_retry_after d = decimal (if ltb (to_retry_seconds d) 1 then 1 else to_retry_seconds d)

unfoldable pub rate_limit_reply : String → String → ℤ → Response
unfolding write_json
rate_limit_reply corr_id message retry_after =
    write_json 429 corr_id
      (rate_body (record {
        code = "RATE_LIMITED";
        corr_id = corr_id;
        message = message;
        retry_after_seconds = to_retry_seconds retry_after;
        retryable = true;
      }))
      (("Retry-After", format_retry_after retry_after) ∷ [])

unfoldable pub validation_reply : String → String → String → List ValidationErrorItem → Response
unfolding write_json
validation_reply corr_id code message errors =
    write_json 400 corr_id
      (invalid_body (record {
        code = code;
        corr_id = corr_id;
        errors = errors;
        message = message;
        retryable = false;
      }))
      []

unfoldable pub conflict_reply : String → String → ConflictReason → Response
unfolding write_json
conflict_reply corr_id message reason =
    write_json 409 corr_id
      (conflict_body (record {
        code = "CONFLICT";
        conflict_reason = reason;
        corr_id = corr_id;
        message = message;
        retryable = false;
      }))
      []

-- `err.Error()`
unfoldable pub error_text : QueueError → String
error_text (conflict duplicate_job _) = "duplicate_job"
error_text (conflict idempotency_body_mismatch _) = "idempotency_body_mismatch"
error_text (conflict idempotency_replay _) = "idempotency_replay"
error_text (conflict not_cancelable _) = "not_cancelable"
error_text (rate_limited _) = "rate limited"
error_text not_found = "job not found"

unfoldable pub write_internal_error : String → QueueError → Response
unfolding write_json error_text
write_internal_error corr_id e =
    write_json 500 corr_id
      (internal_body (record {
        code = "INTERNAL_ERROR";
        corr_id = corr_id;
        message = error_text e;
        retryable = true;
      }))
      []
