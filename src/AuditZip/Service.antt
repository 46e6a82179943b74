-- ===== src/AuditZip/Service.antt =====
-- apps/api/internal/auditzip/service.go: the HTTP handlers of the audit export, over the queue, the
-- rate limiter and the audit log. A decoded body is what `encoding/json` gives; logging is left out.
pub mod Replies
pub mod Isolation
pub mod Tests
use prompt_pack.Base.{
  ℕ, zero, suc, ◌+◌, ◌-◌, ◌*◌, ◌/◌, ◌%◌, ◌^◌, ◌≤◌, ◌<◌, String, ◌&◌, ◌≡◌, refl, sym, ap, subst, ◌∙◌,
  ◌≢◌, ◌↔◌, ◌⊎◌, inl, inr, Bool, true, false, not, ◌&&◌, ◌||◌, Option, none, some, List, [], ◌∷◌,
  ◌++◌, map, arith, ◌==◌, eq_iff,
}
use prompt_pack.Base.Tests.{
  if◌then◌else◌, ltb, leb, eqb, Bool-cases, Option-cases, if_true, if_false,
}
use prompt_pack.Base.Decimal.{decimal}
use prompt_pack.Base.Int.{ℤ, pos, negsuc, leb_ℤ}
use prompt_pack.AuditZip.Types.{
  Time, Date, Float64, AuditZipJob, AuditZipRequest, ConflictReason, Config, InternalError,
  QueueError, conflict, rate_limited, not_found, duplicate_job, idempotency_body_mismatch,
  idempotency_replay, not_cancelable,
}
use prompt_pack.AuditZip.JobState.{JobQueue, Reply, ok, err, ok_err}
use prompt_pack.AuditZip.Audit.{AuditLog, AuditRecorder, Digest, hash_chain}
use prompt_pack.AuditZip.RateLimiter.{RateLimiter, new_rate_limiter, allow}
use prompt_pack.AuditZip.Validator.{SplitHint, ValidationErrorItem, FloatOps, validate_request}
use prompt_pack.AuditZip.Queue.{enqueue, cancel, get}
use prompt_pack.AuditZip.Wire.{
  Response, write_json, job_body, not_found_body, too_large_body, conflict_message, deref,
  decorate_job, rate_limit_reply, validation_reply, conflict_reply, write_internal_error,
}

-- `audit` may be nil.
pub record Service (S : Type 0) : Type 0 where
  pub cfg : Config
  pub queue : JobQueue S
  pub audit : Option AuditRecorder
  pub limiter : RateLimiter

unfoldable pub new_service : {S : Type 0} → Config → JobQueue S → Option AuditRecorder → Service S
new_service cfg queue audit = record {
  cfg = cfg;
  queue = queue;
  audit = audit;
  limiter = new_rate_limiter cfg.rate_limit_per_minute (pos 60000000000);
}

-- What `computeCriteriaHash` hands to `json.Marshal`.
pub record CriteriaPayload : Type 0 where
  pub tenant : String
  pub from : String
  pub to : String
  pub partner : Option String
  pub min_amount : Option Float64
  pub max_amount : Option Float64
  pub format : String

-- `Format("2006-01-02")`, `json.Marshal`, and what the audit log uses.
pub record Encoders : Type 0 where
  pub digest : Digest
  pub date_string : Date → String
  pub criteria_json : CriteriaPayload → String

unfoldable pub compute_criteria_hash : Encoders → String → AuditZipRequest → String
compute_criteria_hash enc tenant_id req = enc.digest.sha256_hex (
    enc.criteria_json (record {
      tenant = tenant_id;
      from = enc.date_string req.from_date;
      to = enc.date_string req.to_date;
      partner = req.partner;
      min_amount = req.min_amount;
      max_amount = req.max_amount;
      format = req.format;
    }))

-- What one request sees: the clock at the limiter, at the queue and at the audit log, and the ids that the random source gives.
pub record Chance : Type 0 where
  pub now : Time
  pub queued_at : Time
  pub audited_at : Time
  pub job_id : String
  pub audit_id : String

unfoldable pub audit_entry : Chance → String → String → String → String → AuditLog
audit_entry ch tenant_id corr_id action criteria_hash = record {
  audit_id = ch.audit_id;
  corr_id = corr_id;
  tenant_id = tenant_id;
  actor = "system";
  action = action;
  criteria_hash = criteria_hash;
  ts = ch.audited_at;
  hash = "";
  prev_hash = "";
}

unfoldable pub append_audit :
    Encoders
    → Chance
    → Option AuditRecorder
    → String
    → String
    → String
    → String
    → Option AuditRecorder
unfolding audit_entry
append_audit enc ch none tenant_id corr_id action criteria_hash = none
append_audit enc ch (some m) tenant_id corr_id action criteria_hash =
    some
      (hash_chain enc.digest m tenant_id (audit_entry ch tenant_id corr_id action criteria_hash)).0

-- The headers of a request.
pub record Params : Type 0 where
  pub corr_id : String
  pub tenant_id : String
  pub idempotency_key : String

-- What the switch on the error of `Enqueue` answers.
unfoldable pub refusal_reply : String → QueueError → Response
refusal_reply corr_id (conflict reason _) = conflict_reply corr_id (conflict_message reason) reason
refusal_reply corr_id (rate_limited retry_after) =
    rate_limit_reply corr_id "queue is full" retry_after
refusal_reply corr_id not_found = write_internal_error corr_id not_found

unfoldable pub accepted_reply : String → AuditZipJob → Response
unfolding write_json
accepted_reply corr_id job =
    write_json 202 corr_id (job_body (decorate_job job corr_id))
      (("Location", "/audit/jobs/" & job.job_id) ∷ [])

unfoldable pub too_large_reply : String → SplitHint → Response
unfolding write_json
too_large_reply corr_id hint =
    write_json 413 corr_id
      (too_large_body (record {
        code = "AUDIT-REQ-413";
        corr_id = corr_id;
        message = "result exceeds threshold; split by hint";
        retryable = false;
        split_hint = hint;
      }))
      []

unfoldable pub not_found_reply : String → Response
unfolding write_json
not_found_reply corr_id =
    write_json 404 corr_id
      (not_found_body (record {
        code = "NOT_FOUND";
        corr_id = corr_id;
        message = "job not found";
        retryable = false;
      }))
      []

module _ {S : Type 0} (f : FloatOps) (enc : Encoders) (ch : Chance) (params : Params) where
  -- `EnqueueAuditZip` on what `Enqueue` has returned.
  unfoldable pub answer_enqueue : Service S → String → JobQueue S × Reply → Service S × Response
  unfolding refusal_reply accepted_reply append_audit
  answer_enqueue s hash (queue, err e) =
      (record s { queue = queue }, refusal_reply params.corr_id e)
  answer_enqueue s hash (queue, ok_err _ e) =
      (record s { queue = queue }, refusal_reply params.corr_id e)
  answer_enqueue s hash (queue, ok job) = (
    record s {
      queue = queue;
      audit = append_audit enc ch s.audit params.tenant_id params.corr_id "audit.zip.create" hash;
    },
    accepted_reply params.corr_id job,
  )

  -- `EnqueueAuditZip` from the call of `Enqueue` on.
  unfoldable pub submit : Service S → AuditZipRequest → Service S × Response
  unfolding answer_enqueue
  submit s req =
      let hash = compute_criteria_hash enc params.tenant_id req in
      answer_enqueue s hash
        (enqueue s.queue ch.queued_at ch.job_id params.tenant_id params.idempotency_key hash req)

  -- `EnqueueAuditZip` on what `validateRequest` has returned.
  unfoldable pub answer_checks :
      Service S
      → AuditZipRequest
      → List ValidationErrorItem × Option SplitHint
      → Service S × Response
  unfolding submit too_large_reply
  answer_checks s req (e ∷ es, hint) =
      (s, validation_reply params.corr_id "VALIDATION_ERROR" "request validation failed" (e ∷ es))
  answer_checks s req ([], some hint) = (s, too_large_reply params.corr_id hint)
  answer_checks s req ([], none) = submit s req

  -- `EnqueueAuditZip` behind the rate limiter; a body that does not decode comes with its error.
  unfoldable pub check_and_submit : Service S → String ⊎ AuditZipRequest → Service S × Response
  unfolding answer_checks
  check_and_submit s (inl message) = (
    s,
    validation_reply params.corr_id "BAD_JSON" "invalid JSON"
        (record { code = "BAD_JSON"; path = "body"; message = message } ∷ []),
  )
  check_and_submit s (inr req) = answer_checks s req (validate_request f s.cfg req)

  -- `EnqueueAuditZip` on what `Allow` has returned.
  unfoldable pub answer_limiter :
      Service S → String ⊎ AuditZipRequest → RateLimiter × Bool × ℤ → Service S × Response
  unfolding check_and_submit
  answer_limiter s body (limiter, false, retry_after) = (
    record s { limiter = limiter },
    rate_limit_reply params.corr_id "too many requests" retry_after,
  )
  answer_limiter s body (limiter, true, retry_after) =
      check_and_submit (record s { limiter = limiter }) body

  unfoldable pub enqueue_audit_zip : Service S → String ⊎ AuditZipRequest → Service S × Response
  unfolding answer_limiter
  enqueue_audit_zip s body = answer_limiter s body (allow s.limiter ch.now params.tenant_id)

  -- `GetAuditZipJob` after a cancellation.
  unfoldable pub canceled_reply : Service S → Reply → Service S × Response
  unfolding write_json append_audit
  canceled_reply s (ok job) = (
    record s {
      audit =
          append_audit enc ch s.audit params.tenant_id params.corr_id "audit.zip.cancel"
            (deref job.criteria_hash);
    },
    write_json 200 params.corr_id (job_body (decorate_job job params.corr_id)) [],
  )
  canceled_reply s (err (conflict reason _)) =
      (s, conflict_reply params.corr_id "job cannot be canceled in current state" reason)
  canceled_reply s (ok_err _ (conflict reason _)) =
      (s, conflict_reply params.corr_id "job cannot be canceled in current state" reason)
  canceled_reply s (err e) = (s, write_internal_error params.corr_id e)
  canceled_reply s (ok_err _ e) = (s, write_internal_error params.corr_id e)

  -- `GetAuditZipJob` on a job of the tenant. Between the calls of `Get` and `Cancel` the queue's lock
  -- is free: `others` is what the other goroutines make of the queue meanwhile.
  unfoldable pub answer_job :
      (JobQueue S → JobQueue S)
      → Service S
      → String
      → AuditZipJob
      → Option Bool
      → Service S × Response
  unfolding canceled_reply write_json append_audit
  answer_job others s job_id job (some true) =
      let (queue, reply) = cancel (others s.queue) ch.queued_at params.tenant_id job_id in
      canceled_reply (record s { queue = queue }) reply
  answer_job others s job_id job _ = (
    record s {
      audit =
          append_audit enc ch s.audit params.tenant_id params.corr_id "audit.zip.get"
            (deref job.criteria_hash);
    },
    write_json 200 params.corr_id (job_body (decorate_job job params.corr_id)) [],
  )

  unfoldable pub get_audit_zip_job :
      (JobQueue S → JobQueue S) → Service S → String → Option Bool → Service S × Response
  unfolding answer_job not_found_reply
  get_audit_zip_job others s job_id cancel_param = elim (get s.queue job_id) [
    | none ↦ (s, not_found_reply params.corr_id)
    | some (job, tenant) ↦
        if not (tenant == params.tenant_id)
        then (s, not_found_reply params.corr_id)
        else answer_job others s job_id job cancel_param
  ]
