-- ===== src/AuditZip/Service/Tests.antt =====
-- Runs of the handlers of the audit export.
use prompt_pack.Base.{◌*◌, String, ◌≡◌, refl, ◌⊎◌, inr, true, none, some, [], arith, eq_iff}
use prompt_pack.Base.Tests.{ltb}
use prompt_pack.Base.Lists.{get_elem?}
use prompt_pack.Base.Dict.{find}
use prompt_pack.Base.Decimal.{decimal}
use prompt_pack.Base.Int.{pos}
use prompt_pack.Base.Env.{Env, get_int}
use prompt_pack.AuditZip.Types.{AuditZipRequest}
use prompt_pack.AuditZip.Storage.{InMemoryStorage, new_in_memory_storage}
use prompt_pack.AuditZip.Settings.{load_config}
use prompt_pack.AuditZip.JobState.{JobState, new_job_queue}
use prompt_pack.AuditZip.RateLimiter.{new_rate_limiter, allow}
use prompt_pack.AuditZip.Validator.{FloatOps, validate_request}
use prompt_pack.AuditZip.Queue.{enqueue, insert_state, new_state, active_count}
use prompt_pack.AuditZip.Wire.{Response, format_retry_after, to_retry_seconds}
use prompt_pack.AuditZip.Service.{
  Service, Encoders, Chance, Params, new_service, enqueue_audit_zip, get_audit_zip_job,
  compute_criteria_hash,
}
use prompt_pack.AuditZip.Service.Replies.{enqueue_audit_zip_cases, TurnedAway, Accepted}
use prompt_pack.AuditZip.Service.Isolation.{get_audit_zip_job_isolated}

abbrev pub whole : FloatOps
whole = record {
  lt = λ a b. ltb a b;
  mul = λ a b. a * b;
  div = λ a b. a;
  ceil = λ a. a;
  of_int = λ n. 1;
}

abbrev pub encoders : Encoders
encoders = record {
  digest = record { time_string = λ t. "now"; sha256_hex = λ s. s };
  date_string = λ d. decimal d;
  criteria_json = λ p. p.tenant;
}

abbrev pub chance : Chance
chance = record { now = 5; queued_at = 5; audited_at = 6; job_id = "j1"; audit_id = "a1" }

abbrev params : Params
params = record { corr_id = "c1"; tenant_id = "acme"; idempotency_key = "k1" }

abbrev pub no_env : Env
no_env = record { lookup_env = λ k. none; parse_float = λ s. none; parse_duration = λ s. none }

abbrev pub service : Service InMemoryStorage
service =
    new_service (load_config no_env) (new_job_queue new_in_memory_storage (load_config no_env))
      (some [])

abbrev pub request : AuditZipRequest
request = record {
  format = "zip";
  from_date = 1000;
  max_amount = none;
  min_amount = none;
  partner = none;
  to_date = 1001;
}

abbrev served : Service InMemoryStorage × Response
served = enqueue_audit_zip whole encoders chance params service (inr request)

served_test : served.1.status ≡ 202
unfolding enqueue_audit_zip allow new_service new_rate_limiter load_config get_int find
    validate_request enqueue new_job_queue active_count
served_test = refl

-- A wait of less than a second: the header says 1 and the body 0.
short_wait_test :
    (format_retry_after (pos 500000000) ≡ "1") × (to_retry_seconds (pos 500000000) ≡ 0)
unfolding format_retry_after decimal
short_wait_test = (refl, refl)

enqueue_audit_zip_cases_example :
    TurnedAway whole encoders chance params service served
    ⊎ ((req : AuditZipRequest) × (◌≡◌ {A = String ⊎ AuditZipRequest} (inr request) (inr req))
        × ((allow service.limiter 5 "acme").1 ≡ true)
        × (validate_request whole service.cfg req ≡ ([], none))
        × Accepted whole encoders chance params service req served)
enqueue_audit_zip_cases_example =
    enqueue_audit_zip_cases whole encoders chance params service (inr request)

abbrev other : Params
other = record params { tenant_id = "other" }

abbrev job : JobState
job = new_state 5 "j1" "acme" "k1" "acme" request

get_audit_zip_job_isolated_example :
    get_elem?
      (get_audit_zip_job whole encoders chance other
        (λ q. q)
        served.0
        "j1"
        (some true)).0.queue.heap
      0
    ≡ some job
unfolding enqueue_audit_zip allow new_service new_rate_limiter load_config get_int find
    validate_request enqueue new_job_queue active_count insert_state compute_criteria_hash new_state
get_audit_zip_job_isolated_example =
    get_audit_zip_job_isolated whole encoders chance other (λ q. q) served.0 "j1" (some true) 0 job
      refl refl (λ e. ground (arith, eq_iff "acme" "other", e))
