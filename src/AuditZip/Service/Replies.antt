-- ===== src/AuditZip/Service/Replies.antt =====
-- What `EnqueueAuditZip` of apps/api/internal/auditzip/service.go answers, and what it changes.
use prompt_pack.Base.{◌&◌, ap}
use prompt_pack.AuditZip.Service.{audit_entry}
use prompt_pack.AuditZip.Wire.{job_body, decorate_job}
use prompt_pack.AuditZip.Types.{InternalError}
use prompt_pack.AuditZip.Audit.{AuditLog, AuditRecorder, hash_chain-OneMore}
use prompt_pack.Base.Recorder.{Recorded}
use prompt_pack.Base.{
  ℕ, String, ◌≡◌, refl, sym, subst, ◌∙◌, ◌≢◌, ◌⊎◌, inl, inr, Bool, true, false, Option, none, some,
  List, [], ◌∷◌,
}
use prompt_pack.AuditZip.Types.{
  AuditZipJob, AuditZipRequest, QueueError, conflict, rate_limited, not_found,
}
use prompt_pack.AuditZip.JobState.{JobQueue, Reply, ok}
use prompt_pack.AuditZip.RateLimiter.{allow, RateLimiter}
use prompt_pack.AuditZip.Validator.{SplitHint, ValidationErrorItem, FloatOps, validate_request}
use prompt_pack.AuditZip.Queue.{enqueue}
use prompt_pack.AuditZip.Queue.Answers.{Answer, enqueue-Answer, accepts, refuses}
use prompt_pack.AuditZip.Wire.{Response, rate_limit_reply, conflict_reply, validation_reply}
use prompt_pack.AuditZip.Service.{
  Service, Encoders, Chance, Params, compute_criteria_hash, append_audit, refusal_reply,
  accepted_reply, submit, check_and_submit, enqueue_audit_zip, answer_enqueue, answer_checks,
  answer_limiter, ℤ, AuditLog, audit_entry,
}

-- The statuses of a request that is turned away.
pub data IsRefusal : ℕ → Type 0 where
  bad_request : IsRefusal 400
  taken : IsRefusal 409
  too_large : IsRefusal 413
  too_many : IsRefusal 429

refusal_reply-IsRefusal :
    (corr_id : String) (e : QueueError) → e ≢ not_found → IsRefusal (refusal_reply corr_id e).status
unfolding refusal_reply conflict_reply rate_limit_reply
refusal_reply-IsRefusal corr_id (conflict reason _) ne = taken
refusal_reply-IsRefusal corr_id (rate_limited d) ne = too_many
refusal_reply-IsRefusal corr_id not_found ne = absurd (ne refl)

-- An error under the id of a request.
abbrev pub under : String → Option InternalError → Option InternalError
under corr_id none = none
under corr_id (some e) = some (record e { corr_id = corr_id })

-- The error that the job reports, if it has failed before, carries the id of this request.
decorate_job-error :
    (job : AuditZipJob) (corr_id : String)
    → decorate_job job corr_id ≡ record job { error = under corr_id job.error }
unfolding decorate_job
decorate_job-error job corr_id = with_error job.error refl
  where
    with_error :
        (o : Option InternalError)
        → job.error ≡ o
        → (elim o [
          | none ↦ job
          | some e ↦ record job { error = some (record e { corr_id = corr_id }) }
        ])
          ≡ record job { error = under corr_id o }
    with_error none h = ap (λ o. record job { error = o }) h
    with_error (some e) h = refl

module _ (enc : Encoders) (ch : Chance) (params : Params) where
  -- What the audit log says of a request that is accepted.
  abbrev pub Created : AuditZipRequest → AuditLog → Type 0
  Created req e =
      (e.audit_id ≡ ch.audit_id)
      × (e.tenant_id ≡ params.tenant_id)
      × (e.corr_id ≡ params.corr_id)
      × (e.action ≡ "audit.zip.create")
      × (e.criteria_hash ≡ compute_criteria_hash enc params.tenant_id req)
      × (e.ts ≡ ch.audited_at)

  append_audit-Recorded :
      (o : Option AuditRecorder) (req : AuditZipRequest)
      → Recorded (Created req) params.tenant_id o (
          append_audit enc ch o params.tenant_id params.corr_id "audit.zip.create"
            (compute_criteria_hash enc params.tenant_id req))
  unfolding append_audit audit_entry
  append_audit-Recorded none req = refl
  append_audit-Recorded (some m) req =
      let entry =
        audit_entry ch params.tenant_id params.corr_id "audit.zip.create"
          (compute_criteria_hash enc params.tenant_id req) in
      let (same, more) = hash_chain-OneMore enc.digest m entry in
      (
        _,
        _,
        refl,
        (
          ap (λ (e : AuditLog). e.audit_id) same,
          ap (λ (e : AuditLog). e.tenant_id) same,
          ap (λ (e : AuditLog). e.corr_id) same,
          ap (λ (e : AuditLog). e.action) same,
          ap (λ (e : AuditLog). e.criteria_hash) same,
          ap (λ (e : AuditLog). e.ts) same,
        ),
        more,
      )

module _ {S : Type 0} (f : FloatOps) (enc : Encoders) (ch : Chance) (params : Params) where
  -- The request is turned away: the jobs and the audit log are as they were.
  abbrev pub TurnedAway : Service S → Service S × Response → Type 0
  TurnedAway s r = IsRefusal r.1.status × (r.0.queue ≡ s.queue) × (r.0.audit ≡ s.audit)

  -- The queue has accepted the request, the audit log, where there is one, has one more entry, and the
  -- job is answered with its place.
  abbrev pub Accepted : Service S → AuditZipRequest → Service S × Response → Type 0
  Accepted s req r =
      (job : AuditZipJob) × (enqueue s.queue ch.queued_at ch.job_id params.tenant_id
          params.idempotency_key (compute_criteria_hash enc params.tenant_id req) req
        ≡ (r.0.queue, ok job))
      × Recorded (Created enc ch params req) params.tenant_id s.audit r.0.audit
      × (r.1.status ≡ 202)
      × (r.1.corr_id ≡ params.corr_id)
      × (r.1.extra ≡ ("Location", "/audit/jobs/" & job.job_id) ∷ [])
      × (r.1.body ≡ job_body (record job { error = under params.corr_id job.error }))

  submit_cases :
      (s : Service S) (req : AuditZipRequest)
      → TurnedAway s (submit f enc ch params s req) ⊎ Accepted s req (submit f enc ch params s req)
  unfolding submit accepted_reply
  submit_cases s req = answered _ refl (
      enqueue-Answer s.queue ch.queued_at ch.job_id params.tenant_id params.idempotency_key hash
        req)
    where
      hash : String
      hash = compute_criteria_hash enc params.tenant_id req

      answered :
          (r : JobQueue S × Reply)
          → enqueue s.queue ch.queued_at ch.job_id params.tenant_id params.idempotency_key hash req
            ≡ r
          → Answer s.queue r
          → TurnedAway s (answer_enqueue f enc ch params s hash r)
            ⊎ Accepted s req (answer_enqueue f enc ch params s hash r)
      answered r e (accepts q' job h) =
          subst
            (λ (x : JobQueue S × Reply).
              TurnedAway s (answer_enqueue f enc ch params s hash x)
              ⊎ Accepted s req (answer_enqueue f enc ch params s hash x))
            (sym h)
            (inr (
              job,
              e ∙ h,
              append_audit-Recorded enc ch params s.audit req,
              refl,
              refl,
              refl,
              ap job_body (decorate_job-error job params.corr_id),
            ))
      answered r e (refuses x ne h) =
          subst
            (λ (y : JobQueue S × Reply).
              TurnedAway s (answer_enqueue f enc ch params s hash y)
              ⊎ Accepted s req (answer_enqueue f enc ch params s hash y))
            (sym h) (inl (refusal_reply-IsRefusal params.corr_id x ne, refl, refl))

  -- `POST /audit/zip` turns the request away with 400, 409, 413 or 429, and then the jobs and the
  -- audit log are as they were; or the limiter let it pass, its body decoded to a request that keeps
  -- all rules and whose range is not too long, the queue accepted it, and the answer is 202 with the job under the request's
  -- correlation id and its place as the Location. A recorder that is there then has one more entry in the tenant's log, an
  -- `audit.zip.create` with the request's ids and criteria hash, and the other tenants' logs as they were; without a recorder there is still none.
  pub enqueue_audit_zip_cases :
      (s : Service S) (body : String ⊎ AuditZipRequest)
      → let r = enqueue_audit_zip f enc ch params s body in
        TurnedAway s r
        ⊎ ((req : AuditZipRequest) × (body ≡ inr req)
            × ((allow s.limiter ch.now params.tenant_id).1 ≡ true)
            × (validate_request f s.cfg req ≡ ([], none))
            × Accepted s req r)
  unfolding enqueue_audit_zip validation_reply rate_limit_reply
  enqueue_audit_zip_cases s body = limited _
    where
      Good : RateLimiter × Bool × ℤ → Service S × Response → Type 0
      Good a r =
          TurnedAway s r
          ⊎ ((req : AuditZipRequest) × (body ≡ inr req)
              × (a.1 ≡ true)
              × (validate_request f s.cfg req ≡ ([], none))
              × Accepted s req r)

      checked :
          (limiter : RateLimiter) (d : ℤ) (req : AuditZipRequest)
          (v : List ValidationErrorItem × Option SplitHint)
          → body ≡ inr req
          → validate_request f s.cfg req ≡ v
          → Good
              (limiter, true, d)
              (answer_checks f enc ch params (record s { limiter = limiter }) req v)
      checked limiter d req (x ∷ xs, hint) b e = inl (bad_request, refl, refl)
      checked limiter d req ([], some hint) b e = inl (too_large, refl, refl)
      checked limiter d req ([], none) b e =
          elim (submit_cases (record s { limiter = limiter }) req) [
            | inl away ↦ inl away
            | inr good ↦ inr (req, b, refl, e, good)
          ]

      decoded :
          (limiter : RateLimiter) (d : ℤ) (o : String ⊎ AuditZipRequest)
          → body ≡ o
          → Good
              (limiter, true, d)
              (check_and_submit f enc ch params (record s { limiter = limiter }) o)
      decoded limiter d (inl message) b = inl (bad_request, refl, refl)
      decoded limiter d (inr req) b = checked limiter d req _ b refl

      limited : (a : RateLimiter × Bool × ℤ) → Good a (answer_limiter f enc ch params s body a)
      limited (limiter, false, d) = inl (too_many, refl, refl)
      limited (limiter, true, d) = decoded limiter d body refl
