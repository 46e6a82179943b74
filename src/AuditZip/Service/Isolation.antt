-- ===== src/AuditZip/Service/Isolation.antt =====
-- What `GetAuditZipJob` of apps/api/internal/auditzip/service.go does with another tenant's jobs.
use prompt_pack.Base.{
  ℕ, String, ◌≡◌, refl, sym, subst, ◌≢◌, inl, inr, Bool, true, false, Option, none, some, arith,
  ◌==◌, eq_iff,
}
use prompt_pack.Base.Tests.{Bool-cases, Option-cases}
use prompt_pack.Base.Lists.{get_elem?}
use prompt_pack.AuditZip.Types.{AuditZipJob}
use prompt_pack.AuditZip.JobState.{JobState, JobQueue, Reply, ok, err, ok_err}
use prompt_pack.AuditZip.Validator.{FloatOps}
use prompt_pack.AuditZip.Queue.{cancel, get}
use prompt_pack.AuditZip.Queue.Foreign.{cancel_unchanged}
use prompt_pack.AuditZip.Types.{conflict, rate_limited, not_found}
use prompt_pack.AuditZip.Service.{
  Service, Encoders, Chance, Params, canceled_reply, answer_job, get_audit_zip_job, not_found_reply,
}

module _ {S : Type 0} (f : FloatOps) (enc : Encoders) (ch : Chance) (params : Params) where
  canceled_reply-queue :
      (s : Service S) (r : Reply) → (canceled_reply f enc ch params s r).0.queue ≡ s.queue
  unfolding canceled_reply
  canceled_reply-queue s (ok job) = refl
  canceled_reply-queue s (err (conflict _ _)) = refl
  canceled_reply-queue s (err (rate_limited _)) = refl
  canceled_reply-queue s (err not_found) = refl
  canceled_reply-queue s (ok_err _ (conflict _ _)) = refl
  canceled_reply-queue s (ok_err _ (rate_limited _)) = refl
  canceled_reply-queue s (ok_err _ not_found) = refl

  -- A job of another tenant is answered as one that does not exist, with 404, and nothing changes,
  -- not even when it is asked to be canceled.
  pub get_audit_zip_job_foreign :
      (others : JobQueue S → JobQueue S) (s : Service S) (job_id : String)
      (cancel_param : Option Bool) (job : AuditZipJob) (tenant_id : String)
      → get s.queue job_id ≡ some (job, tenant_id)
      → tenant_id ≢ params.tenant_id
      → get_audit_zip_job f enc ch params others s job_id cancel_param
        ≡ (s, not_found_reply params.corr_id)
  unfolding get_audit_zip_job
  get_audit_zip_job_foreign others s job_id cancel_param job tenant_id found other =
      rw (found, get_audit_zip_job) (ground (arith, eq_iff tenant_id params.tenant_id, other))

  job-unchanged :
      (others : JobQueue S → JobQueue S) (s : Service S) (job_id : String) (job : AuditZipJob)
      (cancel_param : Option Bool) (p : ℕ) (st : JobState)
      → get_elem? s.queue.heap p ≡ some st
      → get_elem? (others s.queue).heap p ≡ some st
      → st.tenant_id ≢ params.tenant_id
      → get_elem? (answer_job f enc ch params others s job_id job cancel_param).0.queue.heap p
        ≡ some st
  unfolding answer_job
  job-unchanged others s job_id job none p st own kept other = own
  job-unchanged others s job_id job (some false) p st own kept other = own
  job-unchanged others s job_id job (some true) p st own kept other =
      subst (λ (q : JobQueue S). get_elem? q.heap p ≡ some st)
        (sym
          (canceled_reply-queue _ (cancel (others s.queue) ch.queued_at params.tenant_id job_id).1))
        (cancel_unchanged (others s.queue) ch.queued_at params.tenant_id job_id p st kept other)

  -- No request for a job, with or without a cancellation, changes a job of another tenant, if what
  -- the other goroutines do between its two looks at the queue does not.
  pub get_audit_zip_job_isolated :
      (others : JobQueue S → JobQueue S) (s : Service S) (job_id : String)
      (cancel_param : Option Bool) (p : ℕ) (st : JobState)
      → get_elem? s.queue.heap p ≡ some st
      → get_elem? (others s.queue).heap p ≡ some st
      → st.tenant_id ≢ params.tenant_id
      → get_elem? (get_audit_zip_job f enc ch params others s job_id cancel_param).0.queue.heap p
        ≡ some st
  unfolding get_audit_zip_job
  get_audit_zip_job_isolated others s job_id cancel_param p st own kept other =
      elim (Option-cases (get s.queue job_id)) [
        | inl gone ↦ rw (gone, get_audit_zip_job) own
        | inr ((job, tenant), found) ↦ elim (Bool-cases (tenant == params.tenant_id)) [
          | inl mine ↦
              rw (found, get_audit_zip_job, mine)
                (job-unchanged others s job_id job cancel_param p st own kept other)
          | inr foreign ↦ rw (found, get_audit_zip_job, foreign) own
        ]
      ]
