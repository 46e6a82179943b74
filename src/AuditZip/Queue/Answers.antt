-- ===== src/AuditZip/Queue/Answers.antt =====
-- How `Enqueue` answers: with a job, or with an error and nothing changed.
use prompt_pack.Base.{String, ◌≡◌, ap, ◌∙◌, ◌≢◌, inl, inr, ◌&&◌, Option, none, some, arith, ◌==◌}
use prompt_pack.Base.Tests.{Bool-cases}
use prompt_pack.AuditZip.Types.{
  Time, AuditZipJob, AuditZipRequest, QueueError, conflict, idempotency_body_mismatch,
  duplicate_job, not_found,
}
use prompt_pack.AuditZip.JobState.{JobState, JobQueue, Reply, ok, err}
use prompt_pack.AuditZip.Queue.{enqueue, replay_or_conflict, duplicate}
use prompt_pack.AuditZip.Queue.Idempotency.{enqueue-Outcome, full, known, busy, fresh}

-- The answers of the queue to `Enqueue`: `ErrNotFound` is none of them.
pub data Answer {S : Type 0} (q : JobQueue S) (r : JobQueue S × Reply) : Type 0 where
  accepts : (q' : JobQueue S) (job : AuditZipJob) → r ≡ (q', ok job) → Answer q r
  refuses : (e : QueueError) → e ≢ not_found → r ≡ (q, err e) → Answer q r

module _ {S : Type 0} (q : JobQueue S) (now : Time) (job_id tenant_id key hash : String)
    (req : AuditZipRequest) where
  Answer-known :
      (r : JobQueue S × Reply) (o : Option JobState) (a : Reply)
      → replay_or_conflict o tenant_id hash ≡ some a
      → r ≡ (q, a)
      → Answer q r
  unfolding replay_or_conflict
  Answer-known r none a h e = absurd (cc h)
  Answer-known r (some st) a h e =
      elim (Bool-cases (st.criteria_hash == hash && st.tenant_id == tenant_id)) [
        | inl both ↦ accepts q st.job (e ∙ ap (λ (x : Reply). (q, x)) (ground (arith, h, both)))
        | inr other ↦
            refuses (conflict idempotency_body_mismatch st.job.job_id) (λ x. cc x)
              (e ∙ ap (λ (x : Reply). (q, x)) (ground (arith, h, other)))
      ]

  Answer-busy :
      (r : JobQueue S × Reply) (o : Option JobState) (a : Reply)
      → duplicate o ≡ some a
      → r ≡ (q, a)
      → Answer q r
  unfolding duplicate
  Answer-busy r none a h e = absurd (cc h)
  Answer-busy r (some st) a h e =
      refuses (conflict duplicate_job st.job.job_id) (λ x. cc x)
        (e ∙ ap (λ (x : Reply). (q, x)) (ground (arith, h)))

  pub enqueue-Answer : Answer q (enqueue q now job_id tenant_id key hash req)
  enqueue-Answer = elim (enqueue-Outcome q now job_id tenant_id key hash req) [
    | full _ r ↦ refuses _ (λ x. cc x) r
    | known a h r ↦ Answer-known _ _ a h r
    | busy a h r ↦ Answer-busy _ _ a h r
    | fresh _ _ r ↦ accepts _ _ r
  ]
