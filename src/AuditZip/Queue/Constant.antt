-- ===== src/AuditZip/Queue/Constant.antt =====
-- No operation of the queue changes its configuration; what follows for the program, which loads it.
use prompt_pack.Base.{
  ℕ, zero, suc, ◌≤◌, ◌<◌, String, ◌≡◌, refl, sym, subst, ◌∙◌, inl, inr, Option, none, some, arith,
  ◌==◌,
}
use prompt_pack.Base.Tests.{Bool-cases, Option-cases}
use prompt_pack.Base.Lists.{length, get_elem?}
use prompt_pack.Base.Dict.{find}
use prompt_pack.Base.Env.{Env}
use prompt_pack.Base.Int.{pos_part}
use prompt_pack.AuditZip.Types.{Time, Config}
use prompt_pack.AuditZip.Storage.{StorageApi}
use prompt_pack.AuditZip.Settings.{load_config, load_config_least}
use prompt_pack.AuditZip.JobState.{JobState, JobQueue, is_running, new_job_queue}
use prompt_pack.AuditZip.Queue.{cancel, cancel_at, insert_state}
use prompt_pack.AuditZip.Queue.Worker.{Codec, Moment, worker_step, retention_step, retention_at}
use prompt_pack.AuditZip.Queue.Insert.{enqueue_cases}
use prompt_pack.AuditZip.Queue.Invariant.{IsValid, holds-le-held}
use prompt_pack.AuditZip.Queue.Refines.{worker_step-Stepped}
use prompt_pack.AuditZip.Queue.Reach.{
  Work, Reach, Step, here, next, enqueues, cancels, works, retains, Reach-IsValid,
  reachable-IsValid,
}
use prompt_pack.AuditZip.Queue.Alone.{HasEnded}
use prompt_pack.AuditZip.Queue.Liveness.{drains}

module _ {S : Type 0} (q : JobQueue S) where
  cancel_at-cfg :
      (now : Time) (tenant_id job_id : String) (p : ℕ) (o : Option JobState)
      → (cancel_at q now tenant_id job_id p o).0.cfg ≡ q.cfg
  unfolding cancel_at
  cancel_at-cfg now tenant_id job_id p none = refl
  cancel_at-cfg now tenant_id job_id p (some st) = elim (Bool-cases (st.tenant_id == tenant_id)) [
    | inr other ↦ rw other refl
    | inl mine ↦ elim (Bool-cases (is_running st.job.status)) [
      | inr still ↦ rw (mine, still) refl
      | inl on ↦ rw (mine, on) refl
    ]
  ]

  cancel-cfg :
      (now : Time) (tenant_id job_id : String) → (cancel q now tenant_id job_id).0.cfg ≡ q.cfg
  unfolding cancel
  cancel-cfg now tenant_id job_id = elim (Option-cases (find q.jobs job_id)) [
    | inl gone ↦ rw (gone, cancel) refl
    | inr (p, at) ↦ rw (at, cancel) (cancel_at-cfg now tenant_id job_id p (get_elem? q.heap p))
  ]

  module _ (api : StorageApi S) (codec : Codec) (p : ℕ) (m : Moment) where
    retention_at-cfg : (st : JobState) (n : ℕ) → (retention_at api codec q p m st n).cfg ≡ q.cfg
    unfolding retention_at
    retention_at-cfg st zero = refl
    retention_at-cfg st (suc n) = elim (Bool-cases m.timer) [
      | inl over ↦ rw over refl
      | inr early ↦ elim (Bool-cases st.ctx_done) [
        | inl done ↦ rw (early, done) refl
        | inr on ↦ rw (early, on) refl
      ]
    ]

    retention_step-cfg : (retention_step api codec q p m).cfg ≡ q.cfg
    unfolding retention_step
    retention_step-cfg = elim (Option-cases (get_elem? q.heap p)) [
      | inl gone ↦ rw (gone, retention_step) refl
      | inr (st, own) ↦ rw (own, retention_step) (retention_at-cfg st st.retentions)
    ]

    worker_step-cfg : IsValid q → (worker_step api codec q p m).cfg ≡ q.cfg
    worker_step-cfg v = elim (Option-cases (get_elem? q.heap p)) [
      | inl gone ↦ unfold worker_step in rw (gone, worker_step) refl
      | inr (st, own) ↦
          (worker_step-Stepped api codec m q p st own
            (omega (arith, v.balanced, holds-le-held q.heap p st own)) (v.linked p st own)).cfg
    ]

module _ {S : Type 0} (api : StorageApi S) (codec : Codec) where
  pub Step-cfg : {q q' : JobQueue S} → Step api codec q q' → IsValid q → q'.cfg ≡ q.cfg
  Step-cfg {q} (enqueues now job_id tenant_id key hash req fresh e) v = rw e (
      enqueue_cases q (λ r. r.0.cfg ≡ q.cfg) now job_id tenant_id key hash req (λ _. refl)
        (unfold insert_state in refl))
  Step-cfg {q} (cancels now tenant_id job_id e) v = rw e (cancel-cfg q now tenant_id job_id)
  Step-cfg {q} (works p m e) v = rw e (worker_step-cfg q api codec p m v)
  Step-cfg {q} (retains p m e) v = rw e (retention_step-cfg q api codec p m)

  pub Reach-cfg : {q q' : JobQueue S} → IsValid q → Reach api codec q q' → q'.cfg ≡ q.cfg
  Reach-cfg v here = refl
  Reach-cfg v (next r s) = Step-cfg s (Reach-IsValid api codec v r) ∙ Reach-cfg v r

  -- With the configuration that `LoadConfig` makes of any environment, and any storage: from each
  -- state that clients, goroutines and timers can bring the queue to, some steps of goroutines alone,
  -- with no request or cancellation in between, bring every job to its end, its goroutine finished and
  -- its status not `queued`. No job is ever stuck. The condition is that `uuid.New` never repeats an id.
  pub reachable_drains :
      (env : Env) (s : S) (t : Time) (q : JobQueue S)
      → Reach api codec (new_job_queue s (load_config env)) q
      → (q' : JobQueue S) × Work api codec q q'
        × (length q'.heap ≡ length q.heap)
        × ((p : ℕ) → p < length q'.heap → HasEnded api codec q' p)
  reachable_drains env s t q r =
      drains api codec t q (reachable-IsValid api codec s (load_config env) q r) (
        subst (λ (c : Config). 1 ≤ pos_part c.max_concurrent_jobs)
          (sym (Reach-cfg (reachable-IsValid api codec s (load_config env) _ here) r))
          (unfold new_job_queue in (load_config_least env).0))
