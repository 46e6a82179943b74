-- ===== src/AuditZip/Queue/Depth/Tests.antt =====
-- Runs against the limit of the depth.
use prompt_pack.Base.{zero, suc, ◌≤◌, ◌≡◌, refl, ◌≢◌, List, [], ◌∷◌, arith, ap, sym, ◌∙◌}
use prompt_pack.Base.Lists.{get_elem?}
use prompt_pack.Base.Dict.{find, put}
use prompt_pack.AuditZip.Types.{canceled}
use prompt_pack.AuditZip.Storage.{InMemoryStorage, new_in_memory_storage}
use prompt_pack.AuditZip.JobState.{JobState, JobQueue, new_job_queue, is_active}
use prompt_pack.AuditZip.Queue.{
  enqueue, cancel, new_state, insert_state, scoped_key, update_status, set_retry_count,
  active_count,
}
use prompt_pack.AuditZip.Queue.Worker.{worker_step}
use prompt_pack.AuditZip.Queue.Reach.{enqueues, works}
use prompt_pack.AuditZip.Queue.Depth.{active_count_bounded}
use prompt_pack.AuditZip.Queue.Calm.{KeepsCanceled, Calm, calm, after}
use mathlib.Core.Option.{some-injective, none-ne-some}
use prompt_pack.AuditZip.Queue.Tests.{
  config, request, plain_codec, api, tick, start, with_job, placed, started, job_at,
}

pub KeepsCanceled-one :
    (q q' : JobQueue InMemoryStorage) (st : JobState)
    → q.heap ≡ st ∷ []
    → st.job.status ≢ canceled
    → KeepsCanceled q q'
KeepsCanceled-one q q' st one other zero x y at at' e = absurd (
    other (
      ap (λ (s : JobState). s.job.status)
        (some-injective st x (ap (λ (h : List JobState). get_elem? h 0) (sym one) ∙ at))
      ∙ e))
KeepsCanceled-one q q' st one other (suc p) x y at at' e =
    absurd (none-ne-some x (ap (λ (h : List JobState). get_elem? h (suc p)) (sym one) ∙ at))

-- A job is running when another is asked for.
Calm-full : Calm api plain_codec start (enqueue started 8 "j2" "acme" "k2" "h2" request).0
unfolding new_job_queue enqueue find active_count is_active insert_state put new_state worker_step
    update_status
Calm-full =
    after
      (after
        (after
          (after calm (enqueues 5 "j1" "acme" "k1" "h1" request refl refl)
            (λ p st st' at at' e. absurd (none-ne-some st at)))
          (works 0 tick refl)
          (KeepsCanceled-one with_job placed (job_at with_job) refl (λ e. cc e)))
        (works 0 tick refl) (KeepsCanceled-one placed started (job_at placed) refl (λ e. cc e)))
      (enqueues 8 "j2" "acme" "k2" "h2" request refl refl)
      (KeepsCanceled-one started (enqueue started 8 "j2" "acme" "k2" "h2" request).0
        (job_at started) refl (λ e. cc e))

active_count_bounded_example : active_count (enqueue started 8 "j2" "acme" "k2" "h2" request).0 ≤ 1
active_count_bounded_example =
    active_count_bounded api plain_codec new_in_memory_storage config 1
      (enqueue started 8 "j2" "acme" "k2" "h2" request).0 refl (omega arith) Calm-full

-- The goroutine of a canceled job overwrites the cancellation after another job was let in.
abbrev crowded : JobQueue InMemoryStorage
crowded =
    worker_step api plain_codec
      (enqueue (cancel started 8 "acme" "j1").0 9 "j2" "acme" "k2" "h2" request).0 0 tick

crowded_test : active_count crowded ≡ 2
unfolding new_job_queue enqueue cancel find active_count is_active insert_state put new_state
    worker_step update_status set_retry_count scoped_key
crowded_test = refl
