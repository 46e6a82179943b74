-- ===== src/AuditZip/Queue/Distinct/Tests.antt =====
-- A run in which a request repeats the criteria of a job.
use mathlib.Core.Option.{none-ne-some}
use prompt_pack.Base.{◌≡◌, ◌≢◌, refl, arith}
use prompt_pack.Base.Dict.{find, put}
use prompt_pack.AuditZip.Types.{conflict, duplicate_job}
use prompt_pack.AuditZip.Storage.{InMemoryStorage, new_in_memory_storage}
use prompt_pack.AuditZip.JobState.{JobQueue, err, is_active, new_job_queue}
use prompt_pack.AuditZip.Queue.{scoped_key, enqueue, active_count, insert_state, new_state}
use prompt_pack.AuditZip.Queue.Reach.{enqueues}
use prompt_pack.AuditZip.Queue.Calm.{Calm, calm, after}
use prompt_pack.AuditZip.Queue.Distinct.{active_distinct}
use prompt_pack.AuditZip.Queue.Tests.{request, plain_codec, api, roomy, roomy_job, job_at}
use prompt_pack.AuditZip.Queue.Depth.Tests.{KeepsCanceled-one}

abbrev repeated : JobQueue InMemoryStorage
repeated = (enqueue roomy_job 6 "j2" "acme" "k2" "h1" request).0

repeated_test :
    (enqueue roomy_job 6 "j2" "acme" "k2" "h1" request).1 ≡ err (conflict duplicate_job "j1")
unfolding new_job_queue enqueue find active_count is_active insert_state put new_state scoped_key
repeated_test = refl

-- After it, a job with other criteria is let in.
abbrev two_jobs : JobQueue InMemoryStorage
two_jobs = (enqueue repeated 7 "j3" "acme" "k3" "h2" request).0

Calm-two_jobs : Calm api plain_codec roomy two_jobs
unfolding new_job_queue enqueue find active_count is_active insert_state put new_state scoped_key
Calm-two_jobs =
    after
      (after
        (after calm (enqueues 5 "j1" "acme" "k1" "h1" request refl refl)
          (λ p st st' at at' e. absurd (none-ne-some st at)))
        (enqueues 6 "j2" "acme" "k2" "h1" request refl refl)
        (KeepsCanceled-one roomy_job repeated (job_at roomy_job) refl (λ e. cc e)))
      (enqueues 7 "j3" "acme" "k3" "h2" request refl refl)
      (KeepsCanceled-one repeated two_jobs (job_at roomy_job) refl (λ e. cc e))

active_distinct_example :
    (new_state 5 "j1" "acme" "k1" "h1" request).criteria_hash
    ≢ (new_state 7 "j3" "acme" "k3" "h2" request).criteria_hash
unfolding new_job_queue enqueue find active_count is_active insert_state put new_state scoped_key
active_distinct_example =
    active_distinct api plain_codec new_in_memory_storage roomy.cfg two_jobs 0 1
      (new_state 5 "j1" "acme" "k1" "h1" request) (new_state 7 "j3" "acme" "k3" "h2" request)
      Calm-two_jobs (λ e. omega (arith, e)) refl refl refl refl refl
