-- ===== src/AuditZip/Queue/Cancellation/Tests.antt =====
-- Runs in which a job is canceled.
use prompt_pack.Base.{◌≡◌, refl, some}
use prompt_pack.Base.Lists.{get_elem?}
use prompt_pack.Base.Dict.{find, put}
use prompt_pack.AuditZip.Types.{canceled}
use prompt_pack.AuditZip.Storage.{new_in_memory_storage}
use prompt_pack.AuditZip.JobState.{JobState, ok, new_job_queue}
use prompt_pack.AuditZip.Queue.{
  enqueue, cancel, canceled_state, new_state, insert_state, update_status, set_retry_count,
  active_count,
}
use prompt_pack.AuditZip.Queue.Worker.{worker_step}
use prompt_pack.AuditZip.Queue.Reach.{reachable-IsValid}
use prompt_pack.AuditZip.Queue.Cancellation.{cancel_kept}
use prompt_pack.AuditZip.Queue.Tests.{
  config, plain_codec, api, tick, counted, job_at, Reach-counted,
}

cancel_kept_example :
    ((cancel counted 8 "acme" "j1").1 ≡ ok (canceled_state 8 (job_at counted)).job)
    × ((st' : JobState) × (get_elem?
            (worker_step api plain_codec (cancel counted 8 "acme" "j1").0 0 tick).heap
            0
          ≡ some st')
        × (st'.job.status ≡ canceled))
unfolding new_job_queue enqueue cancel find active_count insert_state put new_state worker_step
    update_status set_retry_count
cancel_kept_example =
    cancel_kept api plain_codec counted 8 "acme" "j1" 0 (job_at counted)
      (reachable-IsValid api plain_codec new_in_memory_storage config counted Reach-counted) refl
      refl refl refl tick (λ o. o)
