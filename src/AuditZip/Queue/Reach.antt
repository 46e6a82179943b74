-- ===== src/AuditZip/Queue/Reach.antt =====
-- Clients, goroutines and retention timers interleaved in any order, one locked step at a time.
use prompt_pack.Base.{ℕ, String, ◌≡◌, none}
use prompt_pack.Base.Dict.{find}
use prompt_pack.AuditZip.Types.{Time, Config, AuditZipRequest}
use prompt_pack.AuditZip.Storage.{StorageApi}
use prompt_pack.AuditZip.JobState.{JobQueue, new_job_queue}
use prompt_pack.AuditZip.Queue.{enqueue, cancel}
use prompt_pack.AuditZip.Queue.Worker.{Codec, Moment, worker_step, retention_step}
use prompt_pack.AuditZip.Queue.Invariant.{IsValid}
use prompt_pack.AuditZip.Queue.Insert.{enqueue-IsValid}
use prompt_pack.AuditZip.Queue.Preserve.{
  new_job_queue-IsValid, worker_step-IsValid, retention_step-IsValid, cancel-IsValid,
}

module _ {S : Type 0} (api : StorageApi S) (codec : Codec) where
  -- `uuid.New` gives an id that no job has; the clock and the timers may show anything.
  pub data Step (q q' : JobQueue S) : Type 0 where
    enqueues :
        (now : Time) (job_id tenant_id key hash : String) (req : AuditZipRequest)
        → find q.jobs job_id ≡ none
        → q' ≡ (enqueue q now job_id tenant_id key hash req).0
        → Step q q'
    cancels :
        (now : Time) (tenant_id job_id : String)
        → q' ≡ (cancel q now tenant_id job_id).0
        → Step q q'
    works : (p : ℕ) (m : Moment) → q' ≡ worker_step api codec q p m → Step q q'
    retains : (p : ℕ) (m : Moment) → q' ≡ retention_step api codec q p m → Step q q'

  pub data Reach (q : JobQueue S) : JobQueue S → Type 0 where
    here : Reach q q
    next : {r q' : JobQueue S} → Reach q r → Step r q' → Reach q q'

  -- A run of goroutines alone, whose timers may fire, with no request in between.
  pub data Work (q : JobQueue S) : JobQueue S → Type 0 where
    idle : Work q q
    worked :
        {r q' : JobQueue S} (p : ℕ) (m : Moment)
        → Work q r
        → q' ≡ worker_step api codec r p m
        → Work q q'

  pub Work-Reach : {q q' : JobQueue S} → Work q q' → Reach q q'
  Work-Reach idle = here
  Work-Reach (worked p m w e) = next (Work-Reach w) (works p m e)

  pub Step-IsValid : {q q' : JobQueue S} → Step q q' → IsValid q → IsValid q'
  Step-IsValid {q} (enqueues now job_id tenant_id key hash req fresh e) v =
      rw e (enqueue-IsValid q v now job_id tenant_id key hash req fresh)
  Step-IsValid {q} (cancels now tenant_id job_id e) v =
      rw e (cancel-IsValid q v now tenant_id job_id)
  Step-IsValid {q} (works p m e) v = rw e (worker_step-IsValid q v api codec p m)
  Step-IsValid {q} (retains p m e) v = rw e (retention_step-IsValid q v api codec p m)

  pub Reach-IsValid : {q q' : JobQueue S} → IsValid q → Reach q q' → IsValid q'
  Reach-IsValid v here = v
  Reach-IsValid v (next r s) = Step-IsValid s (Reach-IsValid v r)

  -- Whatever clients, goroutines and timers do, and in whatever order: the three maps lead to the
  -- jobs that their keys name, each job's status, progress and retry count fit the place of its
  -- goroutine, and the values in `workerSlots` are as many as the goroutines hold, and no more than
  -- `MaxConcurrentJobs`. The condition is that `uuid.New` never repeats an id.
  pub reachable-IsValid :
      (s : S) (cfg : Config) (q : JobQueue S) → Reach (new_job_queue s cfg) q → IsValid q
  reachable-IsValid s cfg q r = Reach-IsValid (new_job_queue-IsValid s cfg) r
