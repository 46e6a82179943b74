-- ===== src/AuditZip/Queue/History.antt =====
-- What no history of the queue can undo.
use prompt_pack.Base.{ℕ, ◌≤◌, ◌≡◌, refl, ◌∙◌, some, arith}
use prompt_pack.Base.Lists.{get_elem?}
use prompt_pack.AuditZip.Types.{Config}
use prompt_pack.AuditZip.Storage.{StorageApi}
use prompt_pack.AuditZip.JobState.{JobState, JobQueue}
use prompt_pack.AuditZip.Queue.{canceled_state}
use prompt_pack.AuditZip.Queue.Worker.{Codec}
use prompt_pack.AuditZip.Queue.Fits.{Fits}
use prompt_pack.AuditZip.Queue.Settled.{IsSettled, JobStep-IsSettled, JobStep-progress}
use prompt_pack.AuditZip.Queue.Invariant.{IsValid}
use prompt_pack.AuditZip.Queue.Changes.{
  Change, untouched, by_cancel, by_step, Changed, cancel-Changed, enqueue-Changed,
  retention_step-Changed, worker_step-Changed,
}
use prompt_pack.AuditZip.Queue.Reach.{
  Step, enqueues, cancels, works, retains, Reach, here, next, Reach-IsValid,
}

pub Change-IsSettled :
    (cfg : Config) (st st' : JobState)
    → Fits cfg st
    → IsSettled st.job.status
    → Change cfg st st'
    → st'.job ≡ st.job
Change-IsSettled cfg st st' h d (untouched e _) = e
Change-IsSettled cfg st st' h d (by_cancel now run e) = absurd (ground (arith, d, run))
Change-IsSettled cfg st st' h d (by_step room timer s) = JobStep-IsSettled cfg st h d s

Change-progress :
    (cfg : Config) (st st' : JobState)
    → Fits cfg st
    → Change cfg st st'
    → st.job.progress ≤ st'.job.progress
unfolding canceled_state
Change-progress cfg st st' h (untouched e _) = rw e (omega arith)
Change-progress cfg st st' h (by_cancel now run e) = rw e (ground (arith, h.percent))
Change-progress cfg st st' h (by_step room timer s) = JobStep-progress cfg st h s

module _ {S : Type 0} (api : StorageApi S) (codec : Codec) where
  pub Step-Changed :
      (q : JobQueue S) {q' : JobQueue S} (p : ℕ) (st : JobState)
      → IsValid q
      → get_elem? q.heap p ≡ some st
      → Step api codec q q'
      → Changed p q.cfg st q'.heap
  Step-Changed q p st v own (enqueues now job_id tenant_id key hash req fresh e) =
      rw e (enqueue-Changed q p st own now job_id tenant_id key hash req)
  Step-Changed q p st v own (cancels now tenant_id job_id e) =
      rw e (cancel-Changed q p st own now tenant_id job_id)
  Step-Changed q p st v own (works i m e) = rw e (worker_step-Changed q p st own api codec i m v)
  Step-Changed q p st v own (retains i m e) = rw e (retention_step-Changed q p st own api codec i m)

  module _ (q : JobQueue S) (p : ℕ) (st : JobState) (v : IsValid q)
      (own : get_elem? q.heap p ≡ some st) where
    -- In a valid queue a job that has succeeded or failed is the same job, its result or error and every other field
    -- included, after any interleaving of requests, goroutines and timers.
    pub settled_forever :
        {q' : JobQueue S}
        → IsSettled st.job.status
        → Reach api codec q q'
        → (st' : JobState) × (get_elem? q'.heap p ≡ some st') × (st'.job ≡ st.job)
    settled_forever d here = (st, own, refl)
    settled_forever d (next {r = r} before s) =
        let (x, at, same) = settled_forever d before in
        let w = Reach-IsValid api codec v before in
        let (st', at', c) = Step-Changed r p x w at s in
        (st', at', Change-IsSettled r.cfg x st' (w.fits p x at) (rw same d) c ∙ same)

    -- From a valid queue no interleaving takes a job away or lowers its progress, and the progress stays within 100.
    pub progress_mono :
        {q' : JobQueue S}
        → Reach api codec q q'
        → (st' : JobState) × (get_elem? q'.heap p ≡ some st')
          × (st.job.progress ≤ st'.job.progress)
          × (st'.job.progress ≤ 100)
    progress_mono here = (st, own, omega arith, (v.fits p st own).percent)
    progress_mono (next {r = r} {q' = q'} before s) =
        let (x, at, le, _) = progress_mono before in
        let w = Reach-IsValid api codec v before in
        let (st', at', c) = Step-Changed r p x w at s in
        (
          st',
          at',
          omega (arith, le, Change-progress r.cfg x st' (w.fits p x at) c),
          ((Reach-IsValid api codec v (next before s)).fits p st' at').percent,
        )
