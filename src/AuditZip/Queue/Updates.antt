-- ===== src/AuditZip/Queue/Updates.antt =====
-- What the queue's updates do to the state of the job whose id they are given.
use prompt_pack.Base.{ℕ, Option, none, some, ◌≡◌, ap, ◌∙◌, arith}
use prompt_pack.Base.Lists.{get_elem?, set, set-set, get_elem?-set_self}
use prompt_pack.Base.Dict.{find, put_found}
use prompt_pack.AuditZip.Types.{AuditZipJob, AuditZipJobStatus, JobError}
use prompt_pack.AuditZip.JobState.{JobState, JobQueue, Worker}
use prompt_pack.AuditZip.Queue.{update_with_err, update_status, bump_progress, bump}
use prompt_pack.AuditZip.Queue.Worker.{update_worker, move_to}

module _ {S : Type 0} (q : JobQueue S) (p : ℕ) (st : JobState)
    (own : get_elem? q.heap p ≡ some st) where
  -- A step of the goroutine alone.
  pub update_worker_own :
      (f : JobState → JobState) → update_worker q p f ≡ record q { heap = set q.heap p (f st) }
  unfolding update_worker
  update_worker_own f = ground (arith, own)

  pub move_to_own :
      (w : Worker) → move_to q p w ≡ record q { heap = set q.heap p (record st { worker = w }) }
  unfolding move_to
  move_to_own w = update_worker_own (λ s. record s { worker = w })

  -- A write of the job's state, and then a step of the goroutine.
  move_to_written :
      (s : JobState) (w : Worker)
      → move_to (record q { heap = set q.heap p s }) p w
        ≡ record q { heap = set q.heap p (record s { worker = w }) }
  unfolding move_to update_worker
  move_to_written s w =
      ground
        (arith, get_elem?-set_self q.heap p st s own, set-set q.heap p s (record s { worker = w }))

  module _ (linked : find q.jobs st.job.job_id ≡ some p) where
    pub update_with_err_own :
        (f : AuditZipJob → Option JobError × AuditZipJob)
        → update_with_err q st.job.job_id f
          ≡ (record q { heap = set q.heap p (record st { job = (f st.job).1 }) }, (f st.job).0)
    unfolding update_with_err
    update_with_err_own f = ground (arith, own, linked, put_found q.jobs st.job.job_id p)

    -- An update under the lock, and then a step of the goroutine.
    pub update_status_then :
        (status : AuditZipJobStatus) (f : AuditZipJob → AuditZipJob) (w : Worker)
        → move_to (update_status q st.job.job_id status f) p w ≡ record q {
          heap =
              set q.heap p
                (record st { job = f (record (st.job) { status = status }); worker = w });
        }
    unfolding update_status
    update_status_then status f w =
        ap (λ (r : JobQueue S × Option JobError). move_to r.0 p w)
          (update_with_err_own (λ job. (none, f (record job { status = status }))))
        ∙ move_to_written (record st { job = f (record (st.job) { status = status }) }) w

    pub bump_then :
        (k : ℕ) (w : Worker)
        → move_to (bump_progress q st.job.job_id k).0 p w
          ≡ record q { heap = set q.heap p (record st { job = (bump k st.job).1; worker = w }) }
    unfolding bump_progress
    bump_then k w =
        ap (λ (r : JobQueue S × Option JobError). move_to r.0 p w) (update_with_err_own (bump k))
        ∙ move_to_written (record st { job = (bump k st.job).1 }) w

    pub bump_error : (k : ℕ) → (bump_progress q st.job.job_id k).1 ≡ (bump k st.job).0
    unfolding bump_progress
    bump_error k = ap (λ (r : JobQueue S × Option JobError). r.1) (update_with_err_own (bump k))
