-- ===== src/AuditZip/Queue/Settled.antt =====
-- What a step of a job's life can change: progress only rises, a result or a failure is final, and
-- the goroutine comes to its end.
use prompt_pack.Base.{ℕ, ◌+◌, ◌-◌, ◌*◌, ◌≤◌, ◌<◌, ◌≡◌, ap, ◌⊎◌, inl, inr, Bool, some, arith}
use prompt_pack.Base.Lists.{length}
use prompt_pack.AuditZip.Types.{
  Config, JobError, context_canceled, succeeded, failed, AuditZipJobStatus,
}
use prompt_pack.AuditZip.JobState.{
  JobState, Worker, at_slot, at_start, at_retry_count, at_progress_10, at_wait, at_progress_50,
  at_put, at_progress_90, at_sign, at_complete, at_fail, at_backoff, at_release, finished,
}
use prompt_pack.AuditZip.Queue.Worker.{after_error, mark_started, mark_complete, mark_failed}
use prompt_pack.AuditZip.Queue.Life.{
  JobStep, attempt_of, rank, blocked, take_slot, start, count_retry, proceed, break_off, reach_end,
  complete, fail, try_again, stop, release, Waits,
}
use prompt_pack.AuditZip.Queue.Fits.{Fits, IsLive, attempts, Place-at, Early-at, at_attempt}

-- The job has its result, or has failed.
abbrev pub IsSettled : AuditZipJobStatus → Type 0
IsSettled s = (s ≡ succeeded) ⊎ (s ≡ failed)

not_live : (s : AuditZipJobStatus) → IsSettled s → IsLive s → ⊥
not_live s h l = ground arith

attempt-rank : (w : Worker) (a : ℕ) → attempt_of w ≡ some a → 1 ≤ rank w
attempt-rank (at_progress_10 b) a e = omega arith
attempt-rank (at_wait b) a e = omega arith
attempt-rank (at_progress_50 b) a e = omega arith
attempt-rank (at_put b _ _) a e = omega arith
attempt-rank (at_progress_90 b _) a e = omega arith
attempt-rank (at_sign b _) a e = omega arith
attempt-rank _ a e = absurd (cc)

-- A bound on the steps that a goroutine has before it, blocked ones aside.
abbrev pub budget : Config → Worker → ℕ
budget cfg at_slot = attempts cfg * 13 + 15
budget cfg (at_start _) = attempts cfg * 13 + 14
budget cfg (at_retry_count a) = (attempts cfg - a) * 13 + 13
budget cfg (at_progress_10 a) = (attempts cfg - a) * 13 + 12
budget cfg (at_wait a) = (attempts cfg - a) * 13 + 11
budget cfg (at_progress_50 a) = (attempts cfg - a) * 13 + 10
budget cfg (at_put a objects _) = (attempts cfg - a) * 13 + 6 + length objects
budget cfg (at_progress_90 a _) = (attempts cfg - a) * 13 + 5
budget cfg (at_sign a _) = (attempts cfg - a) * 13 + 4
budget cfg (at_backoff a) = (attempts cfg - a) * 13 + 3
budget cfg (at_complete _ _ _) = 2
budget cfg (at_fail _) = 2
budget cfg at_release = 1
budget cfg finished = 0

budget-attempt :
    (cfg : Config) (w : Worker) (a : ℕ)
    → attempt_of w ≡ some a
    → budget cfg w ≡ (attempts cfg - a) * 13 + 3 + rank w
budget-attempt cfg (at_progress_10 b) a e = ground arith
budget-attempt cfg (at_wait b) a e = ground arith
budget-attempt cfg (at_progress_50 b) a e = ground arith
budget-attempt cfg (at_put b _ _) a e = ground arith
budget-attempt cfg (at_progress_90 b _) a e = ground arith
budget-attempt cfg (at_sign b _) a e = ground arith
budget-attempt cfg _ a e = absurd (cc)

budget-after_error :
    (cfg : Config) (a : ℕ) (e : JobError)
    → budget cfg (after_error cfg a e) ≤ (attempts cfg - a) * 13 + 3
unfolding after_error
budget-after_error cfg a context_canceled = omega arith
budget-after_error cfg a _ = ground arith

module _ (cfg : Config) (st : JobState) (h : Fits cfg st) where
  -- A step never takes progress back.
  pub JobStep-progress :
      {room timer : Bool} {st' : JobState}
      → JobStep cfg room timer st st'
      → st.job.progress ≤ st'.job.progress
  JobStep-progress (blocked waits e) = rw e (omega arith)
  JobStep-progress (take_slot t at e) = rw e (omega arith)
  JobStep-progress (start t at e) =
      rw e (unfold mark_started in omega (arith, Early-at cfg st h (at_start t) at))
  JobStep-progress (count_retry a at e) = rw e (omega arith)
  JobStep-progress (proceed a w job n at at' falls (inl same) e) = rw e (rw same (omega arith))
  JobStep-progress (proceed a w job n at at' falls (inr (k, below, k_le, up)) e) =
      rw e (rw up (omega (arith, below)))
  JobStep-progress (break_off a x at e) = rw e (omega arith)
  JobStep-progress (reach_end a url t size at e) = rw e (omega arith)
  JobStep-progress (complete url now t size at e) = rw e (unfold mark_complete in h.percent)
  JobStep-progress (fail x now at e) = rw e (unfold mark_failed in omega arith)
  JobStep-progress (try_again a at e) = rw e (omega arith)
  JobStep-progress (stop a at done e) = rw e (omega arith)
  JobStep-progress (release at e) = rw e (omega arith)

  -- A job that succeeded or failed is never changed by its goroutine again.
  pub JobStep-IsSettled :
      {room timer : Bool} {st' : JobState}
      → IsSettled st.job.status
      → JobStep cfg room timer st st'
      → st'.job ≡ st.job
  JobStep-IsSettled d (blocked waits e) = rw e
  JobStep-IsSettled d (take_slot t at e) = rw e
  JobStep-IsSettled d (start t at e) = absurd (ground (arith, d, Place-at cfg st h (at_start t) at))
  JobStep-IsSettled d (count_retry a at e) =
      absurd (not_live _ d (Place-at cfg st h (at_retry_count a) at).2)
  JobStep-IsSettled d (proceed a w job n at at' falls raised e) =
      absurd (not_live _ d (at_attempt cfg st h a at).2)
  JobStep-IsSettled d (break_off a x at e) = rw e
  JobStep-IsSettled d (reach_end a url t size at e) = rw e
  JobStep-IsSettled d (complete url now t size at e) =
      absurd (not_live _ d (Place-at cfg st h (at_complete url t size) at))
  JobStep-IsSettled d (fail x now at e) = absurd (not_live _ d (Place-at cfg st h (at_fail x) at))
  JobStep-IsSettled d (try_again a at e) = rw e
  JobStep-IsSettled d (stop a at done e) = rw e
  JobStep-IsSettled d (release at e) = rw e

  -- A step that is not blocked brings the goroutine closer to its end.
  pub JobStep-budget :
      {room timer : Bool} {st' : JobState}
      → JobStep cfg room timer st st'
      → Waits room timer st.worker ⊎ (budget cfg st'.worker < budget cfg st.worker)
  JobStep-budget (blocked waits e) = inl waits
  JobStep-budget (take_slot t at e) = inr (rw e (omega (arith, ap (budget cfg) at)))
  JobStep-budget (start t at e) = inr (rw e (ground (arith, ap (budget cfg) at)))
  JobStep-budget (count_retry a at e) = inr (rw e (omega (arith, ap (budget cfg) at)))
  JobStep-budget (proceed a w job n at at' falls raised e) =
      inr
        (rw e (omega (arith, falls, budget-attempt cfg w a at', budget-attempt cfg st.worker a at)))
  JobStep-budget (break_off a x at e) = inr (
      rw e (
        omega (
          arith,
          budget-after_error cfg a x,
          budget-attempt cfg st.worker a at,
          attempt-rank st.worker a at,
        )))
  JobStep-budget (reach_end a url t size at e) =
      inr (rw e (omega (arith, budget-attempt cfg st.worker a at, attempt-rank st.worker a at)))
  JobStep-budget (complete url now t size at e) = inr (rw e (omega (arith, ap (budget cfg) at)))
  JobStep-budget (fail x now at e) = inr (rw e (omega (arith, ap (budget cfg) at)))
  JobStep-budget (try_again a at e) =
      inr (rw e (omega (arith, ap (budget cfg) at, (Place-at cfg st h (at_backoff a) at).1)))
  JobStep-budget (stop a at done e) = inr (rw e (omega (arith, ap (budget cfg) at)))
  JobStep-budget (release at e) = inr (rw e (omega (arith, ap (budget cfg) at)))
