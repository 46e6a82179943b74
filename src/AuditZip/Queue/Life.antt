-- ===== src/AuditZip/Queue/Life.antt =====
-- The life of one job, as an abstract machine over its state alone: no maps, no lock, no storage.
-- `Worker` refines it.
use prompt_pack.Base.{
  String, ℕ, ◌+◌, ◌-◌, ◌≤◌, ◌<◌, ◌≡◌, ◌⊎◌, Bool, true, false, Option, none, some,
}
use prompt_pack.Base.Lists.{length}
use prompt_pack.AuditZip.Types.{Time, Config, AuditZipJob, JobError, running, succeeded, failed}
use prompt_pack.AuditZip.JobState.{
  JobState, Worker, at_slot, at_start, at_retry_count, at_progress_10, at_wait, at_progress_50,
  at_put, at_progress_90, at_sign, at_complete, at_fail, at_backoff, at_release, finished,
}
use prompt_pack.AuditZip.Queue.Worker.{after_error, mark_started, mark_complete, mark_failed}

-- The attempt in which `processJob` runs.
abbrev pub attempt_of : Worker → Option ℕ
attempt_of (at_progress_10 a) = some a
attempt_of (at_wait a) = some a
attempt_of (at_progress_50 a) = some a
attempt_of (at_put a _ _) = some a
attempt_of (at_progress_90 a _) = some a
attempt_of (at_sign a _) = some a
attempt_of _ = none

-- How far from its end `processJob` is.
abbrev pub rank : Worker → ℕ
rank (at_progress_10 a) = 9
rank (at_wait a) = 8
rank (at_progress_50 a) = 7
rank (at_put a objects _) = 3 + length objects
rank (at_progress_90 a _) = 2
rank (at_sign a _) = 1
rank _ = 0

-- A bump leaves the job as it was, or raises the progress of a job that is not canceled.
abbrev pub Raised : AuditZipJob → AuditZipJob → Type 0
Raised job job' =
    (job' ≡ job) ⊎ ((k : ℕ) × (job.progress < k) × (k ≤ 100) × (job' ≡ record job { progress = k }))

-- What a blocked goroutine waits for: a slot, a timer, or nothing more.
abbrev pub Waits : (room timer : Bool) → Worker → Type 0
Waits room timer at_slot = room ≡ false
Waits room timer (at_wait _) = timer ≡ false
Waits room timer (at_backoff _) = timer ≡ false
Waits room timer finished = Unit
Waits room timer _ = ⊥

-- `room`: a worker slot is free. `timer`: the timer's branch of a `select` is taken.
pub data JobStep (cfg : Config) (room timer : Bool) (st st' : JobState) : Type 0 where
  blocked : Waits room timer st.worker → st' ≡ st → JobStep cfg room timer st st'
  take_slot :
      (t : Time)
      → st.worker ≡ at_slot
      → st' ≡ record st { worker = at_start t }
      → JobStep cfg room timer st st'
  start :
      (t : Time)
      → st.worker ≡ at_start t
      → st' ≡ record st {
        job = mark_started t (record (st.job) { status = running });
        worker = at_retry_count 1;
      }
      → JobStep cfg room timer st st'
  count_retry :
      (a : ℕ)
      → st.worker ≡ at_retry_count a
      → st' ≡ record st {
        job = record (st.job) { status = running; retry_count = a - 1 };
        worker = at_progress_10 a;
      }
      → JobStep cfg room timer st st'
  proceed :
      (a : ℕ) (w : Worker) (job : AuditZipJob) (n : ℕ)
      → attempt_of st.worker ≡ some a
      → attempt_of w ≡ some a
      → rank w < rank st.worker
      → Raised st.job job
      → st' ≡ record st { job = job; worker = w; retentions = n }
      → JobStep cfg room timer st st'
  break_off :
      (a : ℕ) (e : JobError)
      → attempt_of st.worker ≡ some a
      → st' ≡ record st { worker = after_error cfg a e }
      → JobStep cfg room timer st st'
  reach_end :
      (a : ℕ) (url : String) (t : Time) (size : ℕ)
      → attempt_of st.worker ≡ some a
      → st' ≡ record st { worker = at_complete url t size }
      → JobStep cfg room timer st st'
  complete :
      (url : String) (now t : Time) (size : ℕ)
      → st.worker ≡ at_complete url t size
      → st' ≡ record st {
        job = mark_complete now url t size (record (st.job) { status = succeeded });
        worker = at_release;
      }
      → JobStep cfg room timer st st'
  fail :
      (e : JobError) (now : Time)
      → st.worker ≡ at_fail e
      → st' ≡ record st {
        job = mark_failed now e (record (st.job) { status = failed });
        worker = at_release;
      }
      → JobStep cfg room timer st st'
  try_again :
      (a : ℕ)
      → st.worker ≡ at_backoff a
      → st' ≡ record st { worker = at_retry_count (a + 1) }
      → JobStep cfg room timer st st'
  stop :
      (a : ℕ)
      → st.worker ≡ at_backoff a
      → st.ctx_done ≡ true
      → st' ≡ record st { worker = at_release }
      → JobStep cfg room timer st st'
  release :
      st.worker ≡ at_release → st' ≡ record st { worker = finished } → JobStep cfg room timer st st'
