-- ===== src/AuditZip/Queue/Fits.antt =====
-- What holds of one job at every point of its life, and what a step of its life can change.
use prompt_pack.Base.{ℕ, suc, ◌≤◌, ◌≡◌, ◌≢◌, refl, subst, ◌⊎◌, inl, inr, Bool, some, arith}
use prompt_pack.Base.Tests.{if◌then◌else◌, ltb}
use prompt_pack.Base.Int.{pos_part}
use prompt_pack.AuditZip.Types.{
  Time, Config, AuditZipJob, JobError, context_canceled, running, canceled, queued,
  AuditZipJobStatus,
}
use prompt_pack.AuditZip.JobState.{
  JobState, min_int, Worker, at_slot, at_start, at_retry_count, at_progress_10, at_wait,
  at_progress_50, at_put, at_progress_90, at_sign, at_complete, at_fail, at_backoff, at_release,
  finished,
}
use prompt_pack.AuditZip.Queue.{canceled_state}
use prompt_pack.AuditZip.Queue.Worker.{after_error, mark_started, mark_complete, mark_failed}
use prompt_pack.AuditZip.Queue.Life.{
  JobStep, Raised, attempt_of, blocked, take_slot, start, count_retry, proceed, break_off,
  reach_end, complete, fail, try_again, stop, release,
}

-- The number of attempts that `runJob` makes at most: it always makes one.
abbrev pub attempts : Config → ℕ
attempts cfg = if ltb 1 (pos_part cfg.max_retries) then pos_part cfg.max_retries else 1

-- Running, or canceled while it ran.
abbrev pub IsLive : AuditZipJobStatus → Type 0
IsLive s = (s ≡ running) ⊎ (s ≡ canceled)

-- The statuses that go with each place of the goroutine, and the bounds on its attempts.
abbrev pub Place : Config → Worker → AuditZipJobStatus → Type 0
Place cfg at_slot s = s ≡ queued
Place cfg (at_start _) s = s ≡ queued
Place cfg (at_retry_count a) s = (1 ≤ a) × (a ≤ attempts cfg) × IsLive s
Place cfg (at_progress_10 a) s = (1 ≤ a) × (a ≤ attempts cfg) × IsLive s
Place cfg (at_wait a) s = (1 ≤ a) × (a ≤ attempts cfg) × IsLive s
Place cfg (at_progress_50 a) s = (1 ≤ a) × (a ≤ attempts cfg) × IsLive s
Place cfg (at_put a _ _) s = (1 ≤ a) × (a ≤ attempts cfg) × IsLive s
Place cfg (at_progress_90 a _) s = (1 ≤ a) × (a ≤ attempts cfg) × IsLive s
Place cfg (at_sign a _) s = (1 ≤ a) × (a ≤ attempts cfg) × IsLive s
Place cfg (at_backoff a) s = (1 ≤ a) × (suc a ≤ attempts cfg) × IsLive s
Place cfg (at_complete _ _ _) s = IsLive s
Place cfg (at_fail _) s = IsLive s
Place cfg at_release s = s ≢ queued
Place cfg finished s = s ≢ queued

abbrev Early : Worker → ℕ → Type 0
Early at_slot n = n ≡ 0
Early (at_start _) n = n ≡ 0
Early _ n = Unit

pub record Fits (cfg : Config) (st : JobState) : Type 0 where
  pub place : Place cfg st.worker st.job.status
  pub percent : st.job.progress ≤ 100
  pub unstarted : Early st.worker st.job.progress
  pub retries : suc st.job.retry_count ≤ attempts cfg

-- The place of a goroutine in `processJob`.
Place-attempt :
    (cfg : Config) (w : Worker) (s : AuditZipJobStatus) (a : ℕ)
    → attempt_of w ≡ some a
    → Place cfg w s
    → (1 ≤ a) × (a ≤ attempts cfg) × IsLive s
Place-attempt cfg (at_progress_10 b) s a e h = ground arith
Place-attempt cfg (at_wait b) s a e h = ground arith
Place-attempt cfg (at_progress_50 b) s a e h = ground arith
Place-attempt cfg (at_put b _ _) s a e h = ground arith
Place-attempt cfg (at_progress_90 b _) s a e h = ground arith
Place-attempt cfg (at_sign b _) s a e h = ground arith
Place-attempt cfg _ s a e h = absurd (cc)

attempt-Place :
    (cfg : Config) (w : Worker) (s : AuditZipJobStatus) (a : ℕ)
    → attempt_of w ≡ some a
    → (1 ≤ a) × (a ≤ attempts cfg) × IsLive s
    → Place cfg w s
attempt-Place cfg (at_progress_10 b) s a e h = ground arith
attempt-Place cfg (at_wait b) s a e h = ground arith
attempt-Place cfg (at_progress_50 b) s a e h = ground arith
attempt-Place cfg (at_put b _ _) s a e h = ground arith
attempt-Place cfg (at_progress_90 b _) s a e h = ground arith
attempt-Place cfg (at_sign b _) s a e h = ground arith
attempt-Place cfg _ s a e h = absurd (cc)

attempt-Early : (w : Worker) (n a : ℕ) → attempt_of w ≡ some a → Early w n
attempt-Early at_slot n a e = absurd (cc)
attempt-Early (at_start _) n a e = absurd (cc)
attempt-Early _ n a e = tt

after_error-Place :
    (cfg : Config) (e : JobError) (s : AuditZipJobStatus) (a : ℕ)
    → (1 ≤ a) × (a ≤ attempts cfg) × IsLive s
    → Place cfg (after_error cfg a e) s
unfolding after_error
after_error-Place cfg context_canceled s a h = ground arith
after_error-Place cfg _ s a h = ground arith

after_error-Early : (cfg : Config) (e : JobError) (n a : ℕ) → Early (after_error cfg a e) n
unfolding after_error
after_error-Early cfg context_canceled n a = tt
after_error-Early cfg _ n a = ground arith

module _ (cfg : Config) (st : JobState) (h : Fits cfg st) where
  pub Place-at : (w : Worker) → st.worker ≡ w → Place cfg w st.job.status
  Place-at w e = subst (λ w. Place cfg w st.job.status) e h.place

  pub Early-at : (w : Worker) → st.worker ≡ w → Early w st.job.progress
  Early-at w e = subst (λ w. Early w st.job.progress) e h.unstarted

  pub at_attempt :
      (a : ℕ) → attempt_of st.worker ≡ some a → (1 ≤ a) × (a ≤ attempts cfg) × IsLive st.job.status
  at_attempt a e = Place-attempt cfg st.worker st.job.status a e h.place

  Raised-Fits :
      (a : ℕ) (w : Worker) (job : AuditZipJob) (n : ℕ)
      → attempt_of st.worker ≡ some a
      → attempt_of w ≡ some a
      → Raised st.job job
      → Fits cfg (record st { job = job; worker = w; retentions = n })
  Raised-Fits a w job n at at' (inl same) = rw same (record {
    place = attempt-Place cfg w st.job.status a at' (at_attempt a at);
    percent = h.percent;
    unstarted = attempt-Early w st.job.progress a at';
    retries = h.retries;
  })
  Raised-Fits a w job n at at' (inr (k, below, k_le, up)) = rw up (record {
    place = attempt-Place cfg w st.job.status a at' (at_attempt a at);
    percent = k_le;
    unstarted = attempt-Early w k a at';
    retries = h.retries;
  })

  -- Every step of a job's life keeps the statuses in line with the goroutine's place, the progress
  -- within 100, and the retries below the limit.
  pub JobStep-Fits :
      {room timer : Bool} {st' : JobState} → JobStep cfg room timer st st' → Fits cfg st'
  JobStep-Fits (blocked waits e) = rw e h
  JobStep-Fits (take_slot t at e) = rw e (record {
    place = Place-at at_slot at;
    percent = h.percent;
    unstarted = Early-at at_slot at;
    retries = h.retries;
  })
  JobStep-Fits (start t at e) = rw e (
      unfold mark_started in
      record {
        place = (omega arith, ground arith, inl refl);
        percent = omega arith;
        unstarted = tt;
        retries = h.retries;
      })
  JobStep-Fits (count_retry a at e) =
      let b = Place-at (at_retry_count a) at in
      rw e (record {
        place = (b.0, b.1, inl refl);
        percent = h.percent;
        unstarted = tt;
        retries = omega (arith, b.0, b.1);
      })
  JobStep-Fits (proceed a w job n at at' falls raised e) =
      rw e (Raised-Fits a w job n at at' raised)
  JobStep-Fits (break_off a x at e) = rw e (record {
    place = after_error-Place cfg x st.job.status a (at_attempt a at);
    percent = h.percent;
    unstarted = after_error-Early cfg x st.job.progress a;
    retries = h.retries;
  })
  JobStep-Fits (reach_end a url t size at e) = rw e (record {
    place = (at_attempt a at).2;
    percent = h.percent;
    unstarted = tt;
    retries = h.retries;
  })
  JobStep-Fits (complete url now t size at e) = rw e (
      unfold mark_complete in
      record { place = λ x. cc; percent = omega arith; unstarted = tt; retries = h.retries })
  JobStep-Fits (fail x now at e) = rw e (
      unfold mark_failed in
      record { place = λ x. cc; percent = h.percent; unstarted = tt; retries = h.retries })
  JobStep-Fits (try_again a at e) =
      let b = Place-at (at_backoff a) at in
      rw e (record {
        place = (omega arith, omega (arith, b.1), b.2);
        percent = h.percent;
        unstarted = tt;
        retries = h.retries;
      })
  JobStep-Fits (stop a at done e) =
      let b = Place-at (at_backoff a) at in
      rw e (record {
        place = λ x. ground (arith, b.2, x);
        percent = h.percent;
        unstarted = tt;
        retries = h.retries;
      })
  JobStep-Fits (release at e) = rw e (record {
    place = Place-at at_release at;
    percent = h.percent;
    unstarted = tt;
    retries = h.retries;
  })

  -- `Cancel` succeeds on a running job, and keeps it in line too.
  pub canceled_state-Fits :
      (now : Time) → st.job.status ≡ running → Fits cfg (canceled_state now st)
  unfolding canceled_state
  canceled_state-Fits now run = record {
    place = canceled_place st.worker refl;
    percent = ground (arith, h.percent);
    unstarted = canceled_early st.worker refl;
    retries = h.retries;
  }
    where
      canceled_place : (w : Worker) → st.worker ≡ w → Place cfg w canceled
      canceled_place at_slot e = absurd (cc (Place-at at_slot e))
      canceled_place (at_start t) e = absurd (cc (Place-at (at_start t) e))
      canceled_place (at_retry_count a) e =
          let b = Place-at (at_retry_count a) e in (b.0, b.1, inr refl)
      canceled_place (at_progress_10 a) e =
          let b = Place-at (at_progress_10 a) e in (b.0, b.1, inr refl)
      canceled_place (at_wait a) e = let b = Place-at (at_wait a) e in (b.0, b.1, inr refl)
      canceled_place (at_progress_50 a) e =
          let b = Place-at (at_progress_50 a) e in (b.0, b.1, inr refl)
      canceled_place (at_put a o n) e = let b = Place-at (at_put a o n) e in (b.0, b.1, inr refl)
      canceled_place (at_progress_90 a n) e =
          let b = Place-at (at_progress_90 a n) e in (b.0, b.1, inr refl)
      canceled_place (at_sign a n) e = let b = Place-at (at_sign a n) e in (b.0, b.1, inr refl)
      canceled_place (at_backoff a) e = let b = Place-at (at_backoff a) e in (b.0, b.1, inr refl)
      canceled_place (at_complete _ _ _) e = inr refl
      canceled_place (at_fail _) e = inr refl
      canceled_place at_release e = λ x. cc
      canceled_place finished e = λ x. cc

      canceled_early : (w : Worker) → st.worker ≡ w → Early w (min_int 100 st.job.progress)
      canceled_early at_slot e = absurd (cc (Place-at at_slot e))
      canceled_early (at_start t) e = absurd (cc (Place-at (at_start t) e))
      canceled_early _ e = tt
