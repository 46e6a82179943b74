-- ===== src/AuditZip/Queue/Cancellation.antt =====
-- `Cancel`: whom it serves, what it leaves, and when the goroutine of the job undoes it.
pub mod Tests
use prompt_pack.Base.{
  ℕ, String, ◌≡◌, refl, ap, subst, ◌∙◌, ◌≢◌, inl, inr, Bool, false, some, List, arith, ◌==◌, eq_iff,
}
use prompt_pack.Base.Lists.{get_elem?, set, get_elem?-set_self}
use prompt_pack.Base.Dict.{find, put_found}
use prompt_pack.AuditZip.Types.{
  Time, Config, AuditZipJob, AuditZipJobStatus, conflict, not_found, not_cancelable, running,
  canceled, queued, succeeded, failed,
}
use prompt_pack.AuditZip.Storage.{StorageApi}
use prompt_pack.AuditZip.JobState.{
  JobState, JobQueue, Reply, ok, err, ok_err, is_running, Worker, at_slot, at_start, at_retry_count,
  at_complete, at_fail, at_backoff, at_release,
}
use prompt_pack.AuditZip.Queue.{cancel, cancel_at, canceled_state}
use prompt_pack.AuditZip.Queue.Worker.{Codec, Moment, worker_step, mark_complete, mark_failed}
use prompt_pack.AuditZip.Queue.Life.{
  JobStep, Waits, attempt_of, blocked, take_slot, start, count_retry, proceed, break_off, reach_end,
  complete, fail, try_again, stop, release,
}
use prompt_pack.AuditZip.Queue.Refines.{worker_step-Stepped}
use prompt_pack.AuditZip.Queue.Fits.{Fits, Place-at, canceled_state-Fits}
use prompt_pack.AuditZip.Queue.Invariant.{IsValid, holds-le-held}
use prompt_pack.AuditZip.Queue.Preserve.{cancel-IsValid}

module _ {S : Type 0} (q : JobQueue S) (now : Time) (tenant_id job_id : String) (p : ℕ)
    (st : JobState) (at : find q.jobs job_id ≡ some p) (own : get_elem? q.heap p ≡ some st) where
  -- To a tenant that does not own the job, `Cancel` answers as if there were no such job, and
  -- changes nothing.
  pub cancel_foreign : st.tenant_id ≢ tenant_id → cancel q now tenant_id job_id ≡ (q, err not_found)
  unfolding cancel cancel_at
  cancel_foreign ne =
      let miss : (st.tenant_id == tenant_id) ≡ false =
        ground (arith, eq_iff st.tenant_id tenant_id, λ (e : st.tenant_id ≡ tenant_id). ne e) in
      ground (arith, at, own, miss)

  -- To its owner, of a job that runs, it returns the job as canceled, with the error and the time of
  -- the cancellation, and the queue differs from before in the state of that job only.
  pub cancel_running :
      st.tenant_id ≡ tenant_id
      → st.job.status ≡ running
      → cancel q now tenant_id job_id
        ≡ (record q { heap = set q.heap p (canceled_state now st) }, ok (canceled_state now st).job)
  unfolding cancel cancel_at
  cancel_running mine run =
      ground (arith, at, own, eq_iff st.tenant_id tenant_id, mine, run, put_found q.jobs job_id p)

  -- To its owner, of a job that does not run, it returns the job and a conflict, and changes nothing.
  pub cancel_not_running :
      st.tenant_id ≡ tenant_id
      → st.job.status ≢ running
      → cancel q now tenant_id job_id ≡ (q, ok_err st.job (conflict not_cancelable job_id))
  unfolding cancel cancel_at
  cancel_not_running mine ne =
      ground (arith, at, own, eq_iff st.tenant_id tenant_id, mine, not_running st.job.status ne)
    where
      not_running : (s : AuditZipJobStatus) → s ≢ running → is_running s ≡ false
      not_running running ne = absurd (ne refl)
      not_running queued ne = refl
      not_running succeeded ne = refl
      not_running failed ne = refl
      not_running canceled ne = refl

-- The places of the goroutine whose next step writes the status without looking at it.
abbrev pub Overwrites : Worker → Type 0
Overwrites (at_retry_count _) = Unit
Overwrites (at_complete _ _ _) = Unit
Overwrites (at_fail _) = Unit
Overwrites _ = ⊥

module _ (cfg : Config) (st : JobState) (h : Fits cfg st) (gone : st.job.status ≡ canceled) where
  Overwrites-at : (w : Worker) → st.worker ≡ w → ¬ Overwrites st.worker → ¬ Overwrites w
  Overwrites-at w e no' = subst (λ x. ¬ Overwrites x) e no'

  -- A step of a canceled job's life from any other place leaves it canceled.
  pub canceled_kept :
      {room timer : Bool} {st' : JobState}
      → ¬ Overwrites st.worker
      → JobStep cfg room timer st st'
      → st'.job.status ≡ canceled
  canceled_kept other (blocked waits e) = rw e gone
  canceled_kept other (take_slot t at e) = rw e gone
  canceled_kept other (start t at e) = absurd (cc (Place-at cfg st h (at_start t) at))
  canceled_kept other (count_retry a at e) = absurd (Overwrites-at (at_retry_count a) at other tt)
  canceled_kept other (proceed a w job n at at' falls (inl same) e) =
      rw e (ap (λ (j : AuditZipJob). j.status) same ∙ gone)
  canceled_kept other (proceed a w job n at at' falls (inr (k, below, k_le, up)) e) =
      rw e (ap (λ (j : AuditZipJob). j.status) up ∙ gone)
  canceled_kept other (break_off a x at e) = rw e gone
  canceled_kept other (reach_end a url t size at e) = rw e gone
  canceled_kept other (complete url now t size at e) =
      absurd (Overwrites-at (at_complete url t size) at other tt)
  canceled_kept other (fail x now at e) = absurd (Overwrites-at (at_fail x) at other tt)
  canceled_kept other (try_again a at e) = rw e gone
  canceled_kept other (stop a at done e) = rw e gone
  canceled_kept other (release at e) = rw e gone

Waits-Overwrites : (room timer : Bool) (w : Worker) → Waits room timer w → Overwrites w → ⊥
Waits-Overwrites room timer (at_retry_count _) h o = h
Waits-Overwrites room timer (at_complete _ _ _) h o = h
Waits-Overwrites room timer (at_fail _) h o = h
Waits-Overwrites room timer _ h o = o

attempt-Overwrites : (w : Worker) (a : ℕ) → attempt_of w ≡ some a → Overwrites w → ⊥
attempt-Overwrites (at_retry_count _) a e o = cc e
attempt-Overwrites (at_complete _ _ _) a e o = cc e
attempt-Overwrites (at_fail _) a e o = cc e
attempt-Overwrites _ a e o = o

module _ (cfg : Config) (st : JobState) (o : Overwrites st.worker) where
  over_at : (w : Worker) → st.worker ≡ w → Overwrites w
  over_at w e = subst Overwrites e o

  -- From those places the status is overwritten.
  pub overwritten :
      {room timer : Bool} {st' : JobState}
      → JobStep cfg room timer st st'
      → st'.job.status ≢ canceled
  unfolding mark_complete mark_failed
  overwritten {room} {timer} (blocked waits e) =
      absurd (Waits-Overwrites room timer st.worker waits o)
  overwritten (take_slot t at e) = absurd (over_at at_slot at)
  overwritten (start t at e) = absurd (over_at (at_start t) at)
  overwritten (count_retry a at e) = rw e (λ x. cc)
  overwritten (proceed a w job n at at' falls raised e) =
      absurd (attempt-Overwrites st.worker a at o)
  overwritten (break_off a x at e) = absurd (attempt-Overwrites st.worker a at o)
  overwritten (reach_end a url t size at e) = absurd (attempt-Overwrites st.worker a at o)
  overwritten (complete url now t size at e) = rw e (λ x. cc)
  overwritten (fail x now at e) = rw e (λ y. cc)
  overwritten (try_again a at e) = absurd (over_at (at_backoff a) at)
  overwritten (stop a at done e) = absurd (over_at (at_backoff a) at)
  overwritten (release at e) = absurd (over_at at_release at)

module _ {S : Type 0} (api : StorageApi S) (codec : Codec) (q : JobQueue S) (now : Time)
    (tenant_id job_id : String) (p : ℕ) (st : JobState) (v : IsValid q)
    (at : find q.jobs job_id ≡ some p) (own : get_elem? q.heap p ≡ some st)
    (mine : st.tenant_id ≡ tenant_id) (run : st.job.status ≡ running) where
  -- What the goroutine's next step after a `Cancel` that succeeded makes of the job.
  abbrev AfterCancel : Moment → (AuditZipJobStatus → Type 0) → Type 0
  AfterCancel m P =
      (st' : JobState) × (get_elem?
          (worker_step api codec (cancel q now tenant_id job_id).0 p m).heap p
        ≡ some st')
      × P st'.job.status

  after_cancel :
      (m : Moment) (P : AuditZipJobStatus → Type 0)
      → ((room timer : Bool) (st' : JobState)
          → JobStep q.cfg room timer (canceled_state now st) st'
          → P st'.job.status)
      → AfterCancel m P
  after_cancel m P step =
      let e = cancel_running q now tenant_id job_id p st at own mine run in
      let q₁ = record q { heap = set q.heap p (canceled_state now st) } in
      let v₁ : IsValid q₁ =
        subst IsValid (ap (λ (r : JobQueue S × Reply). r.0) e)
          (cancel-IsValid q v now tenant_id job_id) in
      let own₁ = get_elem?-set_self q.heap p st (canceled_state now st) own in
      let s =
        worker_step-Stepped api codec m q₁ p (canceled_state now st) own₁
          (omega (arith, v₁.balanced, holds-le-held q₁.heap p (canceled_state now st) own₁))
          (v₁.linked p (canceled_state now st) own₁) in
      (
        s.after,
        ap (λ (r : JobQueue S × Reply). get_elem? (worker_step api codec r.0 p m).heap p) e
            ∙ ap (λ (h : List JobState). get_elem? h p) s.heap
            ∙ get_elem?-set_self q₁.heap p (canceled_state now st) s.after own₁,
        step _ _ s.after s.step,
      )

  -- In a valid queue, after `Cancel` by its owner of a running job, the next step of its goroutine
  -- from every other place leaves the job canceled.
  pub cancel_kept :
      (m : Moment)
      → ¬ Overwrites st.worker
      → ((cancel q now tenant_id job_id).1 ≡ ok (canceled_state now st).job)
        × AfterCancel m (λ s. s ≡ canceled)
  cancel_kept m o =
      let e = cancel_running q now tenant_id job_id p st at own mine run in
      (
        ap (λ (r : JobQueue S × Reply). r.1) e,
        after_cancel m (λ s. s ≡ canceled)
            (λ r t x.
              canceled_kept q.cfg (canceled_state now st)
                (canceled_state-Fits q.cfg st (v.fits p st own) now run)
                (unfold canceled_state in refl) (unfold canceled_state in o)),
      )
