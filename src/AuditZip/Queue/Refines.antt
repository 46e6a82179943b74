-- ===== src/AuditZip/Queue/Refines.antt =====
-- A step of the goroutine of `Worker`, seen through the queue's maps, is a step in the life of its
-- job.
use prompt_pack.Base.{
  String, ℕ, suc, ◌+◌, ◌-◌, ◌≤◌, ◌≡◌, refl, sym, ap, ◌∙◌, ◌⊎◌, inl, inr, Option, none, some, List,
  [], ◌∷◌, arith, subst,
}
use prompt_pack.Base.Tests.{Bool-cases, if_true, if_false}
use prompt_pack.Base.Lists.{get_elem?}
use prompt_pack.Base.Dict.{find}
use prompt_pack.Base.Int.{pos, ltb_ℤ}
use prompt_pack.AuditZip.Types.{JobError, context_canceled, running, succeeded, failed}
use Prim.Native.String.{len}
use prompt_pack.AuditZip.Storage.{StorageApi, add_duration}
use prompt_pack.AuditZip.JobState.{
  JobState, JobQueue, Worker, Artifact, at_slot, at_start, at_retry_count, at_progress_10, at_wait,
  at_progress_50, at_put, at_progress_90, at_sign, at_complete, at_fail, at_backoff, at_release,
  finished,
}
use prompt_pack.AuditZip.Queue.{set_retry_count}
use prompt_pack.AuditZip.Queue.Worker.{
  Codec, Moment, step_at, worker_step, ctx_err, object_key, payload_of, move_to, put_step,
  or_failed, after_error, artifacts_of, mark_started, mark_complete, mark_failed,
}
use prompt_pack.AuditZip.Queue.Updates.{move_to_own, update_worker_own, update_status_then}
use prompt_pack.AuditZip.Queue.Life.{
  attempt_of, rank, take_slot, start, count_retry, reach_end, complete, fail, try_again, stop,
  release,
}
use prompt_pack.AuditZip.Queue.Stepped.{
  Stepped, holds_slot, stepped, moved, stays, proceeds, breaks, bumps,
}

module _ {S : Type 0} (api : StorageApi S) (codec : Codec) (m : Moment) (q : JobQueue S) (p : ℕ)
    (st : JobState) (own : get_elem? q.heap p ≡ some st) (held : holds_slot st.worker ≤ q.slots)
    (linked : find q.jobs st.job.job_id ≡ some p) where
  slot_step : st.worker ≡ at_slot → Stepped m.timer q p st (step_at api codec q p m st at_slot)
  unfolding step_at
  slot_step e = elim (Bool-cases (ltb_ℤ (pos q.slots) q.cfg.max_concurrent_jobs)) [
    | inl room ↦ rw room (
        stepped m.timer q p st own held (record st { worker = at_start m.now }) q.storage
          (q.slots + 1) (move_to_own (record q { slots = q.slots + 1 }) p st own (at_start m.now))
          (ground (arith, e)) (inr (room, omega arith)) (take_slot m.now e refl))
    | inr full ↦ rw full (stays m.timer q p st own held (ground (arith, e)))
  ]

  wait_step :
      (a : ℕ)
      → st.worker ≡ at_wait a
      → Stepped m.timer q p st (step_at api codec q p m st (at_wait a))
  unfolding step_at
  wait_step a e = elim (Bool-cases m.timer) [
    | inl over ↦ subst (Stepped m.timer q p st) (sym (if_true _ _ over)) (
        proceeds m.timer q p st own held a (at_progress_50 a) q.storage st.job st.retentions
          (move_to_own q p st own (at_progress_50 a)) (ap attempt_of e) refl
          (ground (arith, ap rank e)) (inl refl))
    | inr early ↦ elim (Bool-cases st.ctx_done) [
      | inl done ↦ subst (Stepped m.timer q p st) (sym (if_false _ _ early ∙ if_true _ _ done)) (
          breaks m.timer q p st own held a context_canceled q.storage
            (move_to_own q p st own (after_error q.cfg a context_canceled)) (ap attempt_of e))
      | inr on ↦
          subst (Stepped m.timer q p st) (sym (if_false _ _ early ∙ if_false _ _ on))
            (stays m.timer q p st own held (ground (arith, e)))
    ]
  ]

  backoff_step :
      (a : ℕ)
      → st.worker ≡ at_backoff a
      → Stepped m.timer q p st (step_at api codec q p m st (at_backoff a))
  unfolding step_at
  backoff_step a e = elim (Bool-cases m.timer) [
    | inl over ↦ subst (Stepped m.timer q p st) (sym (if_true _ _ over)) (
        moved m.timer q p st own held (record st { worker = at_retry_count (a + 1) }) q.storage
          (move_to_own q p st own (at_retry_count (a + 1))) (ap holds_slot e) (try_again a e refl))
    | inr early ↦ elim (Bool-cases st.ctx_done) [
      | inl done ↦ subst (Stepped m.timer q p st) (sym (if_false _ _ early ∙ if_true _ _ done)) (
          moved m.timer q p st own held (record st { worker = at_release }) q.storage
            (move_to_own q p st own at_release) (ap holds_slot e) (stop a e done refl))
      | inr on ↦
          subst (Stepped m.timer q p st) (sym (if_false _ _ early ∙ if_false _ _ on))
            (stays m.timer q p st own held (ground (arith, e)))
    ]
  ]

  put_end :
      (a size : ℕ) (objects : List Artifact)
      → st.worker ≡ at_put a objects size
      → Stepped m.timer q p st (put_step api codec q p m st a objects size)
  unfolding put_step
  put_end a size [] e =
      proceeds m.timer q p st own held a (at_progress_90 a size) q.storage st.job
        (suc st.retentions)
        (update_worker_own q p st own
          (λ s. record s { worker = at_progress_90 a size; retentions = suc s.retentions }))
        (ap attempt_of e) refl (ground (arith, ap rank e)) (inl refl)
  put_end a size (o ∷ rest) e =
      let r = api.put_object (ctx_err st) m.now o.key o.body o.content_type q.storage in
      put_result r.0 r.1
    where
      put_result :
          (s : S) (x : Option JobError)
          → Stepped m.timer q p st
              (move_to (record q { storage = s }) p (or_failed q.cfg a x (at_put a rest size)))
      put_result s none =
          unfold or_failed in
          proceeds m.timer q p st own held a (at_put a rest size) s st.job st.retentions
            (move_to_own (record q { storage = s }) p st own (at_put a rest size)) (ap attempt_of e)
            refl (ground (arith, ap rank e)) (inl refl)
      put_result s (some x) =
          unfold or_failed in
          breaks m.timer q p st own held a x s
            (move_to_own (record q { storage = s }) p st own (after_error q.cfg a x))
            (ap attempt_of e)

  sign_step :
      (a size : ℕ)
      → st.worker ≡ at_sign a size
      → Stepped m.timer q p st (step_at api codec q p m st (at_sign a size))
  unfolding step_at
  sign_step a size e =
      sign_result
        (api.get_signed_url m.now (object_key q.cfg st "archive.zip") q.cfg.sign_url_ttl q.storage)
    where
      sign_result :
          (r : JobError ⊎ String)
          → Stepped m.timer q p st (elim r [
            | inl x ↦ move_to q p (after_error q.cfg a x)
            | inr url ↦ move_to q p (at_complete url (add_duration m.now q.cfg.sign_url_ttl) size)
          ])
      sign_result (inl x) =
          breaks m.timer q p st own held a x q.storage
            (move_to_own q p st own (after_error q.cfg a x)) (ap attempt_of e)
      sign_result (inr url) =
          let t = add_duration m.now q.cfg.sign_url_ttl in
          moved m.timer q p st own held (record st { worker = at_complete url t size }) q.storage
            (move_to_own q p st own (at_complete url t size)) (ap holds_slot e)
            (reach_end a url t size (ap attempt_of e) refl)

  step_at-Stepped :
      (w : Worker) → st.worker ≡ w → Stepped m.timer q p st (step_at api codec q p m st w)
  unfolding step_at set_retry_count
  step_at-Stepped at_slot e = slot_step e
  step_at-Stepped (at_start t) e =
      moved m.timer q p st own held _ q.storage
        (update_status_then q p st own linked running (mark_started t) (at_retry_count 1))
        (ap holds_slot e) (start t e refl)
  step_at-Stepped (at_retry_count a) e =
      moved m.timer q p st own held _ q.storage
        (update_status_then q p st own linked running (λ job. record job { retry_count = a - 1 })
          (at_progress_10 a))
        (ap holds_slot e) (count_retry a e refl)
  step_at-Stepped (at_progress_10 a) e =
      bumps m.timer q p st own held linked a 10 (at_wait a) (omega arith) (ap attempt_of e) refl
        (ground (arith, ap rank e))
  step_at-Stepped (at_wait a) e = wait_step a e
  step_at-Stepped (at_progress_50 a) e =
      bumps m.timer q p st own held linked a 50
        (at_put a (artifacts_of codec q.cfg st) (len (payload_of codec st.request))) (omega arith)
        (ap attempt_of e) refl (unfold artifacts_of in ground (arith, ap rank e))
  step_at-Stepped (at_put a objects size) e = put_end a size objects e
  step_at-Stepped (at_progress_90 a size) e =
      bumps m.timer q p st own held linked a 90 (at_sign a size) (omega arith) (ap attempt_of e)
        refl (ground (arith, ap rank e))
  step_at-Stepped (at_sign a size) e = sign_step a size e
  step_at-Stepped (at_complete url t size) e =
      moved m.timer q p st own held _ q.storage
        (update_status_then q p st own linked succeeded (mark_complete m.now url t size) at_release)
        (ap holds_slot e) (complete url m.now t size e refl)
  step_at-Stepped (at_fail x) e =
      moved m.timer q p st own held _ q.storage
        (update_status_then q p st own linked failed (mark_failed m.now x) at_release)
        (ap holds_slot e) (fail x m.now e refl)
  step_at-Stepped (at_backoff a) e = backoff_step a e
  step_at-Stepped at_release e =
      stepped m.timer q p st own held (record st { worker = finished }) q.storage (q.slots - 1)
        (move_to_own (record q { slots = q.slots - 1 }) p st own finished)
        (ground (arith, ap holds_slot e, held)) (inl (omega arith)) (release e refl)
  step_at-Stepped finished e = stays m.timer q p st own held (ground (arith, e))

  -- Where the job's id leads to its state and the slot that the goroutine holds is counted, one step
  -- of the goroutine is one step of the job's abstract life, or none: it writes
  -- the state of that job alone, changes no map, and takes or returns at most one worker slot.
  pub worker_step-Stepped : Stepped m.timer q p st (worker_step api codec q p m)
  unfolding worker_step
  worker_step-Stepped = rw (own, worker_step) (step_at-Stepped st.worker refl)
