-- ===== src/AuditZip/Queue/Worker.antt =====
-- apps/api/internal/auditzip/queue.go: `runJob` with `processJob`, `persistArtifacts`,
-- `completeJob` and `failJob`, as a machine that takes one step for each stretch of code that other
-- goroutines cannot interrupt.
use Prim.Native.String.{len}
use prompt_pack.Base.{
  ℕ, zero, suc, ◌+◌, ◌-◌, String, ◌&◌, Bool, true, false, Option, none, some, inl, inr, List, [],
  ◌∷◌,
}
use prompt_pack.Base.Tests.{if◌then◌else◌}
use prompt_pack.Base.Lists.{get_elem?, set}
use prompt_pack.Base.Int.{pos, ltb_ℤ, leb_ℤ}
use prompt_pack.AuditZip.Types.{
  Time, Date, Config, AuditZipJob, AuditZipRequest, JobError, context_canceled, job_missing,
  storage_failed, running, succeeded, failed,
}
use prompt_pack.AuditZip.Storage.{StorageApi, add_duration}
use prompt_pack.AuditZip.JobState.{
  JobState, JobQueue, Artifact, Worker, at_slot, at_start, at_retry_count, at_progress_10, at_wait,
  at_progress_50, at_put, at_progress_90, at_sign, at_complete, at_fail, at_backoff, at_release,
  finished,
}
use prompt_pack.AuditZip.Queue.{update_status, set_retry_count, bump_progress}

-- What `fmt`, `encoding/json` and `crypto/sha256` give: a date as text, `%v` of a `*string`, the
-- index's JSON, and `hashBytes`.
pub record Codec : Type 0 where
  pub date_string : Date → String
  pub pointer_string : Option String → String
  pub index_json : String → String → Option String → String
  pub hash_bytes : String → String

-- What a step sees: the clock, and whether the timer's branch of a `select` is taken.
pub record Moment : Type 0 where
  pub now : Time
  pub timer : Bool

-- `err.Error()`
unfoldable pub error_message : JobError → String
error_message context_canceled = "context canceled"
error_message job_missing = "job not found"
error_message (storage_failed message) = message

-- `zipKey`, `indexKey`, `hashKey`: they differ in the file's name.
unfoldable pub object_key : Config → JobState → String → String
object_key cfg st name = cfg.s3_bucket & "/" & st.tenant_id & "/" & st.job.job_id & "/" & name

unfoldable pub payload_of : Codec → AuditZipRequest → String
payload_of c req =
    "audit export "
    & c.date_string req.from_date
    & " to "
    & c.date_string req.to_date
    & " partner "
    & c.pointer_string req.partner

-- The three objects that `persistArtifacts` stores, in its order.
unfoldable pub artifacts_of : Codec → Config → JobState → List Artifact
unfolding payload_of object_key
artifacts_of c cfg st =
    let payload = payload_of c st.request in
    let index =
      c.index_json (c.date_string st.request.from_date) (c.date_string st.request.to_date)
        st.request.partner in
    let hashes = c.hash_bytes payload & " archive.zip\n" & c.hash_bytes index & " index.json\n" in
    record {
      key = object_key cfg st "archive.zip";
      body = payload;
      content_type = "application/zip";
    }
    ∷ record {
      key = object_key cfg st "index.json";
      body = index;
      content_type = "application/json";
    }
    ∷ record { key = object_key cfg st "hashes.txt"; body = hashes; content_type = "text/plain" }
    ∷ []

-- What `runJob` does with an error of `processJob`.
unfoldable pub after_error : Config → ℕ → JobError → Worker
after_error cfg attempt context_canceled = at_release
after_error cfg attempt e =
    if leb_ℤ cfg.max_retries (pos attempt) then at_fail e else at_backoff attempt

unfoldable pub or_failed : Config → ℕ → Option JobError → Worker → Worker
unfolding after_error
or_failed cfg attempt none next = next
or_failed cfg attempt (some e) next = after_error cfg attempt e

-- `ctx.Err()` of the job's context.
unfoldable pub ctx_err : JobState → Option JobError
ctx_err st = if st.ctx_done then some context_canceled else none

-- The mutations that `runJob`, `completeJob` and `failJob` hand to `updateStatus`.
unfoldable pub mark_started : Time → AuditZipJob → AuditZipJob
mark_started start job = record job {
  started_at = some start;
  can_cancel = some true;
  progress = 5;
}

unfoldable pub mark_complete : Time → String → Time → ℕ → AuditZipJob → AuditZipJob
mark_complete now signed_url expires_at size job = record job {
  finished_at = some now;
  progress = 100;
  result = some (record { expires_at = expires_at; signed_url = signed_url; size = size });
  can_cancel = some false;
  error = none;
}

unfoldable pub mark_failed : Time → JobError → AuditZipJob → AuditZipJob
unfolding error_message
mark_failed now e job = record job {
  finished_at = some now;
  can_cancel = some false;
  result = none;
  error = some (record {
    code = "INTERNAL_ERROR";
    corr_id = "";
    message = error_message e;
    retryable = true;
  });
}

module _ {S : Type 0} where
  unfoldable pub update_worker : JobQueue S → ℕ → (JobState → JobState) → JobQueue S
  update_worker q p f = elim (get_elem? q.heap p) [
    | none ↦ q
    | some st ↦ record q { heap = set q.heap p (f st) }
  ]

  unfoldable pub move_to : JobQueue S → ℕ → Worker → JobQueue S
  unfolding update_worker
  move_to q p w = update_worker q p (λ st. record st { worker = w })

module _ {S : Type 0} (api : StorageApi S) (codec : Codec) where
  -- `persistArtifacts`, from the objects that are still to be stored.
  unfoldable pub put_step : JobQueue S → ℕ → Moment → JobState → ℕ → List Artifact → ℕ → JobQueue S
  unfolding move_to or_failed ctx_err
  put_step q p m st attempt [] size =
      update_worker q p
        (λ s. record s { worker = at_progress_90 attempt size; retentions = suc s.retentions })
  put_step q p m st attempt (o ∷ rest) size =
      let (storage, e) = api.put_object (ctx_err st) m.now o.key o.body o.content_type q.storage in
      move_to (record q { storage = storage }) p
        (or_failed q.cfg attempt e (at_put attempt rest size))

  unfoldable pub step_at : JobQueue S → ℕ → Moment → JobState → Worker → JobQueue S
  unfolding move_to or_failed put_step artifacts_of mark_started mark_complete mark_failed
  step_at q p m st at_slot =
      if ltb_ℤ (pos q.slots) q.cfg.max_concurrent_jobs
      then move_to (record q { slots = q.slots + 1 }) p (at_start m.now)
      else q
  step_at q p m st (at_start start) =
      move_to (update_status q st.job.job_id running (mark_started start)) p (at_retry_count 1)
  step_at q p m st (at_retry_count attempt) =
      move_to (set_retry_count q st.job.job_id (attempt - 1)) p (at_progress_10 attempt)
  step_at q p m st (at_progress_10 attempt) =
      let (q', e) = bump_progress q st.job.job_id 10 in
      move_to q' p (or_failed q.cfg attempt e (at_wait attempt))
  step_at q p m st (at_wait attempt) =
      if m.timer
      then move_to q p (at_progress_50 attempt)
      else if st.ctx_done
      then move_to q p (after_error q.cfg attempt context_canceled)
      else q
  step_at q p m st (at_progress_50 attempt) =
      let (q', e) = bump_progress q st.job.job_id 50 in
      move_to q' p (
        or_failed q.cfg attempt e
          (at_put attempt (artifacts_of codec q.cfg st) (len (payload_of codec st.request))))
  step_at q p m st (at_put attempt objects size) = put_step q p m st attempt objects size
  step_at q p m st (at_progress_90 attempt size) =
      let (q', e) = bump_progress q st.job.job_id 90 in
      move_to q' p (or_failed q.cfg attempt e (at_sign attempt size))
  step_at q p m st (at_sign attempt size) =
      elim (api.get_signed_url m.now (object_key q.cfg st "archive.zip") q.cfg.sign_url_ttl
        q.storage) [
          | inl e ↦ move_to q p (after_error q.cfg attempt e)
          | inr url ↦ move_to q p (at_complete url (add_duration m.now q.cfg.sign_url_ttl) size)
        ]
  step_at q p m st (at_complete url expires_at size) =
      move_to (update_status q st.job.job_id succeeded (mark_complete m.now url expires_at size)) p
        at_release
  step_at q p m st (at_fail e) =
      move_to (update_status q st.job.job_id failed (mark_failed m.now e)) p at_release
  step_at q p m st (at_backoff attempt) =
      if m.timer
      then move_to q p (at_retry_count (attempt + 1))
      else if st.ctx_done
      then move_to q p at_release
      else q
  step_at q p m st at_release = move_to (record q { slots = q.slots - 1 }) p finished
  step_at q p m st finished = q

  -- One step of the goroutine of the job at `p`.
  unfoldable pub worker_step : JobQueue S → ℕ → Moment → JobQueue S
  unfolding step_at
  worker_step q p m = elim (get_elem? q.heap p) [ none ↦ q | some st ↦ step_at q p m st st.worker ]

  unfoldable pub delete_artifacts : Config → JobState → S → S
  unfolding object_key
  delete_artifacts cfg st s₀ =
      let s₁ = (api.delete_object none (object_key cfg st "archive.zip") s₀).0 in
      let s₂ = (api.delete_object none (object_key cfg st "index.json") s₁).0 in
      (api.delete_object none (object_key cfg st "hashes.txt") s₂).0

  -- A goroutine of `persistArtifacts` that deletes the three objects at its timer, unless the job's
  -- context is done first. The errors of `DeleteObject` are dropped.
  unfoldable pub retention_at : JobQueue S → ℕ → Moment → JobState → ℕ → JobQueue S
  unfolding delete_artifacts
  retention_at q p m st zero = q
  retention_at q p m st (suc n) =
      let ended = record q { heap = set q.heap p (record st { retentions = n }) } in
      if m.timer
      then record ended { storage = delete_artifacts q.cfg st q.storage }
      else if st.ctx_done
      then ended
      else q

  unfoldable pub retention_step : JobQueue S → ℕ → Moment → JobQueue S
  unfolding retention_at
  retention_step q p m = elim (get_elem? q.heap p) [
    | none ↦ q
    | some st ↦ retention_at q p m st st.retentions
  ]
