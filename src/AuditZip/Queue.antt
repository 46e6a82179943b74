-- ===== src/AuditZip/Queue.antt =====
-- apps/api/internal/auditzip/queue.go: the operations that take the queue's lock. The goroutine
-- `runJob` is in the child `Worker`; the other children prove what the operations do.
pub mod Worker
pub mod Updates
pub mod Life
pub mod Stepped
pub mod Refines
pub mod Fits
pub mod Settled
pub mod Invariant
pub mod Insert
pub mod Preserve
pub mod Changes
pub mod Reach
pub mod History
pub mod Run
pub mod Alone
pub mod Liveness
pub mod Constant
pub mod Entries
pub mod Calm
pub mod Depth
pub mod Distinct
pub mod Idempotency
pub mod Replay
pub mod Answers
pub mod Foreign
pub mod Cancellation
pub mod Tests
use prompt_pack.Base.{
  ℕ, suc, ◌+◌, String, ◌&◌, Bool, true, false, not, ◌&&◌, ◌||◌, Option, none, some, List, [], ◌∷◌,
  ◌++◌, ◌==◌,
}
use prompt_pack.Base.Tests.{ltb, if◌then◌else◌}
use prompt_pack.Base.Lists.{length, get_elem?, set, count_if}
use prompt_pack.Base.Dict.{Dict, find, put}
use prompt_pack.Base.Int.{ℤ, pos, ltb_ℤ, leb_ℤ}
use prompt_pack.AuditZip.Types.{
  Time, AuditZipJob, AuditZipJobStatus, AuditZipRequest, Config, QueueError, InternalError, queued,
  running, succeeded, failed, canceled, conflict, rate_limited, not_found, duplicate_job,
  idempotency_body_mismatch, not_cancelable, JobError, job_missing, context_canceled,
}
use prompt_pack.AuditZip.JobState.{
  JobState, JobQueue, Reply, ok, err, ok_err, at_slot, state_at, is_active, is_terminal, is_running,
  min_int,
}

module _ {S : Type 0} where
  -- `activeCountLocked`
  unfoldable pub active_count : JobQueue S → ℕ
  active_count q = count_if (λ e. is_active q.heap e.1) q.jobs

  pub queue_full : JobQueue S → Bool
  queue_full q =
      ltb_ℤ (pos 0) q.cfg.max_queue_depth && leb_ℤ q.cfg.max_queue_depth (pos (active_count q))

-- `fmt.Sprintf("%s:%s", tenantID, part)`
unfoldable pub scoped_key : String → String → String
scoped_key tenant_id part = tenant_id & ":" & part

-- The state that `Enqueue` makes, with the goroutine that it starts.
unfoldable pub new_state : Time → String → String → String → String → AuditZipRequest → JobState
new_state now job_id tenant_id idempotency_key criteria_hash req = record {
  job = record {
    can_cancel = some false;
    criteria_hash = some criteria_hash;
    error = none;
    finished_at = none;
    job_id = job_id;
    progress = 0;
    requested_at = now;
    result = none;
    retry_count = 0;
    started_at = none;
    status = queued;
  };
  tenant_id = tenant_id;
  criteria_hash = criteria_hash;
  idempotency_key = idempotency_key;
  request = req;
  ctx_done = false;
  worker = at_slot;
  retentions = 0;
}

-- What the two lookups of `Enqueue` decide; `none` lets the request in.
pub replay_or_conflict : Option JobState → String → String → Option Reply
replay_or_conflict none tenant_id criteria_hash = none
replay_or_conflict (some existing) tenant_id criteria_hash =
    if existing.criteria_hash == criteria_hash && existing.tenant_id == tenant_id
    then some (ok existing.job)
    else some (err (conflict idempotency_body_mismatch existing.job.job_id))

pub duplicate : Option JobState → Option Reply
unfolding is_terminal
duplicate none = none
duplicate (some existing) =
    if is_terminal existing.job.status
    then none
    else some (err (conflict duplicate_job existing.job.job_id))

module _ {S : Type 0} where
  -- The three map writes of `Enqueue` at one new pointer.
  unfoldable pub insert_state : JobQueue S → String → String → String → JobState → JobQueue S
  insert_state q job_id key criteria_key st = record q {
    jobs = put q.jobs job_id (length q.heap);
    by_key = put q.by_key key (length q.heap);
    by_criteria = put q.by_criteria criteria_key (length q.heap);
    heap = q.heap ++ st ∷ [];
  }

  -- `now` and `job_id` are what `time.Now` and `uuid.New` return.
  unfoldable pub enqueue :
      JobQueue S → Time → String → String → String → String → AuditZipRequest → JobQueue S × Reply
  unfolding queue_full replay_or_conflict duplicate
  enqueue q now job_id tenant_id idempotency_key criteria_hash req =
      let key = scoped_key tenant_id idempotency_key in
      let criteria_key = scoped_key tenant_id criteria_hash in
      if queue_full q
      then (q, err (rate_limited q.cfg.queue_retry_after))
      else elim (replay_or_conflict (state_at q.heap (find q.by_key key)) tenant_id criteria_hash) [
        | some reply ↦ (q, reply)
        | none ↦ elim (duplicate (state_at q.heap (find q.by_criteria criteria_key))) [
          | some reply ↦ (q, reply)
          | none ↦
              let st = new_state now job_id tenant_id idempotency_key criteria_hash req in
              (insert_state q job_id key criteria_key st, ok st.job)
        ]
      ]

-- What `Cancel` writes into the job's state.
pub canceled_state : Time → JobState → JobState
unfolding min_int
canceled_state now st = record st {
  ctx_done = true;
  job = record (st.job) {
    status = canceled;
    finished_at = some now;
    progress = min_int 100 st.job.progress;
    error = some (record {
      code = "CANCELED";
      corr_id = "";
      message = "canceled by user";
      retryable = true;
    });
    can_cancel = some false;
    result = none;
  };
}

module _ {S : Type 0} where
  pub cancel_at : JobQueue S → Time → String → String → ℕ → Option JobState → JobQueue S × Reply
  unfolding canceled_state
  cancel_at q now tenant_id job_id p none = (q, err not_found)
  cancel_at q now tenant_id job_id p (some st) =
      if not (st.tenant_id == tenant_id)
      then (q, err not_found)
      else if not (is_running st.job.status)
      then (q, ok_err st.job (conflict not_cancelable job_id))
      else (
        record q { heap = set q.heap p (canceled_state now st); jobs = put q.jobs job_id p },
        ok (canceled_state now st).job,
      )

  pub cancel : JobQueue S → Time → String → String → JobQueue S × Reply
  unfolding cancel_at
  cancel q now tenant_id job_id = elim (find q.jobs job_id) [
    | none ↦ (q, err not_found)
    | some p ↦ cancel_at q now tenant_id job_id p (get_elem? q.heap p)
  ]

  -- `Get`: the job and its tenant.
  pub get : JobQueue S → String → Option (AuditZipJob × String)
  get q job_id = elim (state_at q.heap (find q.jobs job_id)) [
    | none ↦ none
    | some st ↦ some (st.job, st.tenant_id)
  ]

  -- `updateWithErr`: `mutate` writes through the pointer, and may return an error.
  pub update_with_err :
      JobQueue S
      → String
      → (AuditZipJob → Option JobError × AuditZipJob)
      → JobQueue S × Option JobError
  update_with_err q job_id mutate = elim (find q.jobs job_id) [
    | none ↦ (q, some job_missing)
    | some p ↦ elim (get_elem? q.heap p) [
      | none ↦ (q, some job_missing)
      | some st ↦
          let (refused, job) = mutate st.job in
          let q' = record q { heap = set q.heap p (record st { job = job }) } in
          elim refused [
            | some e ↦ (q', some e)
            | none ↦ (record q' { jobs = put q.jobs job_id p }, none)
          ]
    ]
  ]

  -- `updateStatus`
  pub update_status :
      JobQueue S → String → AuditZipJobStatus → (AuditZipJob → AuditZipJob) → JobQueue S
  unfolding update_with_err
  update_status q job_id status mutate =
      (update_with_err q job_id (λ job. (none, mutate (record job { status = status })))).0

  pub set_retry_count : JobQueue S → String → ℕ → JobQueue S
  unfolding update_status
  set_retry_count q job_id retries =
      update_status q job_id running (λ job. record job { retry_count = retries })

-- The function that `bumpProgress` hands over.
pub bump : ℕ → AuditZipJob → Option JobError × AuditZipJob
bump progress job = elim job.status [
  | canceled ↦ (some context_canceled, job)
  | _ ↦
      (none, record job { progress = if ltb job.progress progress then progress else job.progress })
]

module _ {S : Type 0} where
  pub bump_progress : JobQueue S → String → ℕ → JobQueue S × Option JobError
  unfolding update_with_err bump
  bump_progress q job_id progress = update_with_err q job_id (bump progress)
