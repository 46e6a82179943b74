-- ===== src/AuditZip/Queue/Tests.antt =====
-- Runs of the job queue at one small configuration.
use prompt_pack.Base.{
  ℕ, zero, suc, ◌≤◌, ◌≡◌, refl, inl, inr, true, none, some, List, [], ◌∷◌, arith,
}
use prompt_pack.Base.Lists.{get_elem?}
use prompt_pack.Base.Dict.{find, put}
use Prim.Native.String.{len}
use prompt_pack.Base.{◌<◌}
use prompt_pack.Base.Lists.{length}
use prompt_pack.Base.Env.{Env}
use prompt_pack.AuditZip.Settings.{load_config}
use prompt_pack.AuditZip.Queue.Alone.{HasEnded}
use prompt_pack.AuditZip.Queue.Constant.{reachable_drains}
use prompt_pack.Base.Int.{pos}
use prompt_pack.AuditZip.Types.{
  Config, AuditZipRequest, running, failed, storage_failed, conflict, not_cancelable,
}
use prompt_pack.AuditZip.Storage.{StorageApi, InMemoryStorage, new_in_memory_storage, in_memory}
use prompt_pack.AuditZip.JobState.{
  JobState, JobQueue, at_start, at_retry_count, at_progress_10, at_wait, at_progress_50, at_put,
  at_fail, at_release, ok, ok_err, new_job_queue, is_active,
}
use prompt_pack.AuditZip.Queue.{
  enqueue, cancel, new_state, insert_state, scoped_key, update_status, set_retry_count,
  bump_progress, active_count,
}
use prompt_pack.AuditZip.Queue.Worker.{
  Codec, Moment, worker_step, mark_started, mark_failed, artifacts_of, payload_of,
}
use prompt_pack.AuditZip.Queue.Stepped.{Stepped}
use prompt_pack.AuditZip.Queue.Refines.{worker_step-Stepped}
use prompt_pack.AuditZip.Queue.Invariant.{IsValid}
use prompt_pack.AuditZip.Queue.Reach.{
  Work, Reach, enqueues, cancels, works, here, next, reachable-IsValid,
}
use prompt_pack.AuditZip.Queue.History.{settled_forever, progress_mono}
use prompt_pack.AuditZip.Queue.Replay.{enqueue_replay}
use prompt_pack.AuditZip.Queue.{get}
use prompt_pack.AuditZip.Queue.Preserve.{new_job_queue-IsValid}
use prompt_pack.AuditZip.Types.{AuditZipJob}

abbrev pub config : Config
config = record {
  s3_endpoint = "https://s3";
  s3_bucket = "audit";
  sign_url_ttl = pos 60;
  retention_period = pos 60;
  max_range_days = pos 31;
  estimated_mb_per_day = 0;
  split_chunk_mb = 0;
  max_queue_depth = pos 1;
  max_concurrent_jobs = pos 1;
  max_retries = pos 2;
  retry_base_delay = pos 1;
  rate_limit_per_minute = pos 10;
  queue_retry_after = pos 30;
  default_locale = "ja-JP";
  default_time_zone = "Asia/Tokyo";
  enable_sse = true;
  kms_key_id = "";
  allowed_origins = [];
}

abbrev pub request : AuditZipRequest
request = record {
  format = "zip";
  from_date = 1000;
  max_amount = none;
  min_amount = none;
  partner = none;
  to_date = 1001;
}

abbrev pub plain_codec : Codec
plain_codec = record {
  date_string = λ d. "day";
  pointer_string = λ p. "<nil>";
  index_json = λ a b p. "{}";
  hash_bytes = λ s. s;
}

abbrev pub api : StorageApi InMemoryStorage
api = in_memory (λ path t. path)

abbrev pub tick : Moment
tick = record { now = 7; timer = true }

abbrev pub start : JobQueue InMemoryStorage
start = new_job_queue new_in_memory_storage config

-- One job, which waits for its slot; then after one, two and three steps of its goroutine.
abbrev pub with_job : JobQueue InMemoryStorage
with_job = (enqueue start 5 "j1" "acme" "k1" "h1" request).0

abbrev pub placed : JobQueue InMemoryStorage
placed = worker_step api plain_codec with_job 0 tick

abbrev pub started : JobQueue InMemoryStorage
started = worker_step api plain_codec placed 0 tick

abbrev pub counted : JobQueue InMemoryStorage
counted = worker_step api plain_codec started 0 tick

abbrev ticks : ℕ → List Moment
ticks zero = []
ticks (suc n) = tick ∷ ticks n

abbrev pub job_at : JobQueue InMemoryStorage → JobState
job_at q = elim (get_elem? q.heap 0) [ none ↦ new_state 0 "" "" "" "" request | some st ↦ st ]

with_job-cancel :
    (cancel with_job 6 "acme" "j1").1 ≡ ok_err (job_at with_job).job (conflict not_cancelable "j1")
unfolding new_job_queue enqueue cancel find active_count is_active insert_state put new_state
with_job-cancel = refl

Reach-job : Reach api plain_codec start with_job
unfolding new_job_queue find
Reach-job = next here (enqueues 5 "j1" "acme" "k1" "h1" request refl refl)

pub Reach-started : Reach api plain_codec start started
Reach-started = next (next Reach-job (works 0 tick refl)) (works 0 tick refl)

pub Reach-counted : Reach api plain_codec start counted
Reach-counted = next Reach-started (works 0 tick refl)

with_job-IsValid : IsValid with_job
with_job-IsValid = reachable-IsValid api plain_codec new_in_memory_storage config with_job Reach-job

reachable-IsValid_example : IsValid counted
reachable-IsValid_example =
    reachable-IsValid api plain_codec new_in_memory_storage config counted Reach-counted

worker_step-Stepped_example :
    Stepped true with_job 0 (job_at with_job) (worker_step api plain_codec with_job 0 tick)
unfolding new_job_queue enqueue cancel find active_count is_active insert_state put new_state
worker_step-Stepped_example =
    worker_step-Stepped api plain_codec tick with_job 0 (job_at with_job) refl (omega arith) refl

-- A storage that refuses every object, and a configuration with a single attempt.
abbrev refusing : StorageApi Unit
refusing = record {
  put_object = λ e now key body content_type s. (s, some (storage_failed "down"));
  get_signed_url = λ now key ttl s. inl (storage_failed "down");
  delete_object = λ e key s. (s, none);
}

-- The queue in which a state is that of the only job.
abbrev only : JobState → ℕ → JobQueue Unit
only st slots = record {
  jobs = ("j1", 0) ∷ [];
  by_key = ("acme:k1", 0) ∷ [];
  by_criteria = ("acme:h1", 0) ∷ [];
  heap = st ∷ [];
  storage = tt;
  cfg = record config { max_retries = pos 0 };
  slots = slots;
}

abbrev st₀ : JobState
st₀ = new_state 5 "j1" "acme" "k1" "h1" request

abbrev st₁ : JobState
st₁ = record st₀ { worker = at_start 7 }

abbrev st₂ : JobState
st₂ = record st₀ {
  job = mark_started 7 (record (st₀.job) { status = running });
  worker = at_retry_count 1;
}

abbrev st₃ : JobState
st₃ = record st₂ { worker = at_progress_10 1 }

abbrev st₄ : JobState
st₄ = record st₂ { job = record (st₂.job) { progress = 10 }; worker = at_wait 1 }

abbrev st₅ : JobState
st₅ = record st₄ { worker = at_progress_50 1 }

abbrev st₆ : JobState
st₆ = record st₂ {
  job = record (st₂.job) { progress = 50 };
  worker =
      at_put 1 (artifacts_of plain_codec (only st₀ 0).cfg st₂)
        (len (payload_of plain_codec request));
}

abbrev st₇ : JobState
st₇ = record st₆ { worker = at_fail (storage_failed "down") }

abbrev st₈ : JobState
st₈ = record st₆ {
  job = mark_failed 7 (storage_failed "down") (record (st₆.job) { status = failed });
  worker = at_release;
}

Reach-failed : Reach refusing plain_codec (new_job_queue tt (only st₀ 0).cfg) (only st₈ 1)
unfolding new_job_queue enqueue cancel find active_count insert_state put new_state worker_step
    update_status set_retry_count bump_progress mark_started mark_failed artifacts_of payload_of
    scoped_key
Reach-failed =
    let r₀ : Reach refusing plain_codec (new_job_queue tt (only st₀ 0).cfg) (only st₀ 0) =
      next here (enqueues 5 "j1" "acme" "k1" "h1" request refl refl) in
    let r₁ : Reach refusing plain_codec (new_job_queue tt (only st₀ 0).cfg) (only st₁ 1) =
      next r₀ (works 0 tick refl) in
    let r₂ : Reach refusing plain_codec (new_job_queue tt (only st₀ 0).cfg) (only st₂ 1) =
      next r₁ (works 0 tick refl) in
    let r₃ : Reach refusing plain_codec (new_job_queue tt (only st₀ 0).cfg) (only st₃ 1) =
      next r₂ (works 0 tick refl) in
    let r₄ : Reach refusing plain_codec (new_job_queue tt (only st₀ 0).cfg) (only st₄ 1) =
      next r₃ (works 0 tick refl) in
    let r₅ : Reach refusing plain_codec (new_job_queue tt (only st₀ 0).cfg) (only st₅ 1) =
      next r₄ (works 0 tick refl) in
    let r₆ : Reach refusing plain_codec (new_job_queue tt (only st₀ 0).cfg) (only st₆ 1) =
      next r₅ (works 0 tick refl) in
    let r₇ : Reach refusing plain_codec (new_job_queue tt (only st₀ 0).cfg) (only st₇ 1) =
      next r₆ (works 0 tick refl) in
    let r₈ : Reach refusing plain_codec (new_job_queue tt (only st₀ 0).cfg) (only st₈ 1) =
      next r₇ (works 0 tick refl) in
    r₈

settled_forever_example :
    (st' : JobState) × (get_elem? (cancel (only st₈ 1) 9 "acme" "j1").0.heap 0 ≡ some st')
    × (st'.job ≡ st₈.job)
unfolding mark_failed
settled_forever_example =
    settled_forever refusing plain_codec (only st₈ 1) 0 st₈
      (reachable-IsValid refusing plain_codec tt (only st₀ 0).cfg (only st₈ 1) Reach-failed) refl
      (inr refl) (next here (cancels 9 "acme" "j1" refl))

progress_mono_example :
    (st' : JobState) × (get_elem? placed.heap 0 ≡ some st')
    × ((job_at with_job).job.progress ≤ st'.job.progress)
    × (st'.job.progress ≤ 100)
unfolding new_job_queue enqueue cancel find active_count is_active insert_state put new_state
progress_mono_example =
    progress_mono api plain_codec with_job 0 (job_at with_job) with_job-IsValid refl
      (next here (works 0 tick refl))

-- The same queue with room for another job.
abbrev pub roomy : JobQueue InMemoryStorage
roomy = record start { cfg = record config { max_queue_depth = pos 2 } }

abbrev pub roomy_job : JobQueue InMemoryStorage
roomy_job = (enqueue roomy 5 "j1" "acme" "k1" "h1" request).0

-- Two steps of its goroutine later.
abbrev roomy_later : JobQueue InMemoryStorage
roomy_later = worker_step api plain_codec (worker_step api plain_codec roomy_job 0 tick) 0 tick

enqueue_replay_example :
    (job' : AuditZipJob) × (get roomy_later "j1" ≡ some (job', "acme"))
    × (job'.job_id ≡ "j1")
    × (enqueue roomy_later 9 "j2" "acme" "k1" "h1" request ≡ (roomy_later, ok job'))
unfolding new_job_queue enqueue find active_count is_active insert_state put new_state worker_step
    update_status
enqueue_replay_example =
    enqueue_replay api plain_codec roomy roomy_job roomy_later 5 "j1" "acme" "k1" "h1" request
      (job_at roomy_job).job (new_job_queue-IsValid new_in_memory_storage roomy.cfg) refl refl
      (next (next here (works 0 tick refl)) (works 0 tick refl)) refl 9 "j2" request

-- An environment that sets nothing.
abbrev no_env : Env
no_env = record { lookup_env = λ k. none; parse_float = λ s. none; parse_duration = λ s. none }

abbrev loaded : JobQueue InMemoryStorage
loaded = new_job_queue new_in_memory_storage (load_config no_env)

abbrev loaded_job : JobQueue InMemoryStorage
loaded_job = (enqueue loaded 5 "j1" "acme" "k1" "h1" request).0

reachable_drains_example :
    (q' : JobQueue InMemoryStorage) × Work api plain_codec loaded_job q'
    × (length q'.heap ≡ length loaded_job.heap)
    × ((p : ℕ) → p < length q'.heap → HasEnded api plain_codec q' p)
unfolding new_job_queue find
reachable_drains_example =
    reachable_drains api plain_codec no_env new_in_memory_storage 9 loaded_job
      (next here (enqueues 5 "j1" "acme" "k1" "h1" request refl refl))
