-- ===== src/AuditZip/JobState.antt =====
-- apps/api/internal/auditzip/queue.go: `jobState`, `JobQueue` and the helpers on them. A
-- `*jobState` is an index into `heap`, so that the three maps alias one state.
use prompt_pack.Base.{ℕ, String, Bool, true, false, not, Option, none, some, List, []}
use prompt_pack.Base.Tests.{ltb, if◌then◌else◌}
use prompt_pack.Base.Lists.{get_elem?}
use prompt_pack.Base.Dict.{Dict}
use prompt_pack.AuditZip.Types.{
  Time, AuditZipJob, AuditZipJobStatus, AuditZipRequest, Config, QueueError, running, succeeded,
  failed, canceled, JobError,
}

pub record Artifact : Type 0 where
  pub key : String
  pub body : String
  pub content_type : String

-- Where the goroutine `runJob` of a job stands; a number is its variable `attempt`.
pub data Worker : Type 0 where
  at_slot : Worker
  at_start : Time → Worker
  at_retry_count at_progress_10 at_wait at_progress_50 at_backoff : ℕ → Worker
  at_put : ℕ → List Artifact → ℕ → Worker
  at_progress_90 at_sign : ℕ → ℕ → Worker
  at_complete : String → Time → ℕ → Worker
  at_fail : JobError → Worker
  at_release finished : Worker

-- `ctx_done`: `cancel` was called. `retentions`: goroutines that will delete the artifacts.
pub record JobState : Type 0 where
  pub job : AuditZipJob
  pub tenant_id : String
  pub criteria_hash : String
  pub idempotency_key : String
  pub request : AuditZipRequest
  pub ctx_done : Bool
  pub worker : Worker
  pub retentions : ℕ

-- `S` is the storage's state; `slots` the number of values in the channel `workerSlots`.
pub record JobQueue (S : Type 0) : Type 0 where
  pub jobs : Dict ℕ
  pub by_key : Dict ℕ
  pub by_criteria : Dict ℕ
  pub heap : List JobState
  pub storage : S
  pub cfg : Config
  pub slots : ℕ

-- A job and an error may both be returned.
pub data Reply : Type 0 where
  ok : AuditZipJob → Reply
  err : QueueError → Reply
  ok_err : AuditZipJob → QueueError → Reply

unfoldable pub is_terminal : AuditZipJobStatus → Bool
is_terminal succeeded = true
is_terminal failed = true
is_terminal canceled = true
is_terminal _ = false

unfoldable pub min_int : ℕ → ℕ → ℕ
min_int a b = if ltb a b then a else b

unfoldable pub new_job_queue : {S : Type 0} → S → Config → JobQueue S
new_job_queue storage cfg = record {
  jobs = [];
  by_key = [];
  by_criteria = [];
  heap = [];
  storage = storage;
  cfg = cfg;
  slots = 0;
}

-- Follows a pointer that a map gave.
abbrev pub state_at : List JobState → Option ℕ → Option JobState
state_at heap none = none
state_at heap (some p) = get_elem? heap p

unfoldable pub is_active : List JobState → ℕ → Bool
unfolding is_terminal
is_active heap p = elim (get_elem? heap p) [
  | none ↦ false
  | some st ↦ not (is_terminal st.job.status)
]

abbrev pub is_running : AuditZipJobStatus → Bool
is_running running = true
is_running _ = false
