-- ===== src/AuditZip/Queue/Stepped.antt =====
-- What a step of the goroutine of `Worker` leaves behind, and the ways to build one.
use prompt_pack.Base.{
  ℕ, suc, ◌+◌, ◌≤◌, ◌≡◌, refl, sym, ap, ◌≢◌, ◌<◌, ◌∙◌, ◌⊎◌, inl, inr, true, none, some, arith, Bool,
}
use prompt_pack.Base.Tests.{Bool-cases, ltb}
use prompt_pack.Base.Lists.{get_elem?, set, set_found}
use prompt_pack.Base.Dict.{find}
use prompt_pack.Base.Int.{pos, ltb_ℤ}
use prompt_pack.AuditZip.Types.{
  Config, AuditZipJob, AuditZipJobStatus, JobError, context_canceled, queued, running, succeeded,
  failed, canceled,
}
use prompt_pack.AuditZip.JobState.{JobState, JobQueue, Worker, at_slot, finished}
use prompt_pack.AuditZip.Queue.{bump, bump_progress}
use prompt_pack.AuditZip.Queue.Worker.{move_to, or_failed, after_error}
use prompt_pack.AuditZip.Queue.Updates.{bump_then, bump_error}
use prompt_pack.AuditZip.Queue.Life.{
  JobStep, Waits, Raised, attempt_of, rank, blocked, proceed, break_off,
}

-- Whether the goroutine holds a value of `workerSlots`.
abbrev pub holds_slot : Worker → ℕ
holds_slot at_slot = 0
holds_slot finished = 0
holds_slot _ = 1

-- The queue after a step of the goroutine at `p`: one state is written, in line with `JobStep`, and
-- the slots change with what the goroutine holds.
pub record Stepped {S : Type 0} (timer : Bool) (q : JobQueue S) (p : ℕ) (st : JobState)
    (q' : JobQueue S) : Type 0 where
  pub after : JobState
  pub heap : q'.heap ≡ set q.heap p after
  pub jobs : q'.jobs ≡ q.jobs
  pub by_key : q'.by_key ≡ q.by_key
  pub by_criteria : q'.by_criteria ≡ q.by_criteria
  pub cfg : q'.cfg ≡ q.cfg
  pub slots : q'.slots + holds_slot st.worker ≡ q.slots + holds_slot after.worker
  pub capped :
      (q'.slots ≤ q.slots)
      ⊎ (ltb_ℤ (pos q.slots) q.cfg.max_concurrent_jobs ≡ true) × (q'.slots ≡ suc q.slots)
  pub step : JobStep q.cfg (ltb_ℤ (pos q.slots) q.cfg.max_concurrent_jobs) timer st after

pub attempt-holds_slot : (w : Worker) (a : ℕ) → attempt_of w ≡ some a → holds_slot w ≡ 1
attempt-holds_slot at_slot a h = cc
attempt-holds_slot finished a h = cc
attempt-holds_slot _ a h = refl

pub after_error-holds_slot :
    (cfg : Config) (a : ℕ) (e : JobError) → holds_slot (after_error cfg a e) ≡ 1
unfolding after_error
after_error-holds_slot cfg a context_canceled = refl
after_error-holds_slot cfg a _ = ground arith

-- A bump is refused for a canceled job alone, and then changes nothing.
bump-Raised :
    (k : ℕ) (job : AuditZipJob)
    → k ≤ 100
    → (((bump k job).0 ≡ none) × Raised job (bump k job).1)
      ⊎ (((bump k job).0 ≡ some context_canceled) × ((bump k job).1 ≡ job))
unfolding bump
bump-Raised k job h = elim (status_cases job.status) [
  | inl c ↦ inr (ground (arith, c), ground (arith, c))
  | inr e ↦ elim (Bool-cases (ltb job.progress k)) [
    | inl lt ↦ inl (ground (arith, e), inr (k, ground arith, h, ground (arith, e)))
    | inr ge ↦ inl (ground (arith, e), inl (ground (arith, e)))
  ]
]
  where
    status_cases : (s : AuditZipJobStatus) → (s ≡ canceled) ⊎ (s ≢ canceled)
    status_cases canceled = inl refl
    status_cases queued = inr (λ e. cc)
    status_cases running = inr (λ e. cc)
    status_cases succeeded = inr (λ e. cc)
    status_cases failed = inr (λ e. cc)

module _ {S : Type 0} (timer : Bool) (q : JobQueue S) (p : ℕ) (st : JobState)
    (own : get_elem? q.heap p ≡ some st) (held : holds_slot st.worker ≤ q.slots) where
  -- From the one state that is written.
  pub stepped :
      {q' : JobQueue S} (st' : JobState) (s : S) (n : ℕ)
      → q' ≡ record q { heap = set q.heap p st'; storage = s; slots = n }
      → n + holds_slot st.worker ≡ q.slots + holds_slot st'.worker
      → (n ≤ q.slots) ⊎ (ltb_ℤ (pos q.slots) q.cfg.max_concurrent_jobs ≡ true) × (n ≡ suc q.slots)
      → JobStep q.cfg (ltb_ℤ (pos q.slots) q.cfg.max_concurrent_jobs) timer st st'
      → Stepped timer q p st q'
  stepped st' s n e balance room step = rw e (record {
    after = st';
    heap = refl;
    jobs = refl;
    by_key = refl;
    by_criteria = refl;
    cfg = refl;
    slots = balance;
    capped = room;
    step = step;
  })

  -- A step that takes and returns no slot.
  pub moved :
      {q' : JobQueue S} (st' : JobState) (s : S)
      → q' ≡ record q { heap = set q.heap p st'; storage = s }
      → holds_slot st.worker ≡ holds_slot st'.worker
      → JobStep q.cfg (ltb_ℤ (pos q.slots) q.cfg.max_concurrent_jobs) timer st st'
      → Stepped timer q p st q'
  moved st' s e same step = stepped st' s q.slots e (ground arith) (inl (omega arith)) step

  pub stays :
      Waits (ltb_ℤ (pos q.slots) q.cfg.max_concurrent_jobs) timer st.worker → Stepped timer q p st q
  stays waits =
      moved st q.storage (ground (arith, set_found q.heap p st own)) refl (blocked waits refl)

  -- In `processJob`, on to the next stretch.
  pub proceeds :
      {q' : JobQueue S} (a : ℕ) (w : Worker) (s : S) (job : AuditZipJob) (n : ℕ)
      → q' ≡ record q {
        heap = set q.heap p (record st { job = job; worker = w; retentions = n });
        storage = s;
      }
      → attempt_of st.worker ≡ some a
      → attempt_of w ≡ some a
      → rank w < rank st.worker
      → Raised st.job job
      → Stepped timer q p st q'
  proceeds a w s job n e at at' falls raised =
      moved (record st { job = job; worker = w; retentions = n }) s e
        (attempt-holds_slot st.worker a at ∙ sym (attempt-holds_slot w a at'))
        (proceed a w job n at at' falls raised refl)

  -- In `processJob`, out with an error.
  pub breaks :
      {q' : JobQueue S} (a : ℕ) (e : JobError) (s : S)
      → q' ≡ record q {
        heap = set q.heap p (record st { worker = after_error q.cfg a e });
        storage = s;
      }
      → attempt_of st.worker ≡ some a
      → Stepped timer q p st q'
  breaks a e s eq at =
      moved (record st { worker = after_error q.cfg a e }) s eq
        (attempt-holds_slot st.worker a at ∙ sym (after_error-holds_slot q.cfg a e))
        (break_off a e at refl)

  module _ (linked : find q.jobs st.job.job_id ≡ some p) where
    -- `bumpProgress` and what follows it.
    pub bumps :
        (a k : ℕ) (w : Worker)
        → k ≤ 100
        → attempt_of st.worker ≡ some a
        → attempt_of w ≡ some a
        → rank w < rank st.worker
        → Stepped timer q p st (
            move_to
              (bump_progress q st.job.job_id k).0
              p
              (or_failed q.cfg a (bump_progress q st.job.job_id k).1 w))
    bumps a k w h at at' falls = elim (bump-Raised k st.job h) [
      | inl (fine, raised) ↦
          rw (bump_error q p st own linked k, fine)
            (proceeds a w q.storage (bump k st.job).1 st.retentions
              (unfold or_failed in bump_then q p st own linked k w) at at' falls raised)
      | inr (refused, same) ↦
          rw (bump_error q p st own linked k, refused)
            (breaks a context_canceled q.storage
              (unfold or_failed in
                bump_then q p st own linked k (after_error q.cfg a context_canceled)
                ∙ ap
                    (λ (j : AuditZipJob). record q {
                      heap =
                          set q.heap p
                            (record st { job = j; worker = after_error q.cfg a context_canceled });
                    })
                    same)
              at)
    ]
