-- ===== src/AuditZip/Queue/Changes.antt =====
-- What each operation of the queue does to one job.
use prompt_pack.Base.{
  ℕ, zero, suc, String, ◌≡◌, refl, sym, ap, subst, ◌∙◌, ◌⊎◌, inl, inr, Bool, true, false, Option,
  none, some, List, [], ◌∷◌, arith, ◌==◌,
}
use prompt_pack.Base.Tests.{Bool-cases, Option-cases, if_true, if_false}
use native.Mathlib.Decide.{ℕ_discrete}
use prompt_pack.Base.Lists.{
  get_elem?, set, get_elem?-append_left, get_elem?-set_self, get_elem?-set_ne,
}
use prompt_pack.Base.Dict.{find}
use prompt_pack.AuditZip.Types.{
  Time, Config, AuditZipRequest, AuditZipJobStatus, running, queued, succeeded, failed, canceled,
}
use prompt_pack.AuditZip.Storage.{StorageApi}
use prompt_pack.AuditZip.JobState.{JobState, JobQueue, is_running}
use prompt_pack.AuditZip.Queue.{enqueue, cancel, cancel_at, canceled_state, insert_state}
use prompt_pack.AuditZip.Queue.Worker.{Codec, Moment, worker_step, retention_step, retention_at}
use prompt_pack.AuditZip.Queue.Life.{JobStep}
use prompt_pack.AuditZip.Queue.Refines.{worker_step-Stepped}
use prompt_pack.AuditZip.Queue.Invariant.{
  IsValid, holds-le-held, SameJob, same_job, JobStep-SameJob,
}
use prompt_pack.AuditZip.Queue.Insert.{enqueue_cases}

-- What one step does to one job: nothing that a client sees, a cancellation, or a step of its life.
pub data Change (cfg : Config) (st st' : JobState) : Type 0 where
  untouched : st'.job ≡ st.job → SameJob st st' → Change cfg st st'
  by_cancel :
      (now : Time) → st.job.status ≡ running → st' ≡ canceled_state now st → Change cfg st st'
  by_step : (room timer : Bool) → JobStep cfg room timer st st' → Change cfg st st'

pub Change-SameJob : (cfg : Config) (st st' : JobState) → Change cfg st st' → SameJob st st'
unfolding canceled_state
Change-SameJob cfg st st' (untouched e s) = s
Change-SameJob cfg st st' (by_cancel now run e) =
    rw e (record { job_id = refl; tenant_id = refl; criteria_hash = refl; idempotency_key = refl })
Change-SameJob cfg st st' (by_step room timer s) = JobStep-SameJob cfg st s

abbrev pub Changed : ℕ → Config → JobState → List JobState → Type 0
Changed p cfg st heap = (st' : JobState) × (get_elem? heap p ≡ some st') × Change cfg st st'

module _ {S : Type 0} (q : JobQueue S) (p : ℕ) (st : JobState)
    (own : get_elem? q.heap p ≡ some st) where
  unchanged : Changed p q.cfg st q.heap
  unchanged = (st, own, untouched refl (same_job st st.job st.worker _ st.ctx_done refl))

  -- A write at one pointer changes the job there, and no other.
  written_Changed :
      (i : ℕ) (x x' : JobState)
      → get_elem? q.heap i ≡ some x
      → Change q.cfg x x'
      → Changed p q.cfg st (set q.heap i x')
  written_Changed i x x' at c = elim (ℕ_discrete i p) [
    | no there ↦ (
      st,
      get_elem?-set_ne q.heap i p x' there ∙ own,
      untouched refl (same_job st st.job st.worker _ st.ctx_done refl),
    )
    | yes found ↦ (
      x',
      subst (λ j. get_elem? (set q.heap i x') j ≡ some x') found
          (get_elem?-set_self q.heap i x x' at),
      subst (λ y. Change q.cfg y x') (same found) c,
    )
  ]
    where
      same : i ≡ p → x ≡ st
      same found = ground (arith, at, own, found, ap (get_elem? q.heap) found)

  cancel_at-Changed :
      (now : Time) (tenant_id job_id : String) (i : ℕ) (o : Option JobState)
      → get_elem? q.heap i ≡ o
      → Changed p q.cfg st (cancel_at q now tenant_id job_id i o).0.heap
  unfolding cancel_at
  cancel_at-Changed now tenant_id job_id i none at = unchanged
  cancel_at-Changed now tenant_id job_id i (some x) at =
      elim (Bool-cases (x.tenant_id == tenant_id)) [
        | inr other ↦ rw other unchanged
        | inl mine ↦ elim (run_cases x.job.status) [
          | inr still ↦ rw (mine, still) unchanged
          | inl (on, run) ↦
              rw (mine, on) (written_Changed i x (canceled_state now x) at (by_cancel now run refl))
        ]
      ]
    where
      run_cases :
          (s : AuditZipJobStatus) → ((is_running s ≡ true) × (s ≡ running)) ⊎ (is_running s ≡ false)
      run_cases running = inl (refl, refl)
      run_cases queued = inr refl
      run_cases succeeded = inr refl
      run_cases failed = inr refl
      run_cases canceled = inr refl

  pub cancel-Changed :
      (now : Time) (tenant_id job_id : String)
      → Changed p q.cfg st (cancel q now tenant_id job_id).0.heap
  unfolding cancel
  cancel-Changed now tenant_id job_id = elim (Option-cases (find q.jobs job_id)) [
    | inl gone ↦ rw (gone, cancel) unchanged
    | inr (i, at) ↦
        rw (at, cancel) (cancel_at-Changed now tenant_id job_id i (get_elem? q.heap i) refl)
  ]

  pub retention_step-Changed :
      (api : StorageApi S) (codec : Codec) (i : ℕ) (m : Moment)
      → Changed p q.cfg st (retention_step api codec q i m).heap
  unfolding retention_step
  retention_step-Changed api codec i m = elim (Option-cases (get_elem? q.heap i)) [
    | inl gone ↦ rw (gone, retention_step) unchanged
    | inr (x, at) ↦ rw (at, retention_step) (ended x at x.retentions)
  ]
    where
      ended :
          (x : JobState)
          → get_elem? q.heap i ≡ some x
          → (n : ℕ) → Changed p q.cfg st (retention_at api codec q i m x n).heap
      ended x at zero = unfold retention_at in unchanged
      ended x at (suc n) =
          unfold retention_at in
          elim (Bool-cases m.timer) [
            | inl over ↦
                subst (λ (r : JobQueue S). Changed p q.cfg st r.heap) (sym (if_true _ _ over))
                  (written_Changed i x (record x { retentions = n }) at
                    (untouched refl (same_job x x.job x.worker n x.ctx_done refl)))
            | inr early ↦ elim (Bool-cases x.ctx_done) [
              | inl done ↦
                  subst (λ (r : JobQueue S). Changed p q.cfg st r.heap)
                    (sym (if_false _ _ early ∙ if_true _ _ done))
                    (written_Changed i x (record x { retentions = n }) at
                      (untouched refl (same_job x x.job x.worker n x.ctx_done refl)))
              | inr on ↦
                  subst (λ (r : JobQueue S). Changed p q.cfg st r.heap)
                    (sym (if_false _ _ early ∙ if_false _ _ on)) unchanged
            ]
          ]

  pub enqueue-Changed :
      (now : Time) (job_id tenant_id key hash : String) (req : AuditZipRequest)
      → Changed p q.cfg st (enqueue q now job_id tenant_id key hash req).0.heap
  enqueue-Changed now job_id tenant_id key hash req =
      enqueue_cases q (λ r. Changed p q.cfg st r.0.heap) now job_id tenant_id key hash req
        (λ _. unchanged)
        (
          st,
          unfold insert_state in get_elem?-append_left q.heap (_ ∷ []) p st own,
          untouched refl (same_job st st.job st.worker _ st.ctx_done refl),
        )

  pub worker_step-Changed :
      (api : StorageApi S) (codec : Codec) (i : ℕ) (m : Moment)
      → IsValid q
      → Changed p q.cfg st (worker_step api codec q i m).heap
  worker_step-Changed api codec i m v = elim (Option-cases (get_elem? q.heap i)) [
    | inl gone ↦ unfold worker_step in rw (gone, worker_step) unchanged
    | inr (x, at) ↦
        let s =
          worker_step-Stepped api codec m q i x at
            (omega (arith, v.balanced, holds-le-held q.heap i x at)) (v.linked i x at) in
        subst (Changed p q.cfg st) (sym s.heap)
          (written_Changed i x s.after at (by_step _ m.timer s.step))
  ]
