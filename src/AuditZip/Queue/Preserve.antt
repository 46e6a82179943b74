-- ===== src/AuditZip/Queue/Preserve.antt =====
-- Every operation of the queue keeps its invariant, and so does every interleaving of them.
use prompt_pack.Base.{
  ℕ, zero, suc, ◌≤◌, String, ◌≡◌, refl, sym, subst, ◌∙◌, ◌⊎◌, inl, inr, Bool, true, false, Option,
  none, some, arith, ◌==◌,
}
use prompt_pack.Base.Tests.{Bool-cases, Option-cases, if_true, if_false}
use prompt_pack.Base.Lists.{get_elem?, set}
use prompt_pack.Base.Dict.{find, put_found}
use prompt_pack.Base.Int.{ℤ, pos, pos_part, ltb_ℤ, negsuc}
use prompt_pack.AuditZip.Types.{
  Time, Config, AuditZipJobStatus, running, queued, succeeded, failed, canceled,
}
use prompt_pack.AuditZip.Storage.{StorageApi}
use prompt_pack.AuditZip.JobState.{JobState, JobQueue, new_job_queue, is_running}
use prompt_pack.AuditZip.Queue.{cancel, cancel_at, canceled_state}
use prompt_pack.AuditZip.Queue.Worker.{
  Codec, Moment, worker_step, retention_step, retention_at, delete_artifacts,
}
use prompt_pack.AuditZip.Queue.Stepped.{Stepped}
use prompt_pack.AuditZip.Queue.Refines.{worker_step-Stepped}
use prompt_pack.AuditZip.Queue.Fits.{Fits, JobStep-Fits, canceled_state-Fits}
use prompt_pack.AuditZip.Queue.Invariant.{
  IsValid, same_job, JobStep-SameJob, written-IsValid, holds-le-held,
}

room_for_slot : (n : ℕ) (cap : ℤ) → ltb_ℤ (pos n) cap ≡ true → suc n ≤ pos_part cap
room_for_slot n (pos c) h = ground arith
room_for_slot n (negsuc c) h = ground arith

pub new_job_queue-IsValid : {S : Type 0} (s : S) (cfg : Config) → IsValid (new_job_queue s cfg)
unfolding new_job_queue find
new_job_queue-IsValid s cfg = record {
  linked = λ p st h. absurd (cc);
  jobs_point = λ k p h. absurd (cc);
  keys_point = λ k p h. absurd (cc);
  criteria_point = λ k p h. absurd (cc);
  fits = λ p st h. absurd (cc);
  balanced = refl;
  capped = omega arith;
}

module _ {S : Type 0} (q : JobQueue S) (v : IsValid q) where
  Stepped-IsValid :
      (timer : Bool) (p : ℕ) (st : JobState) (q' : JobQueue S)
      → get_elem? q.heap p ≡ some st
      → Stepped timer q p st q'
      → IsValid q'
  Stepped-IsValid timer p st q' own s = subst IsValid (sym written) (
      written-IsValid q p st s.after own v q'.storage q'.slots (JobStep-SameJob q.cfg st s.step)
        (JobStep-Fits q.cfg st (v.fits p st own) s.step) s.slots room)
    where
      written :
          q' ≡ record q { heap = set q.heap p s.after; storage = q'.storage; slots = q'.slots }
      written = λ i. record {
        jobs = s.jobs i;
        by_key = s.by_key i;
        by_criteria = s.by_criteria i;
        heap = s.heap i;
        storage = q'.storage;
        cfg = s.cfg i;
        slots = q'.slots;
      }

      room : q'.slots ≤ pos_part q.cfg.max_concurrent_jobs
      room = elim s.capped [
        | inl less ↦ omega (arith, less, v.capped)
        | inr (free, e) ↦ omega (arith, e, room_for_slot q.slots q.cfg.max_concurrent_jobs free)
      ]

  pub worker_step-IsValid :
      (api : StorageApi S) (codec : Codec) (p : ℕ) (m : Moment)
      → IsValid (worker_step api codec q p m)
  worker_step-IsValid api codec p m = elim (Option-cases (get_elem? q.heap p)) [
    | inl gone ↦ unfold worker_step in rw (gone, worker_step) v
    | inr (st, own) ↦ Stepped-IsValid m.timer p st (worker_step api codec q p m) own (
        worker_step-Stepped api codec m q p st own
          (omega (arith, v.balanced, holds-le-held q.heap p st own)) (v.linked p st own))
  ]

  retention_at-IsValid :
      (api : StorageApi S) (codec : Codec) (p : ℕ) (m : Moment) (st : JobState) (n : ℕ)
      → get_elem? q.heap p ≡ some st
      → IsValid (retention_at api codec q p m st n)
  unfolding retention_at
  retention_at-IsValid api codec p m st zero own = v
  retention_at-IsValid api codec p m st (suc n) own = elim (Bool-cases m.timer) [
    | inl over ↦
        subst IsValid (sym (if_true _ _ over))
          (ended (delete_artifacts api codec q.cfg st q.storage))
    | inr early ↦ elim (Bool-cases st.ctx_done) [
      | inl done ↦ subst IsValid (sym (if_false _ _ early ∙ if_true _ _ done)) (ended q.storage)
      | inr on ↦ subst IsValid (sym (if_false _ _ early ∙ if_false _ _ on)) v
    ]
  ]
    where
      fit : Fits q.cfg (record st { retentions = n })
      fit =
          let f = v.fits p st own in
          record {
            place = f.place;
            percent = f.percent;
            unstarted = f.unstarted;
            retries = f.retries;
          }

      ended :
          (s : S)
          → IsValid (record q { heap = set q.heap p (record st { retentions = n }); storage = s })
      ended s =
          written-IsValid q p st (record st { retentions = n }) own v s q.slots
            (same_job st _ _ _ _ refl) fit refl v.capped

  pub retention_step-IsValid :
      (api : StorageApi S) (codec : Codec) (p : ℕ) (m : Moment)
      → IsValid (retention_step api codec q p m)
  unfolding retention_step
  retention_step-IsValid api codec p m = elim (Option-cases (get_elem? q.heap p)) [
    | inl gone ↦ rw (gone, retention_step) v
    | inr (st, own) ↦
        rw (own, retention_step) (retention_at-IsValid api codec p m st st.retentions own)
  ]

  cancel_at-IsValid :
      (now : Time) (tenant_id job_id : String) (p : ℕ)
      → find q.jobs job_id ≡ some p
      → (o : Option JobState) → get_elem? q.heap p ≡ o
      → IsValid (cancel_at q now tenant_id job_id p o).0
  unfolding cancel_at
  cancel_at-IsValid now tenant_id job_id p at none own = v
  cancel_at-IsValid now tenant_id job_id p at (some st) own =
      elim (Bool-cases (st.tenant_id == tenant_id)) [
        | inr other ↦ rw other v
        | inl mine ↦ elim (run_cases st.job.status) [
          | inr still ↦ rw (mine, still) v
          | inl (on, run) ↦
              rw (mine, on, put_found q.jobs job_id p at)
                (written-IsValid q p st (canceled_state now st) own v q.storage q.slots
                  (unfold canceled_state in same_job st _ _ _ _ refl)
                  (canceled_state-Fits q.cfg st (v.fits p st own) now run)
                  (unfold canceled_state in refl) v.capped)
        ]
      ]
    where
      run_cases :
          (s : AuditZipJobStatus) → ((is_running s ≡ true) × (s ≡ running)) ⊎ (is_running s ≡ false)
      run_cases running = inl (refl, refl)
      run_cases queued = inr refl
      run_cases succeeded = inr refl
      run_cases failed = inr refl
      run_cases canceled = inr refl

  pub cancel-IsValid :
      (now : Time) (tenant_id job_id : String) → IsValid (cancel q now tenant_id job_id).0
  unfolding cancel
  cancel-IsValid now tenant_id job_id = elim (Option-cases (find q.jobs job_id)) [
    | inl gone ↦ rw (gone, cancel) v
    | inr (p, at) ↦
        rw (at, cancel) (cancel_at-IsValid now tenant_id job_id p at (get_elem? q.heap p) refl)
  ]
