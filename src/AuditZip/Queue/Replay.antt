-- ===== src/AuditZip/Queue/Replay.antt =====
-- What `Enqueue` answers to a request that repeats an accepted one, however much later.
use prompt_pack.Base.{
  ℕ, String, ◌≡◌, refl, sym, ap, subst, ◌∙◌, inl, inr, false, Option, none, some, arith, eq_iff,
}
use mathlib.Core.Option.{none-ne-some}
use prompt_pack.Base.Tests.{Option-cases}
use prompt_pack.Base.Lists.{get_elem?, length}
use prompt_pack.Base.Dict.{Dict, find, find-put_ne}
use prompt_pack.AuditZip.Types.{Time, AuditZipJob, AuditZipRequest}
use prompt_pack.AuditZip.Storage.{StorageApi}
use prompt_pack.AuditZip.JobState.{JobState, JobQueue, Reply, ok, state_at}
use prompt_pack.AuditZip.Queue.{
  enqueue, get, insert_state, scoped_key, queue_full, replay_or_conflict,
}
use prompt_pack.AuditZip.Queue.Worker.{Codec}
use prompt_pack.AuditZip.Queue.Invariant.{IsValid}
use prompt_pack.AuditZip.Queue.Insert.{enqueue-IsValid}
use prompt_pack.AuditZip.Queue.Changes.{Change-SameJob}
use prompt_pack.AuditZip.Queue.History.{Step-Changed}
use prompt_pack.AuditZip.Queue.Idempotency.{
  enqueue-Outcome, full, known, busy, fresh, accepted-Keyed,
}
use prompt_pack.AuditZip.Queue.Entries.{
  cancel-SameMaps, retention_step-SameMaps, worker_step-SameMaps,
}
use prompt_pack.AuditZip.Queue.Reach.{
  Step, enqueues, cancels, works, retains, Reach, here, next, Reach-IsValid,
}

-- A key leads to a job with these data.
record Leads {S : Type 0} (q : JobQueue S) (key : String) (job_id tenant_id hash : String)
    : Type 0 where
  pointer : ℕ
  state : JobState
  found : find q.by_key key ≡ some pointer
  own : get_elem? q.heap pointer ≡ some state
  id : state.job.job_id ≡ job_id
  tenant : state.tenant_id ≡ tenant_id
  criteria : state.criteria_hash ≡ hash

-- A lookup that finds a job never lets a request in.
found-ne-none :
    (st : JobState) (tenant_id hash : String)
    → ¬ (replay_or_conflict (some st) tenant_id hash ≡ none)
unfolding replay_or_conflict
found-ne-none st tenant_id hash h = ground (arith, h)

module _ {S : Type 0} (q : JobQueue S) (key : String) (p : ℕ) (st : JobState)
    (found : find q.by_key key ≡ some p) (own : get_elem? q.heap p ≡ some st) where
  -- `Enqueue` never overwrites a key.
  enqueue-found :
      (now : Time) (job_id tenant_id idempotency_key hash : String) (req : AuditZipRequest)
      → find (enqueue q now job_id tenant_id idempotency_key hash req).0.by_key key ≡ some p
  unfolding insert_state
  enqueue-found now job_id tenant_id idempotency_key hash req =
      elim (enqueue-Outcome q now job_id tenant_id idempotency_key hash req) [
        | full _ r ↦ kept r
        | known a h r ↦ kept r
        | busy a h r ↦ kept r
        | fresh unknown d r ↦
            ap (λ (x : JobQueue S × Reply). find x.0.by_key key) r
            ∙ (find-put_ne q.by_key (scoped_key tenant_id idempotency_key) key (length q.heap) (λ e.
                found-ne-none st tenant_id hash (
                  sym (
                    ap (λ (o : Option JobState). replay_or_conflict o tenant_id hash)
                      (ap (λ (k : String). state_at q.heap (find q.by_key k)) e
                        ∙ ap (state_at q.heap) found
                        ∙ own))
                  ∙ unknown)))
            ∙ found
      ]
    where
      kept : {r : JobQueue S × Reply} {a : Reply} → r ≡ (q, a) → find r.0.by_key key ≡ some p
      kept e = ap (λ (x : JobQueue S × Reply). find x.0.by_key key) e ∙ found

module _ {S : Type 0} (api : StorageApi S) (codec : Codec)
    (key job_id tenant_id hash : String) where
  Step-found :
      (q q' : JobQueue S) (p : ℕ) (st : JobState)
      → IsValid q
      → find q.by_key key ≡ some p
      → get_elem? q.heap p ≡ some st
      → Step api codec q q'
      → find q'.by_key key ≡ some p
  Step-found q q' p st v found own (enqueues now id tenant k h req unused e) =
      ap (λ (x : JobQueue S). find x.by_key key) e
      ∙ enqueue-found q key p st found own now id tenant k h req
  Step-found q q' p st v found own (cancels now tenant id e) =
      ap (λ (x : JobQueue S). find x.by_key key) e
      ∙ ap (λ (m : Dict ℕ). find m key) (cancel-SameMaps q now tenant id).2
      ∙ found
  Step-found q q' p st v found own (works i m e) =
      ap (λ (x : JobQueue S). find x.by_key key) e
      ∙ ap (λ (m : Dict ℕ). find m key) (worker_step-SameMaps q api codec i m v).2
      ∙ found
  Step-found q q' p st v found own (retains i m e) =
      ap (λ (x : JobQueue S). find x.by_key key) e
      ∙ ap (λ (m : Dict ℕ). find m key) (retention_step-SameMaps q api codec i m).2
      ∙ found

  Reach-Leads :
      (q q' : JobQueue S)
      → IsValid q
      → Leads q key job_id tenant_id hash
      → Reach api codec q q'
      → Leads q' key job_id tenant_id hash
  Reach-Leads q q' v l here = l
  Reach-Leads q q' v l (next {r = r} before s) =
      let k = Reach-Leads q r v l before in
      let w = Reach-IsValid api codec v before in
      let (st', at, c) = Step-Changed api codec r k.pointer k.state w k.own s in
      let same = Change-SameJob r.cfg k.state st' c in
      record {
        pointer = k.pointer;
        state = st';
        found = Step-found r q' k.pointer k.state w k.found k.own s;
        own = at;
        id = same.job_id ∙ k.id;
        tenant = same.tenant_id ∙ k.tenant;
        criteria = same.criteria_hash ∙ k.criteria;
      }

module _ {S : Type 0} (api : StorageApi S) (codec : Codec) (q q' q'' : JobQueue S) (now : Time)
    (job_id tenant_id key hash : String) (req : AuditZipRequest) (job : AuditZipJob) where
  accepted-Leads :
      enqueue q now job_id tenant_id key hash req ≡ (q', ok job)
      → Leads q' (scoped_key tenant_id key) job.job_id tenant_id hash
  accepted-Leads accepted =
      let (st, at, j, c, t) = accepted-Keyed q now job_id tenant_id key hash req q' job accepted in
      elim (Option-cases (find q'.by_key (scoped_key tenant_id key))) [
        | inl gone ↦ absurd (none-ne-some st (sym (ap (state_at q'.heap) gone) ∙ at))
        | inr (p, found) ↦ record {
          pointer = p;
          state = st;
          found = found;
          own = sym (ap (state_at q'.heap) found) ∙ at;
          id = ap (λ (x : AuditZipJob). x.job_id) j;
          tenant = t;
          criteria = c;
        }
      ]

  replayed :
      (later : Time) (job_id' : String) (req' : AuditZipRequest) (st : JobState)
      → queue_full q'' ≡ false
      → state_at q''.heap (find q''.by_key (scoped_key tenant_id key)) ≡ some st
      → st.tenant_id ≡ tenant_id
      → st.criteria_hash ≡ hash
      → enqueue q'' later job_id' tenant_id key hash req' ≡ (q'', ok st.job)
  unfolding enqueue replay_or_conflict
  replayed later job_id' req' st room at t c =
      ground (arith, room, at, eq_iff st.criteria_hash hash, eq_iff st.tenant_id tenant_id, c, t)

  looked_up :
      (p : ℕ) (st : JobState)
      → find q''.jobs job.job_id ≡ some p
      → get_elem? q''.heap p ≡ some st
      → get q'' job.job_id ≡ some (st.job, st.tenant_id)
  unfolding get
  looked_up p st found at = rw (found, get, at) refl

  -- Once a valid queue has accepted a request, the same tenant's request with the same idempotency key
  -- and criteria hash gets the same job, as it is by then, and starts none, the queue unchanged: after
  -- any interleaving of requests, goroutines and timers, however many steps later, and whatever became of the job.
  -- The conditions are that `uuid.New` repeats no id, and that the queue is not at its depth limit
  -- when the request is repeated, which `Enqueue` tests first.
  pub enqueue_replay :
      IsValid q
      → find q.jobs job_id ≡ none
      → enqueue q now job_id tenant_id key hash req ≡ (q', ok job)
      → Reach api codec q' q''
      → queue_full q'' ≡ false
      → (later : Time) (job_id' : String) (req' : AuditZipRequest)
      → (job' : AuditZipJob) × (get q'' job.job_id ≡ some (job', tenant_id))
        × (job'.job_id ≡ job.job_id)
        × (enqueue q'' later job_id' tenant_id key hash req' ≡ (q'', ok job'))
  enqueue_replay v unused accepted run room later job_id' req' =
      let v' : IsValid q' =
        subst (λ (r : JobQueue S × Reply). IsValid r.0) accepted
          (enqueue-IsValid q v now job_id tenant_id key hash req unused) in
      let l =
        Reach-Leads api codec (scoped_key tenant_id key) job.job_id tenant_id hash q' q'' v'
          (accepted-Leads accepted) run in
      let v'' = Reach-IsValid api codec v' run in
      (
        l.state.job,
        looked_up l.pointer l.state
              (ap (find q''.jobs) (sym l.id) ∙ v''.linked l.pointer l.state l.own) l.own
            ∙ ap (λ (t : String). some (l.state.job, t)) l.tenant,
        l.id,
        replayed later job_id' req' l.state room (ap (state_at q''.heap) l.found ∙ l.own) l.tenant
            l.criteria,
      )
