-- ===== src/AuditZip/Queue/Distinct.antt =====
-- `Enqueue` lets no second job in for what a job that is not finished does already, for as long as no
-- goroutine overwrites a cancellation.
pub mod Tests
use mathlib.Core.Option.{some-injective, none-ne-some}
use mathlib.Core.Path.{ap₂}
use native.Mathlib.Decide.{ℕ_discrete}
use prompt_pack.Base.{
  ℕ, String, ◌≡◌, ◌≢◌, refl, sym, ap, subst, ◌∙◌, inl, inr, Bool, true, false, Option, none, some,
  List, [], ◌∷◌, ◌++◌, arith, not, ◌==◌, eq_iff,
}
use prompt_pack.Base.Tests.{Bool-cases}
use prompt_pack.Base.Lists.{
  length, get_elem?, get_elem?-lt, get_elem?-at, get_elem?-append_end, get_elem?-append_one,
}
use prompt_pack.Base.Dict.{Dict, find, put, find-put, find-put_self}
use prompt_pack.AuditZip.Types.{Time, Config, AuditZipRequest}
use prompt_pack.AuditZip.Storage.{StorageApi}
use prompt_pack.AuditZip.JobState.{
  JobState, JobQueue, Reply, is_active, is_terminal, new_job_queue, state_at,
}
use prompt_pack.AuditZip.Queue.{enqueue, insert_state, new_state, scoped_key, duplicate}
use prompt_pack.AuditZip.Queue.Worker.{Codec}
use prompt_pack.AuditZip.Queue.Invariant.{IsValid, criteria_name}
use prompt_pack.AuditZip.Queue.Preserve.{new_job_queue-IsValid}
use prompt_pack.AuditZip.Queue.Idempotency.{enqueue-Outcome, full, known, busy, fresh}
use prompt_pack.AuditZip.Queue.History.{Step-Changed}
use prompt_pack.AuditZip.Queue.Reach.{Step, enqueues, cancels, works, retains, Step-IsValid}
use prompt_pack.AuditZip.Queue.Entries.{
  SameMaps, is_active-found, cancel-SameMaps, retention_step-SameMaps, worker_step-SameMaps,
}
use prompt_pack.AuditZip.Queue.Calm.{
  KeepsCanceled, Calm, calm, after, Changed-is_active, Calm-IsValid,
}

-- The criteria of each active job lead to it.
abbrev Leads : {S : Type 0} → JobQueue S → Type 0
Leads q =
    (p : ℕ) (st : JobState)
    → get_elem? q.heap p ≡ some st
    → is_active q.heap p ≡ true
    → find q.by_criteria (criteria_name st) ≡ some p

-- A lookup that finds no unfinished job does not lead to an active one.
not_duplicate :
    (heap : List JobState) (p : ℕ) (st : JobState)
    → duplicate (state_at heap (some p)) ≡ none
    → get_elem? heap p ≡ some st
    → is_active heap p ≡ false
unfolding duplicate
not_duplicate heap p st none_there at = ground (arith, at, none_there, is_active-found heap p st at)

module _ {S : Type 0} (q : JobQueue S) (leads : Leads q) where
  insert_state-Leads :
      (now : Time) (job_id tenant_id key hash : String) (req : AuditZipRequest)
      → duplicate (state_at q.heap (find q.by_criteria (scoped_key tenant_id hash))) ≡ none
      → Leads (
          insert_state q job_id
            (scoped_key tenant_id key)
            (scoped_key tenant_id hash)
            (new_state now job_id tenant_id key hash req))
  unfolding insert_state new_state
  insert_state-Leads now job_id tenant_id key hash req none_there p st at active =
      let new = new_state now job_id tenant_id key hash req in
      let k = scoped_key tenant_id hash in
      elim (ℕ_discrete p (length q.heap)) [
        | yes here ↦
            let e : new ≡ st = some-injective new st (
              sym (get_elem?-append_end q.heap new)
              ∙ ap (get_elem? (q.heap ++ new ∷ [])) (sym here)
              ∙ at) in
            subst
              (λ (x : JobState).
                find (put q.by_criteria k (length q.heap)) (criteria_name x) ≡ some p)
              e (find-put_self q.by_criteria k (length q.heap) ∙ ap some (sym here))
        | no there ↦
            let own = get_elem?-append_one q.heap new p st at there in
            let was : is_active q.heap p ≡ true =
              is_active-found q.heap p st own
              ∙ sym (is_active-found (q.heap ++ new ∷ []) p st at)
              ∙ active in
            let led = leads p st own was in
            elim (Bool-cases (k == criteria_name st)) [
              | inr other ↦
                  ground
                    (arith, find-put q.by_criteria k (criteria_name st) (length q.heap), other, led)
              | inl same ↦
                  let found : find q.by_criteria k ≡ some p =
                    ap (find q.by_criteria) ((eq_iff k (criteria_name st)).0 same) ∙ led in
                  let stale =
                    not_duplicate q.heap p st
                      (ap (λ (o : Option ℕ). duplicate (state_at q.heap o)) (sym found)
                        ∙ none_there)
                      own in
                  absurd (ground (arith, was, stale))
            ]
      ]

  enqueue-Leads :
      (now : Time) (job_id tenant_id key hash : String) (req : AuditZipRequest)
      → Leads (enqueue q now job_id tenant_id key hash req).0
  enqueue-Leads now job_id tenant_id key hash req =
      elim (enqueue-Outcome q now job_id tenant_id key hash req) [
        | full _ r ↦ subst (λ (x : JobQueue S × Reply). Leads x.0) (sym r) leads
        | known a h r ↦ subst (λ (x : JobQueue S × Reply). Leads x.0) (sym r) leads
        | busy a h r ↦ subst (λ (x : JobQueue S × Reply). Leads x.0) (sym r) leads
        | fresh _ d r ↦
            subst (λ (x : JobQueue S × Reply). Leads x.0) (sym r)
              (insert_state-Leads now job_id tenant_id key hash req d)
      ]

module _ {S : Type 0} (api : StorageApi S) (codec : Codec) where
  other-Leads :
      (q q' : JobQueue S)
      → IsValid q
      → Leads q
      → Step api codec q q'
      → KeepsCanceled q q'
      → SameMaps q q'
      → Leads q'
  other-Leads q q' v leads s keeps (jobs, criteria, _) p st at active =
      let v' = Step-IsValid api codec s v in
      let (x, own, _) =
        v.jobs_point st.job.job_id p
          (ap (λ (m : Dict ℕ). find m st.job.job_id) (sym jobs) ∙ v'.linked p st at) in
      let led = leads p x own (
        Changed-is_active api codec q q' p x v keeps own (Step-Changed api codec q p x v own s)
          active) in
      let there : find q'.by_criteria (criteria_name x) ≡ some p =
        ap (λ (m : Dict ℕ). find m (criteria_name x)) criteria ∙ led in
      let (y, at', named) = v'.criteria_point (criteria_name x) p there in
      ap (find q'.by_criteria) (ap criteria_name (some-injective st y (sym at ∙ at')) ∙ named)
      ∙ there

  Step-Leads :
      (q q' : JobQueue S)
      → IsValid q
      → Leads q
      → Step api codec q q'
      → KeepsCanceled q q'
      → Leads q'
  Step-Leads q q' v leads (enqueues now job_id tenant_id key hash req unused e) keeps =
      subst Leads (sym e) (enqueue-Leads q leads now job_id tenant_id key hash req)
  Step-Leads q q' v leads (cancels now tenant_id job_id e) keeps =
      other-Leads q q' v leads (cancels now tenant_id job_id e) keeps
        (subst (SameMaps q) (sym e) (cancel-SameMaps q now tenant_id job_id))
  Step-Leads q q' v leads (works p m e) keeps =
      other-Leads q q' v leads (works p m e) keeps
        (subst (SameMaps q) (sym e) (worker_step-SameMaps q api codec p m v))
  Step-Leads q q' v leads (retains p m e) keeps =
      other-Leads q q' v leads (retains p m e) keeps
        (subst (SameMaps q) (sym e) (retention_step-SameMaps q api codec p m))

  calm-Leads :
      (s : S) (cfg : Config) (q : JobQueue S) → Calm api codec (new_job_queue s cfg) q → Leads q
  unfolding new_job_queue
  calm-Leads s cfg q calm = λ p st at active. absurd (none-ne-some st at)
  calm-Leads s cfg q (after {r = r} before step keeps) =
      Step-Leads r q (Calm-IsValid api codec (new_job_queue-IsValid s cfg) before)
        (calm-Leads s cfg r before) step keeps

  -- Whatever clients, goroutines and timers do to a new queue, in any interleaving, two jobs of one
  -- tenant that are queued or running at once differ in their criteria hash, as long as `uuid.New`
  -- repeats no id and no step takes a job out of its cancellation, as goroutines can.
  pub active_distinct :
      (s : S) (cfg : Config) (q : JobQueue S) (i j : ℕ) (st st' : JobState)
      → Calm api codec (new_job_queue s cfg) q
      → i ≢ j
      → get_elem? q.heap i ≡ some st
      → get_elem? q.heap j ≡ some st'
      → is_active q.heap i ≡ true
      → is_active q.heap j ≡ true
      → st.tenant_id ≡ st'.tenant_id
      → st.criteria_hash ≢ st'.criteria_hash
  active_distinct s cfg q i j st st' run two at at' active active' tenant criteria =
      let leads = calm-Leads s cfg q run in
      two (
        some-injective i j (
          sym (leads i st at active)
          ∙ ap (find q.by_criteria) (ap₂ scoped_key tenant criteria)
          ∙ leads j st' at' active'))
