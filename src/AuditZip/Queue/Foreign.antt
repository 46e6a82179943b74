-- ===== src/AuditZip/Queue/Foreign.antt =====
-- What `Cancel` of apps/api/internal/auditzip/queue.go does with the jobs of other tenants.
use prompt_pack.Base.{ℕ, String, ◌≡◌, refl, ap, ◌≢◌, inl, inr, Option, none, some, arith, eq_iff}
use prompt_pack.Base.Tests.{Option-cases}
use native.Mathlib.Decide.{ℕ_discrete}
use prompt_pack.Base.Lists.{get_elem?, get_elem?-set_ne}
use prompt_pack.Base.Dict.{find}
use prompt_pack.AuditZip.Types.{Time}
use prompt_pack.AuditZip.JobState.{JobState, JobQueue}
use prompt_pack.AuditZip.Queue.{cancel, cancel_at, canceled_state}

module _ {S : Type 0} (q : JobQueue S) (now : Time) (tenant_id job_id : String) (p : ℕ)
    (st : JobState) (own : get_elem? q.heap p ≡ some st) (other : st.tenant_id ≢ tenant_id) where
  cancel_at-unchanged :
      (i : ℕ) (o : Option JobState)
      → get_elem? q.heap i ≡ o
      → get_elem? (cancel_at q now tenant_id job_id i o).0.heap p ≡ some st
  unfolding cancel_at
  cancel_at-unchanged i none at = own
  cancel_at-unchanged i (some x) at = elim (ℕ_discrete i p) [
    | yes here ↦
        ground (arith, own, at, ap (get_elem? q.heap) here, eq_iff st.tenant_id tenant_id, other)
    | no there ↦ ground (arith, own, get_elem?-set_ne q.heap i p (canceled_state now x) there)
  ]

  -- The states of other tenants' jobs stay as they are.
  pub cancel_unchanged : get_elem? (cancel q now tenant_id job_id).0.heap p ≡ some st
  unfolding cancel
  cancel_unchanged = elim (Option-cases (find q.jobs job_id)) [
    | inl gone ↦ rw (gone, cancel) own
    | inr (i, at) ↦ rw (at, cancel) (cancel_at-unchanged i (get_elem? q.heap i) refl)
  ]
