-- ===== src/AuditZip/Queue/Invariant.antt =====
-- The queue's invariant: the maps and the states agree, every job is in line with its goroutine,
-- and the worker slots are those that the goroutines hold.
use native.Mathlib.Decide.{ℕ_discrete}
use mathlib.Core.Path.{subst₂, ap₂}
use mathlib.Core.Option.{some-injective}
use prompt_pack.Base.{
  ℕ, suc, zero, ◌+◌, ◌≤◌, ◌≡◌, refl, sym, ap, subst, ◌∙◌, inl, inr, Bool, some, List, [], ◌∷◌, ◌++◌,
  arith, String,
}
use prompt_pack.Base.Lists.{get_elem?, set, get_elem?-set_self, get_elem?-set_ne}
use prompt_pack.Base.Dict.{find}
use prompt_pack.Base.Int.{pos_part}
use prompt_pack.AuditZip.Types.{Config, AuditZipJob}
use prompt_pack.AuditZip.JobState.{JobState, JobQueue, Worker}
use prompt_pack.AuditZip.Queue.{scoped_key}
use prompt_pack.AuditZip.Queue.Life.{
  JobStep, blocked, take_slot, start, count_retry, proceed, break_off, reach_end, complete, fail,
  try_again, stop, release, Raised,
}
use prompt_pack.AuditZip.Queue.Worker.{mark_started, mark_complete, mark_failed}
use prompt_pack.AuditZip.Queue.Stepped.{holds_slot}
use prompt_pack.AuditZip.Queue.Fits.{Fits}

-- The slots that the goroutines hold.
abbrev pub held_slots : List JobState → ℕ
held_slots [] = 0
held_slots (st ∷ heap) = holds_slot st.worker + held_slots heap

pub held_slots-set :
    (heap : List JobState) (p : ℕ) (st st' : JobState)
    → get_elem? heap p ≡ some st
    → held_slots (set heap p st') + holds_slot st.worker ≡ held_slots heap + holds_slot st'.worker
held_slots-set [] p st st' h = cc
held_slots-set (x ∷ heap) zero st st' h = ground arith
held_slots-set (x ∷ heap) (suc p) st st' h = omega (arith, held_slots-set heap p st st' h)

pub held_slots-append :
    (heap : List JobState) (st : JobState)
    → held_slots (heap ++ st ∷ []) ≡ held_slots heap + holds_slot st.worker
held_slots-append [] st = omega arith
held_slots-append (x ∷ heap) st = omega (arith, held_slots-append heap st)

pub holds-le-held :
    (heap : List JobState) (p : ℕ) (st : JobState)
    → get_elem? heap p ≡ some st
    → holds_slot st.worker ≤ held_slots heap
holds-le-held [] p st h = cc
holds-le-held (x ∷ heap) zero st h = ground arith
holds-le-held (x ∷ heap) (suc p) st h = omega (arith, holds-le-held heap p st h)

-- What identifies a job, and never changes.
pub record SameJob (st st' : JobState) : Type 0 where
  pub job_id : st'.job.job_id ≡ st.job.job_id
  pub tenant_id : st'.tenant_id ≡ st.tenant_id
  pub criteria_hash : st'.criteria_hash ≡ st.criteria_hash
  pub idempotency_key : st'.idempotency_key ≡ st.idempotency_key

pub same_job :
    (st : JobState) (job : AuditZipJob) (w : Worker) (n : ℕ) (done : Bool)
    → job.job_id ≡ st.job.job_id
    → SameJob st (record st { job = job; worker = w; retentions = n; ctx_done = done })
same_job st job w n done e = record {
  job_id = e;
  tenant_id = refl;
  criteria_hash = refl;
  idempotency_key = refl;
}

Raised-job_id : (job job' : AuditZipJob) → Raised job job' → job'.job_id ≡ job.job_id
Raised-job_id job job' (inl e) = ap (λ (j : AuditZipJob). j.job_id) e
Raised-job_id job job' (inr (k, _, _, e)) = ap (λ (j : AuditZipJob). j.job_id) e

pub JobStep-SameJob :
    (cfg : Config) (st : JobState) {room timer : Bool} {st' : JobState}
    → JobStep cfg room timer st st'
    → SameJob st st'
unfolding mark_started mark_complete mark_failed
JobStep-SameJob cfg st (blocked _ e) =
    rw e (same_job st st.job st.worker st.retentions st.ctx_done refl)
JobStep-SameJob cfg st (take_slot t at e) = rw e (same_job st _ _ _ _ refl)
JobStep-SameJob cfg st (start t at e) = rw e (same_job st _ _ _ _ refl)
JobStep-SameJob cfg st (count_retry a at e) = rw e (same_job st _ _ _ _ refl)
JobStep-SameJob cfg st (proceed a w job n at at' falls raised e) =
    rw e (same_job st job w n st.ctx_done (Raised-job_id st.job job raised))
JobStep-SameJob cfg st (break_off a x at e) = rw e (same_job st _ _ _ _ refl)
JobStep-SameJob cfg st (reach_end a url t size at e) = rw e (same_job st _ _ _ _ refl)
JobStep-SameJob cfg st (complete url now t size at e) = rw e (same_job st _ _ _ _ refl)
JobStep-SameJob cfg st (fail x now at e) = rw e (same_job st _ _ _ _ refl)
JobStep-SameJob cfg st (try_again a at e) = rw e (same_job st _ _ _ _ refl)
JobStep-SameJob cfg st (stop a at done e) = rw e (same_job st _ _ _ _ refl)
JobStep-SameJob cfg st (release at e) = rw e (same_job st _ _ _ _ refl)

-- A pointer of one of the maps leads to a state that the key describes.
abbrev pub Points : List JobState → (JobState → String) → String → ℕ → Type 0
Points heap name k p = (st : JobState) × (get_elem? heap p ≡ some st) × (name st ≡ k)

abbrev pub job_name : JobState → String
job_name st = st.job.job_id

abbrev pub key_name : JobState → String
key_name st = scoped_key st.tenant_id st.idempotency_key

abbrev pub criteria_name : JobState → String
criteria_name st = scoped_key st.tenant_id st.criteria_hash

pub record IsValid {S : Type 0} (q : JobQueue S) : Type 0 where
  pub linked :
      (p : ℕ) (st : JobState) → get_elem? q.heap p ≡ some st → find q.jobs st.job.job_id ≡ some p
  pub jobs_point : (k : String) (p : ℕ) → find q.jobs k ≡ some p → Points q.heap job_name k p
  pub keys_point : (k : String) (p : ℕ) → find q.by_key k ≡ some p → Points q.heap key_name k p
  pub criteria_point :
      (k : String) (p : ℕ) → find q.by_criteria k ≡ some p → Points q.heap criteria_name k p
  pub fits : (p : ℕ) (st : JobState) → get_elem? q.heap p ≡ some st → Fits q.cfg st
  pub balanced : held_slots q.heap ≡ q.slots
  pub capped : q.slots ≤ pos_part q.cfg.max_concurrent_jobs

-- A pointer still leads to its job when a state is written that names the same job.
Points-set :
    (heap : List JobState) (name : JobState → String) (p : ℕ) (st st' : JobState)
    → get_elem? heap p ≡ some st
    → name st' ≡ name st
    → (k : String) (i : ℕ) → Points heap name k i
    → Points (set heap p st') name k i
Points-set heap name p st st' own same k i (x, at, e) = elim (ℕ_discrete p i) [
  | yes here ↦ (
    st',
    subst (λ j. get_elem? (set heap p st') j ≡ some st') here
        (get_elem?-set_self heap p st st' own),
    same ∙ cc (at, own, here) ∙ e,
  )
  | no there ↦ (x, get_elem?-set_ne heap p i st' there ∙ at, e)
]

-- What holds of every state still holds when one state is written of which it holds.
pub every_set {ℓ} :
    (P : ℕ → JobState → Type ℓ) (heap : List JobState) (p : ℕ) (st st' : JobState)
    → get_elem? heap p ≡ some st
    → ((i : ℕ) (x : JobState) → get_elem? heap i ≡ some x → P i x)
    → P p st'
    → (i : ℕ) (x : JobState) → get_elem? (set heap p st') i ≡ some x
    → P i x
every_set P heap p st st' own all new i x at = elim (ℕ_discrete p i) [
  | yes here ↦
      subst₂ P here
        (some-injective st' x
          (sym (get_elem?-set_self heap p st st' own) ∙ ap (get_elem? (set heap p st')) here ∙ at))
        new
  | no there ↦ all i x (sym (get_elem?-set_ne heap p i st' there) ∙ at)
]

module _ {S : Type 0} (q : JobQueue S) (p : ℕ) (st st' : JobState)
    (own : get_elem? q.heap p ≡ some st) (v : IsValid q) where
  -- Writing one state of the same job, with the slots in balance, keeps the invariant.
  pub written-IsValid :
      (s : S) (n : ℕ)
      → SameJob st st'
      → Fits q.cfg st'
      → n + holds_slot st.worker ≡ q.slots + holds_slot st'.worker
      → n ≤ pos_part q.cfg.max_concurrent_jobs
      → IsValid (record q { heap = set q.heap p st'; storage = s; slots = n })
  written-IsValid s n same fit balance room = record {
    linked =
        every_set (λ i x. find q.jobs x.job.job_id ≡ some i) q.heap p st st' own v.linked
          (rw same.job_id (v.linked p st own));
    jobs_point =
        λ k i h. Points-set q.heap job_name p st st' own same.job_id k i (v.jobs_point k i h);
    keys_point = λ k i h.
        Points-set q.heap key_name p st st' own (ap₂ scoped_key same.tenant_id same.idempotency_key)
          k i (v.keys_point k i h);
    criteria_point = λ k i h.
        Points-set q.heap criteria_name p st st' own
          (ap₂ scoped_key same.tenant_id same.criteria_hash) k i (v.criteria_point k i h);
    fits = every_set (λ i x. Fits q.cfg x) q.heap p st st' own v.fits fit;
    balanced = omega (arith, held_slots-set q.heap p st st' own, v.balanced);
    capped = room;
  }
