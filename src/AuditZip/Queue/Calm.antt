-- ===== src/AuditZip/Queue/Calm.antt =====
-- Runs of the queue in which no cancellation is overwritten.
use prompt_pack.Base.{ℕ, ◌≡◌, refl, sym, ap, ◌∙◌, inl, inr, true, some, arith, not}
use prompt_pack.Base.Lists.{get_elem?}
use prompt_pack.AuditZip.Types.{
  AuditZipJob, AuditZipJobStatus, queued, running, succeeded, failed, canceled,
}
use prompt_pack.AuditZip.Storage.{StorageApi}
use prompt_pack.AuditZip.JobState.{JobState, JobQueue, is_active, is_terminal}
use prompt_pack.AuditZip.Queue.Worker.{Codec}
use prompt_pack.AuditZip.Queue.Invariant.{IsValid}
use prompt_pack.AuditZip.Queue.Changes.{Changed}
use prompt_pack.AuditZip.Queue.History.{Change-IsSettled}
use prompt_pack.AuditZip.Queue.Reach.{Step, Step-IsValid}
use prompt_pack.AuditZip.Queue.Entries.{is_active-found}

-- A step after which every job that was canceled still is.
abbrev pub KeepsCanceled : {S : Type 0} → JobQueue S → JobQueue S → Type 0
KeepsCanceled q q' =
    (p : ℕ) (st st' : JobState)
    → get_elem? q.heap p ≡ some st
    → get_elem? q'.heap p ≡ some st'
    → st.job.status ≡ canceled
    → st'.job.status ≡ canceled

module _ {S : Type 0} (api : StorageApi S) (codec : Codec) where
  -- A run of such steps.
  pub data Calm (q : JobQueue S) : JobQueue S → Type 0 where
    calm : Calm q q
    after : {r q' : JobQueue S} → Calm q r → Step api codec r q' → KeepsCanceled r q' → Calm q q'

  -- A job that is active after such a step was active before.
  pub Changed-is_active :
      (q q' : JobQueue S) (p : ℕ) (st : JobState)
      → IsValid q
      → KeepsCanceled q q'
      → get_elem? q.heap p ≡ some st
      → Changed p q.cfg st q'.heap
      → is_active q'.heap p ≡ true
      → is_active q.heap p ≡ true
  unfolding is_terminal
  Changed-is_active q q' p st v keeps own (st', at, c) active = by_status st.job.status refl
    where
      still : not (is_terminal st'.job.status) ≡ true
      still = sym (is_active-found q'.heap p st' at) ∙ active

      by_status : (s : AuditZipJobStatus) → st.job.status ≡ s → is_active q.heap p ≡ true
      by_status queued e =
          is_active-found q.heap p st own ∙ ap (λ (x : AuditZipJobStatus). not (is_terminal x)) e
      by_status running e =
          is_active-found q.heap p st own ∙ ap (λ (x : AuditZipJobStatus). not (is_terminal x)) e
      by_status succeeded e =
          is_active-found q.heap p st own
          ∙ ap (λ (x : AuditZipJob). not (is_terminal x.status))
              (sym (Change-IsSettled q.cfg st st' (v.fits p st own) (inl e) c))
          ∙ still
      by_status failed e =
          is_active-found q.heap p st own
          ∙ ap (λ (x : AuditZipJob). not (is_terminal x.status))
              (sym (Change-IsSettled q.cfg st st' (v.fits p st own) (inr e) c))
          ∙ still
      by_status canceled e = absurd (ground (arith, still, keeps p st st' own at e))

  pub Calm-IsValid : {q q' : JobQueue S} → IsValid q → Calm q q' → IsValid q'
  Calm-IsValid v calm = v
  Calm-IsValid v (after before step keeps) = Step-IsValid api codec step (Calm-IsValid v before)
