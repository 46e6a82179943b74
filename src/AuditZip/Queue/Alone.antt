-- ===== src/AuditZip/Queue/Alone.antt =====
-- One goroutine of the job queue run to its end, and what the other jobs notice of it.
use prompt_pack.Base.{
  ℕ, zero, suc, ◌+◌, ◌≡◌, refl, sym, ap, ◌∙◌, ◌≢◌, true, some, List, [], ◌∷◌, arith,
}
use native.Mathlib.Decide.{ℕ_discrete}
use prompt_pack.Base.Lists.{
  length, get_elem?, set, All, get_elem?-set_self, get_elem?-set_ne, set-set, set_found, length-set,
}
use prompt_pack.AuditZip.Types.{Time, queued}
use prompt_pack.AuditZip.Storage.{StorageApi}
use prompt_pack.AuditZip.JobState.{JobState, JobQueue, finished}
use prompt_pack.AuditZip.Queue.Worker.{Codec, Moment, worker_step}
use prompt_pack.AuditZip.Queue.Stepped.{holds_slot}
use prompt_pack.AuditZip.Queue.Settled.{budget}
use prompt_pack.AuditZip.Queue.Refines.{worker_step-Stepped}
use prompt_pack.AuditZip.Queue.Invariant.{IsValid, holds-le-held, held_slots, held_slots-set}
use prompt_pack.AuditZip.Queue.Preserve.{worker_step-IsValid}
use prompt_pack.AuditZip.Queue.Reach.{Work, idle, worked, Work-Reach, Reach-IsValid}
use prompt_pack.AuditZip.Queue.Run.{
  run_worker, run_worker_ends, run_worker-finished, HasRoom, is_free,
}
use mathlib.Core.Option.{some-injective}

-- Moments at which the clock shows `t` and each timer fires.
abbrev pub moments : Time → ℕ → List Moment
moments t zero = []
moments t (suc n) = record { now = t; timer = true } ∷ moments t n

moments-timer : (t : Time) (n : ℕ) → All (λ m. m.timer ≡ true) (moments t n)
moments-timer t zero = tt
moments-timer t (suc n) = (refl, moments-timer t n)

length-moments : (t : Time) (n : ℕ) → length (moments t n) ≡ n
length-moments t zero = refl
length-moments t (suc n) = ap suc (length-moments t n)

module _ {S : Type 0} (api : StorageApi S) (codec : Codec) where
  Work-Work : {q r s : JobQueue S} → Work api codec q r → Work api codec r s → Work api codec q s
  Work-Work a idle = a
  Work-Work a (worked p m b e) = worked p m (Work-Work a b) e

  -- What happens to the queue while other jobs come to their end.
  pub record Progress (q q' : JobQueue S) : Type 0 where
    pub work : Work api codec q q'
    pub valid : IsValid q'
    pub cfg : q'.cfg ≡ q.cfg
    pub size : length q'.heap ≡ length q.heap
    pub keeps :
        (i : ℕ) (x : JobState)
        → get_elem? q.heap i ≡ some x
        → x.worker ≡ finished
        → get_elem? q'.heap i ≡ some x

  pub Progress-same : (q : JobQueue S) → IsValid q → Progress q q
  Progress-same q v = record {
    work = idle;
    valid = v;
    cfg = refl;
    size = refl;
    keeps = λ i x h e. h;
  }

  pub Progress-then : {q r s : JobQueue S} → Progress q r → Progress r s → Progress q s
  Progress-then a b = record {
    work = Work-Work a.work b.work;
    valid = b.valid;
    cfg = b.cfg ∙ a.cfg;
    size = b.size ∙ a.size;
    keeps = λ i x h e. b.keeps i x (a.keeps i x h e) e;
  }

  -- The steps of one goroutine write one state.
  run_worker-writes :
      (q : JobQueue S) (p : ℕ) (st : JobState) (ms : List Moment)
      → IsValid q
      → get_elem? q.heap p ≡ some st
      → let q' = run_worker api codec q p ms in
        Work api codec q q' × (q'.cfg ≡ q.cfg) × ((x : JobState) × (q'.heap ≡ set q.heap p x))
  unfolding run_worker
  run_worker-writes q p st [] v own = (idle, refl, (st, sym (set_found q.heap p st own)))
  run_worker-writes q p st (m ∷ ms) v own =
      let s =
        worker_step-Stepped api codec m q p st own
          (omega (arith, v.balanced, holds-le-held q.heap p st own)) (v.linked p st own) in
      let q' = worker_step api codec q p m in
      let own' : get_elem? q'.heap p ≡ some s.after =
        ap (λ (h : List JobState). get_elem? h p) s.heap
        ∙ get_elem?-set_self q.heap p st s.after own in
      let (r, c, (x, e)) =
        run_worker-writes q' p s.after ms (worker_step-IsValid q v api codec p m) own' in
      (
        Work-Work (worked p m idle refl) r,
        c ∙ s.cfg,
        (x, e ∙ ap (λ (h : List JobState). set h p x) s.heap ∙ set-set q.heap p s.after x),
      )

  -- The job has come to its end.
  abbrev pub HasEnded : JobQueue S → ℕ → Type 0
  HasEnded q p =
      (st : JobState) × (get_elem? q.heap p ≡ some st)
      × (st.worker ≡ finished)
      × (st.job.status ≢ queued)

  -- With room for it, a job comes to its end, and gives its slot back.
  pub run_with_room :
      (t : Time) (q : JobQueue S) (p : ℕ) (st : JobState)
      → IsValid q
      → get_elem? q.heap p ≡ some st
      → HasRoom st.worker (is_free api codec q)
      → (q' : JobQueue S) × Progress q q'
        × HasEnded q' p
        × (q'.slots + holds_slot st.worker ≡ q.slots)
        × ((i : ℕ) → i ≢ p → get_elem? q'.heap i ≡ get_elem? q.heap i)
  run_with_room t q p st v own room =
      let ms = moments t (budget q.cfg st.worker) in
      let q' = run_worker api codec q p ms in
      let (r, c, (x, e)) = run_worker-writes q p st ms v own in
      let (st', own', done, off) =
        run_worker_ends api codec q p st ms v own (moments-timer t (budget q.cfg st.worker)) room
          (omega (arith, length-moments t (budget q.cfg st.worker))) in
      let v' = Reach-IsValid api codec v (Work-Reach api codec r) in
      let there : (i : ℕ) → i ≢ p → get_elem? q'.heap i ≡ get_elem? q.heap i = λ i ne.
        ap (λ (h : List JobState). get_elem? h i) e
        ∙ get_elem?-set_ne q.heap p i x (λ s. ne (sym s)) in
      let same : some x ≡ some st' =
        sym (get_elem?-set_self q.heap p st x own)
        ∙ ap (λ (h : List JobState). get_elem? h p) (sym e)
        ∙ own' in
      (
        q',
        record {
          work = r;
          valid = v';
          cfg = c;
          size = ap (length) e ∙ length-set q.heap p x;
          keeps = λ i y g fin. elim (ℕ_discrete i p) [
            | yes at ↦
                ap (λ (r : JobQueue S). get_elem? r.heap i)
                  (run_worker-finished api codec q p y ms (ap (get_elem? q.heap) (sym at) ∙ g) fin)
                ∙ g
            | no ne ↦ there i ne ∙ g
          ];
        },
        (st', own', done, off),
        omega (
          arith,
          held_slots-set q.heap p st x own,
          ap held_slots e,
          v.balanced,
          v'.balanced,
          ap holds_slot (ap (λ (y : JobState). y.worker) (some-injective x st' same) ∙ done),
        ),
        there,
      )
