-- ===== src/AuditZip/Queue/Depth.antt =====
-- `MaxQueueDepth` bounds the jobs that are neither finished nor canceled, for as long as no goroutine
-- overwrites a cancellation.
pub mod Tests
use prompt_pack.Base.{
  ℕ, ◌-◌, ◌<◌, ◌≤◌, String, ◌≡◌, refl, sym, ap, subst, ◌∙◌, inl, inr, true, false, none, some, [],
  ◌∷◌, ◌++◌, arith, not, ◌&&◌,
}
use native.Mathlib.Decide.{ℕ_discrete}
use prompt_pack.Base.Tests.{Bool-cases, if_true}
use prompt_pack.Base.Lists.{
  length, get_elem?, get_elem?-lt, get_elem?-at, get_elem?-append_left, length-append,
}
use prompt_pack.Base.Dict.{find}
use prompt_pack.Base.Int.{ℤ, pos, ltb_ℤ, leb_ℤ}
use prompt_pack.AuditZip.Types.{
  Time, Config, AuditZipJob, AuditZipRequest, AuditZipJobStatus, queued, running, succeeded, failed,
  canceled,
}
use prompt_pack.AuditZip.Storage.{StorageApi}
use prompt_pack.AuditZip.JobState.{JobState, JobQueue, Reply, is_active, is_terminal, new_job_queue}
use prompt_pack.AuditZip.Queue.{
  enqueue, active_count, queue_full, insert_state, new_state, scoped_key,
}
use prompt_pack.AuditZip.Queue.Worker.{Codec}
use prompt_pack.AuditZip.Queue.Invariant.{IsValid}
use prompt_pack.AuditZip.Queue.Preserve.{new_job_queue-IsValid}
use prompt_pack.AuditZip.Queue.Insert.{enqueue_cases, insert_state-IsValid}
use prompt_pack.AuditZip.Queue.Changes.{Changed}
use prompt_pack.AuditZip.Queue.History.{Change-IsSettled, Step-Changed}
use prompt_pack.AuditZip.Queue.Constant.{Step-cfg}
use prompt_pack.AuditZip.Queue.Reach.{Step, enqueues, cancels, works, retains, Step-IsValid}
use prompt_pack.AuditZip.Queue.Entries.{
  InHeap, InHeap-mono, InHeap-put, count_if-put, count_if-le, is_active-found, cancel-SameMaps,
  retention_step-SameMaps, worker_step-SameMaps,
}
use prompt_pack.AuditZip.Queue.Calm.{KeepsCanceled, Calm, calm, after, Changed-is_active}

module _ {S : Type 0} (api : StorageApi S) (codec : Codec) where
  -- What the bound is an invariant with.
  record Bounded (d : ℕ) (q : JobQueue S) : Type 0 where
    valid : IsValid q
    in_heap : InHeap (length q.heap) q.jobs
    depth : active_count q ≤ d
    limit : q.cfg.max_queue_depth ≡ pos d

  room_below :
      (q : JobQueue S) (d : ℕ)
      → q.cfg.max_queue_depth ≡ pos d
      → 0 < d
      → queue_full q ≡ false
      → active_count q < d
  unfolding queue_full
  room_below q d limit some_room free = ground (
    arith,
    some_room,
    sym (ap (λ (n : ℤ). ltb_ℤ (pos 0) n && leb_ℤ n (pos (active_count q))) limit) ∙ free,
  )

  -- A step that is no `Enqueue` neither enters a job into the map nor makes one active.
  other-Bounded :
      (d : ℕ) (q q' : JobQueue S)
      → Bounded d q
      → Step api codec q q'
      → KeepsCanceled q q'
      → q'.jobs ≡ q.jobs
      → length q.heap ≤ length q'.heap
      → Bounded d q'
  unfolding active_count
  other-Bounded d q q' b s keeps same grows = record {
    valid = Step-IsValid api codec s b.valid;
    in_heap = rw same (InHeap-mono _ _ q.jobs grows b.in_heap);
    depth = rw same (
        omega (
          arith,
          b.depth,
          count_if-le q.heap q'.heap q.jobs b.in_heap (λ p small active.
              let (st, own) = get_elem?-at q.heap p small in
              Changed-is_active api codec q q' p st b.valid keeps own
                (Step-Changed api codec q p st b.valid own s) active),
        ));
    limit = ap (λ (c : Config). c.max_queue_depth) (Step-cfg api codec s b.valid) ∙ b.limit;
  }

  heap_grows :
      (q q' : JobQueue S) → IsValid q → Step api codec q q' → length q.heap ≤ length q'.heap
  heap_grows q q' v s = elim (ℕ_discrete (length q.heap) 0) [
    | yes empty ↦ omega (arith, empty)
    | no some_job ↦
        let (st, own) = get_elem?-at q.heap (length q.heap - 1) (omega (arith, some_job)) in
        let (st', at, _) = Step-Changed api codec q (length q.heap - 1) st v own s in
        omega (arith, get_elem?-lt q'.heap (length q.heap - 1) st' at)
  ]

  insert_state-Bounded :
      (d : ℕ) (q : JobQueue S) (now : Time) (job_id tenant_id key hash : String)
      (req : AuditZipRequest)
      → Bounded d q
      → 0 < d
      → find q.jobs job_id ≡ none
      → queue_full q ≡ false
      → Bounded d (
          insert_state q job_id
            (scoped_key tenant_id key)
            (scoped_key tenant_id hash)
            (new_state now job_id tenant_id key hash req))
  unfolding insert_state active_count
  insert_state-Bounded d q now job_id tenant_id key hash req b some_room fresh free =
      let st = new_state now job_id tenant_id key hash req in
      let more = q.heap ++ st ∷ [] in
      record {
        valid = insert_state-IsValid q b.valid now job_id tenant_id key hash req fresh;
        in_heap =
            InHeap-put (length q.heap) (length more) q.jobs job_id (length q.heap)
              (omega (arith, length-append q.heap (st ∷ [])))
              (omega (arith, length-append q.heap (st ∷ []))) b.in_heap;
        depth = omega (
          arith,
          room_below q d b.limit some_room free,
          count_if-put (λ e. is_active more e.1) q.jobs job_id (length q.heap),
          count_if-le q.heap more q.jobs b.in_heap (λ p small active.
              let (x, own) = get_elem?-at q.heap p small in
              is_active-found q.heap p x own
              ∙ sym (is_active-found more p x (get_elem?-append_left q.heap (st ∷ []) p x own))
              ∙ active),
        );
        limit = b.limit;
      }

  enqueue-Bounded :
      (d : ℕ) (q : JobQueue S) (now : Time) (job_id tenant_id key hash : String)
      (req : AuditZipRequest)
      → Bounded d q
      → 0 < d
      → find q.jobs job_id ≡ none
      → Bounded d (enqueue q now job_id tenant_id key hash req).0
  unfolding enqueue
  enqueue-Bounded d q now job_id tenant_id key hash req b some_room fresh =
      elim (Bool-cases (queue_full q)) [
        | inl full ↦ subst (λ (r : JobQueue S × Reply). Bounded d r.0) (sym (if_true _ _ full)) b
        | inr free ↦
            enqueue_cases q (λ r. Bounded d r.0) now job_id tenant_id key hash req (λ _. b)
              (insert_state-Bounded d q now job_id tenant_id key hash req b some_room fresh free)
      ]

  Step-Bounded :
      (d : ℕ) (q q' : JobQueue S)
      → Bounded d q
      → 0 < d
      → Step api codec q q'
      → KeepsCanceled q q'
      → Bounded d q'
  Step-Bounded d q q' b some_room (enqueues now job_id tenant_id key hash req fresh e) keeps =
      subst (Bounded d) (sym e)
        (enqueue-Bounded d q now job_id tenant_id key hash req b some_room fresh)
  Step-Bounded d q q' b some_room (cancels now tenant_id job_id e) keeps =
      other-Bounded d q q' b (cancels now tenant_id job_id e) keeps
        (ap (λ (x : JobQueue S). x.jobs) e ∙ (cancel-SameMaps q now tenant_id job_id).0)
        (heap_grows q q' b.valid (cancels now tenant_id job_id e))
  Step-Bounded d q q' b some_room (works p m e) keeps =
      other-Bounded d q q' b (works p m e) keeps
        (ap (λ (x : JobQueue S). x.jobs) e ∙ (worker_step-SameMaps q api codec p m b.valid).0)
        (heap_grows q q' b.valid (works p m e))
  Step-Bounded d q q' b some_room (retains p m e) keeps =
      other-Bounded d q q' b (retains p m e) keeps
        (ap (λ (x : JobQueue S). x.jobs) e ∙ (retention_step-SameMaps q api codec p m).0)
        (heap_grows q q' b.valid (retains p m e))

  calm-Bounded :
      (s : S) (cfg : Config) (d : ℕ) (q : JobQueue S)
      → cfg.max_queue_depth ≡ pos d
      → 0 < d
      → Calm api codec (new_job_queue s cfg) q
      → Bounded d q
  unfolding active_count new_job_queue
  calm-Bounded s cfg d q limit some_room calm = record {
    valid = new_job_queue-IsValid s cfg;
    in_heap = tt;
    depth = omega arith;
    limit = limit;
  }
  calm-Bounded s cfg d q limit some_room (after {r = r} before step keeps) =
      Step-Bounded d r q (calm-Bounded s cfg d r limit some_room before) some_room step keeps

  -- With a `MaxQueueDepth` that is positive, no more jobs than that are queued or running at once,
  -- whatever clients, goroutines and timers do to a new queue, in any interleaving, as long as
  -- `uuid.New` repeats no id and no step takes a job out of its cancellation, as goroutines can.
  pub active_count_bounded :
      (s : S) (cfg : Config) (d : ℕ) (q : JobQueue S)
      → cfg.max_queue_depth ≡ pos d
      → 0 < d
      → Calm api codec (new_job_queue s cfg) q
      → active_count q ≤ d
  active_count_bounded s cfg d q limit some_room run =
      (calm-Bounded s cfg d q limit some_room run).depth
