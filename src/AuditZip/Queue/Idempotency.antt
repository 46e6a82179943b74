-- ===== src/AuditZip/Queue/Idempotency.antt =====
-- What a repeated `Enqueue` does.
use prompt_pack.Base.{
  String, ◌≡◌, refl, sym, ap, subst, ◌∙◌, ◌≢◌, inl, inr, true, false, ◌&&◌, Option, none, some, [],
  ◌∷◌, ◌++◌, arith, ◌==◌, eq_iff,
}
use prompt_pack.Base.Tests.{Bool-cases, if_true, if_false}
use prompt_pack.Base.Lists.{length, get_elem?-append_end}
use prompt_pack.Base.Dict.{find, find-put_self}
use prompt_pack.AuditZip.Types.{
  Time, AuditZipJob, AuditZipRequest, QueueError, conflict, idempotency_body_mismatch,
}
use prompt_pack.AuditZip.JobState.{JobState, JobQueue, Reply, ok, err, state_at}
use prompt_pack.AuditZip.Queue.{
  enqueue, insert_state, new_state, scoped_key, queue_full, replay_or_conflict, duplicate,
  rate_limited,
}
use prompt_pack.AuditZip.Queue.Insert.{enqueue_cases}

module _ {S : Type 0} (q : JobQueue S) (now : Time) (job_id tenant_id key hash : String)
    (req : AuditZipRequest) where
  -- A refused `Enqueue` changes nothing, whatever the reason of the refusal.
  pub enqueue_refused :
      (e : QueueError)
      → (enqueue q now job_id tenant_id key hash req).1 ≡ err e
      → (enqueue q now job_id tenant_id key hash req).0 ≡ q
  enqueue_refused e =
      enqueue_cases q (λ r. r.1 ≡ err e → r.0 ≡ q) now job_id tenant_id key hash req (λ r h. refl)
        (λ h. absurd (cc h))

  -- The state that the idempotency key leads to after `Enqueue` has accepted.
  abbrev Keyed : JobQueue S → AuditZipJob → Type 0
  Keyed q' job =
      (st : JobState) × (state_at q'.heap (find q'.by_key (scoped_key tenant_id key)) ≡ some st)
      × (st.job ≡ job)
      × (st.criteria_hash ≡ hash)
      × (st.tenant_id ≡ tenant_id)

  Keyed-new :
      Keyed
        (insert_state q job_id
          (scoped_key tenant_id key)
          (scoped_key tenant_id hash)
          (new_state now job_id tenant_id key hash req))
        (new_state now job_id tenant_id key hash req).job
  unfolding insert_state new_state
  Keyed-new =
      let st = new_state now job_id tenant_id key hash req in
      (
        st,
        ap (state_at (q.heap ++ st ∷ []))
              (find-put_self q.by_key (scoped_key tenant_id key) (length q.heap))
            ∙ get_elem?-append_end q.heap st,
        refl,
        refl,
        refl,
      )

  Keyed-replay :
      (job : AuditZipJob) (o : Option JobState)
      → state_at q.heap (find q.by_key (scoped_key tenant_id key)) ≡ o
      → replay_or_conflict o tenant_id hash ≡ some (ok job)
      → Keyed q job
  unfolding replay_or_conflict
  Keyed-replay job none at h = absurd (cc h)
  Keyed-replay job (some st) at h =
      elim (Bool-cases (st.criteria_hash == hash && st.tenant_id == tenant_id)) [
        | inl both ↦ (
          st,
          at,
          ground (arith, h, both),
          (eq_iff st.criteria_hash hash).0 (ground (arith, both)),
          (eq_iff st.tenant_id tenant_id).0 (ground (arith, both)),
        )
        | inr other ↦ absurd (ground (arith, h, other))
      ]

  duplicate-ne-ok : (job : AuditZipJob) (o : Option JobState) → duplicate o ≢ some (ok job)
  unfolding duplicate
  duplicate-ne-ok job none h = cc h
  duplicate-ne-ok job (some st) h = ground arith

  -- The four ways out of `Enqueue`, each with the tests that lead to it.
  pub data Outcome (r : JobQueue S × Reply) : Type 0 where
    full : queue_full q ≡ true → r ≡ (q, err (rate_limited q.cfg.queue_retry_after)) → Outcome r
    known :
        (a : Reply)
        → replay_or_conflict
            (state_at q.heap (find q.by_key (scoped_key tenant_id key)))
            tenant_id
            hash
          ≡ some a
        → r ≡ (q, a)
        → Outcome r
    busy :
        (a : Reply)
        → duplicate (state_at q.heap (find q.by_criteria (scoped_key tenant_id hash))) ≡ some a
        → r ≡ (q, a)
        → Outcome r
    fresh :
        replay_or_conflict
            (state_at q.heap (find q.by_key (scoped_key tenant_id key)))
            tenant_id
            hash
          ≡ none
        → duplicate (state_at q.heap (find q.by_criteria (scoped_key tenant_id hash))) ≡ none
        → r ≡ (
          insert_state q job_id
              (scoped_key tenant_id key)
              (scoped_key tenant_id hash)
              (new_state now job_id tenant_id key hash req),
          ok (new_state now job_id tenant_id key hash req).job,
        )
        → Outcome r

  pub enqueue-Outcome : Outcome (enqueue q now job_id tenant_id key hash req)
  unfolding enqueue
  enqueue-Outcome = elim (Bool-cases (queue_full q)) [
    | inl f ↦ full f (if_true _ _ f)
    | inr room ↦ subst Outcome (sym (if_false _ _ room)) (
        found
          (replay_or_conflict (state_at q.heap (find q.by_key (scoped_key tenant_id key))) tenant_id
            hash)
          refl (duplicate (state_at q.heap (find q.by_criteria (scoped_key tenant_id hash)))) refl)
  ]
    where
      found :
          (a : Option Reply)
          → replay_or_conflict
              (state_at q.heap (find q.by_key (scoped_key tenant_id key)))
              tenant_id
              hash
            ≡ a
          → (b : Option Reply)
          → duplicate (state_at q.heap (find q.by_criteria (scoped_key tenant_id hash))) ≡ b
          → Outcome (elim a [
            | some reply ↦ (q, reply)
            | none ↦ elim b [
              | some reply ↦ (q, reply)
              | none ↦
                  let st = new_state now job_id tenant_id key hash req in
                  (
                    insert_state q job_id (scoped_key tenant_id key) (scoped_key tenant_id hash) st,
                    ok st.job,
                  )
            ]
          ])
      found (some r) ha b hb = known r ha refl
      found none ha (some r) hb = busy r hb refl
      found none ha none hb = fresh ha hb refl

  pub accepted-Keyed :
      (q' : JobQueue S) (job : AuditZipJob)
      → enqueue q now job_id tenant_id key hash req ≡ (q', ok job)
      → Keyed q' job
  accepted-Keyed q' job e = elim enqueue-Outcome [
    | full _ r ↦ absurd (cc (sym e ∙ r))
    | known a h r ↦
        subst (λ (x : JobQueue S). Keyed x job) (ap (λ (x : JobQueue S × Reply). x.0) (sym r ∙ e))
          (Keyed-replay job _ refl (h ∙ ap some (ap (λ (x : JobQueue S × Reply). x.1) (sym r ∙ e))))
    | busy a h r ↦
        absurd
          (duplicate-ne-ok job _ (h ∙ ap some (ap (λ (x : JobQueue S × Reply). x.1) (sym r ∙ e))))
    | fresh _ _ r ↦
        subst (λ (x : JobQueue S). Keyed x job) (ap (λ (x : JobQueue S × Reply). x.0) (sym r ∙ e))
          (elim_job (sym r ∙ e))
  ]
    where
      elim_job :
          ◌≡◌ {A = JobQueue S × Reply}
            (
              insert_state q job_id
                  (scoped_key tenant_id key)
                  (scoped_key tenant_id hash)
                  (new_state now job_id tenant_id key hash req),
              ok (new_state now job_id tenant_id key hash req).job,
            )
            (q', ok job)
          → Keyed
              (insert_state q job_id
                (scoped_key tenant_id key)
                (scoped_key tenant_id hash)
                (new_state now job_id tenant_id key hash req))
              job
      elim_job h =
          let (st, at, j, c, t) = Keyed-new in
          (st, at, j ∙ cc (ap (λ (x : JobQueue S × Reply). x.1) h), c, t)

module _ {S : Type 0} (q q' : JobQueue S) (now : Time) (job_id tenant_id key hash : String)
    (req : AuditZipRequest) (job : AuditZipJob)
    (accepted : enqueue q now job_id tenant_id key hash req ≡ (q', ok job))
    (room : queue_full q' ≡ false) (later : Time) (job_id' : String) (req' : AuditZipRequest) where
  -- Once a request has been accepted, the same key with another criteria hash is a conflict that names the first job.
  pub enqueue_mismatch :
      (other : String)
      → hash ≢ other
      → enqueue q' later job_id' tenant_id key other req'
        ≡ (q', err (conflict idempotency_body_mismatch job.job_id))
  unfolding enqueue replay_or_conflict
  enqueue_mismatch other ne =
      let (st, at, j, c, t) = accepted-Keyed q now job_id tenant_id key hash req q' job accepted in
      let miss : (st.criteria_hash == other) ≡ false =
        ground (arith, eq_iff st.criteria_hash other, λ (e : hash ≡ other). ne e, c) in
      ground (arith, room, at, miss, ap (λ (x : AuditZipJob). x.job_id) j)
