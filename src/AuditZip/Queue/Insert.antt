-- ===== src/AuditZip/Queue/Insert.antt =====
-- `Enqueue` keeps the queue's invariant, when `uuid.New` gives an id that no job has.
use prompt_pack.Base.{
  ℕ, String, ◌≡◌, refl, sym, ap, subst, ◌∙◌, inl, inr, Option, none, some, List, [], ◌∷◌, ◌++◌,
  arith, ◌==◌, eq_iff,
}
use prompt_pack.Base.Tests.{Bool-cases, if_true, if_false}
use prompt_pack.Base.Lists.{
  length, get_elem?, get_elem?-append_end, get_elem?-append_left, get_elem?-append_one,
}
use prompt_pack.Base.Dict.{find, put, find-put, find-put_self}
use native.Mathlib.Decide.{ℕ_discrete}
use mathlib.Core.Option.{some-injective}
use prompt_pack.AuditZip.Types.{Time, AuditZipRequest}
use prompt_pack.AuditZip.JobState.{JobState, JobQueue, Reply}
use prompt_pack.AuditZip.Queue.{
  enqueue, insert_state, new_state, scoped_key, queue_full, replay_or_conflict, duplicate, state_at,
  Dict,
}
use prompt_pack.AuditZip.Queue.Fits.{Fits}
use prompt_pack.AuditZip.Queue.Invariant.{
  IsValid, Points, held_slots-append, job_name, key_name, criteria_name,
}

-- A map with one more entry, for the new state, still leads to what its keys describe.
Points-append :
    (heap : List JobState) (name : JobState → String) (m : Dict ℕ) (new : JobState) (key : String)
    → name new ≡ key
    → ((k : String) (p : ℕ) → find m k ≡ some p → Points heap name k p)
    → (k : String) (p : ℕ) → find (put m key (length heap)) k ≡ some p
    → Points (heap ++ new ∷ []) name k p
Points-append heap name m new key named old k p h = elim (Bool-cases (key == k)) [
  | inl same ↦
      let here : length heap ≡ p = ground (arith, find-put m key k (length heap), same) in
      (
        new,
        subst (λ i. get_elem? (heap ++ new ∷ []) i ≡ some new) here (get_elem?-append_end heap new),
        named ∙ (eq_iff key k).0 same,
      )
  | inr other ↦
      let (st, at, e) = old k p (ground (arith, find-put m key k (length heap), other)) in
      (st, get_elem?-append_left heap (new ∷ []) p st at, e)
]

module _ {S : Type 0} (q : JobQueue S) where
  -- `Enqueue` returns the queue that it was given, or one with one more job.
  pub enqueue_cases {ℓ} :
      (P : JobQueue S × Reply → Type ℓ) (now : Time) (job_id tenant_id key hash : String)
      (req : AuditZipRequest)
      → ((r : Reply) → P (q, r))
      → P (
        insert_state q job_id
            (scoped_key tenant_id key)
            (scoped_key tenant_id hash)
            (new_state now job_id tenant_id key hash req),
        Reply.ok (new_state now job_id tenant_id key hash req).job,
      )
      → P (enqueue q now job_id tenant_id key hash req)
  unfolding enqueue
  enqueue_cases P now job_id tenant_id key hash req same new = elim (Bool-cases (queue_full q)) [
    | inl full ↦ subst P (sym (if_true _ _ full)) (same _)
    | inr room ↦ subst P (sym (if_false _ _ room)) (
        found
          (replay_or_conflict (state_at q.heap (find q.by_key (scoped_key tenant_id key))) tenant_id
            hash)
          (duplicate (state_at q.heap (find q.by_criteria (scoped_key tenant_id hash)))))
  ]
    where
      found :
          (a b : Option Reply)
          → P (elim a [
            | some reply ↦ (q, reply)
            | none ↦ elim b [
              | some reply ↦ (q, reply)
              | none ↦
                  let st = new_state now job_id tenant_id key hash req in
                  (
                    insert_state q job_id (scoped_key tenant_id key) (scoped_key tenant_id hash) st,
                    Reply.ok st.job,
                  )
            ]
          ])
      found (some r) b = same r
      found none (some r) = same r
      found none none = new

module _ {S : Type 0} (q : JobQueue S) (v : IsValid q) where
  linked-append :
      (new : JobState)
      → find q.jobs new.job.job_id ≡ none
      → (p : ℕ) (st : JobState) → get_elem? (q.heap ++ new ∷ []) p ≡ some st
      → find (put q.jobs new.job.job_id (length q.heap)) st.job.job_id ≡ some p
  linked-append new fresh p st at = elim (ℕ_discrete p (length q.heap)) [
    | yes here ↦
        let e : new ≡ st = some-injective new st (
          sym (get_elem?-append_end q.heap new)
          ∙ ap (get_elem? (q.heap ++ new ∷ [])) (sym here)
          ∙ at) in
        subst
          (λ (x : JobState). find (put q.jobs new.job.job_id (length q.heap)) x.job.job_id ≡ some p)
          e (find-put_self q.jobs new.job.job_id (length q.heap) ∙ ap some (sym here))
    | no there ↦
        let was = v.linked p st (get_elem?-append_one q.heap new p st at there) in
        ground (
          arith,
          find-put q.jobs new.job.job_id st.job.job_id (length q.heap),
          eq_iff new.job.job_id st.job.job_id,
          was,
          fresh,
        )
  ]

  Fits-append :
      (new : JobState)
      → Fits q.cfg new
      → (p : ℕ) (st : JobState) → get_elem? (q.heap ++ new ∷ []) p ≡ some st
      → Fits q.cfg st
  Fits-append new fit p st at = elim (ℕ_discrete p (length q.heap)) [
    | yes here ↦
        subst (Fits q.cfg)
          (some-injective new st (
            sym (get_elem?-append_end q.heap new)
            ∙ ap (get_elem? (q.heap ++ new ∷ [])) (sym here)
            ∙ at))
          fit
    | no there ↦ v.fits p st (get_elem?-append_one q.heap new p st at there)
  ]

  pub insert_state-IsValid :
      (now : Time) (job_id tenant_id key hash : String) (req : AuditZipRequest)
      → find q.jobs job_id ≡ none
      → IsValid (
          insert_state q job_id
            (scoped_key tenant_id key)
            (scoped_key tenant_id hash)
            (new_state now job_id tenant_id key hash req))
  unfolding insert_state new_state
  insert_state-IsValid now job_id tenant_id key hash req fresh =
      let new = new_state now job_id tenant_id key hash req in
      record {
        linked = linked-append new fresh;
        jobs_point = Points-append q.heap job_name q.jobs new job_id refl v.jobs_point;
        keys_point =
            Points-append q.heap key_name q.by_key new (scoped_key tenant_id key) refl v.keys_point;
        criteria_point =
            Points-append q.heap criteria_name q.by_criteria new (scoped_key tenant_id hash) refl
              v.criteria_point;
        fits = Fits-append new (record {
          place = refl;
          percent = omega arith;
          unstarted = refl;
          retries = ground arith;
        });
        balanced = omega (arith, held_slots-append q.heap new, v.balanced);
        capped = v.capped;
      }

  pub enqueue-IsValid :
      (now : Time) (job_id tenant_id key hash : String) (req : AuditZipRequest)
      → find q.jobs job_id ≡ none
      → IsValid (enqueue q now job_id tenant_id key hash req).0
  enqueue-IsValid now job_id tenant_id key hash req fresh =
      enqueue_cases q (λ r. IsValid r.0) now job_id tenant_id key hash req (λ _. v)
        (insert_state-IsValid now job_id tenant_id key hash req fresh)
