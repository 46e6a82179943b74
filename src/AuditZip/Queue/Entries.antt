-- ===== src/AuditZip/Queue/Entries.antt =====
-- The entries of the map of jobs: how many are active, and which operations leave them as they are.
use prompt_pack.Base.{
  ℕ, zero, suc, ◌<◌, ◌≤◌, String, ◌≡◌, refl, inl, inr, Bool, true, Option, none, some, List, [],
  ◌∷◌, arith, ◌==◌, not,
}
use prompt_pack.Base.Tests.{Bool-cases, Option-cases}
use prompt_pack.Base.Lists.{length, get_elem?, count_if, All}
use prompt_pack.Base.Dict.{Dict, find, put, put_found}
use prompt_pack.AuditZip.Types.{Time}
use prompt_pack.AuditZip.Storage.{StorageApi}
use prompt_pack.AuditZip.JobState.{JobState, JobQueue, is_active, is_running, is_terminal}
use prompt_pack.AuditZip.Queue.{cancel, cancel_at}
use prompt_pack.AuditZip.Queue.Worker.{Codec, Moment, worker_step, retention_step, retention_at}
use prompt_pack.AuditZip.Queue.Refines.{worker_step-Stepped}
use prompt_pack.AuditZip.Queue.Invariant.{IsValid, holds-le-held}

-- The entries of the map of jobs lead into the heap.
abbrev pub InHeap : ℕ → Dict ℕ → Type 0
InHeap n m = All (λ (e : String × ℕ). e.1 < n) m

pub InHeap-mono : (n k : ℕ) (m : Dict ℕ) → n ≤ k → InHeap n m → InHeap k m
InHeap-mono n k [] le h = tt
InHeap-mono n k (e ∷ m) le h = (omega (arith, h.0), InHeap-mono n k m le h.1)

pub InHeap-put :
    (n k : ℕ) (m : Dict ℕ) (key : String) (p : ℕ)
    → n ≤ k
    → p < k
    → InHeap n m
    → InHeap k (put m key p)
unfolding put
InHeap-put n k [] key p le lt h = (lt, tt)
InHeap-put n k ((j, w) ∷ m) key p le lt h = elim (Bool-cases (j == key)) [
  | inl here ↦ rw here (lt, InHeap-mono n k m le h.1)
  | inr there ↦ rw there (omega (arith, h.0), InHeap-put n k m key p le lt h.1)
]

-- One more entry counts for one at most.
pub count_if-put :
    (f : String × ℕ → Bool) (m : Dict ℕ) (key : String) (p : ℕ)
    → count_if f (put m key p) ≤ suc (count_if f m)
unfolding put
count_if-put f [] key p = ground arith
count_if-put f ((j, w) ∷ m) key p = elim (Bool-cases (j == key)) [
  | inl here ↦ rw here (ground arith)
  | inr there ↦ rw there (ground (arith, count_if-put f m key p))
]

-- A heap in which no other job is active has no more active jobs.
pub count_if-le :
    (heap heap' : List JobState) (m : Dict ℕ)
    → InHeap (length heap) m
    → ((p : ℕ) → p < length heap → is_active heap' p ≡ true → is_active heap p ≡ true)
    → count_if (λ (e : String × ℕ). is_active heap' e.1) m
      ≤ count_if (λ (e : String × ℕ). is_active heap e.1) m
count_if-le heap heap' [] h sub = omega arith
count_if-le heap heap' (e ∷ m) h sub = ground (arith, sub e.1 h.0, count_if-le heap heap' m h.1 sub)

pub is_active-found :
    (heap : List JobState) (p : ℕ) (st : JobState)
    → get_elem? heap p ≡ some st
    → is_active heap p ≡ not (is_terminal st.job.status)
unfolding is_active
is_active-found heap p st at = rw (at, is_active) refl

-- The three maps are as they were.
abbrev pub SameMaps : {S : Type 0} → JobQueue S → JobQueue S → Type 0
SameMaps q q' = (q'.jobs ≡ q.jobs) × (q'.by_criteria ≡ q.by_criteria) × (q'.by_key ≡ q.by_key)

module _ {S : Type 0} (q : JobQueue S) where
  pub cancel-SameMaps :
      (now : Time) (tenant_id job_id : String) → SameMaps q (cancel q now tenant_id job_id).0
  unfolding cancel cancel_at
  cancel-SameMaps now tenant_id job_id = elim (Option-cases (find q.jobs job_id)) [
    | inl gone ↦ rw (gone, cancel) (refl, refl, refl)
    | inr (p, at) ↦ rw (at, cancel) (at_cases p at (get_elem? q.heap p))
  ]
    where
      at_cases :
          (p : ℕ)
          → find q.jobs job_id ≡ some p
          → (o : Option JobState) → SameMaps q (cancel_at q now tenant_id job_id p o).0
      at_cases p at none = (refl, refl, refl)
      at_cases p at (some st) = elim (Bool-cases (st.tenant_id == tenant_id)) [
        | inr other ↦ rw other (refl, refl, refl)
        | inl mine ↦ elim (Bool-cases (is_running st.job.status)) [
          | inr still ↦ rw (mine, still) (refl, refl, refl)
          | inl on ↦ rw (mine, on) (put_found q.jobs job_id p at, refl, refl)
        ]
      ]

  module _ (api : StorageApi S) (codec : Codec) (p : ℕ) (m : Moment) where
    pub retention_step-SameMaps : SameMaps q (retention_step api codec q p m)
    unfolding retention_step retention_at
    retention_step-SameMaps = elim (Option-cases (get_elem? q.heap p)) [
      | inl gone ↦ rw (gone, retention_step) (refl, refl, refl)
      | inr (st, own) ↦ rw (own, retention_step) (ended st st.retentions)
    ]
      where
        ended : (st : JobState) (n : ℕ) → SameMaps q (retention_at api codec q p m st n)
        ended st zero = (refl, refl, refl)
        ended st (suc n) = elim (Bool-cases m.timer) [
          | inl over ↦ rw over (refl, refl, refl)
          | inr early ↦ elim (Bool-cases st.ctx_done) [
            | inl done ↦ rw (early, done) (refl, refl, refl)
            | inr on ↦ rw (early, on) (refl, refl, refl)
          ]
        ]

    pub worker_step-SameMaps : IsValid q → SameMaps q (worker_step api codec q p m)
    worker_step-SameMaps v = elim (Option-cases (get_elem? q.heap p)) [
      | inl gone ↦ unfold worker_step in rw (gone, worker_step) (refl, refl, refl)
      | inr (st, own) ↦
          let s =
            worker_step-Stepped api codec m q p st own
              (omega (arith, v.balanced, holds-le-held q.heap p st own)) (v.linked p st own) in
          (s.jobs, s.by_criteria, s.by_key)
    ]
