-- ===== src/AuditZip/Queue/Liveness.antt =====
-- Every job can be run to its end: no interleaving of clients, goroutines and timers leaves the queue
-- in a state in which a job is stuck.
use prompt_pack.Base.{
  ℕ, zero, suc, ◌≤◌, ◌<◌, ◌≡◌, refl, sym, ap, subst, ◌∙◌, ◌≢◌, ◌⊎◌, inl, inr, true, false, some,
  List, [], ◌∷◌, arith,
}
use prompt_pack.Base.Tests.{Bool-cases}
use native.Mathlib.Decide.{ℕ_discrete}
use prompt_pack.Base.Lists.{length, get_elem?, get_elem?-at}
use prompt_pack.Base.Int.{ℤ, pos, negsuc, pos_part, ltb_ℤ}
use prompt_pack.AuditZip.Types.{Time, Config}
use prompt_pack.AuditZip.Storage.{StorageApi}
use prompt_pack.AuditZip.JobState.{JobState, JobQueue, Worker, at_slot, finished}
use prompt_pack.AuditZip.Queue.Worker.{Codec}
use prompt_pack.AuditZip.Queue.Stepped.{holds_slot}
use prompt_pack.AuditZip.Queue.Invariant.{IsValid, held_slots}
use prompt_pack.AuditZip.Queue.Reach.{Work}
use prompt_pack.AuditZip.Queue.Alone.{
  Progress, Progress-same, Progress-then, run_with_room, HasEnded,
}
use prompt_pack.AuditZip.Queue.Run.{HasRoom, HasRoom-other, is_free}
use mathlib.Core.Option.{some-injective}

-- Where slots are held, a goroutine holds one.
holder :
    (heap : List JobState)
    → 1 ≤ held_slots heap
    → (p : ℕ) × (st : JobState) × (get_elem? heap p ≡ some st) × (holds_slot st.worker ≡ 1)
holder [] h = absurd (omega (arith, h))
holder (st ∷ heap) h = at (holder heap) st.worker refl
  where
    Holder : List JobState → Type 0
    Holder l = (p : ℕ) × (x : JobState) × (get_elem? l p ≡ some x) × (holds_slot x.worker ≡ 1)

    later : (1 ≤ held_slots heap → Holder heap) → holds_slot st.worker ≡ 0 → Holder (st ∷ heap)
    later rest e = let (p, x, g, o) = rest (omega (arith, h, e)) in (suc p, x, g, o)

    at : (1 ≤ held_slots heap → Holder heap) → (w : Worker) → st.worker ≡ w → Holder (st ∷ heap)
    at rest at_slot e = later rest (ap holds_slot e)
    at rest finished e = later rest (ap holds_slot e)
    at rest _ e = (0, st, refl, ap holds_slot e)

free_below : (n : ℕ) (cap : ℤ) → n < pos_part cap → ltb_ℤ (pos n) cap ≡ true
free_below n (pos c) h = ground arith
free_below n (negsuc c) h = absurd (omega (arith, h))

full_above : (n : ℕ) (cap : ℤ) → ltb_ℤ (pos n) cap ≡ false → pos_part cap ≤ n
full_above n (pos c) h = ground arith
full_above n (negsuc c) h = omega arith

at_slot-cases : (w : Worker) → (w ≡ at_slot) ⊎ (w ≢ at_slot)
at_slot-cases at_slot = inl refl
at_slot-cases finished = inr (λ e. cc e)
at_slot-cases _ = inr (λ e. cc e)

module _ {S : Type 0} (api : StorageApi S) (codec : Codec) where
  -- From every valid queue with a configuration of one slot or more, whatever the storage does,
  -- some steps bring a given job to its end: a goroutine that holds a slot goes first, where there
  -- is none free.
  run_to_end :
      (t : Time) (q : JobQueue S) (p : ℕ) (st : JobState)
      → IsValid q
      → 1 ≤ pos_part q.cfg.max_concurrent_jobs
      → get_elem? q.heap p ≡ some st
      → (q' : JobQueue S) × Progress api codec q q' × HasEnded api codec q' p
  run_to_end t q p st v one own = elim (at_slot-cases st.worker) [
    | inr past ↦ alone (HasRoom-other st.worker (is_free api codec q) past)
    | inl at ↦ elim (Bool-cases (is_free api codec q)) [
      | inl free ↦ alone (subst (λ w. HasRoom w (is_free api codec q)) (sym at) free)
      | inr full ↦
          let (i, x, g, o) =
            holder q.heap
              (omega (arith, one, v.balanced, full_above q.slots q.cfg.max_concurrent_jobs full)) in
          let (r, first, _, back, same) = run_with_room api codec t q i x v g (
            HasRoom-other x.worker (is_free api codec q)
              (λ (e : x.worker ≡ at_slot). absurd (omega (arith, o, ap holds_slot e)))) in
          let apart : p ≢ i = λ e. absurd (
            omega (
              arith,
              o,
              ap holds_slot at,
              ap (λ (y : JobState). holds_slot y.worker)
                  (some-injective st x (sym own ∙ ap (get_elem? q.heap) e ∙ g)),
            )) in
          let free : is_free api codec r ≡ true = free_below r.slots r.cfg.max_concurrent_jobs (
            subst (λ (c : Config). r.slots < pos_part c.max_concurrent_jobs) (sym first.cfg)
              (omega (arith, back, o, v.capped))) in
          let (q', second, done, _, _) =
            run_with_room api codec t r p st first.valid (same p apart ∙ own)
              (subst (λ w. HasRoom w (is_free api codec r)) (sym at) free) in
          (q', Progress-then api codec first second, done)
    ]
  ]
    where
      alone :
          HasRoom st.worker (is_free api codec q)
          → (q' : JobQueue S) × Progress api codec q q' × HasEnded api codec q' p
      alone room =
          let (q', g, done, _, _) = run_with_room api codec t q p st v own room in (q', g, done)

  -- All jobs whose index is below `n` end, one after another.
  run_below :
      (t : Time) (q : JobQueue S) (n : ℕ)
      → IsValid q
      → 1 ≤ pos_part q.cfg.max_concurrent_jobs
      → n ≤ length q.heap
      → (q' : JobQueue S) × Progress api codec q q' × ((p : ℕ) → p < n → HasEnded api codec q' p)
  run_below t q zero v one h = (q, Progress-same api codec q v, λ p lt. absurd (omega (arith, lt)))
  run_below t q (suc n) v one h =
      let (r, first, ended) = run_below t q n v one (omega (arith, h)) in
      let (st, own) = get_elem?-at r.heap n (omega (arith, h, first.size)) in
      let (q', second, done) =
        run_to_end t r n st first.valid
          (subst (λ (c : Config). 1 ≤ pos_part c.max_concurrent_jobs) (sym first.cfg) one) own in
      (
        q',
        Progress-then api codec first second,
        λ p lt. elim (ℕ_discrete p n) [
          | yes e ↦ subst (HasEnded api codec q') (sym e) done
          | no ne ↦
              let (x, g, f, off) = ended p (omega (arith, lt, ne)) in
              (x, second.keeps p x g f, f, off)
        ],
      )

  -- From every valid queue, with `MaxConcurrentJobs` at least 1, and whatever the storage answers,
  -- there is a run of goroutines alone, at any time on the clock, after which each job has ended:
  -- its goroutine is finished and its status is not `queued`. So no state that clients, goroutines
  -- and timers can reach leaves a job stuck.
  pub drains :
      (t : Time) (q : JobQueue S)
      → IsValid q
      → 1 ≤ pos_part q.cfg.max_concurrent_jobs
      → (q' : JobQueue S) × Work api codec q q'
        × (length q'.heap ≡ length q.heap)
        × ((p : ℕ) → p < length q'.heap → HasEnded api codec q' p)
  drains t q v one =
      let (q', g, ended) = run_below t q (length q.heap) v one (omega arith) in
      (q', g.work, g.size, λ p lt. ended p (omega (arith, lt, g.size)))
