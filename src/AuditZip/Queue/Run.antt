-- ===== src/AuditZip/Queue/Run.antt =====
-- A goroutine that gets its slot and its timers comes to its end.
use prompt_pack.Base.{
  ℕ, ◌≤◌, ◌≡◌, refl, sym, ap, subst, ◌∙◌, ◌≢◌, ◌⊎◌, inl, inr, Bool, true, some, List, [], ◌∷◌,
  arith,
}
use prompt_pack.Base.Lists.{length, get_elem?, All, get_elem?-set_self}
use prompt_pack.Base.Int.{pos, ltb_ℤ}
use prompt_pack.AuditZip.Types.{queued, Config, JobError}
use prompt_pack.AuditZip.Storage.{StorageApi}
use prompt_pack.AuditZip.JobState.{
  JobState, JobQueue, Worker, at_slot, at_start, at_retry_count, at_progress_10, at_wait,
  at_progress_50, at_put, at_progress_90, at_sign, at_complete, at_fail, at_backoff, at_release,
  finished,
}
use prompt_pack.AuditZip.Queue.Worker.{Codec, Moment, worker_step, step_at, after_error}
use prompt_pack.AuditZip.Queue.Life.{
  JobStep, Waits, attempt_of, blocked, take_slot, start, count_retry, proceed, break_off, reach_end,
  complete, fail, try_again, stop, release,
}
use prompt_pack.AuditZip.Queue.Stepped.{holds_slot, after_error-holds_slot}
use prompt_pack.AuditZip.Queue.Refines.{worker_step-Stepped}
use prompt_pack.AuditZip.Queue.Fits.{Place-at}
use prompt_pack.AuditZip.Queue.Settled.{budget, JobStep-budget}
use prompt_pack.AuditZip.Queue.Invariant.{IsValid, holds-le-held}
use prompt_pack.AuditZip.Queue.Preserve.{worker_step-IsValid}

-- A slot is free, or the goroutine is past waiting for one.
abbrev pub HasRoom : Worker → Bool → Type 0
HasRoom at_slot room = room ≡ true
HasRoom _ room = Unit

Waits-finished : (room : Bool) (w : Worker) → HasRoom w room → Waits room true w → w ≡ finished
Waits-finished room at_slot h b = absurd (cc)
Waits-finished room (at_wait a) h b = absurd (cc)
Waits-finished room (at_backoff a) h b = absurd (cc)
Waits-finished room finished h b = refl
Waits-finished room (at_start _) h b = absurd b
Waits-finished room (at_retry_count _) h b = absurd b
Waits-finished room (at_progress_10 _) h b = absurd b
Waits-finished room (at_progress_50 _) h b = absurd b
Waits-finished room (at_put _ _ _) h b = absurd b
Waits-finished room (at_progress_90 _ _) h b = absurd b
Waits-finished room (at_sign _ _) h b = absurd b
Waits-finished room (at_complete _ _ _) h b = absurd b
Waits-finished room (at_fail _) h b = absurd b
Waits-finished room at_release h b = absurd b

pub HasRoom-other : (w : Worker) (room : Bool) → w ≢ at_slot → HasRoom w room
HasRoom-other at_slot room h = absurd (h refl)
HasRoom-other _ room h = tt

attempt-ne-slot : (w : Worker) (a : ℕ) → attempt_of w ≡ some a → w ≢ at_slot
attempt-ne-slot w a e at = cc (ap attempt_of at)

after_error-ne-slot : (cfg : Config) (a : ℕ) (x : JobError) → after_error cfg a x ≢ at_slot
after_error-ne-slot cfg a x at =
    absurd (omega (arith, after_error-holds_slot cfg a x, ap holds_slot at))

-- A goroutine never waits for a slot twice.
leaves_slot :
    (cfg : Config) (st : JobState) {room timer : Bool} {st' : JobState}
    → JobStep cfg room timer st st'
    → Waits room timer st.worker ⊎ (st'.worker ≢ at_slot)
leaves_slot cfg st (blocked waits e) = inl waits
leaves_slot cfg st (take_slot t at e) = inr (rw e (λ x. cc))
leaves_slot cfg st (start t at e) = inr (rw e (λ x. cc))
leaves_slot cfg st (count_retry a at e) = inr (rw e (λ x. cc))
leaves_slot cfg st (proceed a w job n at at' falls raised e) = inr (rw e (attempt-ne-slot w a at'))
leaves_slot cfg st (break_off a x at e) = inr (rw e (after_error-ne-slot cfg a x))
leaves_slot cfg st (reach_end a url t size at e) = inr (rw e (λ x. cc))
leaves_slot cfg st (complete url now t size at e) = inr (rw e (λ x. cc))
leaves_slot cfg st (fail x now at e) = inr (rw e (λ x. cc))
leaves_slot cfg st (try_again a at e) = inr (rw e (λ x. cc))
leaves_slot cfg st (stop a at done e) = inr (rw e (λ x. cc))
leaves_slot cfg st (release at e) = inr (rw e (λ x. cc))

budget_zero : (cfg : Config) (w : Worker) → budget cfg w ≤ 0 → w ≡ finished
budget_zero cfg finished h = refl
budget_zero cfg _ h = absurd (omega (arith, h))

module _ {S : Type 0} (api : StorageApi S) (codec : Codec) where
  -- The steps of one goroutine, one for each moment.
  unfoldable pub run_worker : JobQueue S → ℕ → List Moment → JobQueue S
  run_worker q p [] = q
  run_worker q p (m ∷ ms) = run_worker (worker_step api codec q p m) p ms

  abbrev pub is_free : JobQueue S → Bool
  is_free q = ltb_ℤ (pos q.slots) q.cfg.max_concurrent_jobs

  -- A goroutine that has ended takes no more steps.
  worker_step-finished :
      (q : JobQueue S) (p : ℕ) (st : JobState) (m : Moment)
      → get_elem? q.heap p ≡ some st
      → st.worker ≡ finished
      → worker_step api codec q p m ≡ q
  unfolding worker_step step_at
  worker_step-finished q p st m own done = ground (arith, own, done)

  pub run_worker-finished :
      (q : JobQueue S) (p : ℕ) (st : JobState) (ms : List Moment)
      → get_elem? q.heap p ≡ some st
      → st.worker ≡ finished
      → run_worker q p ms ≡ q
  unfolding run_worker
  run_worker-finished q p st [] own done = refl
  run_worker-finished q p st (m ∷ ms) own done =
      rw (worker_step-finished q p st m own done) (run_worker-finished q p st ms own done)

  pub run_worker_ends :
      (q : JobQueue S) (p : ℕ) (st : JobState) (ms : List Moment)
      → IsValid q
      → get_elem? q.heap p ≡ some st
      → All (λ m. m.timer ≡ true) ms
      → HasRoom st.worker (is_free q)
      → budget q.cfg st.worker ≤ length ms
      → (st' : JobState) × (get_elem? (run_worker q p ms).heap p ≡ some st')
        × (st'.worker ≡ finished)
        × (st'.job.status ≢ queued)
  unfolding run_worker
  run_worker_ends q p st [] v own timers room enough =
      let done = budget_zero q.cfg st.worker (omega (arith, enough)) in
      (st, own, done, Place-at q.cfg st (v.fits p st own) finished done)
  run_worker_ends q p st (m ∷ ms) v own timers room enough =
      let s =
        worker_step-Stepped api codec m q p st own
          (omega (arith, v.balanced, holds-le-held q.heap p st own)) (v.linked p st own) in
      let q' = worker_step api codec q p m in
      let own' : get_elem? q'.heap p ≡ some s.after =
        ap (λ (h : List JobState). get_elem? h p) s.heap
        ∙ get_elem?-set_self q.heap p st s.after own in
      let v' = worker_step-IsValid q v api codec p m in
      let stuck : Waits (is_free q) m.timer st.worker → st.worker ≡ finished = λ waits.
        Waits-finished (is_free q) st.worker room
          (subst (λ b. Waits (is_free q) b st.worker) timers.0 waits) in
      elim (JobStep-budget q.cfg st (v.fits p st own) s.step) [
        | inl waits ↦
            let done = stuck waits in
            (
              st,
              ap (λ (r : JobQueue S). get_elem? r.heap p)
                    (run_worker-finished q p st (m ∷ ms) own done)
                  ∙ own,
              done,
              Place-at q.cfg st (v.fits p st own) finished done,
            )
        | inr less ↦ elim (leaves_slot q.cfg st s.step) [
          | inl waits ↦ absurd (omega (arith, less, ap (budget q.cfg) (stuck waits)))
          | inr off ↦
              run_worker_ends q' p s.after ms v' own' timers.1
                (HasRoom-other s.after.worker (is_free q') off)
                (subst (λ c. budget c s.after.worker ≤ length ms) (sym s.cfg)
                  (omega (arith, less, enough)))
        ]
      ]
