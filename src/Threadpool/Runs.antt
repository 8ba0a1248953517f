-- ===== src/Threadpool/Runs.antt =====
-- Each job is run once, by the thread that takes its worker off the queue.
use cevent_sample.Prelude.{
  ℕ, zero, suc, ◌-◌, ◌≤◌, ◌<◌, ◌≡◌, ◌≢◌, refl, sym, ap, subst, ◌∙◌, true, false, some, List, [],
  ◌∷◌, ◌++◌, ◌==◌, arith, inl, inr, Bool-cases, After, length-append,
}
use cevent_sample.Threadpool.{Pool, Pc, insert, new_worker, Worker, set_abort, remove}
use cevent_sample.Threadpool.System.{start, System, set}
use cevent_sample.Threadpool.Upto.{upto, remove-upto}
use cevent_sample.Threadpool.Invariant.{Inv}
use cevent_sample.Threadpool.Kept.{Reach-Kept}
use cevent_sample.Threadpool.Safety.{has, off_queue}
use cevent_sample.Threadpool.Trace.{
  count, doing, ran_by, Trace, here, register, thread, destroy, forget,
}
use cevent_sample.Threadpool.Effect.{Effect, EffectOf, stays, takes, runs, frees, routine-Effect}
use cevent_sample.Threadpool.Once.{taken_off, taken_off_lem, Once, same-Once, takes-Once, runs-Once}

queued-above : (w k n : ℕ) → has w (upto k n) ≡ true → k ≤ w
queued-above w k zero h = cc
queued-above w k (suc n) h = elim (Bool-cases (k == w)) [
  | inl at ↦ ground arith
  | inr off ↦ omega (arith, queued-above w (suc k) n (rw off at h))
]

module _ {J : Type 0} where
  -- a step of a client, which leaves the threads where they are
  pool-Once :
      {s : System J} {ran : List ℕ} (p : Pool J)
      → Once s ran
      → taken_off p ≡ taken_off s.pool
      → Once (record s { pool = p }) ran
  pool-Once p o e = record {
    once = o.once;
    later = λ w le. o.later w (omega (arith, e, le));
    busy = o.busy;
    over = λ w lt out. o.over w (omega (arith, e, lt)) out;
  }

  thread-Once :
      {s : System J} {ran : List ℕ} (o : Once s ran) {k : ℕ} (v : Inv s k) (i : ℕ) {p : Pool J}
      {c : Pc}
      → Effect s.pool (s.pc i) p c
      → Once (record { pool = p; pc = set s.pc i c }) (ran_by (s.pc i) ++ ran)
  thread-Once {s} {ran} o v i {p} {c} (stays n q d e) = rw e (same-Once o v i p c n q d)
  thread-Once {s} {ran} o v i {p} {c} (takes w n q d d' e) = rw e (takes-Once o v i p c w n q d d')
  thread-Once {s} {ran} o v i {p} {c} (runs w n q d d' e) = rw e (runs-Once o v i p c w n q d d')
  thread-Once {s} {ran} o {k} v i {p} {c} (frees w n q h d e) =
      let gone : remove w s.pool.worker_queue ≡ s.pool.worker_queue =
        ap (remove w) v.queued
        ∙ remove-upto w k (s.pool.next - k) (v.held_live i w h).0
        ∙ sym v.queued in
      rw e (same-Once o v i p c n (q ∙ gone) d)

  pub insert-taken_off : (p : Pool J) (wk : Worker J) → taken_off (insert p wk) ≡ taken_off p
  insert-taken_off p wk = omega (arith, length-append p.worker_queue (p.next ∷ []))

module _ {J : Type 0} (process : J → ℕ) where
  pub Trace-Once :
      {n : ℕ} {s : System J} {ran : List ℕ} → Trace process (start n) s ran → Once s ran
  unfolding set_abort
  Trace-Once here = record {
    once = λ w. omega arith;
    later = λ w le. refl;
    busy = λ i w h. refl;
    over = λ w lt out. absurd (omega (arith, lt));
  }
  Trace-Once (register {s} job complete_cb r) =
      let wk = new_worker job complete_cb in
      pool-Once (insert s.pool wk) (Trace-Once r) (insert-taken_off s.pool wk)
  Trace-Once (thread {s} i r e) =
      let (k, v) = Reach-Kept process (forget r) in
      thread-Once (Trace-Once r) v i
        (subst (After (EffectOf s.pool (s.pc i))) e (routine-Effect process s.pool (s.pc i)))
  Trace-Once (destroy {s} k r may) = pool-Once (set_abort s.pool) (Trace-Once r) refl

  -- Each job is run once: in every reachable state no job has been run twice, the job of a worker
  -- that is still queued has not been run, nor has that of a worker which a thread is about to run,
  -- and the job of any other registered worker has been run exactly once.
  pub each_job_runs_once :
      {n : ℕ} {s : System J} {ran : List ℕ}
      → Trace process (start n) s ran
      → (w : ℕ)
      → (count w ran ≤ 1)
        × (has w s.pool.worker_queue ≡ true → count w ran ≡ 0)
        × ((i : ℕ) → doing (s.pc i) ≡ some w → count w ran ≡ 0)
        × (w < s.pool.next
            → has w s.pool.worker_queue ≡ false
            → ((i : ℕ) → doing (s.pc i) ≢ some w)
            → count w ran ≡ 1)
  each_job_runs_once {s = s} r w =
      let (k, v) = Reach-Kept process (forget r) in
      let o = Trace-Once r in
      (
        o.once w,
        (λ on. o.later w (
            omega (
              arith,
              taken_off_lem v,
              queued-above w k (s.pool.next - k) (ap (has w) (sym v.queued) ∙ on),
            ))),
        (λ i h. o.busy i w h),
        (λ lt off out. o.over w (omega (arith, taken_off_lem v, off_queue v w lt off)) out),
      )
