-- ===== src/Threadpool/Safety.antt =====
-- In every reachable state of a pool its threads touch only workers that are allocated, and a worker
-- whose job is over is gone.
use cevent_sample.Prelude.{
  ℕ, zero, suc, ◌||◌, ltb, ◌+◌, ◌-◌, ◌≤◌, ◌<◌, ◌≡◌, ◌≢◌, refl, ap, Bool, true, false, none, some,
  List, [], ◌∷◌, ◌==◌, ret, fault, arith, inl, inr, Bool-cases,
}
use cevent_sample.Threadpool.{Pool, Pc, load, ce_tp_routine, ce_tp_worker_touch, ce_tp_worker_wait}
use cevent_sample.Threadpool.System.{System, held, Reach}
use cevent_sample.Threadpool.Upto.{upto}
use cevent_sample.Threadpool.Invariant.{Inv}
use cevent_sample.Threadpool.Kept.{thread-Kept, Reach-Kept}

abbrev pub has : ℕ → List ℕ → Bool
has w [] = false
has w (x ∷ xs) = (x == w) || has w xs

pub has-upto : (w k n : ℕ) → k ≤ w → w < k + n → has w (upto k n) ≡ true
has-upto w k zero a b = absurd (omega arith)
has-upto w k (suc n) a b = ground (arith, has-upto w (suc k) n)

module _ {J : Type 0} where
  pub load-fault : (p : Pool J) (w : ℕ) → p.workers w ≡ none → load p w ≡ fault
  unfolding load
  load-fault p w h = ground arith

  -- what is registered and not on the queue has been taken off it
  pub off_queue :
      {s : System J} {k : ℕ} (v : Inv s k) (w : ℕ)
      → w < s.pool.next
      → has w s.pool.worker_queue ≡ false
      → w < k
  off_queue {s} {k} v w lt off = elim (Bool-cases (ltb w k)) [
    | inl below ↦ ground arith
    | inr above ↦
        let on = has-upto w k (s.pool.next - k) (ground arith) (ground (arith, v.behind)) in
        cc (off, on, ap (has w) v.queued)
  ]

module _ {J : Type 0} (process : J → ℕ) where
  -- In every reachable state of a pool whose clients never free a worker themselves, each thread can
  -- make its next step: it never reads or writes a worker that is not allocated.
  pub thread_never_faults :
      {n : ℕ} {s : System J}
      → Reach process n s
      → (i : ℕ) → (p : Pool J) × (c : Pc) × (ce_tp_routine process s.pool (s.pc i) ≡ ret (p, c))
  thread_never_faults r i =
      let (p, c, is, kept) = thread-Kept process (Reach-Kept process r).1 i _ refl in (p, c, is)

  -- No two threads ever hold the same worker, so no job is run twice at once.
  pub one_thread_per_worker :
      {n : ℕ} {s : System J}
      → Reach process n s
      → (i j w : ℕ) → held (s.pc i) ≡ some w
      → held (s.pc j) ≡ some w
      → i ≡ j
  one_thread_per_worker r = (Reach-Kept process r).1.unique

  -- A worker that was registered, is off the queue and is held by no thread has been freed: to touch
  -- it or to wait for it reads freed memory.
  pub use_after_free :
      {n : ℕ} {s : System J}
      → Reach process n s
      → (w : ℕ) → w < s.pool.next
      → has w s.pool.worker_queue ≡ false
      → ((i : ℕ) → held (s.pc i) ≢ some w)
      → (ce_tp_worker_touch s.pool (some w) ≡ fault) × (ce_tp_worker_wait s.pool (some w) ≡ fault)
  unfolding ce_tp_worker_touch ce_tp_worker_wait
  use_after_free {s} r w lt off out =
      let v = (Reach-Kept process r).1 in
      let gone : s.pool.workers w ≡ none = v.freed w (off_queue v w lt off) out in
      (rw (load-fault s.pool w gone), rw (load-fault s.pool w gone))
