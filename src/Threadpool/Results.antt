-- ===== src/Threadpool/Results.antt =====
-- What a client that waits for a worker gets, and what its callback is called with.
use cevent_sample.Prelude.{
  List, Bool-cases, ℕ, ◌<◌, ◌≡◌, refl, sym, ap, subst, ◌∙◌, Bool, true, false, Option, none, some,
  ◌==◌, inl, inr, ◌⊎◌, arith, if◌then◌else◌, ret,
}
use cevent_sample.Threadpool.{
  insert, new_worker, Pool, Worker, idle, complete, finished, ce_tp_worker_register,
  ce_tp_worker_touch, ce_tp_worker_wait, complete_call, blocked, returned, set_abort,
}
use cevent_sample.Threadpool.System.{System, held, Reach}
use cevent_sample.Threadpool.System
use cevent_sample.Threadpool.Invariant.{some_eq}
use cevent_sample.Threadpool.Kept.{load-ret, Reach-Kept}
use cevent_sample.Threadpool.Trace.{Trace, here, register, thread, destroy, follow}
use cevent_sample.Threadpool.Draining.{Meets, runs, ends, Drains-worker}
use cevent_sample.Threadpool.Told.{Tells, SameJob}
use cevent_sample.Threadpool.Answers.{thread-Changes, Reach-Told, wait_cases}

module _ {J : Type 0} (process : J → ℕ) where
  -- the address was given to a job
  record IsJob (wk : Worker J) (w : ℕ) (s : System J) : Type 0 where
    given : w < s.pool.next
    kept : (y : Worker J) → s.pool.workers w ≡ some y → SameJob wk y

  insert-IsJob :
      {s : System J} {wk : Worker J} {w : ℕ} (other : Worker J)
      → IsJob wk w s
      → IsJob wk w (record s { pool = insert s.pool other })
  insert-IsJob {s} {wk} {w} other g = record {
    given = omega (arith, g.given);
    kept = λ y live.
        let off : (w == s.pool.next) ≡ false = ground (arith, g.given) in
        g.kept y (simp off at live);
  }

  -- A job keeps its address in all steps that a pool makes.
  Trace-IsJob :
      {n : ℕ} {a t : System J} {ran : List ℕ} {wk : Worker J} {w : ℕ}
      → Reach process n a
      → Trace process a t ran
      → IsJob wk w a
      → IsJob wk w t
  unfolding set_abort
  Trace-IsJob r here g = g
  Trace-IsJob r (register job complete_cb l) g =
      insert-IsJob (new_worker job complete_cb) (Trace-IsJob r l g)
  Trace-IsJob r (thread i l e) g =
      let at = follow r l in
      let ch = thread-Changes process (Reach-Kept process at).1 (Reach-Told process at) i e in
      let before = Trace-IsJob r l g in
      record {
        given = omega (arith, ch.next, before.given);
        kept = λ y live.
            let (y', was, (job, callback)) = ch.job _ y live in
            let old = before.kept y' was in (old.0 ∙ job, old.1 ∙ callback);
      }
  Trace-IsJob r (destroy k l may) g =
      let before = Trace-IsJob r l g in record { given = before.given; kept = before.kept }

  -- a registration that is not refused
  registered :
      (p : Pool J) (job : J) (complete_cb : Bool) {w : ℕ} {p' : Pool J}
      → ce_tp_worker_register (some p) (some job) complete_cb ≡ (some w, some p')
      → (insert p (new_worker job complete_cb) ≡ p') × (p.next ≡ w)
  unfolding ce_tp_worker_register
  registered p job complete_cb e = elim (Bool-cases p.abort) [
    | inl a ↦ ground arith
    | inr a ↦ (ground arith, ground arith)
  ]

  new-IsJob :
      (s : System J) (wk : Worker J) → IsJob wk s.pool.next (record s { pool = insert s.pool wk })
  new-IsJob s wk =
      let self : (s.pool.next == s.pool.next) ≡ true = ground arith in
      record {
        given = omega arith;
        kept = λ y live. subst (SameJob wk) (some_eq (simp self at live)) (refl, refl);
      }

  -- what a client meets at the address of a job
  abbrev Answers : Pool J → Option ℕ → ℕ → J → Type 0
  Answers q o w job =
      (ce_tp_worker_wait q (some w) ≡ ret blocked)
      ⊎ ((ce_tp_worker_touch q (some w) ≡ ret complete)
          × (ce_tp_worker_wait q (some w) ≡ ret (returned (process job))))
      ⊎ ((o ≡ some w)
          × (ce_tp_worker_touch q (some w) ≡ ret idle)
          × (ce_tp_worker_wait q (some w) ≡ ret (returned 0)))

  met :
      {n : ℕ} {t : System J} {q : Pool J} {o : Option ℕ} {wk new : Worker J} {w : ℕ}
      → Reach process n t
      → IsJob new w t
      → Meets t q o
      → q.workers w ≡ some wk
      → Answers q o w new.job
  unfolding ce_tp_worker_wait ce_tp_worker_touch
  met {t = t} {wk = wk} {w = w} at given runs live =
      let same = given.kept wk live in
      elim (wait_cases process (Reach-Kept process at).1 (Reach-Told process at) w live) [
        | inl empty ↦ inl (rw (load-ret t.pool w live, empty) refl)
        | inr (posted, state, result) ↦ inr (
            inl (
              rw (load-ret t.pool w live, state) refl,
              rw (load-ret t.pool w live, posted)
                  (ap (λ x. ret (returned x)) (result ∙ ap process (sym same.0))),
            ))
      ]
  met {q = q} {wk = wk} {w = w} at given (ends aborted joined d) live =
      elim (Drains-worker process at joined d w wk live) [
        | inl (st, sem, result) ↦ inl (rw (load-ret q w live, sem) refl)
        | inr (out, (st, sem, result)) ↦
            inr
              (inr (out, rw (load-ret q w live, st) refl, rw (load-ret q w live, sem, result) refl))
      ]

  -- What a worker promises: a job that was registered is waited for by its address. As long as its
  -- worker is allocated, in whatever steps the pool has made since, a wait blocks, or the worker says
  -- that it is complete and the wait returns what this very job returns, or the worker is the one that
  -- the last loop of `ce_tp_destroy` has posted and has still to free: then it says that it is idle, and
  -- the wait returns NULL.
  pub wait_returns_result :
      {n : ℕ} {s t : System J} {ran : List ℕ} (job : J) (complete_cb : Bool) {w : ℕ} {p : Pool J}
      {q : Pool J} {o : Option ℕ} {wk : Worker J}
      → Reach process n s
      → ce_tp_worker_register (some s.pool) (some job) complete_cb ≡ (some w, some p)
      → Trace process (record s { pool = p }) t ran
      → Meets t q o
      → q.workers w ≡ some wk
      → (ce_tp_worker_wait q (some w) ≡ ret blocked)
        ⊎ ((ce_tp_worker_touch q (some w) ≡ ret complete)
            × (ce_tp_worker_wait q (some w) ≡ ret (returned (process job))))
        ⊎ ((o ≡ some w)
            × (ce_tp_worker_touch q (some w) ≡ ret idle)
            × (ce_tp_worker_wait q (some w) ≡ ret (returned 0)))
  wait_returns_result {n} {s} {t} {ran} job complete_cb {w} {p} r e l m live =
      let (grown, address) = registered s.pool job complete_cb e in
      let new = new_worker job complete_cb in
      let l' : Trace process (record s { pool = insert s.pool new }) t ran =
        subst (λ q. Trace process (record s { pool = q }) t ran) (sym grown) l in
      let first = System.next r (System.register job complete_cb) in
      let given : IsJob new w t =
        subst (λ x. IsJob new x t) address (Trace-IsJob first l' (new-IsJob s new)) in
      met (follow first l') given m live

  -- A thread whose job is over calls the callback of its worker, if it has one, with what the job
  -- returned.
  pub callback_gets_result :
      {n : ℕ} {s : System J} (i : ℕ) {w : ℕ}
      → Reach process n s
      → s.pc i ≡ finished w
      → (wk : Worker J) × (s.pool.workers w ≡ some wk)
        × (complete_call s.pool (s.pc i)
            ≡ ret (if wk.complete_cb then some (w, process wk.job, wk.job) else none))
  unfolding complete_call
  callback_gets_result {s = s} i {w} r at =
      let (k, v) = Reach-Kept process r in
      let h : held (s.pc i) ≡ some w = rw at in
      let (wk, live) = (v.held_live i w h).1 in
      let now : Tells process (finished w) wk =
        subst (λ c. Tells process c wk) at ((Reach-Told process r).tells i w wk h live) in
      (
        wk,
        live,
        rw (at, load-ret s.pool w live)
            (ap (λ x. ret (if wk.complete_cb then some (w, x, wk.job) else none)) now.1),
      )
