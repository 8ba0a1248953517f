-- ===== src/Threadpool/Kills.antt =====
-- What becomes of the jobs of a pool that is destroyed.
use cevent_sample.Prelude.{
  ℕ, ◌-◌, ◌≤◌, ◌<◌, ◌≡◌, refl, ap, subst, ◌∙◌, Bool, true, false, Option, none, some, List, [], ◌∷◌,
  ◌++◌, ◌==◌, inl, inr, ◌⊎◌, Bool-cases, Option-cases, arith, After, ret, fault, length,
}
use cevent_sample.Threadpool.{
  Pool, Worker, wait, Pc, born, looping, fetching, asleep, fetched, working, finished, exited,
  insert, new_worker, ce_tp_routine, ce_tp_worker_wait, blocked, returned, may_destroy, may_abort,
  set_abort,
}
use cevent_sample.Threadpool.System.{System, start, Reach}
use cevent_sample.Threadpool.Kept.{load-ret, Reach-Kept}
use cevent_sample.Threadpool.Safety.{has, has-upto, load-fault}
use cevent_sample.Threadpool.Draining.{Meets, runs, ends, Drains-worker}
use cevent_sample.Threadpool.Told.{Waits}
use cevent_sample.Threadpool.Trace.{
  count, doing, Trace, here, register, thread, destroy, then_trace, follow, forget,
}
use cevent_sample.Threadpool.Once.{taken_off, taken_off_lem}
use cevent_sample.Threadpool.Runs.{insert-taken_off, Trace-Once}
use cevent_sample.Threadpool.Answers.{thread-Changes, Reach-Told}

module _ {J : Type 0} (process : J → ℕ) where
  abbrev IsBefore : Pool J → Pool J → Type 0
  IsBefore p q = (taken_off p ≤ taken_off q) × (p.next ≤ q.next)

  Trace-IsBefore :
      {n : ℕ} {a t : System J} {ran : List ℕ}
      → Reach process n a
      → Trace process a t ran
      → IsBefore a.pool t.pool
  unfolding set_abort
  Trace-IsBefore r here = (omega arith, omega arith)
  Trace-IsBefore r (register {s} job complete_cb l) =
      let (on, more) = Trace-IsBefore r l in
      (omega (arith, on, insert-taken_off s.pool (new_worker job complete_cb)), omega (arith, more))
  Trace-IsBefore r (thread i l e) =
      let at = follow r l in
      let ch = thread-Changes process (Reach-Kept process at).1 (Reach-Told process at) i e in
      let (on, more) = Trace-IsBefore r l in
      (omega (arith, on, ch.forward), omega (arith, more, ch.next))
  Trace-IsBefore r (destroy k l may) = Trace-IsBefore r l

  queue-empty : (q : List ℕ) → may_abort wait q ≡ true → q ≡ []
  unfolding may_abort
  queue-empty [] h = refl
  queue-empty (w ∷ ws) h = cc

  -- `ce_tp_destroy` with `tp_kill_wait` has every job run: where the queue that its loop found empty is
  -- so when it aborts the pool, then whatever steps follow, as soon as no thread has a job left to run,
  -- each job that was registered before the abort has been run exactly once.
  pub kill_wait_runs_all :
      {n : ℕ} {s t : System J} {before after : List ℕ}
      → Trace process (start n) s before
      → may_destroy (some (some s.pool)) ≡ true
      → may_abort wait s.pool.worker_queue ≡ true
      → Trace process (record s { pool = set_abort s.pool }) t after
      → ((i : ℕ) → doing (t.pc i) ≡ none)
      → (w : ℕ) → w < s.pool.next
      → count w (after ++ before) ≡ 1
  unfolding set_abort
  kill_wait_runs_all {s = s} r may ready l idle w lt =
      let aborted = destroy wait r may in
      let all = Trace-Once process (then_trace aborted l) in
      let (on, more) = Trace-IsBefore (forget aborted) l in
      all.over w (omega (arith, on, lt, ap length (queue-empty s.pool.worker_queue ready)))
        (λ i h. cc (idle i, h))

  -- whether a thread of an aborted pool takes nothing off the queue any more
  abbrev pub is_over : Pc → Bool
  is_over born = true
  is_over looping = true
  is_over exited = true
  is_over _ = false

  -- what stays so in an aborted pool
  pub record IsOver (s : System J) (k : ℕ) : Type 0 where
    pub aborted : s.pool.abort ≡ true
    pub threads : (i : ℕ) → is_over (s.pc i) ≡ true
    pub taken : taken_off s.pool ≡ k

  abbrev Rests : Pool J → Pool J × Pc → Type 0
  Rests p (p', c') = (p'.abort ≡ true) × (is_over c' ≡ true) × (taken_off p' ≡ taken_off p)

  routine-Rests :
      (p : Pool J) (c : Pc)
      → p.abort ≡ true
      → is_over c ≡ true
      → After (Rests p) (ce_tp_routine process p c)
  unfolding ce_tp_routine
  routine-Rests p born a h = (a, refl, refl)
  routine-Rests p looping a h = simp a (refl, refl, refl)
  routine-Rests p exited a h = (a, refl, refl)
  routine-Rests p fetching a h = cc
  routine-Rests p asleep a h = cc
  routine-Rests p (fetched w) a h = cc
  routine-Rests p (working w) a h = cc
  routine-Rests p (finished w) a h = cc

  Trace-IsOver :
      {a t : System J} {ran : List ℕ} {k : ℕ} → Trace process a t ran → IsOver a k → IsOver t k
  unfolding set_abort
  Trace-IsOver here v = v
  Trace-IsOver (register {s} job complete_cb l) v =
      let o = Trace-IsOver l v in
      record {
        aborted = o.aborted;
        threads = o.threads;
        taken = insert-taken_off s.pool (new_worker job complete_cb) ∙ o.taken;
      }
  Trace-IsOver (thread {s} i {p} {c} l e) v =
      let o = Trace-IsOver l v in
      let (a, over, taken) =
        subst (After (Rests s.pool)) e (routine-Rests s.pool (s.pc i) o.aborted (o.threads i)) in
      record {
        aborted = a;
        threads = λ j. elim (Bool-cases (j == i)) [
          | inl at ↦ rw at over
          | inr off ↦ rw off (o.threads j)
        ];
        taken = taken ∙ o.taken;
      }
  Trace-IsOver (destroy k l may) v =
      let o = Trace-IsOver l v in record { aborted = refl; threads = o.threads; taken = o.taken }

  -- a wait for a worker that no thread has taken off the queue
  late_wait :
      {n : ℕ} {t : System J} {q : Pool J} {o : Option ℕ} {wk : Worker J}
      → Reach process n t
      → Meets t q o
      → (w : ℕ) → t.pool.workers w ≡ some wk
      → Waits wk
      → (ce_tp_worker_wait q (some w) ≡ ret blocked)
        ⊎ (ce_tp_worker_wait q (some w) ≡ ret (returned 0))
        ⊎ (ce_tp_worker_wait q (some w) ≡ fault)
  unfolding ce_tp_worker_wait
  late_wait {t = t} r runs w live waits = inl (rw (load-ret t.pool w live, waits.1) refl)
  late_wait {q = q} r (ends aborted joined d) w live waits = elim (Option-cases (q.workers w)) [
    | inl gone ↦ inr (inr (rw (load-fault q w gone)))
    | inr (wk, there) ↦ elim (Drains-worker process r joined d w wk there) [
      | inl (st, sem, result) ↦ inl (rw (load-ret q w there, sem) refl)
      | inr (out, (st, sem, result)) ↦ inr (inl (rw (load-ret q w there, sem, result) refl))
    ]
  ]

  -- A registration that has passed its test of `abort` and takes the mutex only when the pool is aborted
  -- and its threads are over is lost: in whatever steps clients and threads make from then on, its job is
  -- never run, and its worker is still on the queue when the last loop of `ce_tp_destroy` begins. Before
  -- and in that loop a wait for it blocks, or returns NULL, or reads the worker when it is freed.
  pub late_registration_is_lost :
      {n : ℕ} {s t : System J} {before after : List ℕ} {q : Pool J} {o : Option ℕ} (job : J)
      (complete_cb : Bool)
      → Trace process (start n) s before
      → s.pool.abort ≡ true
      → ((i : ℕ) → is_over (s.pc i) ≡ true)
      → Trace process (record s { pool = insert s.pool (new_worker job complete_cb) }) t after
      → Meets t q o
      → (count s.pool.next (after ++ before) ≡ 0)
        × (has s.pool.next t.pool.worker_queue ≡ true)
        × ((ce_tp_worker_wait q (some s.pool.next) ≡ ret blocked)
            ⊎ (ce_tp_worker_wait q (some s.pool.next) ≡ ret (returned 0))
            ⊎ (ce_tp_worker_wait q (some s.pool.next) ≡ fault))
  late_registration_is_lost {s = s} {t} job complete_cb r aborted threads l m =
      let first = register job complete_cb r in
      let all = then_trace first l in
      let (k, v) = Reach-Kept process (forget all) in
      let o = Trace-IsOver {k = taken_off s.pool} l (record {
        aborted = aborted;
        threads = threads;
        taken = insert-taken_off s.pool (new_worker job complete_cb);
      }) in
      let behind : taken_off t.pool ≤ s.pool.next = omega (arith, o.taken) in
      let there : s.pool.next < t.pool.next = omega (arith, (Trace-IsBefore (forget first) l).1) in
      let (wk, live) = v.waiting_live s.pool.next (omega (arith, behind, taken_off_lem v)) there in
      let waits = (Reach-Told process (forget all)).waits s.pool.next wk behind live in
      (
        (Trace-Once process all).later s.pool.next behind,
        ap (has s.pool.next) v.queued
            ∙ has-upto s.pool.next k (t.pool.next - k) (omega (arith, behind, taken_off_lem v))
                (omega (arith, there, v.behind)),
        late_wait (forget all) m s.pool.next live waits,
      )
