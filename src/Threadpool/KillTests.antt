-- ===== src/Threadpool/KillTests.antt =====
-- A pool that is destroyed while its thread holds the only job, one that is destroyed before a
-- registration is through, and the theorems at them.
use cevent_sample.Prelude.{
  ℕ, ◌*◌, ◌≡◌, refl, true, false, none, some, [], ◌∷◌, ◌++◌, ◌==◌, if◌then◌else◌, ret, arith, fault,
  ◌⊎◌,
}
use cevent_sample.Threadpool.{
  immediate, wait, busy, complete, born, looping, fetching, fetched, working, finished, new_worker,
  insert, load, fetch, ce_tp_routine, ce_tp_worker_wait, blocked, returned, Pool, take_out,
  may_destroy, may_abort, set_abort,
}
use cevent_sample.Threadpool.System.{System, set, start}
use cevent_sample.Threadpool.Safety.{has}
use cevent_sample.Threadpool.Trace.{count, doing, Trace, here, register, thread, destroy}
use cevent_sample.Threadpool.Draining
use cevent_sample.Threadpool.Draining.{Meets, ends, posts}
use cevent_sample.Threadpool.Kills.{kill_wait_runs_all, late_registration_is_lost}

abbrev process : ℕ → ℕ
process n = n * 2

-- the thread 0 has fetched the job 21, which was the only one
abbrev holding : System ℕ
holding = record {
  pool = record (insert (start {J = ℕ} 1).pool (new_worker 21 false)) {
    worker_queue = [];
    routines = 1;
  };
  pc = set (set (set (λ _. born) 0 looping) 0 fetching) 0 (fetched 0);
}

holding-Trace : Trace process (start 1) holding []
unfolding ce_tp_routine fetch
holding-Trace = thread 0 (thread 0 (thread 0 (register 21 false here) refl) refl) refl

abbrev killed : System ℕ
killed = record holding { pool = record holding.pool { abort = true } }

abbrev over : System ℕ
over = record {
  pool = record killed.pool {
    workers = λ x.
        if x == 0
        then some (record (new_worker 21 false) { result = 42; state = complete; sem = 1 })
        else if x == 0
        then some (record (new_worker 21 false) { state = busy })
        else killed.pool.workers x;
  };
  pc = set (set killed.pc 0 (working 0)) 0 (finished 0);
}

over-Trace : Trace process killed over (0 ∷ [])
unfolding ce_tp_routine load
over-Trace = thread 0 (thread 0 here refl) refl

over_is_idle : (i : ℕ) → doing (over.pc i) ≡ none
over_is_idle i = ground arith

may_kill : may_destroy (some (some holding.pool)) ≡ true
unfolding may_destroy
may_kill = refl

queue_is_empty : may_abort wait holding.pool.worker_queue ≡ true
unfolding may_abort
queue_is_empty = refl

aborts : Trace process (record holding { pool = set_abort holding.pool }) over (0 ∷ [])
unfolding set_abort
aborts = over-Trace

kill_wait_runs_all_example : count 0 ((0 ∷ []) ++ []) ≡ 1
kill_wait_runs_all_example =
    kill_wait_runs_all process holding-Trace may_kill queue_is_empty aborts over_is_idle 0
      (omega arith)

abbrev empty_killed : System ℕ
empty_killed = record (start {J = ℕ} 1) { pool = record (start {J = ℕ} 1).pool { abort = true } }

empty_killed-Trace : Trace process (start 1) empty_killed []
unfolding may_destroy set_abort
empty_killed-Trace = destroy immediate here refl

-- the late worker is posted by the loop
abbrev late_posted : Pool ℕ
late_posted = record empty_killed.pool {
  workers = λ x.
      if x == 0
      then some (record (new_worker 21 false) { sem = 1 })
      else if x == 0
      then some (new_worker 21 false)
      else none;
  next = 1;
}

late-Meets :
    Meets
      (record empty_killed { pool = insert empty_killed.pool (new_worker 21 false) })
      late_posted
      (some 0)
unfolding take_out load
late-Meets = ends refl (λ i. refl) (posts Draining.here refl refl)

late_registration_is_lost_example :
    (count 0 ([] ++ []) ≡ 0)
    × (has 0 (0 ∷ []) ≡ true)
    × ((ce_tp_worker_wait late_posted (some 0) ≡ ret blocked)
        ⊎ (ce_tp_worker_wait late_posted (some 0) ≡ ret (returned 0))
        ⊎ (ce_tp_worker_wait late_posted (some 0) ≡ fault))
late_registration_is_lost_example =
    late_registration_is_lost process 21 false empty_killed-Trace refl (λ i. refl) here late-Meets
