-- ===== src/Threadpool/RunTests.antt =====
-- The thread 0 of a pool runs the first of two jobs, and the theorem at it.
use cevent_sample.Prelude.{
  ℕ, ◌≤◌, ◌<◌, ◌≡◌, ◌≢◌, refl, true, false, some, [], ◌∷◌, ◌==◌, if◌then◌else◌, ret, ◌*◌, Option,
  none, ◌⊎◌,
}
use cevent_sample.Threadpool.{
  Worker, idle, busy, complete, born, looping, fetching, fetched, working, finished, load, fetch,
  ce_tp_routine, ce_tp_worker_register, ce_tp_worker_wait, ce_tp_worker_touch, complete_call,
  blocked, returned,
}
use cevent_sample.Threadpool.System.{System, set, start}
use cevent_sample.Threadpool.Safety.{has}
use cevent_sample.Threadpool.Trace.{count, doing, Trace, here, register, thread, forget}
use cevent_sample.Threadpool.System
use cevent_sample.Threadpool.Draining.{runs}
use cevent_sample.Threadpool.Results.{wait_returns_result, callback_gets_result}
use cevent_sample.Threadpool.Runs.{each_job_runs_once}

abbrev process : ℕ → ℕ
process n = n * 2

abbrev fresh : ℕ → Worker ℕ
fresh job = record { job = job; complete_cb = false; result = 0; state = idle; sem = 0 }

-- the job 21 with a callback
abbrev called : Worker ℕ
called = record (fresh 21) { complete_cb = true }

-- behind the registration of the jobs 21 and 33
abbrev two_jobs : System ℕ
two_jobs = record {
  pool = record (start {J = ℕ} 1).pool {
    worker_queue = 0 ∷ 1 ∷ [];
    workers = λ x. if x == 1 then some (fresh 33) else if x == 0 then some called else none;
    next = 2;
  };
  pc = λ _. born;
}

two_jobs-Trace : Trace process (start 1) two_jobs []
two_jobs-Trace = register 33 false (register 21 true here)

abbrev first_over : System ℕ
first_over = record {
  pool = record two_jobs.pool {
    worker_queue = 1 ∷ [];
    workers = λ x.
        if x == 0
        then some (record called { result = 42; state = complete; sem = 1 })
        else if x == 0
        then some (record called { state = busy })
        else two_jobs.pool.workers x;
    routines = 1;
  };
  pc =
      set (set (set (set (set (λ _. born) 0 looping) 0 fetching) 0 (fetched 0)) 0 (working 0)) 0
        (finished 0);
}

first_over-Trace : Trace process (start 1) first_over (0 ∷ [])
unfolding ce_tp_routine fetch load
first_over-Trace =
    thread 0 (thread 0 (thread 0 (thread 0 (thread 0 two_jobs-Trace refl) refl) refl) refl) refl

each_job_runs_once_example :
    (count 0 (0 ∷ []) ≤ 1)
    × (has 0 first_over.pool.worker_queue ≡ true → count 0 (0 ∷ []) ≡ 0)
    × ((i : ℕ) → doing (first_over.pc i) ≡ some 0 → count 0 (0 ∷ []) ≡ 0)
    × (0 < first_over.pool.next
        → has 0 first_over.pool.worker_queue ≡ false
        → ((i : ℕ) → doing (first_over.pc i) ≢ some 0)
        → count 0 (0 ∷ []) ≡ 1)
each_job_runs_once_example = each_job_runs_once process first_over-Trace 0

-- the job 21 alone, from its registration to the post of its result
abbrev one_job : System ℕ
one_job = record {
  pool = record (start {J = ℕ} 1).pool {
    worker_queue = 0 ∷ [];
    workers = λ x. if x == 0 then some (fresh 21) else none;
    next = 1;
  };
  pc = λ _. born;
}

abbrev posted : System ℕ
posted = record {
  pool = record one_job.pool {
    worker_queue = [];
    workers = λ x.
        if x == 0
        then some (record (fresh 21) { result = 42; state = complete; sem = 1 })
        else if x == 0
        then some (record (fresh 21) { state = busy })
        else one_job.pool.workers x;
    routines = 1;
  };
  pc = first_over.pc;
}

posted-Trace : Trace process one_job posted (0 ∷ [])
unfolding ce_tp_routine fetch load
posted-Trace = thread 0 (thread 0 (thread 0 (thread 0 (thread 0 here refl) refl) refl) refl) refl

one_job_registers :
    ce_tp_worker_register (some (start {J = ℕ} 1).pool) (some 21) false
    ≡ (some 0, some one_job.pool)
unfolding ce_tp_worker_register
one_job_registers = refl

wait_returns_result_example :
    (ce_tp_worker_wait posted.pool (some 0) ≡ ret blocked)
    ⊎ ((ce_tp_worker_touch posted.pool (some 0) ≡ ret complete)
        × (ce_tp_worker_wait posted.pool (some 0) ≡ ret (returned 42)))
    ⊎ ((◌≡◌ {A = Option ℕ} none (some 0))
        × (ce_tp_worker_touch posted.pool (some 0) ≡ ret idle)
        × (ce_tp_worker_wait posted.pool (some 0) ≡ ret (returned 0)))
wait_returns_result_example =
    wait_returns_result process {n = 1} 21 false System.here one_job_registers posted-Trace runs
      refl

callback_gets_result_example :
    (wk : Worker ℕ) × (first_over.pool.workers 0 ≡ some wk)
    × (complete_call first_over.pool (first_over.pc 0)
        ≡ ret (if wk.complete_cb then some (0, process wk.job, wk.job) else none))
callback_gets_result_example = callback_gets_result process 0 (forget first_over-Trace) refl
