-- ===== src/Threadpool/Tests.antt =====
-- A pool of one thread that runs one job, and the theorems at it.
use cevent_sample.Prelude.{
  ℕ, zero, suc, ◌*◌, ◌≡◌, ◌≢◌, refl, arith, true, false, Option, none, some, [], ◌∷◌, ◌==◌,
  if◌then◌else◌, Run, ret, fault, ◌>>=◌,
}
use cevent_sample.Threadpool.{
  post, drain, Pool, Worker, idle, busy, complete, Pc, born, looping, fetching, fetched, working,
  finished, load, remove, fetch, ce_tp_routine, ce_tp_worker_free, dispose, take_out, release,
  ce_tp_worker_touch, ce_tp_worker_wait, drain, returned,
}
use cevent_sample.Threadpool.Create.{first, IsCreated, ce_tp_create-hangs, create}
use cevent_sample.Threadpool.Create
use cevent_sample.Threadpool.System
use cevent_sample.Threadpool.System.{System, Step, Reach, start, register, thread, held, set}
use cevent_sample.Threadpool.Destroy.{destroy_frees_all}
use cevent_sample.Threadpool.Safety.{thread_never_faults, use_after_free}

abbrev process : ℕ → ℕ
process n = n * 2

abbrev w0 : Worker ℕ
w0 = record { job = 21; complete_cb = false; result = 0; state = idle; sem = 0 }

abbrev only : Option (Worker ℕ) → ℕ → Option (Worker ℕ)
only v x = if x == 0 then v else none

-- behind the registration of the job 21
abbrev registered : System ℕ
registered = record {
  pool = record (start {J = ℕ} 1).pool {
    worker_queue = 0 ∷ [];
    workers = λ x. if x == 0 then some w0 else none;
    next = 1;
  };
  pc = λ _. born;
}

registered-Reach : Reach process 1 registered
registered-Reach = System.next System.here (register 21 false)

thread_never_faults_example :
    (p : Pool ℕ) × (c : Pc) × (ce_tp_routine process registered.pool born ≡ ret (p, c))
thread_never_faults_example = thread_never_faults process registered-Reach 0

abbrev steps : ℕ → Pool ℕ → Pc → Run (Pool ℕ × Pc)
steps zero p c = ret (p, c)
steps (suc k) p c = ce_tp_routine process p c >>= λ (p', c'). steps k p' c'

-- Behind its job a thread posts the result, and one step later the worker is gone.
one_job :
    ((steps 5 registered.pool born >>= λ (p, c). ce_tp_worker_wait p (some 0)) ≡ ret (returned 42))
    × ((steps 6 registered.pool born >>= λ (p, c). ce_tp_worker_wait p (some 0)) ≡ fault)
unfolding ce_tp_routine fetch load ce_tp_worker_free dispose take_out release ce_tp_worker_wait
    remove
one_job = (refl, refl)

drained :
    drain registered.pool (0 ∷ [])
    ≡ ret (record registered.pool {
      worker_queue = [];
      workers = λ x.
          if x == 0
          then none
          else if x == 0
          then some (post w0)
          else if x == 0
          then some w0
          else none;
    })
unfolding drain dispose take_out release load
drained = refl

-- the thread 0 from the start to the end of its job, and the system behind it
abbrev pool_after : Pool ℕ
pool_after = record registered.pool {
  worker_queue = [];
  workers = λ x.
      if x == 0
      then none
      else if x == 0
      then some (record w0 { result = 42; state = complete; sem = 2 })
      else if x == 0
      then some (record w0 { result = 42; state = complete; sem = 1 })
      else if x == 0
      then some (record w0 { state = busy })
      else if x == 0
      then some w0
      else none;
  routines = 1;
}

step :
    {n : ℕ} {s : System ℕ}
    → Reach process n s
    → (i : ℕ) {p : Pool ℕ} {c : Pc} → ce_tp_routine process s.pool (s.pc i) ≡ ret (p, c)
    → Reach process n (record { pool = p; pc = set s.pc i c })
step r i h = System.next r (thread i h)

over : Reach process 1 (record {
  pool = pool_after;
  pc =
      set
        (set
          (set (set (set (set (λ _. born) 0 looping) 0 fetching) 0 (fetched 0)) 0 (working 0))
          0
          (finished 0))
        0
        looping;
})
unfolding ce_tp_routine fetch load ce_tp_worker_free dispose take_out release remove
over =
    step (step (step (step (step (step registered-Reach 0 refl) 0 refl) 0 refl) 0 refl) 0 refl) 0
      refl

idle_threads :
    (i : ℕ)
    → held (
        set
          (set
            (set (set (set (set (λ _. born) 0 looping) 0 fetching) 0 (fetched 0)) 0 (working 0))
            0
            (finished 0))
          0
          looping
          i)
      ≢ some 0
idle_threads i h = ground arith

use_after_free_example :
    (ce_tp_worker_touch pool_after (some 0) ≡ fault)
    × (ce_tp_worker_wait pool_after (some 0) ≡ fault)
use_after_free_example = use_after_free process over 0 (omega arith) refl idle_threads

ce_tp_create-hangs_example : ¬ (IsCreated 2 (record first { started = 1; spinning = true }))
ce_tp_create-hangs_example =
    ce_tp_create-hangs (omega arith) (Create.next Create.here (create refl (omega arith)))

destroy_frees_all_example :
    (p : Pool ℕ) × (drain registered.pool registered.pool.worker_queue ≡ ret p)
    × (p.worker_queue ≡ [])
    × (p.workers 0 ≡ none)
destroy_frees_all_example = destroy_frees_all process registered-Reach (λ i. refl) 0 (omega arith)
