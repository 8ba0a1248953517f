-- ===== src/Threadpool/System.antt =====
-- A pool with its threads and its clients, in any order of their steps.
use cevent_sample.Prelude.{
  ℕ, ◌≡◌, Bool, true, false, Option, none, some, [], ◌==◌, if◌then◌else◌, ret,
}
use cevent_sample.Threadpool.{
  Pool, Pc, born, Kill, fetched, working, finished, ce_tp_routine, insert, new_worker, may_destroy,
  set_abort,
}

abbrev pub set : (ℕ → Pc) → ℕ → Pc → ℕ → Pc
set f i v j = if j == i then v else f j

-- the worker that a thread holds
abbrev pub held : Pc → Option ℕ
held (fetched w) = some w
held (working w) = some w
held (finished w) = some w
held _ = none

pub record System (J : Type 0) : Type 0 where
  pub pool : Pool J
  pub pc : ℕ → Pc

module _ {J : Type 0} where
  -- A client registers a job, a thread makes a step, or `ce_tp_destroy` sets the flag. A registration is
  -- the insertion alone: the flag may have been set since it was tested. The flag is set at any time
  -- behind the test of `may_destroy`: `tp_kill_wait` looks at the queue before that without the mutex.
  pub data Step (process : J → ℕ) (s : System J) : System J → Type 0 where
    register :
        (job : J) (complete_cb : Bool)
        → Step process s (record s { pool = insert s.pool (new_worker job complete_cb) })
    thread :
        (i : ℕ) {p : Pool J} {c : Pc}
        → ce_tp_routine process s.pool (s.pc i) ≡ ret (p, c)
        → Step process s (record { pool = p; pc = set s.pc i c })
    destroy :
        (k : Kill)
        → may_destroy (some (some s.pool)) ≡ true
        → Step process s (record s { pool = set_abort s.pool })

  abbrev pub start : ℕ → System J
  start n = record {
    pool = record {
      worker_queue = [];
      workers = λ _. none;
      next = 0;
      nthreads = n;
      abort = false;
      routines = 0;
    };
    pc = λ _. born;
  }

  pub data Reach (process : J → ℕ) (n : ℕ) : System J → Type 0 where
    here : Reach process n (start n)
    next : {s t : System J} → Reach process n s → Step process s t → Reach process n t
