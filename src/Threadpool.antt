-- ===== src/Threadpool.antt =====
-- The thread pool of src/cevent/cevent/ce_threadpool.c.
-- `worker` objects stand on a heap of their own, `none` where the memory is not (or no longer)
-- allocated. A job `J` is the callback with its `user_data`; `process` is what running it returns.
-- A thread of `ce_tp_routine` is cut where it takes or gives up the mutex, and where it runs a job.
pub mod Create
mod Upto
pub mod Invariant
pub mod Kept
pub mod System
pub mod Safety
pub mod Destroy
pub mod Wakeups
pub mod Joins
pub mod Trace
mod Effect
mod Told
mod Steps
mod Answers
mod Draining
pub mod Results
pub mod Kills
mod Once
pub mod Runs
mod Tests
mod WakeTests
mod RunTests
mod KillTests
use cevent_sample.Prelude.{
  ℕ, ◌+◌, Bool, true, false, ◌||◌, Option, none, some, List, [], ◌∷◌, ◌++◌, ◌==◌, if◌then◌else◌,
  Run, ret, fault, ◌>>=◌,
}

pub data State : Type 0 where
  idle busy complete invalid : State

pub data Kill : Type 0 where
  immediate wait : Kill

-- `struct ce_tp_worker`; `sem` counts the posts that no wait has taken.
pub record Worker (J : Type 0) : Type 0 where
  pub job : J
  pub complete_cb : Bool
  pub result : ℕ
  pub state : State
  pub sem : ℕ

-- `struct ce_tp`; `next` is the address of the worker that is allocated next.
pub record Pool (J : Type 0) : Type 0 where
  pub worker_queue : List ℕ
  pub workers : ℕ → Option (Worker J)
  pub next : ℕ
  pub nthreads : ℕ
  pub abort : Bool
  pub routines : ℕ

-- where a thread stands in `ce_tp_routine`, with its `worker`
pub data Pc : Type 0 where
  born : Pc
  looping : Pc
  fetching : Pc
  asleep : Pc
  fetched : ℕ → Pc
  working : ℕ → Pc
  finished : ℕ → Pc
  exited : Pc

-- what `ce_tp_worker_wait` does: it stays in `sem_wait`, or returns a result
pub data Waited : Type 0 where
  blocked : Waited
  returned : ℕ → Waited

-- `TAILQ_FOREACH` up to the worker, and its `TAILQ_REMOVE`
unfoldable pub remove : ℕ → List ℕ → List ℕ
remove w [] = []
remove w (x ∷ xs) = if x == w then xs else x ∷ remove w xs

-- whether the polling loop of `ce_tp_destroy` lets it go on to abort the pool
unfoldable pub may_abort : Kill → List ℕ → Bool
may_abort immediate q = true
may_abort wait [] = true
may_abort wait (w ∷ ws) = false

module _ {J : Type 0} where
  abbrev pub update : (ℕ → Option (Worker J)) → ℕ → Option (Worker J) → ℕ → Option (Worker J)
  update f w v x = if x == w then v else f x

  unfoldable pub load : Pool J → ℕ → Run (Worker J)
  load p w = elim (p.workers w) [ none ↦ fault | some wk ↦ ret wk ]

  -- `sem_post`
  abbrev pub post : Worker J → Worker J
  post wk = record wk { sem = wk.sem + 1 }

  -- A worker leaves the queue, of which `ws` is left, and its semaphore is posted.
  unfoldable pub take_out : Pool J → ℕ → List ℕ → Run (Pool J)
  take_out p w ws = do
    wk ← load p w
    ret (record p { worker_queue = ws; workers = update p.workers w (some (post wk)) })

  -- `sem_destroy` and `ce_free`
  unfoldable pub release : Pool J → ℕ → Run (Pool J)
  release p w = do wk ← load p w; ret (record p { workers = update p.workers w none })

  unfoldable pub dispose : Pool J → ℕ → List ℕ → Run (Pool J)
  dispose p w ws = do posted ← take_out p w ws; release posted w

  unfoldable pub ce_tp_worker_free : Pool J → ℕ → Run (Pool J)
  ce_tp_worker_free p w = dispose p w (remove w p.worker_queue)

  -- the worker of a new job
  abbrev pub new_worker : J → Bool → Worker J
  new_worker job complete_cb = record {
    job = job;
    complete_cb = complete_cb;
    result = 0;
    state = idle;
    sem = 0;
  }

  -- its way into the queue, which is under the mutex
  abbrev pub insert : Pool J → Worker J → Pool J
  insert p wk = record p {
    worker_queue = p.worker_queue ++ (p.next ∷ []);
    workers = update p.workers p.next (some wk);
    next = p.next + 1;
  }

  -- `none` for the job stands for a NULL `process_cb`. The test of `abort` is not under the mutex.
  unfoldable pub ce_tp_worker_register :
      Option (Pool J) → Option J → Bool → Option ℕ × Option (Pool J)
  ce_tp_worker_register none job complete_cb = (none, none)
  ce_tp_worker_register (some p) none complete_cb = (none, some p)
  ce_tp_worker_register (some p) (some job) complete_cb =
      if p.abort
      then (none, some p)
      else (some p.next, some (insert p (new_worker job complete_cb)))

  unfoldable pub ce_tp_worker_touch : Pool J → Option ℕ → Run State
  ce_tp_worker_touch p none = ret invalid
  ce_tp_worker_touch p (some w) = do wk ← load p w; ret wk.state

  unfoldable pub ce_tp_worker_wait : Pool J → Option ℕ → Run Waited
  ce_tp_worker_wait p none = ret (returned 0)
  ce_tp_worker_wait p (some w) = do
    wk ← load p w
    ret (if wk.sem == 0 then blocked else returned wk.result)

  -- `while ((worker = TAILQ_FIRST(…)) == NULL)`, once round
  unfoldable pub fetch : Pool J → List ℕ → Pool J × Pc
  fetch p [] = if p.abort then (p, exited) else (p, asleep)
  fetch p (w ∷ ws) = (record p { worker_queue = ws }, fetched w)

  -- one step of `ce_tp_routine`
  unfoldable pub ce_tp_routine : (J → ℕ) → Pool J → Pc → Run (Pool J × Pc)
  ce_tp_routine process p born = ret (record p { routines = p.routines + 1 }, looping)
  ce_tp_routine process p looping = ret (if p.abort then (p, exited) else (p, fetching))
  ce_tp_routine process p fetching = ret (fetch p p.worker_queue)
  ce_tp_routine process p asleep = ret (p, fetching)
  ce_tp_routine process p (fetched w) = do
    wk ← load p w
    ret (record p { workers = update p.workers w (some (record wk { state = busy })) }, working w)
  ce_tp_routine process p (working w) = do
    wk ← load p w
    ret (
      record p {
        workers =
            update p.workers w
              (some (record wk { result = process wk.job; state = complete; sem = wk.sem + 1 }));
      },
      finished w,
    )
  ce_tp_routine process p (finished w) = do p' ← ce_tp_worker_free p w; ret (p', looping)
  ce_tp_routine process p exited = ret (p, exited)

  -- the call of `complete_cb` that a step makes: with the worker, the result, and the job for its
  -- `user_data`
  unfoldable pub complete_call : Pool J → Pc → Run (Option (ℕ × ℕ × J))
  complete_call p (finished w) = do
    wk ← load p w
    ret (if wk.complete_cb then some (w, wk.result, wk.job) else none)
  complete_call p _ = ret none

  -- `ce_tp_destroy` refuses a pool that is NULL or already aborted.
  unfoldable pub may_destroy : Option (Option (Pool J)) → Bool
  may_destroy none = false
  may_destroy (some none) = false
  may_destroy (some (some p)) = if p.abort then false else true

  unfoldable pub set_abort : Pool J → Pool J
  set_abort p = record p { abort = true }

  -- behind the joins: every worker that is still queued is freed
  unfoldable pub drain : Pool J → List ℕ → Run (Pool J)
  drain p [] = ret (record p { worker_queue = [] })
  drain p (w ∷ ws) = do freed ← dispose p w ws; drain freed ws
