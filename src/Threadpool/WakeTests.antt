-- ===== src/Threadpool/WakeTests.antt =====
-- A pool of one thread that goes to sleep and is aborted, and the theorems on wake-ups at it.
use cevent_sample.Prelude.{ℕ, ◌≤◌, ◌≡◌, refl, true, false, [], ret}
use cevent_sample.Threadpool.{
  Pool, immediate, Pc, born, looping, fetching, asleep, fetch, ce_tp_routine, may_destroy,
  set_abort,
}
use cevent_sample.Threadpool.System.{set}
use cevent_sample.Threadpool.Wakeups.{
  Waking, mark, everyone, may_run, thread, destroy, start, Wakes, here, next, sleepers_have_nothing,
}
use cevent_sample.Threadpool.Joins.{Turns, aborted_threads_end}

abbrev process : ℕ → ℕ
process n = n

-- behind the third step of the thread 0
abbrev sleeping : Waking ℕ
sleeping = record {
  pool = record (start {J = ℕ} 1).pool { routines = 1 };
  pc = set (set (set (λ _. born) 0 looping) 0 fetching) 0 asleep;
  woken = mark (mark (mark (λ _. false) 0 true) 0 true) 0 false;
}

sleeping-Wakes : Wakes process 1 sleeping
unfolding ce_tp_routine fetch
sleeping-Wakes =
    next (next (next here (thread 0 refl refl)) (thread 0 refl refl)) (thread 0 refl refl)

sleepers_have_nothing_example : (sleeping.pool.worker_queue ≡ []) × (sleeping.pool.abort ≡ false)
sleepers_have_nothing_example = sleepers_have_nothing process sleeping-Wakes 0 refl refl

abbrev aborted : Waking ℕ
aborted = record {
  pool = record sleeping.pool { abort = true };
  pc = sleeping.pc;
  woken = everyone;
}

aborted-Wakes : Wakes process 1 aborted
unfolding may_destroy set_abort
aborted-Wakes = next sleeping-Wakes (destroy immediate refl)

aborted_threads_end_example :
    (may_run (aborted.woken 0) (aborted.pc 0) ≡ true)
    × ((p : Pool ℕ) × (c : Pc) × (ce_tp_routine process aborted.pool (aborted.pc 0) ≡ ret (p, c)))
    × ((m : ℕ) (t : Waking ℕ) → Turns process 0 aborted m t → m ≤ 6)
aborted_threads_end_example = aborted_threads_end process aborted-Wakes refl 0
