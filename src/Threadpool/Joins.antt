-- ===== src/Threadpool/Joins.antt =====
-- The end of the threads, once the pool is aborted: what the joins of `ce_tp_destroy` wait for.
use cevent_sample.Prelude.{
  ℕ, zero, suc, ◌+◌, ◌-◌, ◌≤◌, ◌<◌, ◌≡◌, ◌≢◌, refl, ap, subst, true, List, [], ◌∷◌, ret, arith, inl,
  inr, Bool-cases, After, After-bind, After-then,
}
use cevent_sample.Threadpool.{
  Pool, Pc, born, looping, fetching, asleep, fetched, working, finished, exited, load, fetch,
  ce_tp_routine, ce_tp_worker_free, dispose, take_out, release, remove, set_abort,
}
use cevent_sample.Threadpool.System.{set, System, Reach}
use cevent_sample.Threadpool.System
use cevent_sample.Threadpool.Safety.{thread_never_faults}
use cevent_sample.Threadpool.Wakeups.{
  Waking, mark, stays_awake, may_run, WakeStep, register, thread, destroy, spurious, Wakes, here,
  next, sleepers_have_nothing,
}

-- the steps that a thread can have left, when the pool is aborted
abbrev pub rank : Pc → ℕ
rank exited = 0
rank looping = 1
rank born = 2
rank (finished w) = 2
rank (working w) = 3
rank (fetched w) = 4
rank fetching = 5
rank asleep = 6

module _ {J : Type 0} (process : J → ℕ) where
  abbrev IsNearer : Pc → Pool J × Pc → Type 0
  IsNearer c (p', c') = (p'.abort ≡ true) × (rank c' ≤ rank c - 1)

  fetch-IsNearer : (p : Pool J) (q : List ℕ) → p.abort ≡ true → IsNearer fetching (fetch p q)
  unfolding fetch
  fetch-IsNearer p [] a = simp a (refl, omega arith)
  fetch-IsNearer p (w ∷ ws) a = (a, omega arith)

  routine-IsNearer :
      (p : Pool J) (c : Pc) → p.abort ≡ true → After (IsNearer c) (ce_tp_routine process p c)
  unfolding ce_tp_routine ce_tp_worker_free dispose take_out release
  routine-IsNearer p born a = (a, omega arith)
  routine-IsNearer p looping a = simp a (refl, omega arith)
  routine-IsNearer p fetching a = fetch-IsNearer p p.worker_queue a
  routine-IsNearer p asleep a = (a, omega arith)
  routine-IsNearer p (fetched w) a =
      After-bind (IsNearer (fetched w)) (load p w) _ λ wk. (a, omega arith)
  routine-IsNearer p (working w) a =
      After-bind (IsNearer (working w)) (load p w) _ λ wk. (a, omega arith)
  routine-IsNearer p (finished w) a =
      After-then (λ p'. p'.abort ≡ true) (IsNearer (finished w)) (ce_tp_worker_free p w) _
        (After-then (λ p'. p'.abort ≡ true) (λ p'. p'.abort ≡ true)
          (take_out p w (remove w p.worker_queue)) _
          (After-bind (λ p'. p'.abort ≡ true) (load p w) _ λ wk. a)
          (λ q a'. After-bind (λ p'. p'.abort ≡ true) (load q w) _ λ wk. a'))
        (λ p' a'. (a', omega arith))
  routine-IsNearer p exited a = (a, omega arith)

  -- Any steps of a pool, among them `n` of the thread `i` while it runs; the others leave it where it is.
  pub data Turns (i : ℕ) (s : Waking J) : ℕ → Waking J → Type 0 where
    none_yet : Turns i s zero s
    turn :
        {n : ℕ} {t : Waking J} {p : Pool J} {c : Pc}
        → Turns i s n t
        → t.pc i ≢ exited
        → ce_tp_routine process t.pool (t.pc i) ≡ ret (p, c)
        → Turns i s
            (suc n)
            (record { pool = p; pc = set t.pc i c; woken = mark t.woken i (stays_awake c) })
    other :
        {n : ℕ} {t u : Waking J}
        → Turns i s n t
        → WakeStep process t u
        → u.pc i ≡ t.pc i
        → Turns i s n u

  rank-running : (c : Pc) → c ≢ exited → 0 < rank c
  rank-running exited h = absurd (h refl)
  rank-running looping h = omega arith
  rank-running born h = omega arith
  rank-running (finished w) h = omega arith
  rank-running (working w) h = omega arith
  rank-running (fetched w) h = omega arith
  rank-running fetching h = omega arith
  rank-running asleep h = omega arith

  rank-bound : (c : Pc) → rank c ≤ 6
  rank-bound exited = omega arith
  rank-bound looping = omega arith
  rank-bound born = omega arith
  rank-bound (finished w) = omega arith
  rank-bound (working w) = omega arith
  rank-bound (fetched w) = omega arith
  rank-bound fetching = omega arith
  rank-bound asleep = omega arith

  Step-aborted : {s t : Waking J} → WakeStep process s t → s.pool.abort ≡ true → t.pool.abort ≡ true
  unfolding set_abort
  Step-aborted (register job complete_cb) a = a
  Step-aborted {s} (thread i awake e) a =
      (subst (After (IsNearer (s.pc i))) e (routine-IsNearer s.pool (s.pc i) a)).0
  Step-aborted (destroy k may) a = refl
  Step-aborted (spurious i) a = a

  Turns-rank :
      (i : ℕ) {s t : Waking J} {n : ℕ}
      → s.pool.abort ≡ true
      → Turns i s n t
      → (t.pool.abort ≡ true) × (n + rank (t.pc i) ≤ rank (s.pc i))
  Turns-rank i a none_yet = (a, omega arith)
  Turns-rank i a (turn {n} {t} {p} {c} r running e) =
      let (a', le) = Turns-rank i a r in
      let (a'', nearer) =
        subst (After (IsNearer (t.pc i))) e (routine-IsNearer t.pool (t.pc i) a') in
      (
        a'',
        omega (
          arith,
          le,
          nearer,
          rank-running (t.pc i) running,
          ap rank {x = set t.pc i c i} {y = c} (ground arith),
        ),
      )
  Turns-rank i a (other r st same) =
      let (a', le) = Turns-rank i a r in (Step-aborted st a', omega (arith, ap rank same))

  -- The wake-ups are steps that the pool without them makes as well.
  forget :
      {n : ℕ} {s : Waking J}
      → Wakes process n s
      → Reach process n (record { pool = s.pool; pc = s.pc })
  forget here = System.here
  forget (next r (register job complete_cb)) =
      System.next (forget r) (System.register job complete_cb)
  forget (next r (thread i awake e)) = System.next (forget r) (System.thread i e)
  forget (next r (destroy k may)) = System.next (forget r) (System.destroy k may)
  forget (next r (spurious i)) = forget r

  awake_of :
      {n : ℕ} {s : Waking J}
      → Wakes process n s
      → s.pool.abort ≡ true
      → (i : ℕ) (c : Pc) → s.pc i ≡ c
      → may_run (s.woken i) c ≡ true
  awake_of {n} {s} r a i asleep at = elim (Bool-cases (s.woken i)) [
    | inl up ↦ up
    | inr down ↦ let idle = sleepers_have_nothing process r i at down in absurd (cc (a, idle.1))
  ]
  awake_of r a i born at = refl
  awake_of r a i looping at = refl
  awake_of r a i fetching at = refl
  awake_of r a i (fetched w) at = refl
  awake_of r a i (working w) at = refl
  awake_of r a i (finished w) at = refl
  awake_of r a i exited at = refl

  -- The joins of `ce_tp_destroy` come to an end: once the pool is aborted, no thread is left asleep or
  -- held up, each can make its next step without a fault, and each has exited before its seventh step,
  -- whatever the other threads, clients and wake-ups do meanwhile.
  pub aborted_threads_end :
      {n : ℕ} {s : Waking J}
      → Wakes process n s
      → s.pool.abort ≡ true
      → (i : ℕ)
      → (may_run (s.woken i) (s.pc i) ≡ true)
        × ((p : Pool J) × (c : Pc) × (ce_tp_routine process s.pool (s.pc i) ≡ ret (p, c)))
        × ((m : ℕ) (t : Waking J) → Turns i s m t → m ≤ 6)
  aborted_threads_end {n} {s} r a i = (
    awake_of r a i (s.pc i) refl,
    thread_never_faults process (forget r) i,
    λ m t ts. omega (arith, Turns-rank i a ts, rank-bound (s.pc i)),
  )
