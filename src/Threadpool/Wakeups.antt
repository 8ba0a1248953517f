-- ===== src/Threadpool/Wakeups.antt =====
-- The condition variable of a pool: a thread that sleeps goes on when a broadcast has woken it, or with
-- no signal at all.
use cevent_sample.Prelude.{
  ℕ, ◌≡◌, refl, ◌∙◌, Bool, true, false, some, List, [], ◌∷◌, ◌==◌, if◌then◌else◌, ret, arith, inl,
  inr, Bool-cases, After, After-bind, After-then, subst,
}
use cevent_sample.Threadpool.{
  Pool, Kill, Pc, born, looping, fetching, asleep, fetched, working, finished, exited, load, remove,
  fetch, ce_tp_routine, insert, new_worker, ce_tp_worker_free, dispose, take_out, release, remove,
  may_destroy, set_abort,
}
use cevent_sample.Threadpool.System.{set}
use cevent_sample.Threadpool.System

-- `woken i` is set by a broadcast and cleared when the thread `i` goes to sleep.
pub record Waking (J : Type 0) : Type 0 where
  pub pool : Pool J
  pub pc : ℕ → Pc
  pub woken : ℕ → Bool

abbrev pub mark : (ℕ → Bool) → ℕ → Bool → ℕ → Bool
mark f i v j = if j == i then v else f j

-- `pthread_cond_broadcast`
abbrev pub everyone : ℕ → Bool
everyone i = true

-- whether a step leaves the thread in `pthread_cond_wait`
abbrev pub stays_awake : Pc → Bool
stays_awake asleep = false
stays_awake _ = true

-- whether a thread may make a step: one that sleeps must have been woken
abbrev pub may_run : Bool → Pc → Bool
may_run woken asleep = woken
may_run woken _ = true

module _ {J : Type 0} where
  pub data WakeStep (process : J → ℕ) (s : Waking J) : Waking J → Type 0 where
    register :
        (job : J) (complete_cb : Bool)
        → WakeStep process s (record {
          pool = insert s.pool (new_worker job complete_cb);
          pc = s.pc;
          woken = everyone;
        })
    thread :
        (i : ℕ) {p : Pool J} {c : Pc}
        → may_run (s.woken i) (s.pc i) ≡ true
        → ce_tp_routine process s.pool (s.pc i) ≡ ret (p, c)
        → WakeStep process s
            (record { pool = p; pc = set s.pc i c; woken = mark s.woken i (stays_awake c) })
    destroy :
        (k : Kill)
        → may_destroy (some (some s.pool)) ≡ true
        → WakeStep process s (record { pool = set_abort s.pool; pc = s.pc; woken = everyone })
    spurious : (i : ℕ) → WakeStep process s (record s { woken = mark s.woken i true })

  abbrev pub start : ℕ → Waking J
  start n = record { pool = (System.start {J = J} n).pool; pc = λ _. born; woken = λ _. false }

  pub data Wakes (process : J → ℕ) (n : ℕ) : Waking J → Type 0 where
    here : Wakes process n (start n)
    next : {s t : Waking J} → Wakes process n s → WakeStep process s t → Wakes process n t

  abbrev pub HasNothing : Pool J → Type 0
  HasNothing p = (p.worker_queue ≡ []) × (p.abort ≡ false)

  -- what a step of `ce_tp_routine` leaves of this
  record Quietens (p p' : Pool J) (c' : Pc) : Type 0 where
    queue : p.worker_queue ≡ [] → p'.worker_queue ≡ []
    abort : p'.abort ≡ p.abort
    sleeps : c' ≡ asleep → HasNothing p'

  fetch-Quietens :
      (p : Pool J) (q : List ℕ) → p.worker_queue ≡ q → Quietens p (fetch p q).0 (fetch p q).1
  unfolding fetch
  fetch-Quietens p [] e = elim (Bool-cases p.abort) [
    | inl a ↦ simp a (record { queue = λ h. h; abort = refl; sleeps = λ h. cc })
    | inr a ↦ simp a (record { queue = λ h. h; abort = refl; sleeps = λ h. (e, a) })
  ]
  fetch-Quietens p (w ∷ ws) e = record { queue = λ h. cc; abort = refl; sleeps = λ h. cc }

  -- a step that neither sleeps nor puts anything on the queue
  goes_on :
      (p p' : Pool J) (c' : Pc)
      → (p.worker_queue ≡ [] → p'.worker_queue ≡ [])
      → p'.abort ≡ p.abort
      → stays_awake c' ≡ true
      → Quietens p p' c'
  goes_on p p' c' queue abort up = record {
    queue = queue;
    abort = abort;
    sleeps = λ h. absurd (ground arith);
  }

  abbrev QuietensBy : Pool J → Pool J × Pc → Type 0
  QuietensBy p (p', c') = Quietens p p' c'

  abbrev FreesFrom : Pool J → Pool J → Type 0
  FreesFrom p p' = (p.worker_queue ≡ [] → p'.worker_queue ≡ []) × (p'.abort ≡ p.abort)

  ce_tp_worker_free-FreesFrom : (p : Pool J) (w : ℕ) → After (FreesFrom p) (ce_tp_worker_free p w)
  unfolding ce_tp_worker_free dispose take_out release remove
  ce_tp_worker_free-FreesFrom p w =
      After-then (FreesFrom p) (FreesFrom p) (take_out p w (remove w p.worker_queue)) _
        (After-bind (FreesFrom p) (load p w) _ λ wk. ((λ h. rw h), refl))
        (λ q (out, same). After-bind (FreesFrom p) (load q w) _ λ wk. (out, same))

  routine-Quietens :
      (process : J → ℕ) (p : Pool J) (c : Pc) → After (QuietensBy p) (ce_tp_routine process p c)
  unfolding ce_tp_routine
  routine-Quietens process p born = goes_on p _ looping (λ h. h) refl refl
  routine-Quietens process p looping = elim (Bool-cases p.abort) [
    | inl a ↦ simp a (goes_on p p exited (λ h. h) refl refl)
    | inr a ↦ simp a (goes_on p p fetching (λ h. h) refl refl)
  ]
  routine-Quietens process p fetching = fetch-Quietens p p.worker_queue refl
  routine-Quietens process p asleep = goes_on p p fetching (λ h. h) refl refl
  routine-Quietens process p (fetched w) =
      After-bind (QuietensBy p) (load p w) _ λ wk. goes_on p _ (working w) (λ h. h) refl refl
  routine-Quietens process p (working w) =
      After-bind (QuietensBy p) (load p w) _ λ wk. goes_on p _ (finished w) (λ h. h) refl refl
  routine-Quietens process p (finished w) =
      After-then (FreesFrom p) (QuietensBy p) (ce_tp_worker_free p w) _
        (ce_tp_worker_free-FreesFrom p w)
        (λ p' (queue, abort). goes_on p p' looping queue abort refl)
  routine-Quietens process p exited = goes_on p p exited (λ h. h) refl refl

  abbrev IsIdle : Waking J → Type 0
  IsIdle s = (i : ℕ) → s.pc i ≡ asleep → s.woken i ≡ false → HasNothing s.pool

  thread-IsIdle :
      (s : Waking J) (i : ℕ) {p : Pool J} {c : Pc}
      → Quietens s.pool p c
      → IsIdle s
      → IsIdle (record { pool = p; pc = set s.pc i c; woken = mark s.woken i (stays_awake c) })
  thread-IsIdle s i {p} {c} q h j sleeping unwoken = elim (Bool-cases (j == i)) [
    | inl at ↦ q.sleeps (simp at at sleeping)
    | inr off ↦
        let (queue, going) = h j (simp off at sleeping) (simp off at unwoken) in
        (q.queue queue, q.abort ∙ going)
  ]

  Step-IsIdle : (process : J → ℕ) {s t : Waking J} → WakeStep process s t → IsIdle s → IsIdle t
  Step-IsIdle process (register job complete_cb) h = λ j sleeping unwoken. cc
  Step-IsIdle process {s} (thread i awake e) h =
      thread-IsIdle s i
        (subst (After (QuietensBy s.pool)) e (routine-Quietens process s.pool (s.pc i))) h
  Step-IsIdle process (destroy k may) h = λ j sleeping unwoken. cc
  Step-IsIdle process {s} (spurious i) h = λ j sleeping unwoken. h j sleeping (ground arith)

  Wakes-IsIdle : (process : J → ℕ) {n : ℕ} {s : Waking J} → Wakes process n s → IsIdle s
  Wakes-IsIdle process here = λ i sleeping unwoken. cc
  Wakes-IsIdle process (next r st) = Step-IsIdle process st (Wakes-IsIdle process r)

  -- No wake-up is lost: in every reachable state, a thread that sleeps and that no broadcast has woken
  -- has nothing to do, since the queue is empty and the pool is not aborted.
  pub sleepers_have_nothing :
      (process : J → ℕ) {n : ℕ} {s : Waking J}
      → Wakes process n s
      → (i : ℕ) → s.pc i ≡ asleep
      → s.woken i ≡ false
      → (s.pool.worker_queue ≡ []) × (s.pool.abort ≡ false)
  sleepers_have_nothing process r = Wakes-IsIdle process r
