-- ===== src/Queue/Signals.antt =====
-- The condition variable of a queue: `pthread_cond_signal` wakes one of the calls that wait, and a call
-- that was woken goes on when it gets the mutex. A wake-up without a signal is a step of its own.
use cevent_sample.Prelude.{ℕ, suc, ◌≡◌, some, List, [], ◌∷◌, ◌++◌, ℤ, pos}
use cevent_sample.Queue.{
  Queue, ce_queue_new, ce_queue_push, ce_queue_stop, finished, waiting, get_enter, get_wake,
}

-- a call of `ce_queue_get`: its thread and its timeout
abbrev pub Call : Type 0
Call = ℕ × ℤ

-- The calls that sleep, those that were woken and have not gone on, and the results so far.
pub record System : Type 0 where
  pub queue : Queue
  pub asleep : List Call
  pub woken : List Call
  pub results : List (Call × ℤ)

-- what `pthread_cond_timedwait` returns when the time is over
abbrev pub etimedout : ℕ
etimedout = 110

-- `pthread_cond_signal`, in a queue that has become `q`
pub data Signal (s : System) (q : Queue) (t : System) : Type 0 where
  nobody : s.asleep ≡ [] → t ≡ record s { queue = q } → Signal s q t
  somebody :
      (pre post : List Call) (c : Call)
      → s.asleep ≡ pre ++ (c ∷ post)
      → t ≡ record s { queue = q; asleep = pre ++ post; woken = c ∷ s.woken }
      → Signal s q t

pub data Stops (s t : System) : Type 0 where
  stops : {q : Queue} → (ce_queue_stop (some s.queue)).1 ≡ some q → Signal s q t → Stops s t

-- what calls of `ce_queue_get` do by themselves
pub data Own (s t : System) : Type 0 where
  enter :
      (c : Call) {r : ℤ} {x : ℕ} {q : Queue}
      → get_enter s.queue c.1 ≡ finished r x q
      → t ≡ record s { queue = q; results = (c, r) ∷ s.results }
      → Own s t
  sleep :
      (c : Call)
      → get_enter s.queue c.1 ≡ waiting
      → t ≡ record s { asleep = c ∷ s.asleep }
      → Own s t
  wake :
      (pre post : List Call) (c : Call) {r : ℤ} {x : ℕ} {q : Queue}
      → s.woken ≡ pre ++ (c ∷ post)
      → get_wake s.queue 0 ≡ (r, x, q)
      → t ≡ record s { queue = q; woken = pre ++ post; results = (c, r) ∷ s.results }
      → Own s t
  expire :
      (pre post : List Call) (i n : ℕ) {r : ℤ} {x : ℕ} {q : Queue}
      → s.asleep ≡ pre ++ ((i, pos (suc n)) ∷ post)
      → get_wake s.queue etimedout ≡ (r, x, q)
      → t
        ≡ record s { queue = q; asleep = pre ++ post; results = ((i, pos (suc n)), r) ∷ s.results }
      → Own s t

pub data Step (s t : System) : Type 0 where
  push : (x : ℕ) {q : Queue} → (ce_queue_push (some s.queue) x).1 ≡ some q → Signal s q t → Step s t
  stop : Stops s t → Step s t
  own : Own s t → Step s t
  spurious :
      (pre post : List Call) (c : Call)
      → s.asleep ≡ pre ++ (c ∷ post)
      → t ≡ record s { asleep = pre ++ post; woken = c ∷ s.woken }
      → Step s t

abbrev pub start : System
start = record { queue = ce_queue_new; asleep = []; woken = []; results = [] }

pub data Reach (s : System) : System → Type 0 where
  here : Reach s s
  next : {t u : System} → Reach s t → Step t u → Reach s u

pub data Owns (s : System) : System → Type 0 where
  here : Owns s s
  next : {t u : System} → Owns s t → Own t u → Owns s u
