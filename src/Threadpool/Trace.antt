-- ===== src/Threadpool/Trace.antt =====
-- The pool with a record of the jobs that its threads have run, by the addresses of their workers.
use cevent_sample.Prelude.{
  ℕ, suc, ◌≡◌, sym, subst, Bool, true, Option, none, some, List, [], ◌∷◌, ◌++◌, ◌==◌, if◌then◌else◌,
  ret,
}
use mathlib.Core.List.{append_assoc}
use cevent_sample.Threadpool.{
  Pool, Kill, Pc, fetched, working, ce_tp_routine, insert, new_worker, may_destroy, set_abort,
}
use cevent_sample.Threadpool.System.{System, set, start, Step, Reach}
use cevent_sample.Threadpool.System

abbrev pub count : ℕ → List ℕ → ℕ
count w [] = 0
count w (x ∷ xs) = if x == w then suc (count w xs) else count w xs

-- the worker whose job a thread has still to run
abbrev pub doing : Pc → Option ℕ
doing (fetched w) = some w
doing (working w) = some w
doing _ = none

-- the job that a step of a thread runs
abbrev pub ran_by : Pc → List ℕ
ran_by (working w) = w ∷ []
ran_by _ = []

module _ {J : Type 0} where
  -- the steps from the state `a` to another one, with the jobs run on the way, the last one first
  pub data Trace (process : J → ℕ) (a : System J) : System J → List ℕ → Type 0 where
    here : Trace process a a []
    register :
        {s : System J} {ran : List ℕ} (job : J) (complete_cb : Bool)
        → Trace process a s ran
        → Trace process a (record s { pool = insert s.pool (new_worker job complete_cb) }) ran
    thread :
        {s : System J} {ran : List ℕ} (i : ℕ) {p : Pool J} {c : Pc}
        → Trace process a s ran
        → ce_tp_routine process s.pool (s.pc i) ≡ ret (p, c)
        → Trace process a (record { pool = p; pc = set s.pc i c }) (ran_by (s.pc i) ++ ran)
    destroy :
        {s : System J} {ran : List ℕ} (k : Kill)
        → Trace process a s ran
        → may_destroy (some (some s.pool)) ≡ true
        → Trace process a (record s { pool = set_abort s.pool }) ran

  pub then_trace :
      {process : J → ℕ} {a b s : System J} {before ran : List ℕ}
      → Trace process a b before
      → Trace process b s ran
      → Trace process a s (ran ++ before)
  then_trace first here = first
  then_trace first (register job complete_cb r) = register job complete_cb (then_trace first r)
  then_trace {process} {a} {before = before} first (thread {s} {ran} i r e) =
      subst (Trace process a _) (sym (append_assoc (ran_by (s.pc i)) ran before))
        (thread i (then_trace first r) e)
  then_trace first (destroy k r may) = destroy k (then_trace first r) may

  pub follow :
      {process : J → ℕ} {n : ℕ} {a s : System J} {ran : List ℕ}
      → Reach process n a
      → Trace process a s ran
      → Reach process n s
  follow r here = r
  follow r (register job complete_cb l) = System.next (follow r l) (System.register job complete_cb)
  follow r (thread i l e) = System.next (follow r l) (System.thread i e)
  follow r (destroy k l may) = System.next (follow r l) (System.destroy k may)

  pub forget :
      {process : J → ℕ} {n : ℕ} {s : System J} {ran : List ℕ}
      → Trace process (start n) s ran
      → Reach process n s
  forget r = follow System.here r
