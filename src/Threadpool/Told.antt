-- ===== src/Threadpool/Told.antt =====
-- What the fields of a worker say of its job, and what a step has to leave of that.
use cevent_sample.Prelude.{ℕ, ◌≤◌, ◌≡◌, false, some, ◌==◌, inl, inr, Bool-cases, arith}
use cevent_sample.Threadpool.{Pool, Worker, idle, busy, complete, Pc, fetched, working, finished}
use cevent_sample.Threadpool.System.{System, set, held}
use cevent_sample.Threadpool.Once.{taken_off}

module _ {J : Type 0} where
  abbrev pub Waits : Worker J → Type 0
  Waits wk = (wk.state ≡ idle) × (wk.sem ≡ 0) × (wk.result ≡ 0)

  abbrev pub SameJob : Worker J → Worker J → Type 0
  SameJob wk wk' = (wk.job ≡ wk'.job) × (wk.complete_cb ≡ wk'.complete_cb)

module _ {J : Type 0} (process : J → ℕ) where
  -- what a thread knows of the worker that it holds
  abbrev pub Tells : Pc → Worker J → Type 0
  Tells (fetched w) wk = Waits wk
  Tells (working w) wk = (wk.state ≡ busy) × (wk.sem ≡ 0)
  Tells (finished w) wk = (wk.state ≡ complete) × (wk.result ≡ process wk.job)
  Tells _ wk = Unit {0}

  pub record Told (s : System J) : Type 0 where
    pub waits :
        (w : ℕ) (wk : Worker J) → taken_off s.pool ≤ w → s.pool.workers w ≡ some wk → Waits wk
    pub tells :
        (i w : ℕ) (wk : Worker J)
        → held (s.pc i) ≡ some w
        → s.pool.workers w ≡ some wk
        → Tells (s.pc i) wk

  -- what a step of the thread `i` that leaves it at `c` may change
  pub record Changes (s : System J) (i : ℕ) (p : Pool J) (c : Pc) : Type 0 where
    pub forward : taken_off s.pool ≤ taken_off p
    pub next : p.next ≡ s.pool.next
    pub queued :
        (w : ℕ) (wk : Worker J)
        → taken_off p ≤ w
        → p.workers w ≡ some wk
        → s.pool.workers w ≡ some wk
    pub mine : (w : ℕ) (wk : Worker J) → held c ≡ some w → p.workers w ≡ some wk → Tells c wk
    pub others :
        (j w : ℕ) (wk : Worker J)
        → (j == i) ≡ false
        → held (s.pc j) ≡ some w
        → p.workers w ≡ some wk
        → s.pool.workers w ≡ some wk
    pub job :
        (w : ℕ) (wk : Worker J)
        → p.workers w ≡ some wk
        → (wk' : Worker J) × (s.pool.workers w ≡ some wk') × SameJob wk' wk

  pub Changes-Told :
      {s : System J} {i : ℕ} {p : Pool J} {c : Pc}
      → Changes s i p c
      → Told s
      → Told (record { pool = p; pc = set s.pc i c })
  Changes-Told {s} {i} {p} {c} ch t = record {
    waits = λ w wk le live. t.waits w wk (omega (arith, ch.forward, le)) (ch.queued w wk le live);
    tells = λ j w wk h live. elim (Bool-cases (j == i)) [
      | inl at ↦ rw at (ch.mine w wk (simp at at h) live)
      | inr off ↦
          let h' : held (s.pc j) ≡ some w = simp off at h in
          rw off (t.tells j w wk h' (ch.others j w wk off h' live))
    ];
  }
