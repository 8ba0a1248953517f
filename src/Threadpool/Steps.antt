-- ===== src/Threadpool/Steps.antt =====
-- Each step of `ce_tp_routine` leaves the fields of the workers true.
use cevent_sample.Prelude.{
  ℕ, suc, ◌+◌, ◌-◌, ◌≤◌, ◌<◌, ◌≡◌, refl, sym, ap, subst, ◌∙◌, true, false, none, some, List, [],
  ◌∷◌, ◌==◌, inl, inr, Bool-cases, ==_iff, arith, After, length,
}
use cevent_sample.Threadpool.{
  Pool, Worker, busy, complete, Pc, born, looping, fetching, asleep, fetched, working, finished,
  exited, update, remove, fetch, ce_tp_routine, ce_tp_worker_free,
}
use cevent_sample.Threadpool.System.{System, held}
use cevent_sample.Threadpool.Upto.{upto, upto-cons, remove-upto}
use cevent_sample.Threadpool.Invariant.{Inv, some_eq, eq_ne}
use cevent_sample.Threadpool.Kept.{load-ret, dispose-ret}
use cevent_sample.Threadpool.Once.{taken_off, taken_off_lem}
use cevent_sample.Threadpool.Told.{Waits, Tells, Told, SameJob, Changes}

module _ {J : Type 0} (process : J → ℕ) {s : System J} {k : ℕ} (v : Inv s k) (t : Told process s)
    (i : ℕ) where
  -- a step that writes to no worker and that holds none
  idle-Changes :
      (p : Pool J) (c : Pc)
      → p.next ≡ s.pool.next
      → p.worker_queue ≡ s.pool.worker_queue
      → p.workers ≡ s.pool.workers
      → held c ≡ none
      → Changes process s i p c
  idle-Changes p c n q ws free = record {
    forward = omega (arith, n, ap length q);
    next = n;
    queued = λ w wk le live. rw ws at live;
    mine = λ w wk h. cc;
    others = λ j w wk off h live. rw ws at live;
    job = λ w wk live. (wk, rw ws at live, (refl, refl));
  }

  fetch-Changes :
      (q : List ℕ)
      → s.pool.worker_queue ≡ q
      → Changes process s i (fetch s.pool q).0 (fetch s.pool q).1
  unfolding fetch
  fetch-Changes [] e = elim (Bool-cases s.pool.abort) [
    | inl a ↦ simp a (idle-Changes s.pool exited refl refl refl refl)
    | inr a ↦ simp a (idle-Changes s.pool asleep refl refl refl refl)
  ]
  fetch-Changes (w ∷ ws) e = record {
    forward = omega (arith, ap length e);
    next = refl;
    queued = λ x wk le live. live;
    mine = λ x wk h live. t.waits x wk (omega (arith, taken_off_lem v, first.0, some_eq h)) live;
    others = λ j x wk off h live. live;
    job = λ x wk live. (wk, live, (refl, refl));
  }
    where
      first : (w ≡ k) × (0 < s.pool.next - k) × (ws ≡ upto (suc k) (s.pool.next - k - 1))
      first = upto-cons k (s.pool.next - k) (sym e ∙ v.queued)

  -- a step that writes to the worker that the thread holds
  module _ (w : ℕ) (h : held (s.pc i) ≡ some w) where
    below : (x : ℕ) → taken_off s.pool ≤ x → (x == w) ≡ false
    below x le = ground (arith, taken_off_lem v, (v.held_live i w h).0)

    apart : (j x : ℕ) → (j == i) ≡ false → held (s.pc j) ≡ some x → (x == w) ≡ false
    apart j x off h' = elim (Bool-cases (x == w)) [
      | inl at ↦ absurd (eq_ne j i (v.unique j i w (h' ∙ ap some ((==_iff x w).0 at)) h) off)
      | inr differ ↦ differ
    ]

    write-Changes :
        (wk wk' : Worker J) (c : Pc)
        → s.pool.workers w ≡ some wk
        → SameJob wk wk'
        → held c ≡ some w
        → Tells process c wk'
        → Changes process s i (record s.pool { workers = update s.pool.workers w (some wk') }) c
    write-Changes wk wk' c was same h' now = record {
      forward = omega arith;
      next = refl;
      queued = λ x y le live. simp (below x le) at live;
      mine = λ x y f live.
          let self : (x == w) ≡ true = ground (arith, some_eq (sym f ∙ h')) in
          subst (Tells process c) (some_eq (simp self at live)) now;
      others = λ j x y off f live. simp (apart j x off f) at live;
      job = λ x y live. elim (Bool-cases (x == w)) [
        | inl at ↦ (
          wk,
          ap s.pool.workers ((==_iff x w).0 at) ∙ was,
          subst (SameJob wk) (some_eq (simp at at live)) same,
        )
        | inr off ↦ (y, simp off at live, (refl, refl))
      ];
    }

    free-Changes :
        Changes process s i
          (record s.pool {
            worker_queue = remove w s.pool.worker_queue;
            workers = update s.pool.workers w none;
          })
          looping
    free-Changes = record {
      forward = omega (arith, ap length gone);
      next = refl;
      queued = λ x y le live. simp (below x (omega (arith, ap length gone, le))) at live;
      mine = λ x y f. cc;
      others = λ j x y off f live. simp (apart j x off f) at live;
      job = λ x y live. elim (Bool-cases (x == w)) [
        | inl at ↦ absurd (cc (simp at at live))
        | inr off ↦ (y, simp off at live, (refl, refl))
      ];
    }
      where
        gone : remove w s.pool.worker_queue ≡ s.pool.worker_queue
        gone =
            ap (remove w) v.queued
            ∙ remove-upto w k (s.pool.next - k) (v.held_live i w h).0
            ∙ sym v.queued

  abbrev pub ChangesBy : Pool J × Pc → Type 0
  ChangesBy (p, c) = Changes process s i p c

  pub routine-Changes : (c : Pc) → s.pc i ≡ c → After ChangesBy (ce_tp_routine process s.pool c)
  unfolding ce_tp_routine ce_tp_worker_free
  routine-Changes born at = idle-Changes _ looping refl refl refl refl
  routine-Changes looping at = elim (Bool-cases s.pool.abort) [
    | inl a ↦ simp a (idle-Changes s.pool exited refl refl refl refl)
    | inr a ↦ simp a (idle-Changes s.pool fetching refl refl refl refl)
  ]
  routine-Changes fetching at = fetch-Changes s.pool.worker_queue refl
  routine-Changes asleep at = idle-Changes s.pool fetching refl refl refl refl
  routine-Changes (fetched w) at =
      let h : held (s.pc i) ≡ some w = rw at in
      let (wk, l) = (v.held_live i w h).1 in
      let now : Waits wk = subst (λ c. Tells process c wk) at (t.tells i w wk h l) in
      rw (load-ret s.pool w l) (
        write-Changes w h wk (record wk { state = busy }) (working w) l (refl, refl) refl
          (refl, now.1))
  routine-Changes (working w) at =
      let h : held (s.pc i) ≡ some w = rw at in
      let (wk, l) = (v.held_live i w h).1 in
      rw (load-ret s.pool w l) (
        write-Changes w h wk
          (record wk { result = process wk.job; state = complete; sem = wk.sem + 1 }) (finished w) l
          (refl, refl) refl (refl, refl))
  routine-Changes (finished w) at =
      let h : held (s.pc i) ≡ some w = rw at in
      let (wk, l) = (v.held_live i w h).1 in
      rw (dispose-ret s.pool w (remove w s.pool.worker_queue) l) (free-Changes w h)
  routine-Changes exited at = idle-Changes s.pool exited refl refl refl refl
