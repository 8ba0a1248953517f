-- ===== src/Threadpool/Kept.antt =====
-- Every step of a pool, by its clients and by its threads, keeps the invariant.
use cevent_sample.Prelude.{
  ℕ, suc, ◌+◌, ◌-◌, ◌≡◌, refl, sym, ap, subst, ◌∙◌, false, none, some, List, [], ◌∷◌, ◌++◌, ◌==◌,
  Option, Run, ret, fault, hangs, arith, inl, inr, Bool-cases,
}
use cevent_sample.Threadpool.{
  Pool, Worker, busy, complete, Pc, born, looping, fetching, asleep, fetched, working, finished,
  exited, update, load, post, take_out, release, dispose, remove, fetch, ce_tp_routine, insert,
  new_worker, ce_tp_worker_free, set_abort,
}
use cevent_sample.Threadpool.System.{
  System, set, held, Step, register, thread, destroy, start, Reach, here, next,
}
use cevent_sample.Threadpool.Upto.{upto, upto-snoc}
use cevent_sample.Threadpool.Invariant.{IsLive, Inv, same-Inv, write-Inv, fetch-Inv, free-Inv}

module _ {J : Type 0} where
  pub load-ret : (p : Pool J) (w : ℕ) {wk : Worker J} → p.workers w ≡ some wk → load p w ≡ ret wk
  unfolding load
  load-ret p w h = ground arith

  -- what is written to a worker is lost when it is freed
  update-update :
      (f : ℕ → Option (Worker J)) (w : ℕ) (v : Option (Worker J))
      → update (update f w v) w none ≡ update f w none
  update-update f w v = λ i x. path x i
    where
      path : (x : ℕ) → update (update f w v) w none x ≡ update f w none x
      path x = elim (Bool-cases (x == w)) [ inl at ↦ rw at | inr off ↦ simp off ]

  -- a worker that is allocated leaves the queue, is posted and is freed
  pub dispose-ret :
      (p : Pool J) (w : ℕ) (ws : List ℕ) {wk : Worker J}
      → p.workers w ≡ some wk
      → dispose p w ws ≡ ret (record p { worker_queue = ws; workers = update p.workers w none })
  unfolding dispose take_out release
  dispose-ret p w ws {wk} live =
      let posted = record p { worker_queue = ws; workers = update p.workers w (some (post wk)) } in
      let there : posted.workers w ≡ some (post wk) = ground arith in
      rw (load-ret p w live, load-ret posted w there)
        (ap (λ f. ret (record p { worker_queue = ws; workers = f }))
          (update-update p.workers w (some (post wk))))

module _ {J : Type 0} (process : J → ℕ) where
  abbrev pub Kept : System J → Type 0
  Kept s = (k : ℕ) × Inv s k

  module _ {s : System J} {k : ℕ} (v : Inv s k) (i : ℕ) where
    abbrev written : ℕ → Worker J → Pool J
    written w wk = record s.pool { workers = update s.pool.workers w (some wk) }

    -- a thread that fetches, by what stands on the queue
    fetch-Kept :
        (q : List ℕ)
        → s.pool.worker_queue ≡ q
        → s.pc i ≡ fetching
        → Kept (record { pool = (fetch s.pool q).0; pc = set s.pc i (fetch s.pool q).1 })
    unfolding fetch
    fetch-Kept [] e at = elim (Bool-cases s.pool.abort) [
      | inl a ↦ (k, simp a (same-Inv v i s.pool exited refl refl refl (rw at)))
      | inr a ↦ (k, simp a (same-Inv v i s.pool asleep refl refl refl (rw at)))
    ]
    fetch-Kept (w ∷ ws) e at = (suc k, fetch-Inv v i w ws (fetched w) e (rw at) refl)

    -- A step of a thread, by where it stands, keeps the invariant and makes no fault.
    pub thread-Kept :
        (c : Pc)
        → s.pc i ≡ c
        → (p : Pool J) × (c' : Pc) × (ce_tp_routine process s.pool c ≡ ret (p, c'))
          × Kept (record { pool = p; pc = set s.pc i c' })
    unfolding ce_tp_routine ce_tp_worker_free
    thread-Kept born at = (
      record s.pool { routines = s.pool.routines + 1 },
      looping,
      refl,
      (k, same-Inv v i _ looping refl refl refl (rw at)),
    )
    thread-Kept looping at = elim (Bool-cases s.pool.abort) [
      | inl a ↦ (s.pool, exited, simp a, (k, same-Inv v i s.pool exited refl refl refl (rw at)))
      | inr a ↦ (s.pool, fetching, simp a, (k, same-Inv v i s.pool fetching refl refl refl (rw at)))
    ]
    thread-Kept fetching at = (_, _, refl, fetch-Kept s.pool.worker_queue refl at)
    thread-Kept asleep at =
        (s.pool, fetching, refl, (k, same-Inv v i s.pool fetching refl refl refl (rw at)))
    thread-Kept (fetched w) at =
        let h : held (s.pc i) ≡ some w = rw at in
        let (wk, l) = (v.held_live i w h).1 in
        (
          written w (record wk { state = busy }),
          working w,
          rw (load-ret s.pool w l),
          (k, write-Inv v i w (record wk { state = busy }) (working w) h refl),
        )
    thread-Kept (working w) at =
        let h : held (s.pc i) ≡ some w = rw at in
        let (wk, l) = (v.held_live i w h).1 in
        let wk' : Worker J = record wk {
          result = process wk.job;
          state = complete;
          sem = wk.sem + 1;
        } in
        (
          written w wk',
          finished w,
          rw (load-ret s.pool w l),
          (k, write-Inv v i w wk' (finished w) h refl),
        )
    thread-Kept (finished w) at =
        let h : held (s.pc i) ≡ some w = rw at in
        let (wk, l) = (v.held_live i w h).1 in
        (
          record s.pool {
            worker_queue = remove w s.pool.worker_queue;
            workers = update s.pool.workers w none;
          },
          looping,
          rw (dispose-ret s.pool w (remove w s.pool.worker_queue) l),
          (k, free-Inv v i w looping h refl),
        )
    thread-Kept exited at =
        (s.pool, exited, refl, (k, same-Inv v i s.pool exited refl refl refl (rw at)))

  -- Registration puts the next address at the end of the queue.
  module _ {s : System J} {k : ℕ} (v : Inv s k) (wk : Worker J) where
    old-IsLive : (x : ℕ) → IsLive s.pool x → IsLive (insert s.pool wk) x
    old-IsLive x (wk', l) = elim (Bool-cases (x == s.pool.next)) [
      | inl at ↦ (wk, rw at)
      | inr off ↦ (wk', rw off l)
    ]

    insert-Inv : Inv (record s { pool = insert s.pool wk }) k
    insert-Inv = record {
      behind = omega (arith, v.behind);
      queued =
          ap (λ q. q ++ (s.pool.next ∷ [])) v.queued
          ∙ ap (λ x. upto k (s.pool.next - k) ++ (x ∷ [])) {x = s.pool.next}
              {y = k + (s.pool.next - k)} (omega (arith, v.behind))
          ∙ upto-snoc k (s.pool.next - k)
          ∙ ap (upto k) {x = s.pool.next - k + 1} {y = s.pool.next + 1 - k}
              (omega (arith, v.behind));
      waiting_live = λ x a b. elim (Bool-cases (x == s.pool.next)) [
        | inl at ↦ (wk, rw at)
        | inr off ↦ old-IsLive x (v.waiting_live x a (ground arith))
      ];
      held_live = λ i x h. let l = v.held_live i x h in (l.0, old-IsLive x l.1);
      unique = v.unique;
      freed = λ x lt out.
          let off : (x == s.pool.next) ≡ false = ground (arith, v.behind) in
          rw off (v.freed x lt out);
    }

  abbrev pub KeptBy : System J → ℕ → Run (Pool J × Pc) → Type 0
  KeptBy s i (ret (p, c)) = Kept (record { pool = p; pc = set s.pc i c })
  KeptBy s i fault = ⊥
  KeptBy s i hangs = ⊥

  Step-Kept : {s t : System J} → Step process s t → Kept s → Kept t
  unfolding set_abort
  Step-Kept (register job complete_cb) (k, v) = (k, insert-Inv v (new_worker job complete_cb))
  Step-Kept {s} (thread i {p} {c} e) (k, v) =
      let (p', c', is, kept) = thread-Kept v i (s.pc i) refl in subst (KeptBy s i) (sym is ∙ e) kept
  Step-Kept (destroy kill may) (k, v) = (
    k,
    record {
      behind = v.behind;
      queued = v.queued;
      waiting_live = v.waiting_live;
      held_live = v.held_live;
      unique = v.unique;
      freed = v.freed;
    },
  )

  start-Kept : (n : ℕ) → Kept (start n)
  start-Kept n = (
    0,
    record {
      behind = omega arith;
      queued = refl;
      waiting_live = λ w a b. absurd (omega arith);
      held_live = λ i w h. cc;
      unique = λ i j w h. cc;
      freed = λ w lt out. refl;
    },
  )

  pub Reach-Kept : {n : ℕ} {s : System J} → Reach process n s → Kept s
  Reach-Kept {n} here = start-Kept n
  Reach-Kept (next r st) = Step-Kept st (Reach-Kept r)
