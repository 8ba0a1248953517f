-- ===== src/Threadpool/Answers.antt =====
-- In a reachable pool a worker that was posted has its result.
use cevent_sample.Prelude.{
  ℕ, ◌≡◌, refl, subst, Bool, true, false, ◌&&◌, none, some, [], ◌∷◌, ◌==◌, inl, inr, ◌⊎◌,
  Bool-cases, ==_iff, arith, After, ret, length-append, ltb,
}
use cevent_sample.Threadpool.{
  insert, new_worker, Pool, Worker, State, idle, busy, complete, invalid, Pc, born, looping,
  fetching, asleep, exited, fetched, working, finished, ce_tp_routine, set_abort,
}
use cevent_sample.Threadpool.System.{
  System, set, held, Step, register, thread, destroy, start, Reach,
}
use cevent_sample.Threadpool.System
use cevent_sample.Threadpool.Invariant.{Inv, some_eq}
use cevent_sample.Threadpool.Kept.{Reach-Kept}
use cevent_sample.Threadpool.Once.{taken_off_lem}
use cevent_sample.Threadpool.Told.{Waits, Tells, Told, Changes, Changes-Told}
use cevent_sample.Threadpool.Steps.{ChangesBy, routine-Changes}

abbrev is_complete : State → Bool
is_complete complete = true
is_complete _ = false

is_complete_lem : (st : State) → is_complete st ≡ true → st ≡ complete
is_complete_lem idle h = cc
is_complete_lem busy h = cc
is_complete_lem complete h = refl
is_complete_lem invalid h = cc

module _ {J : Type 0} (process : J → ℕ) where
  pub thread-Changes :
      {s : System J} {k : ℕ} (v : Inv s k) (t : Told process s) (i : ℕ) {p : Pool J} {c : Pc}
      → ce_tp_routine process s.pool (s.pc i) ≡ ret (p, c)
      → Changes process s i p c
  thread-Changes {s} v t i e =
      subst (After (ChangesBy process v t i)) e (routine-Changes process v t i (s.pc i) refl)

  insert-Told :
      {s : System J} {k : ℕ} (v : Inv s k) (t : Told process s) (job : J) (complete_cb : Bool)
      → Told process (record s { pool = insert s.pool (new_worker job complete_cb) })
  insert-Told {s} v t job complete_cb = record {
    waits = λ x y le live. elim (Bool-cases (x == s.pool.next)) [
      | inl at ↦ subst Waits (some_eq (simp at at live)) (refl, refl, refl)
      | inr off ↦
          t.waits x y (omega (arith, le, length-append s.pool.worker_queue (s.pool.next ∷ [])))
            (simp off at live)
    ];
    tells = λ j x y h live.
        let off : (x == s.pool.next) ≡ false = ground (arith, v.behind, (v.held_live j x h).0) in
        t.tells j x y h (simp off at live);
  }

  Step-Told :
      {s t : System J} {k : ℕ} → Step process s t → Inv s k → Told process s → Told process t
  unfolding set_abort
  Step-Told (register job complete_cb) v t = insert-Told v t job complete_cb
  Step-Told (thread i e) v t = Changes-Told process (thread-Changes v t i e) t
  Step-Told (destroy kill may) v t = record { waits = t.waits; tells = t.tells }

  pub Reach-Told : {n : ℕ} {s : System J} → Reach process n s → Told process s
  Reach-Told System.here = record { waits = λ w wk le live. cc; tells = λ i w wk h. cc }
  Reach-Told (System.next r st) = Step-Told st (Reach-Kept process r).1 (Reach-Told r)

  done :
      (c : Pc) {w : ℕ} (wk : Worker J)
      → held c ≡ some w
      → Tells process c wk
      → (wk.sem == 0) ≡ false
      → (is_complete wk.state && (wk.result == process wk.job)) ≡ true
  done (fetched w) wk h (st, none_yet, unset) posted = ground arith
  done (working w) wk h (st, none_yet) posted = ground arith
  done (finished w) wk h (st, result) posted = rw (st, result) (ground arith)
  done born wk h now posted = cc
  done looping wk h now posted = cc
  done fetching wk h now posted = cc
  done asleep wk h now posted = cc
  done exited wk h now posted = cc

  -- what a wait for a worker that is allocated does
  pub wait_cases :
      {s : System J} {k : ℕ} (v : Inv s k) (t : Told process s) (w : ℕ) {wk : Worker J}
      → s.pool.workers w ≡ some wk
      → (wk.sem ≡ 0)
        ⊎ (((wk.sem == 0) ≡ false) × (wk.state ≡ complete) × (wk.result ≡ process wk.job))
  wait_cases {s} {k} v t w {wk} live = elim (Bool-cases (ltb w k)) [
    | inl below ↦ elim (Bool-cases (wk.sem == 0)) [
      | inl empty ↦ inl ((==_iff wk.sem 0).0 empty)
      | inr posted ↦ elim (Bool-cases (is_complete wk.state && (wk.result == process wk.job))) [
        | inl over ↦ inr (posted, is_complete_lem wk.state (ground arith), ground arith)
        | inr not_over ↦
            let gone : s.pool.workers w ≡ none =
              v.freed w (ground arith)
                (λ i h. cc (not_over, done (s.pc i) wk h (t.tells i w wk h live) posted)) in
            absurd (cc (gone, live))
      ]
    ]
    | inr waiting ↦ inl (t.waits w wk (ground (arith, taken_off_lem v)) live).1
  ]
