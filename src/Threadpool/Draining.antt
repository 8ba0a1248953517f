-- ===== src/Threadpool/Draining.antt =====
-- The last loop of `ce_tp_destroy`, between whose steps clients still wait and register.
use cevent_sample.Prelude.{
  ℕ, suc, ◌+◌, ◌-◌, ◌≤◌, ◌≡◌, refl, sym, ap, subst, ◌∙◌, Bool, true, Option, none, some, List, ◌∷◌,
  ◌++◌, [], ◌==◌, inl, inr, ◌⊎◌, Bool-cases, Option-cases, ==_iff, ltb, After, arith, ret,
}
use cevent_sample.Threadpool.{Pool, Worker, idle, take_out, release, insert, new_worker}
use cevent_sample.Threadpool.System.{System, held, Reach}
use cevent_sample.Threadpool.Upto.{upto, upto-cons, upto-snoc}
use cevent_sample.Threadpool.Invariant.{some_eq}
use cevent_sample.Threadpool.Kept.{load-ret, Reach-Kept}
use cevent_sample.Threadpool.Safety.{load-fault}
use cevent_sample.Threadpool.Once.{taken_off_lem}
use cevent_sample.Threadpool.Told.{Waits}
use cevent_sample.Threadpool.Answers.{Reach-Told}

module _ {J : Type 0} where
  -- What the loop makes of the pool `a`, behind the joins: the worker `some w` is posted and has still to
  -- be freed. A registration that has passed its test of `abort` may come in between.
  pub data Drains (a : Pool J) : Pool J → Option ℕ → Type 0 where
    here : Drains a a none
    late :
        {p : Pool J} {o : Option ℕ} (job : J) (complete_cb : Bool)
        → Drains a p o
        → Drains a (insert p (new_worker job complete_cb)) o
    posts :
        {p q : Pool J} {w : ℕ} {ws : List ℕ}
        → Drains a p none
        → p.worker_queue ≡ w ∷ ws
        → take_out p w ws ≡ ret q
        → Drains a q (some w)
    frees : {p q : Pool J} {w : ℕ} → Drains a p (some w) → release p w ≡ ret q → Drains a q none

  -- The pools that a client may meet from the state `s` of the system on: that of `s`, or if it is aborted
  -- and no thread holds a worker any more, those that the loop makes of it.
  pub data Meets (s : System J) : Pool J → Option ℕ → Type 0 where
    runs : Meets s s.pool none
    ends :
        {p : Pool J} {o : Option ℕ}
        → s.pool.abort ≡ true
        → ((i : ℕ) → held (s.pc i) ≡ none)
        → Drains s.pool p o
        → Meets s p o

  abbrev pub IsPosted : Worker J → Type 0
  IsPosted wk = (wk.state ≡ idle) × (wk.sem ≡ 1) × (wk.result ≡ 0)

  -- the workers below `k` are freed, but for the one that is posted
  record Inv (k : ℕ) (p : Pool J) (o : Option ℕ) : Type 0 where
    behind : k ≤ p.next
    queued : p.worker_queue ≡ upto k (p.next - k)
    left :
        (w : ℕ) (wk : Worker J)
        → p.workers w ≡ some wk
        → ((k ≤ w) × Waits wk) ⊎ ((o ≡ some w) × IsPosted wk)

  waiting :
      {k : ℕ} {p : Pool J}
      → Inv k p none
      → (w : ℕ) (wk : Worker J) → p.workers w ≡ some wk
      → (k ≤ w) × Waits wk
  waiting v w wk live = elim (v.left w wk live) [ inl waits ↦ waits | inr (o, is) ↦ absurd cc ]

  late-Inv :
      {k : ℕ} {p : Pool J} {o : Option ℕ} (job : J) (complete_cb : Bool)
      → Inv k p o
      → Inv k (insert p (new_worker job complete_cb)) o
  late-Inv {k} {p} job complete_cb v = record {
    behind = omega (arith, v.behind);
    queued =
        ap (λ q. q ++ (p.next ∷ [])) v.queued
        ∙ ap (λ x. upto k (p.next - k) ++ (x ∷ [])) {x = p.next} {y = k + (p.next - k)}
            (omega (arith, v.behind))
        ∙ upto-snoc k (p.next - k)
        ∙ ap (upto k) {x = p.next - k + 1} {y = p.next + 1 - k} (omega (arith, v.behind));
    left = λ w wk live. elim (Bool-cases (w == p.next)) [
      | inl at ↦
          inl (ground (arith, v.behind), subst Waits (some_eq (simp at at live)) (refl, refl, refl))
      | inr off ↦ v.left w wk (simp off at live)
    ];
  }

  -- a worker that is queued is allocated, where its removal does not fault
  posts-Inv :
      {k : ℕ} {p q : Pool J} {w : ℕ} {ws : List ℕ}
      → Inv k p none
      → p.worker_queue ≡ w ∷ ws
      → take_out p w ws ≡ ret q
      → Inv (suc k) q (some w)
  unfolding take_out
  posts-Inv {k} {p} {q} {w} {ws} v first e =
      let (at, more, rest) = upto-cons k (p.next - k) (sym first ∙ v.queued) in
      elim (Option-cases (p.workers w)) [
        | inl gone ↦ absurd (cc (load-fault p w gone, e))
        | inr (wk, live) ↦
            let (le, (st, sem, result)) = waiting v w wk live in
            subst (After (λ p'. Inv (suc k) p' (some w))) e (
              rw (load-ret p w live) (record {
                behind = omega (arith, more);
                queued =
                    rest
                    ∙ ap (upto (suc k)) {x = p.next - k - 1} {y = p.next - suc k} (omega arith);
                left = λ x y l. elim (Bool-cases (x == w)) [
                  | inl same ↦ inr (
                    ap some (sym ((==_iff x w).0 same)),
                    subst IsPosted (some_eq (simp same at l)) (st, ap (λ m. m + 1) sem, result),
                  )
                  | inr off ↦
                      let old : p.workers x ≡ some y = simp off at l in
                      let (above, still) = waiting v x y old in inl (ground (arith, at), still)
                ];
              }))
      ]

  frees-Inv : {k : ℕ} {p q : Pool J} {w : ℕ} → Inv k p (some w) → release p w ≡ ret q → Inv k q none
  unfolding release
  frees-Inv {k} {p} {q} {w} v e = elim (Option-cases (p.workers w)) [
    | inl gone ↦ absurd (cc (load-fault p w gone, e))
    | inr (wk, live) ↦ subst (After (λ p'. Inv k p' none)) e (
        rw (load-ret p w live) (record {
          behind = v.behind;
          queued = v.queued;
          left = λ x y l. elim (Bool-cases (x == w)) [
            | inl same ↦ absurd (cc (simp same at l))
            | inr off ↦ elim (v.left x y (simp off at l)) [
              | inl waits ↦ inl waits
              | inr (o, is) ↦ absurd (ground (arith, some_eq o))
            ]
          ];
        }))
  ]

  -- before the loop begins, no thread holds a worker
  here-Inv :
      (process : J → ℕ) {n : ℕ} {s : System J}
      → Reach process n s
      → ((i : ℕ) → held (s.pc i) ≡ none)
      → (k : ℕ) × Inv k s.pool none
  here-Inv process {s = s} r joined =
      let (k, v) = Reach-Kept process r in
      (
        k,
        record {
          behind = v.behind;
          queued = v.queued;
          left = λ w wk live. elim (Bool-cases (ltb w k)) [
            | inl below ↦ absurd (cc (live, v.freed w (ground arith) (λ i h. cc (joined i, h))))
            | inr above ↦
                let le : k ≤ w = ground arith in
                inl
                  (le, (Reach-Told process r).waits w wk (omega (arith, le, taken_off_lem v)) live)
          ];
        },
      )

  Drains-Inv :
      {k : ℕ} {a p : Pool J} {o : Option ℕ} → Inv k a none → Drains a p o → (k' : ℕ) × Inv k' p o
  Drains-Inv {k} v here = (k, v)
  Drains-Inv v (late job complete_cb d) =
      let (k, v') = Drains-Inv v d in (k, late-Inv job complete_cb v')
  Drains-Inv v (posts d first e) = let (k, v') = Drains-Inv v d in (suc k, posts-Inv v' first e)
  Drains-Inv v (frees d e) = let (k, v') = Drains-Inv v d in (k, frees-Inv v' e)

  -- What a client sees of a worker in the loop: it waits still, or it is the one that was posted. None is
  -- busy or complete.
  pub Drains-worker :
      (process : J → ℕ) {n : ℕ} {s : System J} {p : Pool J} {o : Option ℕ}
      → Reach process n s
      → ((i : ℕ) → held (s.pc i) ≡ none)
      → Drains s.pool p o
      → (w : ℕ) (wk : Worker J) → p.workers w ≡ some wk
      → Waits wk ⊎ ((o ≡ some w) × IsPosted wk)
  Drains-worker process r joined d w wk live =
      elim ((Drains-Inv (here-Inv process r joined).1 d).1.left w wk live) [
        | inl (le, waits) ↦ inl waits
        | inr posted ↦ inr posted
      ]
