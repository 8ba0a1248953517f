-- ===== src/Threadpool/Once.antt =====
-- How often each job has been run, as the steps of a thread keep it.
use cevent_sample.Prelude.{
  ℕ, zero, suc, ◌-◌, ◌≤◌, ◌<◌, ◌≡◌, ◌≢◌, refl, sym, ap, ◌∙◌, true, false, none, some, List, ◌∷◌,
  ◌==◌, arith, inl, inr, Bool-cases, ==_iff, length,
}
use cevent_sample.Threadpool.{
  Pool, Pc, born, looping, fetching, asleep, fetched, working, finished, exited,
}
use cevent_sample.Threadpool.System.{System, set, held}
use cevent_sample.Threadpool.Upto.{upto, upto-cons}
use cevent_sample.Threadpool.Invariant.{Inv, some_eq, eq_ne}
use cevent_sample.Threadpool.Trace.{count, doing}

length-upto : (k n : ℕ) → length (upto k n) ≡ n
length-upto k zero = refl
length-upto k (suc n) = ap suc (length-upto (suc k) n)

pub doing-held : (c : Pc) {w : ℕ} → doing c ≡ some w → held c ≡ some w
doing-held (fetched w) h = h
doing-held (working w) h = h
doing-held born h = cc
doing-held looping h = cc
doing-held fetching h = cc
doing-held asleep h = cc
doing-held (finished w) h = cc
doing-held exited h = cc

ne_of : (a b : ℕ) → (a == b) ≡ false → a ≢ b
ne_of a b h e = ground arith

module _ {J : Type 0} where
  -- the number of workers that have been taken off the queue, which are those below it
  abbrev pub taken_off : Pool J → ℕ
  taken_off p = p.next - length p.worker_queue

  pub taken_off_lem : {s : System J} {k : ℕ} → Inv s k → taken_off s.pool ≡ k
  taken_off_lem {s} {k} v =
      omega (arith, v.behind, ap length v.queued, length-upto k (s.pool.next - k))

  pub record Once (s : System J) (ran : List ℕ) : Type 0 where
    pub once : (w : ℕ) → count w ran ≤ 1
    pub later : (w : ℕ) → taken_off s.pool ≤ w → count w ran ≡ 0
    pub busy : (i w : ℕ) → doing (s.pc i) ≡ some w → count w ran ≡ 0
    pub over :
        (w : ℕ) → w < taken_off s.pool → ((i : ℕ) → doing (s.pc i) ≢ some w) → count w ran ≡ 1

  module _ {s : System J} {ran : List ℕ} (o : Once s ran) {k : ℕ} (v : Inv s k) (i : ℕ) (p : Pool J)
      (c : Pc) where
    doing_at : (j : ℕ) → (j == i) ≡ true → doing (set s.pc i c j) ≡ doing c
    doing_at j at = rw at

    doing_off : (j : ℕ) → (j == i) ≡ false → doing (set s.pc i c j) ≡ doing (s.pc j)
    doing_off j off = rw off

    self : (i == i) ≡ true
    self = ground arith

    abbrev stepped : System J
    stepped = record { pool = p; pc = set s.pc i c }

    pub same-Once :
        p.next ≡ s.pool.next
        → p.worker_queue ≡ s.pool.worker_queue
        → doing c ≡ doing (s.pc i)
        → Once stepped ran
    same-Once n q d = record {
      once = o.once;
      later = λ w le. o.later w (rw (n, q) at le);
      busy = λ j w h. o.busy j w (sym (same j) ∙ h);
      over = λ w lt out. o.over w (rw (n, q) at lt) (λ j h. out j (same j ∙ h));
    }
      where
        same : (j : ℕ) → doing (set s.pc i c j) ≡ doing (s.pc j)
        same j = elim (Bool-cases (j == i)) [
          | inl at ↦ doing_at j at ∙ d ∙ ap (λ x. doing (s.pc x)) (sym ((==_iff j i).0 at))
          | inr off ↦ doing_off j off
        ]

    pub takes-Once :
        (w : ℕ)
        → p.next ≡ s.pool.next
        → s.pool.worker_queue ≡ w ∷ p.worker_queue
        → doing (s.pc i) ≡ none
        → doing c ≡ some w
        → Once stepped ran
    takes-Once w n q d d' = record {
      once = o.once;
      later = λ x le. o.later x (omega (arith, old, new, le));
      busy = λ j x h. elim (Bool-cases (j == i)) [
        | inl at ↦
            let same : w ≡ x = some_eq (sym (doing_at j at ∙ d') ∙ h) in
            o.later x (omega (arith, old, first.0, same))
        | inr off ↦ o.busy j x (sym (doing_off j off) ∙ h)
      ];
      over = λ x lt out. elim (Bool-cases (x == w)) [
        | inl at ↦ absurd (out i (doing_at i self ∙ d' ∙ ap some (sym ((==_iff x w).0 at))))
        | inr off ↦
            let ne = ne_of x w off in
            o.over x (omega (arith, old, new, first.0, lt, ne)) (λ j h. out j (others j h))
      ];
    }
      where
        first :
            (w ≡ k) × (0 < s.pool.next - k) × (p.worker_queue ≡ upto (suc k) (s.pool.next - k - 1))
        first = upto-cons k (s.pool.next - k) (sym q ∙ v.queued)

        old : taken_off s.pool ≡ k
        old = taken_off_lem v

        new : taken_off p ≡ suc k
        new =
            omega (arith, n, ap length first.2, length-upto (suc k) (s.pool.next - k - 1), first.1)

        others : (j : ℕ) {x : ℕ} → doing (s.pc j) ≡ some x → doing (set s.pc i c j) ≡ some x
        others j h = elim (Bool-cases (j == i)) [
          | inl at ↦ absurd (cc (h, d, ap (λ y. doing (s.pc y)) ((==_iff j i).0 at)))
          | inr off ↦ doing_off j off ∙ h
        ]

    pub runs-Once :
        (w : ℕ)
        → p.next ≡ s.pool.next
        → p.worker_queue ≡ s.pool.worker_queue
        → doing (s.pc i) ≡ some w
        → doing c ≡ none
        → Once stepped (w ∷ ran)
    runs-Once w n q d d' = record {
      once = λ x. elim (Bool-cases (w == x)) [
        | inl at ↦ rw at (omega (arith, o.busy i x (d ∙ ap some ((==_iff w x).0 at))))
        | inr off ↦ rw off (o.once x)
      ];
      later = λ x le. more x (ground (arith, old, holds, le, n, q)) (o.later x (rw (n, q) at le));
      busy = λ j x h. elim (Bool-cases (j == i)) [
        | inl at ↦ absurd (cc (doing_at j at, d', h))
        | inr off ↦
            more x (apart j x off (sym (doing_off j off) ∙ h))
              (o.busy j x (sym (doing_off j off) ∙ h))
      ];
      over = λ x lt out. elim (Bool-cases (w == x)) [
        | inl at ↦ rw at (ap suc (o.busy i x (d ∙ ap some ((==_iff w x).0 at))))
        | inr off ↦ more x off (o.over x (rw (n, q) at lt) (λ j h. out j (others j x off h)))
      ];
    }
      where
        old : taken_off s.pool ≡ k
        old = taken_off_lem v

        holds : w < k
        holds = (v.held_live i w (doing-held (s.pc i) d)).0

        more : (x : ℕ) {m : ℕ} → (w == x) ≡ false → count x ran ≡ m → count x (w ∷ ran) ≡ m
        more x off h = rw off h

        apart : (j x : ℕ) → (j == i) ≡ false → doing (s.pc j) ≡ some x → (w == x) ≡ false
        apart j x off h = elim (Bool-cases (w == x)) [
          | inl at ↦ absurd (
              eq_ne j i
                (v.unique j i x (doing-held (s.pc j) h)
                  (doing-held (s.pc i) (d ∙ ap some ((==_iff w x).0 at))))
                off)
          | inr ne ↦ ne
        ]

        others :
            (j x : ℕ) → (w == x) ≡ false → doing (s.pc j) ≡ some x → doing (set s.pc i c j) ≡ some x
        others j x off h = elim (Bool-cases (j == i)) [
          | inl at ↦ absurd (
              eq_ne w x (some_eq (sym d ∙ ap (λ y. doing (s.pc y)) (sym ((==_iff j i).0 at)) ∙ h))
                off)
          | inr off' ↦ doing_off j off' ∙ h
        ]
