-- ===== src/Threadpool/Invariant.antt =====
-- Which workers are allocated, queued and held. Workers have the addresses 0, 1, … in the order of
-- their registration; those below `k` have been taken off the queue.
use cevent_sample.Prelude.{
  ◌⊎◌, ℕ, suc, ◌-◌, ◌≤◌, ◌<◌, ◌≡◌, ◌≢◌, sym, ap, ◌∙◌, false, Option, none, some, List, ◌∷◌, ◌==◌,
  arith, inl, inr, Bool-cases, ==_iff,
}
use cevent_sample.Threadpool.{Pool, Worker, Pc, update, remove}
use cevent_sample.Threadpool.System.{System, set, held}
use cevent_sample.Threadpool.Upto.{upto, upto-cons, remove-upto}

none≢some : {x : ℕ} → ◌≡◌ {A = Option ℕ} none (some x) → ⊥
none≢some h = cc

pub some_eq : {A : Type 0} {x y : A} → some x ≡ some y → x ≡ y
some_eq h = cc

pub eq_ne : (a b : ℕ) → a ≡ b → (a == b) ≡ false → ⊥
eq_ne a b e h = ground arith

module _ {J : Type 0} where
  abbrev pub IsLive : Pool J → ℕ → Type 0
  IsLive p w = (wk : Worker J) × (p.workers w ≡ some wk)

  pub record Inv (s : System J) (k : ℕ) : Type 0 where
    pub behind : k ≤ s.pool.next
    pub queued : s.pool.worker_queue ≡ upto k (s.pool.next - k)
    pub waiting_live : (w : ℕ) → k ≤ w → w < s.pool.next → IsLive s.pool w
    pub held_live : (i w : ℕ) → held (s.pc i) ≡ some w → (w < k) × IsLive s.pool w
    pub unique : (i j w : ℕ) → held (s.pc i) ≡ some w → held (s.pc j) ≡ some w → i ≡ j
    pub freed : (w : ℕ) → w < k → ((i : ℕ) → held (s.pc i) ≢ some w) → s.pool.workers w ≡ none

  module _ {s : System J} {k : ℕ} (v : Inv s k) (i : ℕ) where
    set_self : (c : Pc) → held (set s.pc i c i) ≡ held c
    set_self c = ground arith

    held-set : (c : Pc) → held c ≡ held (s.pc i) → (j : ℕ) → held (set s.pc i c j) ≡ held (s.pc j)
    held-set c e j = elim (Bool-cases (j == i)) [
      | inl at ↦ rw at (e ∙ ap (λ x. held (s.pc x)) (sym ((==_iff j i).0 at)))
      | inr off ↦ rw off
    ]

    -- a step that changes neither the heap nor the queue nor what the thread holds
    pub same-Inv :
        (p : Pool J) (c : Pc)
        → p.worker_queue ≡ s.pool.worker_queue
        → p.next ≡ s.pool.next
        → p.workers ≡ s.pool.workers
        → held c ≡ held (s.pc i)
        → Inv (record { pool = p; pc = set s.pc i c }) k
    same-Inv p c q n h e = record {
      behind = rw n v.behind;
      queued = rw (q, n) v.queued;
      waiting_live = λ w a b. rw h (v.waiting_live w a (rw n at b));
      held_live = λ j w g. rw h (v.held_live j w (sym (held-set c e j) ∙ g));
      unique = λ a b w g f. v.unique a b w (sym (held-set c e a) ∙ g) (sym (held-set c e b) ∙ f);
      freed = λ w lt out. rw h (v.freed w lt (λ j g. out j (held-set c e j ∙ g)));
    }

    -- a step that writes to the worker that the thread holds
    pub write-Inv :
        (w : ℕ) (wk : Worker J) (c : Pc)
        → held (s.pc i) ≡ some w
        → held c ≡ some w
        → Inv
            (record {
              pool = record s.pool { workers = update s.pool.workers w (some wk) };
              pc = set s.pc i c;
            })
            k
    write-Inv w wk c g e = record {
      behind = v.behind;
      queued = v.queued;
      waiting_live = λ x a b. kept x (v.waiting_live x a b);
      held_live = λ j x f.
          let l = v.held_live j x (sym (held-set c (e ∙ sym g) j) ∙ f) in (l.0, kept x l.1);
      unique = λ a b x f f'.
          v.unique a b x (sym (held-set c (e ∙ sym g) a) ∙ f) (sym (held-set c (e ∙ sym g) b) ∙ f');
      freed = λ x lt no. other x lt no;
    }
      where
        kept :
            (x : ℕ)
            → IsLive s.pool x
            → IsLive (record s.pool { workers = update s.pool.workers w (some wk) }) x
        kept x (wk', l) = elim (Bool-cases (x == w)) [
          | inl at ↦ (wk, rw at)
          | inr off ↦ (wk', rw off l)
        ]

        other :
            (x : ℕ)
            → x < k
            → ((j : ℕ) → held (set s.pc i c j) ≢ some x)
            → update s.pool.workers w (some wk) x ≡ none
        other x lt out = elim (Bool-cases (x == w)) [
          | inl at ↦
              absurd (out i (held-set c (e ∙ sym g) i ∙ g ∙ ap some (sym ((==_iff x w).0 at))))
          | inr off ↦ rw off (v.freed x lt (λ j f. out j (held-set c (e ∙ sym g) j ∙ f)))
        ]

    -- a step that takes the first worker off the queue
    pub fetch-Inv :
        (w : ℕ) (ws : List ℕ) (c : Pc)
        → s.pool.worker_queue ≡ w ∷ ws
        → held (s.pc i) ≡ none
        → held c ≡ some w
        → Inv (record { pool = record s.pool { worker_queue = ws }; pc = set s.pc i c }) (suc k)
    fetch-Inv w ws c q idle e = record {
      behind = omega (arith, first.1);
      queued =
          first.2
          ∙ ap (upto (suc k)) {x = s.pool.next - k - 1} {y = s.pool.next - suc k} (omega arith);
      waiting_live = λ x a b. v.waiting_live x (omega arith) b;
      held_live = λ j x f. elim (holder j x f) [
        | inl (at, is) ↦ (
          omega (arith, is, first.0),
          v.waiting_live x (omega (arith, is, first.0)) (omega (arith, is, first.0, first.1)),
        )
        | inr old ↦ let l = v.held_live j x old in (omega (arith, l.0), l.1)
      ];
      unique = λ a b x f f'. elim (holder a x f) [
        | inl (at, is) ↦ elim (holder b x f') [
          | inl (at', _) ↦ at ∙ sym at'
          | inr old ↦ absurd (omega (arith, is, first.0, (v.held_live b x old).0))
        ]
        | inr old ↦ elim (holder b x f') [
          | inl (_, is) ↦ absurd (omega (arith, is, first.0, (v.held_live a x old).0))
          | inr old' ↦ v.unique a b x old old'
        ]
      ];
      freed = λ x lt out. elim (Bool-cases (x == k)) [
        | inl at ↦ absurd (out i (set_self c ∙ e ∙ ap some (first.0 ∙ sym ((==_iff x k).0 at))))
        | inr off ↦ v.freed x (ground arith) (λ j f. out j (other j x f))
      ];
    }
      where
        first : (w ≡ k) × (0 < s.pool.next - k) × (ws ≡ upto (suc k) (s.pool.next - k - 1))
        first = upto-cons k (s.pool.next - k) (sym q ∙ v.queued)

        holder :
            (j x : ℕ)
            → held (set s.pc i c j) ≡ some x
            → ((j ≡ i) × (x ≡ w)) ⊎ (held (s.pc j) ≡ some x)
        holder j x f = elim (Bool-cases (j == i)) [
          | inl at ↦
              let now : held (set s.pc i c j) ≡ some w = rw at e in
              inl ((==_iff j i).0 at, some_eq (sym f ∙ now))
          | inr off ↦ inr (sym (rw off) ∙ f)
        ]

        other : (j x : ℕ) → held (s.pc j) ≡ some x → held (set s.pc i c j) ≡ some x
        other j x f = elim (Bool-cases (j == i)) [
          | inl at ↦ cc (idle, f, ap (λ y. held (s.pc y)) ((==_iff j i).0 at))
          | inr off ↦ rw off f
        ]

    -- a step that frees the worker that the thread holds
    pub free-Inv :
        (w : ℕ) (c : Pc)
        → held (s.pc i) ≡ some w
        → held c ≡ none
        → Inv
            (record {
              pool = record s.pool {
                worker_queue = remove w s.pool.worker_queue;
                workers = update s.pool.workers w none;
              };
              pc = set s.pc i c;
            })
            k
    free-Inv w c g e = record {
      behind = v.behind;
      queued = rw v.queued (remove-upto w k (s.pool.next - k) below);
      waiting_live = λ x a b. kept x (ground (arith, below)) (v.waiting_live x a b);
      held_live = λ j x f.
          let (old, ne) = holder j x f in let l = v.held_live j x old in (l.0, kept x ne l.1);
      unique = λ a b x f f'. v.unique a b x (holder a x f).0 (holder b x f').0;
      freed = λ x lt out. elim (Bool-cases (x == w)) [
        | inl at ↦ rw at
        | inr off ↦ rw off (v.freed x lt (λ j f. out j (other j x off f)))
      ];
    }
      where
        below : w < k
        below = (v.held_live i w g).0

        kept :
            (x : ℕ)
            → (x == w) ≡ false
            → IsLive s.pool x
            → (wk : Worker J) × (update s.pool.workers w none x ≡ some wk)
        kept x off (wk, l) = (wk, rw off l)

        holder :
            (j x : ℕ)
            → held (set s.pc i c j) ≡ some x
            → (held (s.pc j) ≡ some x) × ((x == w) ≡ false)
        holder j x f = elim (Bool-cases (j == i)) [
          | inl at ↦
              let now : held (set s.pc i c j) ≡ none = rw at e in absurd (none≢some (sym now ∙ f))
          | inr off ↦
              let old : held (s.pc j) ≡ some x = sym (rw off) ∙ f in
              (
                old,
                elim (Bool-cases (x == w)) [
                  | inl same ↦
                      absurd
                        (eq_ne j i (v.unique j i w (old ∙ ap some ((==_iff x w).0 same)) g) off)
                  | inr differ ↦ differ
                ],
              )
        ]

        other :
            (j x : ℕ) → (x == w) ≡ false → held (s.pc j) ≡ some x → held (set s.pc i c j) ≡ some x
        other j x off f = elim (Bool-cases (j == i)) [
          | inl at ↦
              absurd
                (eq_ne x w (some_eq (sym f ∙ ap (λ y. held (s.pc y)) ((==_iff j i).0 at) ∙ g)) off)
          | inr off' ↦ rw off' f
        ]
