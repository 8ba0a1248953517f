-- ===== src/Threadpool/Destroy.antt =====
-- The end of `ce_tp_destroy`, behind its joins: no thread holds a worker, and those that are still
-- queued are freed.
use cevent_sample.Prelude.{
  ℕ, zero, suc, ltb, ◌+◌, ◌-◌, ◌≤◌, ◌<◌, ◌≡◌, refl, ap, ◌∙◌, none, [], ret, ◌>>=◌, arith, inl, inr,
  Bool-cases,
}
use cevent_sample.Threadpool.{Pool, update, drain}
use cevent_sample.Threadpool.System.{System, held, Reach}
use cevent_sample.Threadpool.Upto.{upto}
use cevent_sample.Threadpool.Invariant.{IsLive}
use cevent_sample.Threadpool.Kept.{dispose-ret, Reach-Kept}

module _ {J : Type 0} where
  -- `q` is `p` with the workers from `k` on, `n` of them, freed and its queue empty
  record IsDrained (k n : ℕ) (p q : Pool J) : Type 0 where
    queue : q.worker_queue ≡ []
    before : (w : ℕ) → w < k → q.workers w ≡ p.workers w
    gone : (w : ℕ) → k ≤ w → w < k + n → q.workers w ≡ none

  abbrev reaped : Pool J → ℕ → ℕ → Pool J
  reaped p k n = record p { worker_queue = upto (suc k) n; workers = update p.workers k none }

  drain-upto :
      (n k : ℕ) (p : Pool J)
      → ((w : ℕ) → k ≤ w → w < k + n → IsLive p w)
      → (q : Pool J) × (drain p (upto k n) ≡ ret q) × IsDrained k n p q
  unfolding drain
  drain-upto zero k p live = (
    record p { worker_queue = [] },
    refl,
    record { queue = refl; before = λ w lt. refl; gone = λ w a b. absurd (omega arith) },
  )
  drain-upto (suc n) k p live =
      let (wk, l) = live k (omega arith) (omega arith) in
      let (q, done, d) = drain-upto n (suc k) (reaped p k n) (λ w a b.
        let (wk', l') = live w (omega arith) (omega arith) in (wk', ground (arith, l'))) in
      (
        q,
        ap (λ m. m >>= λ freed. drain freed (upto (suc k) n)) (dispose-ret p k (upto (suc k) n) l)
            ∙ done,
        record {
          queue = d.queue;
          before = λ w lt. d.before w (omega arith) ∙ ground arith;
          gone = λ w a b. elim (Bool-cases (ltb k w)) [
            | inl above ↦ d.gone w (ground arith) (omega arith)
            | inr at ↦ d.before w (ground arith) ∙ ground arith
          ];
        },
      )

  -- In every reachable state in which no thread holds a worker, the last loop of `ce_tp_destroy` ends
  -- without touching freed memory, and behind it the queue is empty and no worker that was ever
  -- registered is left allocated.
  pub destroy_frees_all :
      (process : J → ℕ) {n : ℕ} {s : System J}
      → Reach process n s
      → ((i : ℕ) → held (s.pc i) ≡ none)
      → (w : ℕ) → w < s.pool.next
      → (p : Pool J) × (drain s.pool s.pool.worker_queue ≡ ret p)
        × (p.worker_queue ≡ [])
        × (p.workers w ≡ none)
  destroy_frees_all process {n} {s} r joined w lt =
      let (k, v) = Reach-Kept process r in
      let (p, done, d) =
        drain-upto (s.pool.next - k) k s.pool (λ x a b. v.waiting_live x a (omega arith)) in
      (
        p,
        ap (drain s.pool) v.queued ∙ done,
        d.queue,
        elim (Bool-cases (ltb w k)) [
          | inl below ↦
              d.before w (ground arith) ∙ v.freed w (ground arith) (λ i h. cc (joined i, h))
          | inr above ↦ d.gone w (ground arith) (ground (arith, v.behind))
        ],
      )
