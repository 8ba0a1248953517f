-- ===== src/Threadpool/Effect.antt =====
-- What a step of a thread does to the queue and to the job that it has still to run.
use cevent_sample.Prelude.{
  ℕ, ◌≡◌, refl, none, some, List, [], ◌∷◌, inl, inr, Bool-cases, After, After-bind, After-then,
}
use cevent_sample.Threadpool.{
  Pool, Pc, born, looping, fetching, asleep, fetched, working, finished, exited, load, remove,
  fetch, ce_tp_routine, ce_tp_worker_free, dispose, take_out, release, remove,
}
use cevent_sample.Threadpool.System.{held}
use cevent_sample.Threadpool.Trace.{doing, ran_by}

module _ {J : Type 0} where
  -- what a step of a thread does to the queue and to what it has still to run
  pub data Effect (p : Pool J) (c : Pc) (p' : Pool J) (c' : Pc) : Type 0 where
    stays :
        p'.next ≡ p.next
        → p'.worker_queue ≡ p.worker_queue
        → doing c' ≡ doing c
        → ran_by c ≡ []
        → Effect p c p' c'
    takes :
        (w : ℕ)
        → p'.next ≡ p.next
        → p.worker_queue ≡ w ∷ p'.worker_queue
        → doing c ≡ none
        → doing c' ≡ some w
        → ran_by c ≡ []
        → Effect p c p' c'
    runs :
        (w : ℕ)
        → p'.next ≡ p.next
        → p'.worker_queue ≡ p.worker_queue
        → doing c ≡ some w
        → doing c' ≡ none
        → ran_by c ≡ w ∷ []
        → Effect p c p' c'
    frees :
        (w : ℕ)
        → p'.next ≡ p.next
        → p'.worker_queue ≡ remove w p.worker_queue
        → held c ≡ some w
        → doing c' ≡ doing c
        → ran_by c ≡ []
        → Effect p c p' c'

  abbrev pub EffectOf : Pool J → Pc → Pool J × Pc → Type 0
  EffectOf p c (p', c') = Effect p c p' c'

  fetch-Effect : (p : Pool J) (q : List ℕ) → p.worker_queue ≡ q → EffectOf p fetching (fetch p q)
  unfolding fetch
  fetch-Effect p [] e = elim (Bool-cases p.abort) [
    | inl a ↦ simp a (stays refl refl refl refl)
    | inr a ↦ simp a (stays refl refl refl refl)
  ]
  fetch-Effect p (w ∷ ws) e = takes w refl e refl refl refl

  abbrev FreedFrom : Pool J → ℕ → Pool J → Type 0
  FreedFrom p w p' = (p'.next ≡ p.next) × (p'.worker_queue ≡ remove w p.worker_queue)

  pub routine-Effect :
      (process : J → ℕ) (p : Pool J) (c : Pc) → After (EffectOf p c) (ce_tp_routine process p c)
  unfolding ce_tp_routine ce_tp_worker_free dispose take_out release
  routine-Effect process p born = stays refl refl refl refl
  routine-Effect process p looping = elim (Bool-cases p.abort) [
    | inl a ↦ simp a (stays refl refl refl refl)
    | inr a ↦ simp a (stays refl refl refl refl)
  ]
  routine-Effect process p fetching = fetch-Effect p p.worker_queue refl
  routine-Effect process p asleep = stays refl refl refl refl
  routine-Effect process p (fetched w) =
      After-bind (EffectOf p (fetched w)) (load p w) _ λ wk. stays refl refl refl refl
  routine-Effect process p (working w) =
      After-bind (EffectOf p (working w)) (load p w) _ λ wk. runs w refl refl refl refl refl
  routine-Effect process p (finished w) =
      After-then (FreedFrom p w) (EffectOf p (finished w)) (ce_tp_worker_free p w) _
        (After-then (FreedFrom p w) (FreedFrom p w) (take_out p w (remove w p.worker_queue)) _
          (After-bind (FreedFrom p w) (load p w) _ λ wk. (refl, refl))
          (λ q (n, r). After-bind (FreedFrom p w) (load q w) _ λ wk. (n, r)))
        (λ p' (n, q). frees w n q refl refl refl)
  routine-Effect process p exited = stays refl refl refl refl
