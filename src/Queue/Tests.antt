-- ===== src/Queue/Tests.antt =====
-- Runs of the queue on small inputs, and the theorems at them.
use cevent_sample.Prelude.{
  ℕ, ◌≡◌, refl, true, false, none, some, List, [], ◌∷◌, ◌++◌, ℤ, pos, negsuc,
}
use cevent_sample.Queue.{
  Queue, null, got, nothing, abort, ce_queue_push, ce_queue_get, ce_queue_destroy, get_enter,
  enter_items, enter_empty, get_wake, wake_items, finish,
}
use cevent_sample.Queue.Branches.{Outcome, ce_queue_get_lem}
use cevent_sample.Queue.Threads.{push, Reach, start, here, next, Reach-IsFifo}

abbrev empty : Queue
empty = record { items = []; stop = false }

abbrev stopped : Queue
stopped = record { items = []; stop = true }

abbrev two : Queue
two = record { items = 5 ∷ 6 ∷ []; stop = false }

abbrev unchanged : Queue → Queue
unchanged q = q

gets :
    (ce_queue_get (some two) (some tt) (pos 0) unchanged 0
      ≡ (got, 5, some (record { items = 6 ∷ []; stop = false })))
    × (ce_queue_get (some empty) (some tt) (pos 0) unchanged 0 ≡ (nothing, null, some empty))
    × (ce_queue_get (some stopped) (some tt) (negsuc 0) unchanged 0 ≡ (nothing, null, some stopped))
    × (ce_queue_get (some empty) (some tt) (negsuc 0) unchanged 0 ≡ (abort, null, some empty))
    × (ce_queue_get (some empty) (some tt) (pos 9) (λ _. stopped) 0 ≡ (abort, null, some stopped))
unfolding ce_queue_get get_enter enter_items enter_empty get_wake wake_items finish
gets = (refl, refl, refl, refl, refl)

leaked : ce_queue_destroy (some (some two)) ≡ (some none, 5 ∷ 6 ∷ [])
unfolding ce_queue_destroy
leaked = refl

ce_queue_get_lem_example :
    (out : ℤ × ℕ × Queue) × (ce_queue_get (some empty) (some tt) (negsuc 0) unchanged 0
      ≡ (out.0, out.1, some out.2))
    × Outcome empty (negsuc 0) empty 0 out
ce_queue_get_lem_example = ce_queue_get_lem empty (negsuc 0) unchanged 0

pushed_one :
    Reach (record start { queue = record { items = 7 ∷ []; stop = false }; pushed = 7 ∷ [] })
unfolding ce_queue_push
pushed_one = next here (push 7 refl)

Reach-IsFifo_example : ◌≡◌ {A = List ℕ} (7 ∷ []) ([] ++ 7 ∷ [])
Reach-IsFifo_example = Reach-IsFifo pushed_one
