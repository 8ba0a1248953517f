-- ===== src/Queue/Stolen.antt =====
-- A call that is woken for a body which another call has taken by then.
use cevent_sample.Prelude.{ℕ, ◌≡◌, refl, false, some, List, [], ◌∷◌, ◌++◌, ℤ}
use cevent_sample.Queue.{
  Queue, null, got, abort, ce_queue_push, finished, get_enter, enter_items, get_wake, wake_items,
}
use cevent_sample.Queue.Signals.{
  Call, System, Signal, somebody, enter, wake, Step, push, own, Reach, here, next,
}
use cevent_sample.Queue.Signals

-- the running queue that holds some bodies
abbrev pub running : List ℕ → Queue
running items = record { items = items; stop = false }

module _ (s : System) (x : ℕ) where
  pushed : s.queue ≡ running [] → (ce_queue_push (some s.queue) x).1 ≡ some (running (x ∷ []))
  unfolding ce_queue_push
  pushed empty = rw empty

  taken : (timeout : ℤ) → get_enter (running (x ∷ [])) timeout ≡ finished got x (running [])
  unfolding get_enter enter_items
  taken timeout = refl

  woken_for_nothing : get_wake (running []) 0 ≡ (abort, null, running [])
  unfolding get_wake wake_items
  woken_for_nothing = refl

  -- A call that sleeps on an empty queue that runs can come back with -1, which stands for an abort,
  -- though nobody stops the queue: a body is pushed and the call is woken, but before it goes on,
  -- another call takes the body.
  pub stolen_wakeup_aborts :
      (pre post : List Call) (c other : Call)
      → s.asleep ≡ pre ++ (c ∷ post)
      → s.queue ≡ running []
      → (t : System) × Reach s t
        × (t.queue ≡ running [])
        × (t.asleep ≡ pre ++ post)
        × (t.results ≡ (c, abort) ∷ (other, got) ∷ s.results)
  stolen_wakeup_aborts pre post c other sleeps empty = (
    record {
      queue = running [];
      asleep = pre ++ post;
      woken = s.woken;
      results = (c, abort) ∷ (other, got) ∷ s.results;
    },
    Signals.Reach.next
        (Signals.Reach.next
          (Signals.Reach.next Signals.Reach.here
            (push x (pushed empty) (somebody pre post c sleeps refl)))
          (own (enter other (taken other.1) refl)))
        (own (wake [] s.woken c refl woken_for_nothing refl)),
    refl,
    refl,
    refl,
  )
