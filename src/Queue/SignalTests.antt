-- ===== src/Queue/SignalTests.antt =====
-- Two calls that sleep on a queue, and the theorems on wake-ups at them.
use cevent_sample.Prelude.{suc, ◌≤◌, ◌≡◌, refl, arith, true, [], ◌∷◌, negsuc, length}
use cevent_sample.Queue.{
  ce_queue_new, ce_queue_push, ce_queue_stop, get_enter, enter_items, enter_empty, get_wake, got,
  abort,
}
use cevent_sample.Queue.Signals
use cevent_sample.Queue.Signals.{
  Call, System, somebody, Stops, stops, Own, Reach, push, own, sleep, wake, start,
}
use cevent_sample.Queue.Wakeups.{untimed, EndsByAbort, stop_ends_one_wait}
use cevent_sample.Queue.Served.{no_wakeup_is_lost}
use cevent_sample.Queue.Stolen.{running, stolen_wakeup_aborts}

abbrev first : Call
first = (1, negsuc 0)

abbrev second : Call
second = (2, negsuc 0)

abbrev both_sleep : System
both_sleep = record start { queue = running []; asleep = second ∷ first ∷ [] }

both_sleep-Reach : Reach start both_sleep
unfolding ce_queue_new get_enter enter_items enter_empty
both_sleep-Reach =
    Signals.Reach.next (Signals.Reach.next Signals.Reach.here (own (sleep first refl refl)))
      (own (sleep second refl refl))

-- behind a stop that wakes the first call, and the end of that call
abbrev after_stop : System
after_stop = record {
  queue = record { items = []; stop = true };
  asleep = second ∷ [];
  woken = [];
  results = (first, abort) ∷ [];
}

abbrev stopping : System
stopping = record after_stop { woken = first ∷ []; results = [] }

first_stop : Stops both_sleep stopping
unfolding ce_queue_stop
first_stop = stops refl (somebody (second ∷ []) [] first refl refl)

first_ends : Own stopping after_stop
unfolding get_wake
first_ends = wake [] [] first refl refl refl

stop_ends_one_wait_example :
    (true ≡ true)
    × (untimed both_sleep.asleep ≤ suc (untimed after_stop.asleep))
    × EndsByAbort stopping after_stop
stop_ends_one_wait_example = stop_ends_one_wait first_stop Signals.Owns.here first_ends

abbrev one_pushed : System
one_pushed = record {
  queue = running (7 ∷ []);
  asleep = second ∷ [];
  woken = first ∷ [];
  results = [];
}

one_pushed-Reach : Reach start one_pushed
unfolding ce_queue_push
one_pushed-Reach =
    Signals.Reach.next both_sleep-Reach (push 7 refl (somebody (second ∷ []) [] first refl refl))

no_wakeup_is_lost_example : length one_pushed.queue.items ≤ length one_pushed.woken
no_wakeup_is_lost_example = no_wakeup_is_lost one_pushed-Reach refl (omega arith)

stolen_wakeup_aborts_example :
    (t : System) × Reach both_sleep t
    × (t.queue ≡ running [])
    × (t.asleep ≡ first ∷ [])
    × (t.results ≡ (second, abort) ∷ (first, got) ∷ [])
stolen_wakeup_aborts_example =
    stolen_wakeup_aborts both_sleep 7 [] (first ∷ []) second first refl refl
