-- ===== src/Queue.antt =====
-- The blocking queue of src/cevent/cevent/ce_queue.c.
-- A call is cut at the points where it gives the mutex up: `ce_queue_get` into what it does before a
-- wait (`get_enter`) and what it does when it holds the mutex again (`get_wake`). The loop of the
-- source never waits twice, since each way through its body returns or leaves the loop.
pub mod Branches
pub mod Threads
pub mod Signals
pub mod Wakeups
pub mod Served
pub mod Stolen
mod Tests
mod SignalTests
use cevent_sample.Prelude.{
  ℕ, Bool, true, false, Option, none, some, List, [], ◌∷◌, ◌++◌, ◌==◌, if◌then◌else◌, ℤ, pos,
  negsuc,
}

-- `struct ce_queue`; a body is a pointer, 0 for NULL.
pub record Queue : Type 0 where
  pub items : List ℕ
  pub stop : Bool

abbrev pub null : ℕ
null = 0

-- the results of `ce_queue_get`
abbrev pub got : ℤ
got = pos 1

abbrev pub nothing : ℤ
nothing = pos 0

abbrev pub abort : ℤ
abort = negsuc 0

unfoldable pub ce_queue_new : Queue
ce_queue_new = record { items = []; stop = false }

unfoldable pub ce_queue_push : Option Queue → ℕ → Bool × Option Queue
ce_queue_push none body = (false, none)
ce_queue_push (some q) body = (true, some (record q { items = q.items ++ (body ∷ []) }))

-- Where a call of `ce_queue_get` stands when it gives the mutex up.
pub data Entered : Type 0 where
  finished : (r : ℤ) (body : ℕ) (q : Queue) → Entered
  waiting : Entered

unfoldable pub enter_empty : Queue → ℤ → Entered
enter_empty q (pos n) =
    if q.stop then finished nothing null q else if n == 0 then finished nothing null q else waiting
enter_empty q (negsuc _) = if q.stop then finished nothing null q else waiting

unfoldable pub enter_items : Queue → ℤ → List ℕ → Entered
enter_items q timeout [] = enter_empty q timeout
enter_items q timeout (x ∷ xs) = finished got x (record q { items = xs })

-- `ce_queue_get` up to its wait
unfoldable pub get_enter : Queue → ℤ → Entered
get_enter q timeout = enter_items q timeout q.items

unfoldable pub wake_items : Queue → ℕ → List ℕ → ℤ × ℕ × Queue
wake_items q wait_r [] = if wait_r == 0 then (abort, null, q) else (nothing, null, q)
wake_items q wait_r (x ∷ xs) = (got, x, record q { items = xs })

-- `ce_queue_get` from its wait on, in the queue as the other threads have left it
unfoldable pub get_wake : Queue → ℕ → ℤ × ℕ × Queue
get_wake q wait_r = if q.stop then (abort, null, q) else wake_items q wait_r q.items

unfoldable pub ce_queue_stop : Option Queue → Bool × Option Queue
ce_queue_stop none = (false, none)
ce_queue_stop (some q) = (true, some (record q { stop = true }))

-- The whole call: `others` is what the other threads make of the queue during a wait, and `wait_r`
-- what the wait returns. The first option is the queue, the second says whether `body` is given.
unfoldable pub finish : Entered → Queue → ℕ → ℤ × ℕ × Queue
finish (finished r body q) others wait_r = (r, body, q)
finish waiting others wait_r = get_wake others wait_r

unfoldable pub ce_queue_get :
    Option Queue → Option (Unit {0}) → ℤ → (Queue → Queue) → ℕ → ℤ × ℕ × Option Queue
ce_queue_get none body_ptr timeout others wait_r = (nothing, null, none)
ce_queue_get (some q) none timeout others wait_r = (nothing, null, some q)
ce_queue_get (some q) (some tt) timeout others wait_r =
    let (r, body, q') = finish (get_enter q timeout) (others q) wait_r in (r, body, some q')

-- `*queue` is NULL afterwards. Bodies that are still queued are not freed: they are the second part.
unfoldable pub ce_queue_destroy : Option (Option Queue) → Option (Option Queue) × List ℕ
ce_queue_destroy none = (none, [])
ce_queue_destroy (some none) = (some none, [])
ce_queue_destroy (some (some q)) = (some none, q.items)
