-- ===== src/Client/Waiting.antt =====
-- The start of the receiving thread: `ce_client_connect` sets `stop`, starts the thread, and sleeps
-- `while (!client->stop)`; `_ce_client_routine` clears `stop` first. Any order of their steps may occur.
use cevent_sample.Prelude.{◌≡◌, refl, Bool, true, false}

pub data Caller : Type 0 where
  checking returned : Caller

pub data Receiver : Type 0 where
  unborn receiving over : Receiver

pub record Waiting : Type 0 where
  pub stop : Bool
  pub caller : Caller
  pub receiver : Receiver

pub data WaitStep : Waiting → Waiting → Type 0 where
  leave :
      (r : Receiver)
      → WaitStep
          (record { stop = true; caller = checking; receiver = r })
          (record { stop = true; caller = returned; receiver = r })
  sleep :
      (r : Receiver)
      → WaitStep
          (record { stop = false; caller = checking; receiver = r })
          (record { stop = false; caller = checking; receiver = r })
  begin :
      (stop : Bool) (c : Caller)
      → WaitStep
          (record { stop = stop; caller = c; receiver = unborn })
          (record { stop = false; caller = c; receiver = receiving })
  finish :
      (stop : Bool) (c : Caller)
      → WaitStep
          (record { stop = stop; caller = c; receiver = receiving })
          (record { stop = stop; caller = c; receiver = over })

pub data Reach (s : Waiting) : Waiting → Type 0 where
  here : Reach s s
  then_step : (t u : Waiting) → Reach s t → WaitStep t u → Reach s u

-- behind `pthread_create`
abbrev pub started : Waiting
started = record { stop = true; caller = checking; receiver = unborn }

-- where the thread has run first
abbrev pub overtaken : Waiting
overtaken = record { stop = false; caller = checking; receiver = receiving }

record IsStuck (s : Waiting) : Type 0 where
  cleared : s.stop ≡ false
  caught : s.caller ≡ checking

step-IsStuck : (t u : Waiting) → WaitStep t u → IsStuck t → IsStuck u
step-IsStuck _ _ (leave r) h = absurd (let c = h.cleared in cc)
step-IsStuck _ _ (sleep r) h = h
step-IsStuck _ _ (begin stop c) h = record { cleared = refl; caught = h.caught }
step-IsStuck _ _ (finish stop c) h = record { cleared = h.cleared; caught = h.caught }

stuck : (s : Waiting) → Reach overtaken s → IsStuck s
stuck s here = record { cleared = refl; caught = refl }
stuck s (then_step t u r step) = step-IsStuck t u step (stuck t r)

-- The test of the wait in `ce_client_connect` is the wrong way round: the call can return while the
-- receiving thread has not begun, and where the thread has begun before the test is made, the call
-- never returns.
pub ce_client_connect-waits :
    Reach started (record { stop = true; caller = returned; receiver = unborn })
    × Reach started overtaken
    × ((s : Waiting) → Reach overtaken s → s.caller ≡ checking)
ce_client_connect-waits = (
  then_step _ _ here (leave unborn),
  then_step _ _ here (begin true checking),
  λ s r. (stuck s r).caught,
)
