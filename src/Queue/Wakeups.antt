-- ===== src/Queue/Wakeups.antt =====
-- Which calls of `ce_queue_get` are woken, and for what.
use cevent_sample.Prelude.{
  ℕ, suc, ◌+◌, ◌≤◌, ◌≡◌, refl, ap, subst, ◌∙◌, true, List, [], ◌∷◌, ◌++◌, ℤ, pos, negsuc, inl, inr,
  ◌⊎◌, length, length-append, arith,
}
use cevent_sample.Queue.{
  Queue, Entered, finished, waiting, abort, ce_queue_stop, get_enter, enter_items, enter_empty,
  get_wake,
}
use cevent_sample.Queue.Signals.{
  Call, System, Signal, nobody, somebody, Stops, stops, Own, enter, sleep, wake, expire, Step, push,
  stop, own, spurious, start, Reach, here, next, Owns, etimedout,
}
use cevent_sample.Queue.Signals

-- the calls that wait with no timeout
abbrev pub untimed : List Call → ℕ
untimed [] = 0
untimed ((i, pos n) ∷ cs) = untimed cs
untimed ((i, negsuc n) ∷ cs) = suc (untimed cs)

untimed-append : (xs ys : List Call) → untimed (xs ++ ys) ≡ untimed xs + untimed ys
untimed-append [] ys = omega arith
untimed-append ((i, pos n) ∷ xs) ys = untimed-append xs ys
untimed-append ((i, negsuc n) ∷ xs) ys = omega (arith, untimed-append xs ys)

untimed-drop :
    (pre post : List Call) (c : Call) → untimed (pre ++ (c ∷ post)) ≤ suc (untimed (pre ++ post))
untimed-drop pre post (i, pos n) =
    omega (arith, untimed-append pre post, untimed-append pre ((i, pos n) ∷ post))
untimed-drop pre post (i, negsuc n) =
    omega (arith, untimed-append pre post, untimed-append pre ((i, negsuc n) ∷ post))

untimed-timed :
    (pre post : List Call) (i n : ℕ) → untimed (pre ++ ((i, pos n) ∷ post)) ≡ untimed (pre ++ post)
untimed-timed pre post i n =
    omega (arith, untimed-append pre post, untimed-append pre ((i, pos n) ∷ post))

untimed-cons : (c : Call) (cs : List Call) → untimed cs ≤ untimed (c ∷ cs)
untimed-cons (i, pos n) cs = omega arith
untimed-cons (i, negsuc n) cs = omega arith

Own-untimed : {s t : System} → Own s t → untimed s.asleep ≤ untimed t.asleep
Own-untimed (enter c e is) = rw is (omega arith)
Own-untimed {s} (sleep c e is) = rw is (untimed-cons c s.asleep)
Own-untimed (wake pre post c w e is) = rw is (omega arith)
Own-untimed (expire pre post i n a e is) =
    rw (is, a) (omega (arith, untimed-timed pre post i (suc n)))

Owns-untimed : {s t : System} → Owns s t → untimed s.asleep ≤ untimed t.asleep
Owns-untimed Signals.Owns.here = omega arith
Owns-untimed (Signals.Owns.next r st) = omega (arith, Owns-untimed r, Own-untimed st)

Stops-untimed : {s t : System} → Stops s t → untimed s.asleep ≤ suc (untimed t.asleep)
Stops-untimed (stops e (nobody none_there is)) = rw none_there (omega arith)
Stops-untimed (stops e (somebody pre post c a is)) =
    rw a (omega (arith, untimed-drop pre post c, ap (λ (x : System). untimed x.asleep) is))

-- what a call comes to that enters a stopped queue
abbrev Stays : Entered → Type 0
Stays waiting = ⊥
Stays (finished r x q) = q.stop ≡ true

enter_empty-Stays : (q : Queue) (timeout : ℤ) → q.stop ≡ true → Stays (enter_empty q timeout)
unfolding enter_empty
enter_empty-Stays q (pos n) st = simp st
enter_empty-Stays q (negsuc n) st = simp st

get_enter-Stays : (q : Queue) (timeout : ℤ) → q.stop ≡ true → Stays (get_enter q timeout)
unfolding get_enter enter_items
get_enter-Stays q timeout st = go q.items
  where
    go : (items : List ℕ) → Stays (enter_items q timeout items)
    go [] = enter_empty-Stays q timeout st
    go (x ∷ xs) = st

get_wake-stopped :
    (q : Queue) (wait_r : ℕ) {r : ℤ} {x : ℕ} {q' : Queue}
    → q.stop ≡ true
    → get_wake q wait_r ≡ (r, x, q')
    → (r ≡ abort) × (q' ≡ q)
unfolding get_wake
get_wake-stopped q wait_r st e = let ended = simp st at e in (cc ended, cc ended)

-- the waits that have not come to an end
abbrev pub waits : System → ℕ
waits s = length s.woken + length s.asleep

length-drop :
    {xs : List Call} (pre post : List Call) (c : Call)
    → xs ≡ pre ++ (c ∷ post)
    → length xs ≡ suc (length (pre ++ post))
length-drop pre post c e =
    omega (arith, ap length e, length-append pre (c ∷ post), length-append pre post)

-- a step either ends no wait and begins none, or it ends one with an abort
abbrev pub EndsByAbort : System → System → Type 0
EndsByAbort s t =
    (waits s ≡ waits t)
    ⊎ ((c : Call) × (t.results ≡ (c, abort) ∷ s.results) × (waits s ≡ suc (waits t)))

Own-stopped :
    {s t : System} → Own s t → s.queue.stop ≡ true → (t.queue.stop ≡ true) × EndsByAbort s t
Own-stopped {s} (enter c e is) st =
    (rw is (subst Stays e (get_enter-Stays s.queue c.1 st)), rw is (inl refl))
Own-stopped {s} (sleep c e is) st = absurd (subst Stays e (get_enter-Stays s.queue c.1 st))
Own-stopped {s} (wake pre post c w e is) st =
    let (aborts, same) = get_wake-stopped s.queue 0 st e in
    rw is (
      ap (λ (q : Queue). q.stop) same ∙ st,
      inr (c, ap (λ r. (c, r) ∷ s.results) aborts, omega (arith, length-drop pre post c w)),
    )
Own-stopped {s} (expire pre post i n a e is) st =
    let (aborts, same) = get_wake-stopped s.queue etimedout st e in
    rw is (
      ap (λ (q : Queue). q.stop) same ∙ st,
      inr (
        (i, pos (suc n)),
        ap (λ r. ((i, pos (suc n)), r) ∷ s.results) aborts,
        omega (arith, length-drop pre post (i, pos (suc n)) a),
      ),
    )

Owns-stopped : {s t : System} → Owns s t → s.queue.stop ≡ true → t.queue.stop ≡ true
Owns-stopped Signals.Owns.here st = st
Owns-stopped (Signals.Owns.next r st') st = (Own-stopped st' (Owns-stopped r st)).0

Stops-stopped : {s t : System} → Stops s t → t.queue.stop ≡ true
unfolding ce_queue_stop
Stops-stopped (stops e (nobody none_there is)) = rw is (ground (arith, e))
Stops-stopped (stops e (somebody pre post c a is)) = rw is (ground (arith, e))

-- `ce_queue_stop` ends at most one wait. Whatever the calls do by themselves from then on, that is
-- without a push, another stop or a wake-up that nobody signalled, the queue stays stopped; of the calls
-- that waited with no timeout when it was called, all but one still wait; and each further step of a
-- call begins no wait, and ends none or ends one with the result -1.
pub stop_ends_one_wait :
    {s t u v : System}
    → Stops s t
    → Owns t u
    → Own u v
    → (v.queue.stop ≡ true) × (untimed s.asleep ≤ suc (untimed v.asleep)) × EndsByAbort u v
stop_ends_one_wait e r last =
    let (stays, ends) = Own-stopped last (Owns-stopped r (Stops-stopped e)) in
    (stays, omega (arith, Stops-untimed e, Owns-untimed (Signals.Owns.next r last)), ends)
