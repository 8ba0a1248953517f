-- ===== src/Queue/Served.antt =====
-- No body is left lying while a call sleeps that nobody has woken.
use cevent_sample.Prelude.{
  ℕ, suc, ◌≤◌, ◌<◌, sym, ◌-◌, ◌≡◌, refl, ap, ◌∙◌, Bool, Bool-cases, true, false, some, List, [],
  ◌∷◌, ◌++◌, ℤ, pos, arith, length, length-append, ◌⊎◌, inl, inr,
}
use cevent_sample.Queue.{
  Queue, ce_queue_new, ce_queue_push, ce_queue_stop, finished, waiting, get_enter, enter_items,
  enter_empty, get_wake, wake_items,
}
use cevent_sample.Queue.Signals.{
  Call, System, Signal, nobody, somebody, Stops, stops, Own, enter, sleep, wake, expire, Step, push,
  stop, own, spurious, start, Reach, here, next, Owns, etimedout,
}
use cevent_sample.Queue.Signals

wake_items_lem :
    (q : Queue) (wait_r : ℕ) (items : List ℕ) {r : ℤ} {x : ℕ} {q' : Queue}
    → q.items ≡ items
    → wake_items q wait_r items ≡ (r, x, q')
    → (q'.stop ≡ q.stop) × (length q'.items ≡ length q.items - 1)
unfolding wake_items
wake_items_lem q wait_r [] is h = ground arith
wake_items_lem q wait_r (y ∷ ys) is h = ground arith

get_wake_lem :
    (q : Queue) (wait_r : ℕ) {r : ℤ} {x : ℕ} {q' : Queue}
    → get_wake q wait_r ≡ (r, x, q')
    → (q'.stop ≡ q.stop) × ((q.stop ≡ true) ⊎ (length q'.items ≡ length q.items - 1))
unfolding get_wake
get_wake_lem q wait_r h = elim (Bool-cases q.stop) [
  | inl st ↦ (ground arith, inl st)
  | inr go ↦ let l = wake_items_lem q wait_r q.items refl (simp go at h) in (l.0, inr l.1)
]

get_enter_lem :
    (q : Queue) (timeout : ℤ) (items : List ℕ) {r : ℤ} {x : ℕ} {q' : Queue}
    → q.items ≡ items
    → enter_items q timeout items ≡ finished r x q'
    → (q'.stop ≡ q.stop) × (length q'.items ≤ length q.items)
unfolding enter_items enter_empty
get_enter_lem q timeout [] is h = ground arith
get_enter_lem q timeout (y ∷ ys) is h = ground arith

get_enter-waiting :
    (q : Queue) (timeout : ℤ) (items : List ℕ)
    → q.items ≡ items
    → enter_items q timeout items ≡ waiting
    → q.items ≡ []
unfolding enter_items
get_enter-waiting q timeout [] is h = is
get_enter-waiting q timeout (x ∷ xs) is h = cc

length-middle :
    (pre post : List Call) (c : Call) → length (pre ++ (c ∷ post)) ≡ suc (length (pre ++ post))
length-middle pre post c = omega (arith, length-append pre post, length-append pre (c ∷ post))

length-nil : (cs : List Call) → length cs ≡ 0 → cs ≡ []
length-nil [] h = refl
length-nil (c ∷ cs) h = absurd (omega arith)

-- While the queue runs and a call sleeps, the woken calls are enough for the bodies that lie there.
record IsServed (s : System) : Type 0 where
  served : s.queue.stop ≡ false → 0 < length s.asleep → length s.queue.items ≤ length s.woken

Signal-IsServed :
    {s t : System} {q : Queue}
    → Signal s q t
    → (q.stop ≡ false → s.queue.stop ≡ false)
    → length q.items ≤ suc (length s.queue.items)
    → IsServed s
    → IsServed t
Signal-IsServed (nobody none_there is) going few v =
    rw is (record { served = λ go some_there. absurd (omega (arith, ap length none_there)) })
Signal-IsServed {s} (somebody pre post c a is) going few v = rw is (record {
  served = λ go some_there.
      omega (arith, few, v.served (going go) (rw a (omega (arith, length-middle pre post c))));
})

-- what a call that goes on leaves, `b` of `a` bodies, in a queue that runs
left_of : (stopped : Bool) (a b : ℕ) → (stopped ≡ true) ⊎ (b ≡ a - 1) → stopped ≡ false → b ≡ a - 1
left_of stopped a b (inl st) go = cc
left_of stopped a b (inr e) go = e

Own-IsServed : {s t : System} → Own s t → IsServed s → IsServed t
unfolding get_enter
Own-IsServed {s} (enter c e is) v =
    let (same, less) = get_enter_lem s.queue c.1 s.queue.items refl e in
    rw is (record {
      served = λ go some_there. omega (arith, less, v.served (sym same ∙ go) some_there);
    })
Own-IsServed {s} (sleep c e is) v =
    let none_there = get_enter-waiting s.queue c.1 s.queue.items refl e in
    rw is (record { served = λ go some_there. omega (arith, ap length none_there) })
Own-IsServed {s} (wake pre post c w e is) v =
    let (same, taken) = get_wake_lem s.queue 0 e in
    rw is (record {
      served = λ go some_there. omega (
        arith,
        left_of _ _ _ taken (sym same ∙ go),
        v.served (sym same ∙ go) some_there,
        ap length w,
        length-middle pre post c,
      );
    })
Own-IsServed {s} (expire pre post i n a e is) v =
    let (same, taken) = get_wake_lem s.queue etimedout e in
    rw is (record {
      served = λ go some_there. omega (
        arith,
        left_of _ _ _ taken (sym same ∙ go),
        v.served (sym same ∙ go) (rw a (omega (arith, length-middle pre post (i, pos (suc n))))),
      );
    })

pushed :
    (q : Queue) (x : ℕ) {q' : Queue}
    → (ce_queue_push (some q) x).1 ≡ some q'
    → length q'.items ≤ suc (length q.items)
unfolding ce_queue_push
pushed q x e = ground (arith, length-append q.items (x ∷ []))

Step-IsServed : {s t : System} → Step s t → IsServed s → IsServed t
unfolding ce_queue_push ce_queue_stop
Step-IsServed {s} (push x e sig) v = Signal-IsServed sig (λ go. ground arith) (pushed s.queue x e) v
Step-IsServed {s} (stop (stops e sig)) v = Signal-IsServed sig (λ go. ground arith) (ground arith) v
Step-IsServed (own o) v = Own-IsServed o v
Step-IsServed {s} (spurious pre post c a is) v = rw is (record {
  served =
      λ go some_there. omega (arith, v.served go (rw a (omega (arith, length-middle pre post c))));
})

Reach-IsServed : {s : System} → Reach start s → IsServed s
unfolding ce_queue_new
Reach-IsServed Signals.Reach.here = record { served = λ go some_there. omega arith }
Reach-IsServed (Signals.Reach.next r st) = Step-IsServed st (Reach-IsServed r)

-- No wake-up is lost: in every reachable state of a queue that was not stopped, as long as a call
-- sleeps, at least as many calls are awake to take a body as bodies lie in the queue; so if none is
-- awake, the queue is empty.
pub no_wakeup_is_lost :
    {s : System}
    → Reach start s
    → s.queue.stop ≡ false
    → 0 < length s.asleep
    → length s.queue.items ≤ length s.woken
no_wakeup_is_lost r = (Reach-IsServed r).served
