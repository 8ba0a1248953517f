-- ===== src/Queue/Threads.antt =====
-- Any number of threads on one queue, in any order of their critical sections.
use cevent_sample.Prelude.{
  ℕ, ◌≡◌, refl, sym, ap, ◌∙◌, Bool, true, false, some, List, [], ◌∷◌, ◌++◌, arith, ◌==◌,
  if◌then◌else◌, ℤ, inl, inr, Bool-cases,
}
use mathlib.Core.List.{append_assoc}
use cevent_sample.Queue.{
  Queue, ce_queue_push, ce_queue_stop, finished, waiting, get_enter, enter_items, enter_empty,
  get_wake, wake_items,
}

-- The queue, the threads that wait in `ce_queue_get`, and what has gone in and out so far.
pub record System : Type 0 where
  pub queue : Queue
  pub sleeping : ℕ → Bool
  pub pushed : List ℕ
  pub taken : List ℕ

abbrev pub update : (ℕ → Bool) → ℕ → Bool → ℕ → Bool
update f i b j = if i == j then b else f j

-- a body that came with the result 1
abbrev pub body_of : ℤ → ℕ → List ℕ
body_of (ℤ.pos n) x = if n == 1 then x ∷ [] else []
body_of (ℤ.negsuc _) x = []

pub data Step (s : System) : System → Type 0 where
  push :
      (x : ℕ) {q : Queue}
      → (ce_queue_push (some s.queue) x).1 ≡ some q
      → Step s (record s { queue = q; pushed = s.pushed ++ (x ∷ []) })
  stop : {q : Queue} → (ce_queue_stop (some s.queue)).1 ≡ some q → Step s (record s { queue = q })
  enter :
      (i : ℕ) (timeout : ℤ) {r : ℤ} {x : ℕ} {q : Queue}
      → get_enter s.queue timeout ≡ finished r x q
      → Step s (record s { queue = q; taken = s.taken ++ body_of r x })
  sleep :
      (i : ℕ) (timeout : ℤ)
      → get_enter s.queue timeout ≡ waiting
      → Step s (record s { sleeping = update s.sleeping i true })
  wake :
      (i wait_r : ℕ) {r : ℤ} {x : ℕ} {q : Queue}
      → s.sleeping i ≡ true
      → get_wake s.queue wait_r ≡ (r, x, q)
      → Step s (record s {
        queue = q;
        sleeping = update s.sleeping i false;
        taken = s.taken ++ body_of r x;
      })

abbrev pub start : System
start = record {
  queue = record { items = []; stop = false };
  sleeping = λ _. false;
  pushed = [];
  taken = [];
}

pub data Reach : System → Type 0 where
  here : Reach start
  next : {s t : System} → Reach s → Step s t → Reach t

-- What a critical section of `ce_queue_get` takes is the front of the queue.
get_enter-front :
    (q : Queue) (timeout : ℤ) (items : List ℕ) {r : ℤ} {x : ℕ} {q' : Queue}
    → enter_items q timeout items ≡ finished r x q'
    → q.items ≡ items
    → items ≡ body_of r x ++ q'.items
unfolding enter_items enter_empty
get_enter-front q timeout [] h e = ground arith
get_enter-front q timeout (y ∷ ys) h e = ground arith

get_wake-front :
    (q : Queue) (wait_r : ℕ) (items : List ℕ) {r : ℤ} {x : ℕ} {q' : Queue}
    → wake_items q wait_r items ≡ (r, x, q')
    → q.items ≡ items
    → items ≡ body_of r x ++ q'.items
unfolding wake_items
get_wake-front q wait_r [] h e = ground arith
get_wake-front q wait_r (y ∷ ys) h e = ground arith

get_wake-taken :
    (q : Queue) (wait_r : ℕ) {r : ℤ} {x : ℕ} {q' : Queue}
    → get_wake q wait_r ≡ (r, x, q')
    → q.items ≡ body_of r x ++ q'.items
unfolding get_wake
get_wake-taken q wait_r h = elim (Bool-cases q.stop) [
  | inl e ↦ ground arith
  | inr e ↦ get_wake-front q wait_r q.items (simp e at h) refl
]

abbrev pub IsFifo : System → Type 0
IsFifo s = s.pushed ≡ s.taken ++ s.queue.items

regroup :
    (taken front back all : List ℕ)
    → all ≡ taken ++ (front ++ back)
    → all ≡ (taken ++ front) ++ back
regroup taken front back all h = h ∙ sym (append_assoc taken front back)

Step-IsFifo : {s t : System} → Step s t → IsFifo s → IsFifo t
unfolding ce_queue_push ce_queue_stop get_enter
Step-IsFifo {s} (push x e) h =
    ap (λ ys. ys ++ (x ∷ [])) h
    ∙ append_assoc s.taken s.queue.items (x ∷ [])
    ∙ ap (◌++◌ s.taken) (ground arith)
Step-IsFifo {s} (stop e) h = h ∙ ap (◌++◌ s.taken) (ground arith)
Step-IsFifo {s} (enter i timeout {r} {x} {q} e) h =
    regroup s.taken (body_of r x) q.items s.pushed
      (h ∙ ap (◌++◌ s.taken) (get_enter-front s.queue timeout s.queue.items e refl))
Step-IsFifo (sleep i timeout e) h = h
Step-IsFifo {s} (wake i wait_r {r} {x} {q} e g) h =
    regroup s.taken (body_of r x) q.items s.pushed
      (h ∙ ap (◌++◌ s.taken) (get_wake-taken s.queue wait_r g))

-- Whatever the threads do, the bodies that calls have returned, followed by those still queued, are
-- all that were pushed, each once and in the order of the pushes.
pub Reach-IsFifo : {s : System} → Reach s → s.pushed ≡ s.taken ++ s.queue.items
Reach-IsFifo here = refl
Reach-IsFifo (next r st) = Step-IsFifo st (Reach-IsFifo r)
