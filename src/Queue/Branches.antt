-- ===== src/Queue/Branches.antt =====
-- What each result of `ce_queue_get` means, and when it waits.
use cevent_sample.Prelude.{
  ℕ, ◌≡◌, ◌≢◌, inl, inr, refl, true, false, some, List, [], ◌∷◌, arith, ◌==◌, ℤ, pos, negsuc,
  Bool-cases,
}
use cevent_sample.Queue.{
  Queue, null, got, nothing, abort, get_enter, enter_items, enter_empty, get_wake, wake_items,
  finish, ce_queue_get,
}

-- the outcome of a whole call, by the state of the queue when the call starts and after a wait
pub data Outcome (q : Queue) (timeout : ℤ) (later : Queue) (wait_r : ℕ)
    : ℤ × ℕ × Queue → Type 0 where
  at_once :
      {x : ℕ} {xs : List ℕ}
      → q.items ≡ x ∷ xs
      → Outcome q timeout later wait_r (got, x, record q { items = xs })
  stopped_before : q.items ≡ [] → q.stop ≡ true → Outcome q timeout later wait_r (nothing, null, q)
  poll :
      q.items ≡ []
      → q.stop ≡ false
      → timeout ≡ pos 0
      → Outcome q timeout later wait_r (nothing, null, q)
  stopped_waiting :
      q.items ≡ []
      → q.stop ≡ false
      → timeout ≢ pos 0
      → later.stop ≡ true
      → Outcome q timeout later wait_r (abort, null, later)
  woken :
      {x : ℕ} {xs : List ℕ}
      → q.items ≡ []
      → q.stop ≡ false
      → timeout ≢ pos 0
      → later.stop ≡ false
      → later.items ≡ x ∷ xs
      → Outcome q timeout later wait_r (got, x, record later { items = xs })
  timed_out :
      q.items ≡ []
      → q.stop ≡ false
      → timeout ≢ pos 0
      → later.stop ≡ false
      → later.items ≡ []
      → wait_r ≢ 0
      → Outcome q timeout later wait_r (nothing, null, later)
  woken_for_nothing :
      q.items ≡ []
      → q.stop ≡ false
      → timeout ≢ pos 0
      → later.stop ≡ false
      → later.items ≡ []
      → wait_r ≡ 0
      → Outcome q timeout later wait_r (abort, null, later)

module _ (q : Queue) (timeout : ℤ) (later : Queue) (wait_r : ℕ) where
  after_wait :
      (items : List ℕ)
      → later.items ≡ items
      → q.items ≡ []
      → q.stop ≡ false
      → timeout ≢ pos 0
      → later.stop ≡ false
      → Outcome q timeout later wait_r (wake_items later wait_r items)
  unfolding wake_items
  after_wait [] i e go t go' = elim (Bool-cases (wait_r == 0)) [
    | inl z ↦ rw z (woken_for_nothing e go t go' i (ground arith))
    | inr nz ↦ rw nz (timed_out e go t go' i (ground arith))
  ]
  after_wait (x ∷ xs) i e go t go' = woken e go t go' i

  waited :
      q.items ≡ []
      → q.stop ≡ false
      → timeout ≢ pos 0
      → Outcome q timeout later wait_r (get_wake later wait_r)
  unfolding get_wake
  waited e go t = elim (Bool-cases later.stop) [
    | inl st ↦ simp st (stopped_waiting e go t st)
    | inr go' ↦ simp go' (after_wait later.items refl e go t go')
  ]

  entered_empty :
      (t : ℤ)
      → timeout ≡ t
      → q.items ≡ []
      → Outcome q timeout later wait_r (finish (enter_empty q t) later wait_r)
  unfolding enter_empty finish
  entered_empty (pos n) is e = elim (Bool-cases q.stop) [
    | inl st ↦ simp st (stopped_before e st)
    | inr go ↦ elim (Bool-cases (n == 0)) [
      | inl z ↦ simp (go, z) (poll e go (ground arith))
      | inr nz ↦ simp (go, nz) (waited e go (ground arith))
    ]
  ]
  entered_empty (negsuc n) is e = elim (Bool-cases q.stop) [
    | inl st ↦ simp st (stopped_before e st)
    | inr go ↦ simp go (waited e go (ground arith))
  ]

  entered :
      (items : List ℕ)
      → q.items ≡ items
      → Outcome q timeout later wait_r (finish (enter_items q timeout items) later wait_r)
  unfolding enter_items finish
  entered [] e = entered_empty timeout refl e
  entered (x ∷ xs) e = at_once e

-- The result of a call, for every state of the queue, every timeout and every outcome of the wait.
pub ce_queue_get_lem :
    (q : Queue) (timeout : ℤ) (others : Queue → Queue) (wait_r : ℕ)
    → (out : ℤ × ℕ × Queue) × (ce_queue_get (some q) (some tt) timeout others wait_r
        ≡ (out.0, out.1, some out.2))
      × Outcome q timeout (others q) wait_r out
unfolding ce_queue_get get_enter
ce_queue_get_lem q timeout others wait_r = (
  finish (enter_items q timeout q.items) (others q) wait_r,
  refl,
  entered q timeout (others q) wait_r q.items refl,
)
