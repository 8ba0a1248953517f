-- ===== src/Ringbuffer/Valid.antt =====
-- The representation invariant of `struct ce_rb`, and the number of bytes that it holds.
use cevent_sample.Prelude.{
  ◌+◌, ◌-◌, ◌^◌, ◌≤◌, ◌<◌, ◌≡◌, Bool, true, false, arith, ltb, ◌==◌, if◌then◌else◌, length,
}
use cevent_sample.Ringbuffer.{Rb, can_read}

-- A ring that `wrap` marks has its write index at or before its read index.
pub record IsValid (r : Rb) : Type 0 where
  pub storage : length r.buffer ≡ r.capacity
  pub positive : 0 < r.capacity
  pub small : r.capacity < 2 ^ 31
  pub head_in : r.head < r.capacity
  pub tail_in : r.tail < r.capacity
  pub wrapped : r.wrap ≡ true → r.tail ≤ r.head
  pub scratch : length r.retval_buffer ≡ r.retval_size

-- the bytes lie in one piece, or there are none
abbrev pub is_linear : Rb → Bool
is_linear r = if r.tail == r.head then (if r.wrap then false else true) else ltb r.head r.tail

module _ {r : Rb} (v : IsValid r) where
  pub can_read-linear : is_linear r ≡ true → (can_read r ≡ r.tail - r.head) × (r.head ≤ r.tail)
  unfolding can_read
  can_read-linear e = ground arith

  pub can_read-wrapped :
      is_linear r ≡ false → (can_read r ≡ r.capacity - r.head + r.tail) × (r.tail ≤ r.head)
  unfolding can_read
  can_read-wrapped e = ground arith

  pub can_read-le : can_read r ≤ r.capacity
  unfolding can_read
  can_read-le = ground arith
