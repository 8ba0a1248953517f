-- ===== src/Ringbuffer/Write.antt =====
-- `ce_rb_write` puts as many bytes as fit behind those held, and keeps the ring valid.
mod Result
mod Short
mod Long
use mathlib.Core.List.{append-nil, append_assoc}
use native.Mathlib.Nat.{mod-eq_of_lt, mod_self}
use cevent_sample.Prelude.{
  ℕ, nonzero, zero, suc, ◌+◌, ◌-◌, ◌%◌, ◌≤◌, ◌<◌, ◌≡◌, refl, sym, ap, ap₂, ◌∙◌, min, true, false,
  List, ◌++◌, arith, inl, inr, if◌then◌else◌, ltb, ◌==◌, Bool-cases, ltb_of_le, ret, length, take,
  drop, length-take, length-drop, take-take, drop-take, drop-append_le, take_eq, take_all,
  take-append-drop,
}
use cevent_sample.Prelude.Slices.{
  splice, slice-ret, blit-ret, length-splice, take-splice, drop-splice,
}
use cevent_sample.Ringbuffer.{Rb, can_read, can_write, write_rest, write_counted, write}
use cevent_sample.Ringbuffer.Valid.{IsValid, is_linear, can_read-linear, can_read-wrapped}
use cevent_sample.Ringbuffer.Contents.{contents, contents-linear, contents-two_pieces}
pub use cevent_sample.Ringbuffer.Write.Result.{Put}
use cevent_sample.Ringbuffer.Write.Short.{write-short_lem}
use cevent_sample.Ringbuffer.Write.Long.{write-long_lem}

module _ {r : Rb} (v : IsValid r) (src : List ℕ) (n : ℕ) (any : 0 < n) (given : n ≤ length src)
    (room : n ≤ r.capacity - can_read r) where
  write_counted_lem : (r' : Rb) × (write_counted r src n ≡ ret (n, r')) × Put r (take n src) r'
  write_counted_lem = elim (Bool-cases (ltb n (r.capacity - r.tail))) [
    | inl short ↦ write-short_lem v src n any given room (ground arith)
    | inr long ↦ write-long_lem v src n any given room (ground arith)
  ]

write_counted-Put :
    {r : Rb}
    → IsValid r
    → (src : List ℕ) (n : ℕ) → n ≤ length src
    → n ≤ r.capacity - can_read r
    → (r' : Rb) × (write_counted r src n ≡ ret (n, r')) × Put r (take n src) r'
unfolding write_counted
write_counted-Put {r} v src zero h room =
    (r, refl, record { valid = v; held = sym (append-nil (contents r)); capacity = refl })
write_counted-Put v src (suc n) h room = write_counted_lem v src (suc n) (omega arith) h room

-- Given a source of at least `count` bytes, a write copies as many as there is room for, returns
-- their number, puts exactly those behind the bytes held, and keeps the ring valid. It never
-- touches a byte outside the storage or the source.
pub write_lem :
    {r : Rb} (src : List ℕ) (count : ℕ)
    → IsValid r
    → count ≤ length src
    → let n = min count (can_write r) in
      (r' : Rb) × (write r src count ≡ ret (n, r')) × Put r (take n src) r'
unfolding write can_write
write_lem {r} src count v h =
    write_counted-Put v src (min count (r.capacity - can_read r)) (omega arith) (omega arith)
