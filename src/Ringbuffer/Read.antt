-- ===== src/Ringbuffer/Read.antt =====
-- `ce_rb_read` takes the oldest bytes, in order, and keeps the ring valid.
mod Result
mod Short
mod Long
use mathlib.Core.List.{append-nil}
use native.Mathlib.Nat.{mod-eq_of_lt, mod_self}
use cevent_sample.Prelude.{
  ℕ, nonzero, zero, suc, ◌+◌, ◌-◌, ◌%◌, ◌≤◌, ◌<◌, ◌≡◌, refl, sym, ap, ◌∙◌, min, true, false, List,
  [], ◌++◌, arith, inl, inr, ltb, ◌==◌, Bool-cases, ltb_of_lt, ltb_of_le, ret, length, take, drop,
  replicate, length-take, length-drop, length-replicate, take-take, drop-drop, drop-take,
  take-append_le, take-append_ge, drop-append_le, drop-append_ge, take_eq, take_all, drop_all,
}
use cevent_sample.Prelude.Slices.{splice, slice-ret, blit-ret, length-splice, take-splice}
use cevent_sample.Ringbuffer.{
  Rb, Out, null, bytes, can_read, grow_retval, read_rest, read_wrapped, read_counted, read,
}
use cevent_sample.Ringbuffer.Valid.{IsValid, is_linear, can_read-linear, can_read-wrapped}
use cevent_sample.Ringbuffer.Contents.{
  length-contents, contents, contents-linear, contents-two_pieces,
}
pub use cevent_sample.Ringbuffer.Read.Result.{Taken}
use cevent_sample.Ringbuffer.Read.Short.{read-short_lem}
use cevent_sample.Ringbuffer.Read.Long.{read-long_lem}

module _ {r : Rb} (v : IsValid r) (n : ℕ) (any : 0 < n) (avail : n ≤ can_read r) where
  -- A read of bytes that are there returns the oldest of them, and takes them off.
  read_counted_lem :
      (r' : Rb) × (read_counted r n ≡ ret (n, bytes (take n (contents r)), r')) × Taken r n r'
  read_counted_lem = elim (Bool-cases (ltb n (r.capacity - r.head))) [
    | inl short ↦ read-short_lem v n any avail (ground arith)
    | inr long ↦ read-long_lem v n any avail (ground arith)
  ]

-- what `*data` shows after a read of `n` bytes that hold `xs`
abbrev pub out_of : ℕ → List ℕ → Out
out_of zero xs = null
out_of (suc n) xs = bytes xs

read_counted-Taken :
    {r : Rb}
    → IsValid r
    → (n : ℕ) → n ≤ can_read r
    → (r' : Rb) × (read_counted r n ≡ ret (n, out_of n (take n (contents r)), r')) × Taken r n r'
unfolding read_counted
read_counted-Taken {r} v zero h = (r, refl, record { valid = v; rest = refl; capacity = refl })
read_counted-Taken {r} v (suc n) h = read_counted_lem v (suc n) (omega arith) h

-- A read returns the number of bytes asked for or held, whichever is less, shows exactly the oldest
-- of them (or NULL), takes them off, and keeps the ring valid. It never touches a byte outside.
pub read_lem :
    {r : Rb} (count : ℕ)
    → IsValid r
    → let n = min count (can_read r) in
      (r' : Rb) × (read r count ≡ ret (n, out_of n (take n (contents r)), r')) × Taken r n r'
unfolding read
read_lem {r} count v = read_counted-Taken v (min count (can_read r)) (omega arith)

pub read_exact :
    {r : Rb} (n : ℕ)
    → IsValid r
    → n ≤ can_read r
    → (r' : Rb) × (read r n ≡ ret (n, out_of n (take n (contents r)), r')) × Taken r n r'
unfolding read
read_exact {r} n v h =
    let (r', is, t) = read_counted-Taken v n h in
    (r', ap (read_counted r) {x = min n (can_read r)} {y = n} (omega arith) ∙ is, t)

pub read_all :
    {r : Rb} (n : ℕ)
    → IsValid r
    → can_read r ≤ n
    → (r' : Rb) × (read r n ≡ ret (can_read r, out_of (can_read r) (contents r), r'))
      × IsValid r'
      × (contents r' ≡ [])
unfolding read
read_all {r} n v h =
    let (r', is, t) = read_counted-Taken v (can_read r) (omega arith) in
    let whole = length-contents v in
    (
      r',
      ap (read_counted r) {x = min n (can_read r)} {y = can_read r} (omega arith)
          ∙ is
          ∙ ap (λ xs. ret (can_read r, out_of (can_read r) xs, r'))
              (take_all (can_read r) (contents r) (omega (arith, whole))),
      t.valid,
      t.rest ∙ drop_all (can_read r) (contents r) (omega (arith, whole)),
    )
