-- ===== src/Ringbuffer/Write/Short.antt =====
-- A write that does not come to the end of the storage.
use mathlib.Core.List.{append_assoc}
use native.Mathlib.Nat.{mod-eq_of_lt}
use cevent_sample.Prelude.{
  ℕ, nonzero, ◌+◌, ◌-◌, ◌≤◌, ◌<◌, ◌≡◌, refl, sym, ap, ap₂, ◌∙◌, min, true, false, List, ◌++◌, arith,
  inl, inr, if◌then◌else◌, ◌==◌, Bool-cases, ltb_of_le, ret, length, take, drop, length-take,
  drop-take, drop-append_le, take_eq,
}
use cevent_sample.Prelude.Slices.{
  splice, slice-ret, blit-ret, length-splice, take-splice, drop-splice,
}
use cevent_sample.Ringbuffer.{Rb, can_read, write_rest, write_counted}
use cevent_sample.Ringbuffer.Valid.{IsValid, is_linear, can_read-linear, can_read-wrapped}
use cevent_sample.Ringbuffer.Contents.{contents, contents-linear, contents-two_pieces}
use cevent_sample.Ringbuffer.Write.Result.{Put}

module _ {r : Rb} (v : IsValid r) (src : List ℕ) (n : ℕ) (any : 0 < n) (given : n ≤ length src)
    (room : n ≤ r.capacity - can_read r) where
  -- The bytes do not reach the end of the storage, so one copy writes them.
  module _ (short : n < r.capacity - r.tail) where
    abbrev xs : List ℕ
    xs = take n src

    length-xs : length xs ≡ n
    length-xs = omega (arith, length-take n src)

    abbrev placed : Rb
    placed = record r {
      buffer = splice r.tail xs r.buffer;
      tail = r.tail + n;
      wrap = if r.head == r.tail + n then true else r.wrap;
    }

    fits : r.tail + length xs ≤ length r.buffer
    fits = omega (arith, length-xs, v.storage)

    write-short : write_counted r src n ≡ ret (n, placed)
    unfolding write_counted write_rest
    write-short = rw (
      nonzero n any,
      min-short,
      slice-ret src 0 n (omega arith),
      blit-ret r.buffer r.tail xs fits,
      ltb_of_le n n (omega arith),
      mod-eq_of_lt {n = r.tail + n} {m = r.capacity} (omega arith),
    )
      where
        min-short : min n (r.capacity - r.tail) ≡ n
        min-short = omega arith

    behind : placed.wrap ≡ true → placed.tail ≤ placed.head
    behind w = elim (Bool-cases (is_linear r)) [
      | inl e ↦ let q = can_read-linear v e in ground (arith, v.wrapped)
      | inr e ↦ let q = can_read-wrapped v e in omega (arith, room, v.head_in)
    ]

    placed-IsValid : IsValid placed
    placed-IsValid = record {
      storage = length-splice r.tail xs r.buffer fits ∙ v.storage;
      positive = v.positive;
      small = v.small;
      head_in = v.head_in;
      tail_in = omega arith;
      wrapped = behind;
      scratch = v.scratch;
    }

    -- the storage up to the write index, before and after
    filled : take (r.tail + n) (splice r.tail xs r.buffer) ≡ take r.tail r.buffer ++ xs
    filled =
        take_eq {m = r.tail + length xs} (splice r.tail xs r.buffer) (omega (arith, length-xs))
        ∙ take-splice r.tail xs r.buffer fits

    held-linear : is_linear r ≡ true → contents placed ≡ contents r ++ xs
    held-linear e =
        contents-linear placed (let q = can_read-linear v e in ground arith)
        ∙ sym (drop-take r.head (r.tail + n) (splice r.tail xs r.buffer))
        ∙ ap (drop r.head) filled
        ∙ drop-append_le r.head (take r.tail r.buffer) xs
            (omega (arith, can_read-linear v e, length-take r.tail r.buffer, v.storage, v.tail_in))
        ∙ ap (λ ys. ys ++ xs) (drop-take r.head r.tail r.buffer ∙ sym (contents-linear r e))

    held-wrapped : is_linear r ≡ false → contents placed ≡ contents r ++ xs
    held-wrapped e =
        contents-two_pieces placed (let q = can_read-wrapped v e in ground (arith, room, v.head_in))
        ∙ ap₂ ◌++◌
            (drop-splice r.tail xs r.buffer fits r.head
              (let q = can_read-wrapped v e in omega (arith, length-xs, room, v.head_in)))
            filled
        ∙ sym (append_assoc (drop r.head r.buffer) (take r.tail r.buffer) xs)
        ∙ ap (λ ys. ys ++ xs) (sym (contents-two_pieces r e))

    pub write-short_lem : (r' : Rb) × (write_counted r src n ≡ ret (n, r')) × Put r (take n src) r'
    write-short_lem = (
      placed,
      write-short,
      record {
        valid = placed-IsValid;
        held = elim (Bool-cases (is_linear r)) [ inl e ↦ held-linear e | inr e ↦ held-wrapped e ];
        capacity = refl;
      },
    )
