-- ===== src/Ringbuffer/Read/Short.antt =====
-- A read that does not come to the end of the storage: one copy, and none of it to the scratch buffer.
use native.Mathlib.Nat.{mod-eq_of_lt}
use cevent_sample.Prelude.{
  ℕ, nonzero, ◌+◌, ◌-◌, ◌≤◌, ◌<◌, ◌≡◌, refl, sym, ap, ◌∙◌, true, false, ◌++◌, arith, inl, inr,
  Bool-cases, ltb_of_lt, ret, length, take, drop, length-drop, take-take, drop-drop, drop-take,
  take-append_le, drop-append_le, take_eq,
}
use cevent_sample.Prelude.Slices.{slice-ret}
use cevent_sample.Ringbuffer.{Rb, bytes, can_read, read_counted}
use cevent_sample.Ringbuffer.Valid.{IsValid, is_linear, can_read-linear, can_read-wrapped}
use cevent_sample.Ringbuffer.Contents.{contents, contents-linear, contents-two_pieces}
use cevent_sample.Ringbuffer.Read.Result.{Taken}

module _ {r : Rb} (v : IsValid r) (n : ℕ) (any : 0 < n) (avail : n ≤ can_read r) where
  module _ (short : n < r.capacity - r.head) where
    abbrev moved : Rb
    moved = record r { head = r.head + n }

    read-short : read_counted r n ≡ ret (n, bytes (take n (drop r.head r.buffer)), moved)
    unfolding read_counted
    read-short = rw (
      nonzero n any,
      ltb_of_lt n (r.capacity - r.head) short,
      slice-ret r.buffer r.head n (omega (arith, v.storage)),
      mod-eq_of_lt {n = r.head + n} {m = r.capacity} (omega arith),
    )

    moved-IsValid : IsValid moved
    moved-IsValid = record {
      storage = v.storage;
      positive = v.positive;
      small = v.small;
      head_in = omega (arith, v.head_in);
      tail_in = v.tail_in;
      wrapped = λ w. omega (arith, v.wrapped w);
      scratch = v.scratch;
    }

    short-linear :
        is_linear r ≡ true
        → (take n (drop r.head r.buffer) ≡ take n (contents r))
          × (contents moved ≡ drop n (contents r))
    short-linear e =
        let q = can_read-linear v e in
        (
          rw (contents-linear r e)
              (sym (take-take n (r.tail - r.head) (drop r.head r.buffer) (omega (arith, q)))),
          contents-linear moved (ground (arith, v.wrapped, q))
              ∙ take_eq {m = r.tail - r.head - n} (drop (r.head + n) r.buffer) (omega arith)
              ∙ sym (
                  rw (contents-linear r e) (
                    drop-take n (r.tail - r.head) (drop r.head r.buffer)
                    ∙ ap (take (r.tail - r.head - n)) (drop-drop n r.head r.buffer))),
        )

    short-wrapped :
        is_linear r ≡ false
        → (take n (drop r.head r.buffer) ≡ take n (contents r))
          × (contents moved ≡ drop n (contents r))
    short-wrapped e =
        let q = can_read-wrapped v e in
        let front : n ≤ length (drop r.head r.buffer) =
          omega (arith, v.storage, length-drop r.head r.buffer) in
        (
          rw (contents-two_pieces r e)
              (sym (take-append_le n (drop r.head r.buffer) (take r.tail r.buffer) front)),
          contents-two_pieces moved (ground (arith, q))
              ∙ sym (
                  rw (contents-two_pieces r e) (
                    drop-append_le n (drop r.head r.buffer) (take r.tail r.buffer) front
                    ∙ ap (λ xs. xs ++ take r.tail r.buffer) (drop-drop n r.head r.buffer))),
        )

    pub read-short_lem :
        (r' : Rb) × (read_counted r n ≡ ret (n, bytes (take n (contents r)), r')) × Taken r n r'
    read-short_lem = elim (Bool-cases (is_linear r)) [
      | inl e ↦
          let (out, left) = short-linear e in
          (
            moved,
            rw (← out) read-short,
            record { valid = moved-IsValid; rest = left; capacity = refl },
          )
      | inr e ↦
          let (out, left) = short-wrapped e in
          (
            moved,
            rw (← out) read-short,
            record { valid = moved-IsValid; rest = left; capacity = refl },
          )
    ]
