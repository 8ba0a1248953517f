-- ===== src/Ringbuffer/Write/Long.antt =====
-- A write that comes to the end of the storage.
use mathlib.Core.List.{append_assoc}
use native.Mathlib.Nat.{mod-eq_of_lt, mod_self}
use cevent_sample.Prelude.{
  ℕ, nonzero, ◌+◌, ◌-◌, ◌%◌, ◌≤◌, ◌<◌, ◌≡◌, refl, sym, ap, ap₂, ◌∙◌, min, true, List, ◌++◌, arith,
  inl, inr, if◌then◌else◌, ltb, ◌==◌, Bool-cases, ret, length, take, drop, length-take, length-drop,
  take-take, drop-take, drop-append_le, take_eq, take_all, take-append-drop,
}
use cevent_sample.Prelude.Slices.{
  splice, slice-ret, blit-ret, length-splice, take-splice, drop-splice,
}
use cevent_sample.Ringbuffer.{Rb, can_read, write_rest, write_counted}
use cevent_sample.Ringbuffer.Valid.{IsValid, is_linear, can_read-linear, can_read-wrapped}
use cevent_sample.Ringbuffer.Contents.{contents, contents-linear, contents-two_pieces}
use cevent_sample.Ringbuffer.Write.Result.{Put}

module _ {r : Rb} (v : IsValid r) (src : List ℕ) (n : ℕ) (any : 0 < n) (given : n ≤ length src)
    (room : n ≤ r.capacity - can_read r) where
  -- The bytes reach the end of the storage; what is left goes to its start.
  module _ (long : r.capacity - r.tail ≤ n) where
    abbrev chunk : ℕ
    chunk = r.capacity - r.tail

    abbrev first : List ℕ
    first = take chunk src

    abbrev second : List ℕ
    second = take (n - chunk) (drop chunk src)

    long-linear : is_linear r ≡ true
    long-linear = elim (Bool-cases (is_linear r)) [
      | inl e ↦ e
      | inr e ↦ absurd (omega (arith, can_read-wrapped v e, v.tail_in, v.head_in, room))
    ]

    bounds : (chunk + (n - chunk) ≡ n) × (n - chunk ≤ r.head) × (r.head ≤ r.tail) × (0 < chunk)
    bounds = omega (arith, can_read-linear v long-linear, v.tail_in, v.head_in, room)

    length-first : length first ≡ chunk
    length-first = omega (arith, length-take chunk src)

    length-second : length second ≡ n - chunk
    length-second = omega (arith, length-take (n - chunk) (drop chunk src), length-drop chunk src)

    pieces : first ++ second ≡ take n src
    pieces =
        ap₂ ◌++◌ (sym (take-take chunk n src long)) (sym (drop-take chunk n src))
        ∙ take-append-drop chunk (take n src)

    abbrev buffer1 : List ℕ
    buffer1 = splice r.tail first r.buffer

    fits1 : r.tail + length first ≤ length r.buffer
    fits1 = omega (arith, length-first, v.storage, v.tail_in)

    filled1 : buffer1 ≡ take r.tail r.buffer ++ first
    filled1 =
        sym (
          take_all (r.tail + length first) buffer1 (
            omega (
              arith,
              length-splice r.tail first r.buffer fits1,
              length-first,
              v.storage,
              v.tail_in,
            )))
        ∙ take-splice r.tail first r.buffer fits1

    abbrev buffer2 : List ℕ
    buffer2 = splice 0 second buffer1

    fits2 : 0 + length second ≤ length buffer1
    fits2 = omega (
      arith,
      length-second,
      length-splice r.tail first r.buffer fits1,
      v.storage,
      v.head_in,
      bounds,
    )

    abbrev round : Rb
    round = record r {
      buffer = buffer2;
      tail = n - chunk;
      wrap = if r.head == n - chunk then true else r.wrap;
    }

    write_rest_lem : write_rest r src buffer1 0 chunk n ≡ ret (buffer2, n - chunk)
    unfolding write_rest
    write_rest_lem = elim (Bool-cases (ltb chunk n)) [
      | inl more ↦
          rw
            (
              more,
              slice-ret src chunk (n - chunk) (omega arith),
              blit-ret buffer1 0 second fits2,
              mod-eq_of_lt {n = 0 + (n - chunk)} {m = r.capacity}
                  (omega (arith, v.head_in, bounds)),
            )
            (ap (λ k. ret (buffer2, k)) (omega arith))
      | inr done ↦ let none_left : n - chunk ≡ 0 = ground arith in rw (done, none_left)
    ]

    write-long : write_counted r src n ≡ ret (n, round)
    unfolding write_counted
    write-long = rw (
      nonzero n any,
      min-long,
      slice-ret src 0 chunk (omega arith),
      blit-ret r.buffer r.tail first fits1,
      back_to_start,
      write_rest_lem,
    )
      where
        min-long : min n chunk ≡ chunk
        min-long = omega arith

        back_to_start : (r.tail + chunk) % r.capacity ≡ 0
        back_to_start =
            let at_end : r.tail + chunk ≡ r.capacity = omega (arith, v.tail_in) in
            ap (λ k. k % r.capacity) at_end ∙ mod_self r.capacity

    round-IsValid : IsValid round
    round-IsValid = record {
      storage =
          length-splice 0 second buffer1 fits2
          ∙ length-splice r.tail first r.buffer fits1
          ∙ v.storage;
      positive = v.positive;
      small = v.small;
      head_in = v.head_in;
      tail_in = omega (arith, bounds, v.head_in);
      wrapped = λ w. omega (arith, bounds);
      scratch = v.scratch;
    }

    kept : drop r.head buffer2 ≡ contents r ++ first
    kept =
        drop-splice 0 second buffer1 fits2 r.head (omega (arith, length-second, bounds))
        ∙ ap (drop r.head) filled1
        ∙ drop-append_le r.head (take r.tail r.buffer) first
            (omega (arith, bounds, length-take r.tail r.buffer, v.storage, v.tail_in))
        ∙ ap (λ ys. ys ++ first)
            (drop-take r.head r.tail r.buffer ∙ sym (contents-linear r long-linear))

    started : take (n - chunk) buffer2 ≡ second
    started =
        take_eq {m = 0 + length second} buffer2 (omega (arith, length-second))
        ∙ take-splice 0 second buffer1 fits2

    pub write-long_lem : (r' : Rb) × (write_counted r src n ≡ ret (n, r')) × Put r (take n src) r'
    write-long_lem = (
      round,
      write-long,
      record {
        valid = round-IsValid;
        held =
            contents-two_pieces round (ground (arith, bounds))
            ∙ ap₂ ◌++◌ kept started
            ∙ append_assoc (contents r) first second
            ∙ ap (◌++◌ (contents r)) pieces;
        capacity = refl;
      },
    )
