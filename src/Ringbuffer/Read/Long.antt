-- ===== src/Ringbuffer/Read/Long.antt =====
-- A read that comes to the end of the storage: its bytes are put together in the scratch buffer.
use mathlib.Core.List.{append-nil}
use native.Mathlib.Nat.{mod-eq_of_lt, mod_self}
use cevent_sample.Prelude.{
  ℕ, nonzero, ◌+◌, ◌-◌, ◌%◌, ◌≤◌, ◌<◌, ◌≡◌, refl, sym, ap, ◌∙◌, min, false, List, ◌++◌, arith, inl,
  inr, ltb, Bool-cases, ltb_of_le, ret, length, take, drop, replicate, length-take, length-drop,
  length-replicate, take-take, drop-take, take-append_ge, drop-append_ge, take_eq, take_all,
}
use cevent_sample.Prelude.Slices.{splice, slice-ret, blit-ret, length-splice, take-splice}
use cevent_sample.Ringbuffer.{
  Rb, bytes, can_read, grow_retval, read_rest, read_wrapped, read_counted,
}
use cevent_sample.Ringbuffer.Valid.{IsValid, is_linear, can_read-linear, can_read-wrapped}
use cevent_sample.Ringbuffer.Contents.{contents, contents-linear, contents-two_pieces}
use cevent_sample.Ringbuffer.Read.Result.{Taken}

module _ {r : Rb} (v : IsValid r) (n : ℕ) (any : 0 < n) (avail : n ≤ can_read r) where
  module _ (long : r.capacity - r.head ≤ n) where
    abbrev chunk : ℕ
    chunk = r.capacity - r.head

    -- A ring whose bytes lie in one piece has none behind the end of the storage.
    long-wrapped : is_linear r ≡ false
    long-wrapped = elim (Bool-cases (is_linear r)) [
      | inl e ↦ absurd (omega (arith, can_read-linear v e, v.tail_in, v.head_in))
      | inr e ↦ e
    ]

    bounds : (n - chunk ≤ r.tail) × (r.tail ≤ r.head) × (chunk + (n - chunk) ≡ n)
    bounds = omega (arith, can_read-wrapped v long-wrapped, v.head_in)

    abbrev front : List ℕ
    front = drop r.head r.buffer

    length-front : length front ≡ chunk
    length-front = omega (arith, length-drop r.head r.buffer, v.storage)

    abbrev back : List ℕ
    back = take (n - chunk) r.buffer

    length-back : length back ≡ n - chunk
    length-back = omega (arith, length-take (n - chunk) r.buffer, v.storage, v.tail_in, bounds)

    -- The bytes that the two copies bring are the `n` oldest.
    taken : front ++ back ≡ take n (contents r)
    taken = sym (
        rw (contents-two_pieces r long-wrapped) (
          take-append_ge n front (take r.tail r.buffer) (omega (arith, length-front))
          ∙ ap (◌++◌ front) (
              take-take (n - length front) r.tail r.buffer (omega (arith, length-front, bounds))
              ∙ take_eq r.buffer (omega (arith, length-front)))))

    module _ (b : List ℕ) (s : ℕ) (room : n ≤ length b) (sized : length b ≡ s) where
      abbrev grown : Rb
      grown = record r { retval_size = s; retval_buffer = b }

      abbrev copied : List ℕ
      copied = splice 0 front b

      copied-front : take chunk copied ≡ front
      copied-front =
          take_eq {m = 0 + length front} copied (omega (arith, length-front))
          ∙ take-splice 0 front b (omega (arith, length-front))

      length-copied : length copied ≡ length b
      length-copied = length-splice 0 front b (omega (arith, length-front))

      -- The second copy, where there is one, puts the bytes from the start of the storage behind.
      read_rest_lem :
          (scratch : List ℕ) × (read_rest grown copied 0 chunk n ≡ ret (scratch, n - chunk))
          × (take n scratch ≡ front ++ back)
          × (length scratch ≡ s)
      unfolding read_rest
      read_rest_lem = elim (Bool-cases (ltb chunk n)) [
        | inl more ↦ (
          splice chunk back copied,
          rw
              (
                more,
                slice-ret r.buffer 0 (n - chunk) (omega (arith, v.storage, v.tail_in, bounds)),
                blit-ret copied chunk back fits,
                mod-eq_of_lt {n = 0 + (n - chunk)} {m = r.capacity}
                    (omega (arith, v.tail_in, bounds)),
              )
              (ap (λ k. ret (splice chunk back copied, k)) (omega arith)),
          take_eq {m = chunk + length back} (splice chunk back copied)
                (omega (arith, length-back, bounds))
              ∙ take-splice chunk back copied fits
              ∙ ap (λ xs. xs ++ back) copied-front,
          length-splice chunk back copied fits ∙ length-copied ∙ sized,
        )
        | inr done ↦
            let none_left : n - chunk ≡ 0 = ground arith in
            (
              copied,
              rw (done, none_left),
              take_eq {m = chunk} copied (omega (arith, bounds))
                  ∙ copied-front
                  ∙ sym (rw none_left (append-nil front)),
              length-copied ∙ sized,
            )
      ]
        where
          fits : chunk + length back ≤ length copied
          fits = omega (arith, length-back, length-copied, bounds)

    grow_retval_lem :
        (b : List ℕ) × (s : ℕ) × (grow_retval r n ≡ record r { retval_size = s; retval_buffer = b })
        × (n ≤ length b)
        × (length b ≡ s)
    unfolding grow_retval
    grow_retval_lem = elim (Bool-cases (ltb r.retval_size n)) [
      | inl small ↦ (
        replicate n 0,
        n,
        rw small,
        omega (arith, length-replicate {A = ℕ} n 0),
        length-replicate n 0,
      )
      | inr enough ↦
          (r.retval_buffer, r.retval_size, rw enough, ground (arith, v.scratch), v.scratch)
    ]

    abbrev after : List ℕ → ℕ → Rb
    after scratch s = record r {
      head = n - chunk;
      wrap = false;
      retval_buffer = scratch;
      retval_size = s;
    }

    after-rest : (scratch : List ℕ) (s : ℕ) → contents (after scratch s) ≡ drop n (contents r)
    after-rest scratch s =
        contents-linear (after scratch s) (ground (arith, bounds))
        ∙ sym (
            rw (contents-two_pieces r long-wrapped) (
              drop-append_ge n front (take r.tail r.buffer) (omega (arith, length-front))
              ∙ drop-take (n - length front) r.tail r.buffer
              ∙ ap (λ k. take (r.tail - (n - k)) (drop (n - k) r.buffer)) length-front))

    pub read-long_lem :
        (r' : Rb) × (read_counted r n ≡ ret (n, bytes (take n (contents r)), r')) × Taken r n r'
    unfolding read_counted read_wrapped
    read-long_lem =
        let (b, s, grown_is, room, sized) = grow_retval_lem in
        let (scratch, rest_is, out, length-scratch) = read_rest_lem b s room sized in
        (
          after scratch s,
          rw (
            nonzero n any,
            ltb_of_le n chunk long,
            min-long,
            grown_is,
            slice-ret r.buffer r.head chunk (omega (arith, v.storage, v.head_in)),
            take_all chunk front (omega (arith, length-front)),
            blit-ret b 0 front (omega (arith, length-front)),
            back_to_start,
            rest_is,
            out,
            taken,
          ),
          record {
            valid = record {
              storage = v.storage;
              positive = v.positive;
              small = v.small;
              head_in = omega (arith, bounds, v.tail_in);
              tail_in = v.tail_in;
              wrapped = λ w. cc;
              scratch = length-scratch;
            };
            rest = after-rest scratch s;
            capacity = refl;
          },
        )
      where
        min-long : min n chunk ≡ chunk
        min-long = omega arith

        back_to_start : (r.head + chunk) % r.capacity ≡ 0
        back_to_start =
            let at_end : r.head + chunk ≡ r.capacity = omega (arith, v.head_in) in
            ap (λ k. k % r.capacity) at_end ∙ mod_self r.capacity
