-- ===== src/Ringbuffer/Contents.antt =====
-- The bytes that a ring holds, oldest first.
use cevent_sample.Prelude.{
  ℕ, ◌-◌, ◌≡◌, true, false, List, ◌++◌, arith, inl, inr, if◌then◌else◌, Bool-cases, length, take,
  drop, length-append, length-take, length-drop,
}
use cevent_sample.Ringbuffer.{Rb, can_read}
use cevent_sample.Ringbuffer.Valid.{IsValid, is_linear, can_read-linear, can_read-wrapped}

abbrev pub linear : Rb → List ℕ
linear r = take (r.tail - r.head) (drop r.head r.buffer)

abbrev pub two_pieces : Rb → List ℕ
two_pieces r = drop r.head r.buffer ++ take r.tail r.buffer

unfoldable pub contents : Rb → List ℕ
contents r = if is_linear r then linear r else two_pieces r

pub contents-linear : (r : Rb) → is_linear r ≡ true → contents r ≡ linear r
unfolding contents
contents-linear r e = rw e

pub contents-two_pieces : (r : Rb) → is_linear r ≡ false → contents r ≡ two_pieces r
unfolding contents
contents-two_pieces r e = rw e

-- The ring holds as many bytes as `ce_rb_can_read` says.
pub length-contents : {r : Rb} → IsValid r → length (contents r) ≡ can_read r
length-contents {r} v = elim (Bool-cases (is_linear r)) [
  | inl e ↦ rw (contents-linear r e) (
      omega (
        arith,
        can_read-linear v e,
        length-take (r.tail - r.head) (drop r.head r.buffer),
        length-drop r.head r.buffer,
      ))
  | inr e ↦ rw (contents-two_pieces r e) (
      omega (
        arith,
        can_read-wrapped v e,
        length-append (drop r.head r.buffer) (take r.tail r.buffer),
        length-take r.tail r.buffer,
        length-drop r.head r.buffer,
      ))
]
