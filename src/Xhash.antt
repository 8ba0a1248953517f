-- ===== src/Xhash.antt =====
-- The hash of src/cevent/util/xhash.c, as built for a machine whose `long` has 64 bits.
pub mod Product
mod Tests
use cevent_sample.Prelude.{
  ℕ, ◌+◌, ◌-◌, ◌*◌, ◌/◌, ◌%◌, ◌^◌, ◌<◌, ltb, leb, if◌then◌else◌, Run, ret, fault, Bool, ◌||◌, ◌==◌,
}

-- `<<=`, `-=` and `+=` on an `unsigned long`
abbrev pub shl : ℕ → ℕ → ℕ
shl a k = a * 2 ^ k % 2 ^ 64

abbrev pub sub : ℕ → ℕ → ℕ
sub a b = (a + 2 ^ 64 - b) % 2 ^ 64

abbrev pub add : ℕ → ℕ → ℕ
add a b = (a + b) % 2 ^ 64

abbrev pub golden_ratio_prime : ℕ
golden_ratio_prime = 0x9e37fffffffc0001

-- the six shifts of `n`, each with its sum or difference
unfoldable pub mix : ℕ → ℕ
mix val =
    let n1 = shl val 18 in
    let n2 = shl n1 33 in
    let n3 = shl n2 3 in
    let n4 = shl n3 3 in
    let n5 = shl n4 4 in
    let n6 = shl n5 2 in add (add (sub (add (sub (sub val n1) n2) n3) n4) n5) n6

-- A shift by 64 or more is a fault.
unfoldable pub hash_long : ℕ → ℕ → Run ℕ
hash_long val bits = if bits == 0 || ltb 64 bits then fault else ret (mix val / 2 ^ (64 - bits))

-- `ptr` is an address
unfoldable pub hash_ptr : ℕ → ℕ → Run ℕ
hash_ptr ptr bits = hash_long ptr bits
