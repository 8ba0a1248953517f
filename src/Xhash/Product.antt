-- ===== src/Xhash/Product.antt =====
-- The shifts of `hash_long` multiply by the prime of its comment, and the hash has as many bits as are
-- asked for.
use cevent_sample.Prelude.{ℕ, ◌-◌, ◌*◌, ◌/◌, ◌%◌, ◌^◌, ◌<◌, ◌≤◌, ◌≡◌, refl, arith, ret}
use cevent_sample.Prelude.Bits.{equal_below, equal_below-at}
use cevent_sample.Xhash.{golden_ratio_prime, mix, hash_long}

mix_lem : (val : ℕ) → val < 2 ^ 64 → mix val ≡ val * golden_ratio_prime % 2 ^ 64
unfolding mix
mix_lem val h = omega arith

complement_bits : (bits : ℕ) → bits < 65 → 2 ^ (64 - bits) * 2 ^ bits ≡ 2 ^ 64
unfolding equal_below
complement_bits bits h = equal_below-at (λ b. 2 ^ (64 - b) * 2 ^ b) (λ b. 2 ^ 64) 65 bits refl h

div_lt : (x m n : ℕ) → x < m * n → x / m < n
div_lt x m n h = grind arith

-- For 1 to 64 bits, the hash of an `unsigned long` is the high bits of its product with the prime, and
-- is below 2 ^ bits.
pub hash_long-product :
    (val bits : ℕ)
    → val < 2 ^ 64
    → 0 < bits
    → bits ≤ 64
    → (hash_long val bits ≡ ret (val * golden_ratio_prime % 2 ^ 64 / 2 ^ (64 - bits)))
      × (val * golden_ratio_prime % 2 ^ 64 / 2 ^ (64 - bits) < 2 ^ bits)
unfolding hash_long
hash_long-product val bits small some_bits few = (
  ground (arith, mix_lem val small),
  div_lt (val * golden_ratio_prime % 2 ^ 64) (2 ^ (64 - bits)) (2 ^ bits)
      (omega (arith, complement_bits bits (omega arith))),
)
