-- ===== src/Xhash/Tests.antt =====
-- The theorem on the hash at one number.
use cevent_sample.Prelude.{◌*◌, ◌/◌, ◌%◌, ◌^◌, ◌<◌, ◌≡◌, arith, ret}
use cevent_sample.Xhash.{golden_ratio_prime, hash_long}
use cevent_sample.Xhash.Product.{hash_long-product}

hash_long-product_example :
    (hash_long 1421000000 4 ≡ ret (1421000000 * golden_ratio_prime % 2 ^ 64 / 2 ^ 60))
    × (1421000000 * golden_ratio_prime % 2 ^ 64 / 2 ^ 60 < 2 ^ 4)
hash_long-product_example = hash_long-product 1421000000 4 (omega arith) (omega arith) (omega arith)
