-- ===== src/ChatMessage/Ids.antt =====
-- The numbers by which messages are sent again.
use cevent_sample.Prelude.{ℕ, ◌*◌, ◌/◌, ◌%◌, ◌^◌, ◌<◌, ◌≡◌, arith, ret}
use cevent_sample.Xhash.{golden_ratio_prime}
use cevent_sample.Xhash.Product.{hash_long-product}
use cevent_sample.ChatMessage.{new_packet_id}

-- A message gets one of sixteen numbers, which the second of its making determines.
pub new_packet_id-bound :
    (now : ℕ) → now < 2 ^ 64 → (id : ℕ) × (new_packet_id now ≡ ret id) × (id < 16)
unfolding new_packet_id
new_packet_id-bound now small =
    let (hash, few) = hash_long-product now 4 small (omega arith) (omega arith) in
    (now * golden_ratio_prime % 2 ^ 64 / 2 ^ 60, hash, few)
