-- ===== src/ChatMessage/Tests.antt =====
-- The number of a message made at one second.
use cevent_sample.Prelude.{◌≡◌, refl, ret}
use cevent_sample.ChatMessage.{new_packet_id}
use cevent_sample.Xhash.{hash_long, mix}

id_at_second : new_packet_id 1421000000 ≡ ret 14
unfolding new_packet_id hash_long mix
id_at_second = refl
