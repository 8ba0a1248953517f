-- ===== src/ChatServer/Tests.antt =====
-- The answer of the chat server is text of fifteen bytes.
use cevent_sample.Prelude.{◌≡◌, refl, length}
use cevent_sample.ChatServer.{reply}

length-reply : length reply ≡ 15
length-reply = refl
