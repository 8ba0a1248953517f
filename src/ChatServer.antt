-- ===== src/ChatServer.antt =====
-- The server of the chat application, src/chat/src/Server.cpp, over the server of the library.
pub mod Startup
mod Tests
use cevent_sample.Prelude.{
  ℕ, List, [], ◌∷◌, Bool, true, false, Option, none, some, ℤ, pos, Run, ret, ◌>>=◌, length,
}
use cevent_sample.Shared.{Conf, Effect}
use cevent_sample.Io.{Env, Io}
use cevent_sample.Server.{Net, Server, ce_server_startup, ce_server_push}

-- "127.0.0.1"
abbrev pub local_ip : List ℕ
local_ip = 49 ∷ 50 ∷ 55 ∷ 46 ∷ 48 ∷ 46 ∷ 48 ∷ 46 ∷ 49 ∷ []

abbrev pub startup_conf : Conf
startup_conf = record {
  on_accept = true;
  on_received = true;
  on_exception = true;
  on_close = true;
  per_max_packet_body_size = 4096;
  per_cache_ringbuffer_size = pos 1048576;
  workers = pos 2;
  ip = local_ip;
  port = pos 9087;
  timeout = pos 5;
  keepalive = pos 10;
  heartbeat = pos 60;
}

-- the bytes of the answer to each packet, in UTF-8
abbrev pub reply : List ℕ
reply = 230 ∷ 136 ∷ 145 ∷ 230 ∷ 148 ∷ 182 ∷ 229 ∷ 136 ∷ 176 ∷ 228 ∷ 186 ∷ 134 ∷ 228 ∷ 186 ∷ 178 ∷ []

module _ {e : Env} where
  abbrev pub is_started : Option (Server e) → Bool
  is_started none = false
  is_started (some s) = true

  -- `_server`; behind the call the pool is taken to be made
  unfoldable pub startup : Net → Conf → Run (Bool × Option (Server e) × List Effect)
  startup net memory = do
    (server, effects) ← ce_server_startup net memory (some startup_conf) (some tt)
    ret (is_started server, server, effects)

  unfoldable pub on_s_received : Option (Server e) → ℤ → List ℕ → Run (Bool × Option (Io e))
  on_s_received server fd packet = ce_server_push server fd (some reply) (length reply)
