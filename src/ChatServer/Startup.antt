-- ===== src/ChatServer/Startup.antt =====
-- The server of the chat with the library below it.
use cevent_sample.Prelude.{
  ℕ, ◌≡◌, refl, arith, List, true, false, some, ℤ, is_nonpos, pos_part, ret, fault, length,
}
use cevent_sample.Shared.{is_refused, has_bad_values, push_fd}
use cevent_sample.Io.{Env, Io, ce_io_add}
use cevent_sample.Io.Lost.{added_fd_faults}
use cevent_sample.Server.{Server, ce_server_push}
use cevent_sample.Threadpool.Create.{Creating, Creates, IsCreated, ce_tp_create-hangs}
use cevent_sample.ChatServer.{startup_conf, reply, on_s_received}

-- The configuration of the chat passes the test of `ce_server_startup`, which then makes a pool of two
-- threads: in no order of their steps does that end.
pub startup_waits_for_pool :
    (s : Creating)
    → Creates (pos_part startup_conf.workers) s
    → (is_refused startup_conf ≡ false) × ¬ (IsCreated (pos_part startup_conf.workers) s)
unfolding is_refused has_bad_values
startup_waits_for_pool s r = (refl, ce_tp_create-hangs (omega arith) r)

-- The answer to a packet of a client that was added reads memory that is no connection, whatever the
-- packet is.
pub reply_faults :
    {e : Env} (server : Server e) (fd : ℤ) {io : Io e}
    → ce_io_add server.io fd ≡ ret (true, io)
    → is_nonpos fd ≡ false
    → (packet : List ℕ) → on_s_received (some (record server { io = io })) fd packet ≡ fault
unfolding on_s_received ce_server_push
reply_faults server fd added positive packet =
    (added_fd_faults server.io fd added positive push_fd reply (length reply) refl).1
