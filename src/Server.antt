-- ===== src/Server.antt =====
-- The server of src/cevent/cevent/ce_server.c: its start, its handlers in the event loop, its end.
-- The event loop, the network and the operating system are copies of another project's code or lie
-- outside the repository: what their calls answer is the parameter `Net`. What a call does to them
-- is a list of effects, in order. The memory that the allocation returns is a parameter as well.
pub mod Startup
pub mod Made
pub mod Handlers
pub mod Inputs
pub mod Pending
pub mod Stop
mod Tests
use cevent_sample.Prelude.{
  ℕ, ◌∷◌, [], ◌++◌, List, Bool, true, false, Option, none, some, ◌==◌, if◌then◌else◌, ℤ, is_nonpos,
  Run, ret, fault, ◌>>=◌, length,
}
use cevent_sample.Shared.{
  Conf, accepted, closed, push_fd, push_except_fd, is_refused, is_error, Effect, sock_init,
  allocated, freed, opened, shut, loop_created, loop_deleted, watched, unwatched, kept_alive,
  thread_started, timer,
}
use cevent_sample.Io.{
  io_or, Env, Param, Io, log, del, ce_io_new, ce_io_add, ce_io_enqueue, ce_io_push, ce_io_del,
  ce_io_destory,
}

-- what `anetTcpServer`, `anetKeepAlive`, `aeCreateEventLoop`, `aeCreateFileEvent`, `anetTcpAccept` and
-- `send` answer; an event loop may be NULL
pub record Net : Type 0 where
  pub tcp_server : (port : ℤ) → ℤ
  pub keep_alive : (fd : ℤ) (delay : ℤ) → ℤ
  pub event_loop : Bool
  pub file_event : (fd : ℤ) → ℤ
  pub tcp_accept : (fd : ℤ) → ℤ
  pub send : ℤ → List ℕ → ℕ → ℤ

-- `struct ce_server`
pub record Server (e : Env) : Type 0 where
  pub fd : ℤ
  pub stop : Bool
  pub conf : Conf
  pub io : Io e

module _ {e : Env} where
  -- The fields that `ce_server_startup` does not set hold what the allocation held: `conf`.
  unfoldable pub serve : Net → Conf → Conf → ℤ → Run (Option (Server e) × List Effect)
  serve net memory conf fd = do
    io ← ce_io_new (record { conf = conf; send = net.send })
    ret (
      some (record { fd = fd; stop = false; conf = memory; io = io }),
      sock_init true
          ∷ allocated
          ∷ opened fd
          ∷ kept_alive fd conf.keepalive
          ∷ loop_created
          ∷ watched fd
          ∷ thread_started
          ∷ timer memory.heartbeat
          ∷ [],
    )

  -- behind `anetKeepAlive`; `event_loop->apidata` is written with no NULL test
  unfoldable pub start_loop : Net → Conf → Conf → ℤ → Run (Option (Server e) × List Effect)
  start_loop net memory conf fd =
      if net.event_loop
      then (if is_error (net.file_event fd)
          then ret (
            none,
            sock_init true
                ∷ allocated
                ∷ opened fd
                ∷ kept_alive fd conf.keepalive
                ∷ loop_created
                ∷ shut fd
                ∷ freed
                ∷ sock_init false
                ∷ [],
          )
          else serve net memory conf fd)
      else fault

  unfoldable pub start_listening : Net → Conf → Conf → ℤ → Run (Option (Server e) × List Effect)
  start_listening net memory conf fd =
      if is_error fd
      then ret (none, sock_init true ∷ allocated ∷ freed ∷ sock_init false ∷ [])
      else if is_error (net.keep_alive fd conf.keepalive)
      then ret
          (none, sock_init true ∷ allocated ∷ opened fd ∷ shut fd ∷ freed ∷ sock_init false ∷ [])
      else start_loop net memory conf fd

  -- `none` for `err` stands for NULL. `_ce_server_routine` clears `stop`, which the call waits for.
  unfoldable pub ce_server_startup :
      Net → Conf → Option Conf → Option (Unit {0}) → Run (Option (Server e) × List Effect)
  ce_server_startup net memory none err = ret (none, [])
  ce_server_startup net memory (some conf) none = ret (none, [])
  ce_server_startup net memory (some conf) (some tt) =
      if is_refused conf
      then ret (none, [])
      else start_listening net memory conf (net.tcp_server conf.port)

  unfoldable pub _ae_client_close : Server e → ℤ → Server e × List Effect
  _ae_client_close server fd =
      (record server { io = log (del server.io fd).1 (closed fd) }, unwatched fd ∷ shut fd ∷ [])

  -- `none` for what `recv` answers is an error or the end of the stream.
  unfoldable pub _ae_read_from_client :
      Server e → ℤ → Option (List ℕ) → Run (Server e × List Effect)
  _ae_read_from_client server fd none = ret (_ae_client_close server fd)
  _ae_read_from_client server fd (some buffer) =
      ce_io_enqueue (some server.io) fd (some buffer) (length buffer) >>= λ (r, io).
      let server' = record server { io = io_or io server.io } in
      ret (if r then (server', []) else _ae_client_close server' fd)

  -- behind `aeCreateFileEvent`
  unfoldable pub add_client : Server e → ℤ → Run (Server e × List Effect)
  add_client server c_fd = do
    (r, io) ← ce_io_add server.io c_fd
    ret (
        if r
        then (
          record server { io = log io (accepted c_fd) },
          opened c_fd ∷ kept_alive c_fd server.conf.keepalive ∷ watched c_fd ∷ [],
        )
        else (
          record server { io = io },
          opened c_fd ∷ kept_alive c_fd server.conf.keepalive ∷ watched c_fd ∷ shut c_fd ∷ [],
        ))

  unfoldable pub _ae_accept_tcp_handler : Net → Server e → Run (Server e × List Effect)
  _ae_accept_tcp_handler net server =
      let c_fd = net.tcp_accept server.fd in
      if is_error c_fd
      then ret (server, shut c_fd ∷ [])
      else if is_error (net.keep_alive c_fd server.conf.keepalive)
      then ret (server, opened c_fd ∷ shut c_fd ∷ [])
      else if is_error (net.file_event c_fd)
      then ret (server, opened c_fd ∷ kept_alive c_fd server.conf.keepalive ∷ shut c_fd ∷ [])
      else add_client server c_fd

  -- `none` for the data is the NULL of the call. The result is the time to the next call.
  unfoldable pub _ae_heartbeat_time_proc : Server e → Run (ℤ × Option (Io e))
  _ae_heartbeat_time_proc server = do
    (r, io) ← ce_io_push (some server.io) push_except_fd server.fd none 0
    ret (server.conf.heartbeat, io)

  unfoldable pub ce_server_push :
      Option (Server e) → ℤ → Option (List ℕ) → ℕ → Run (Bool × Option (Io e))
  ce_server_push none fd src size = ret (false, none)
  ce_server_push (some server) fd none size = ret (false, some server.io)
  ce_server_push (some server) fd (some src) size =
      if size == 0
      then ret (false, some server.io)
      else ce_io_push (some server.io) push_fd fd (some src) size

  -- whether `ce_server_wait` joins the thread of the event loop
  unfoldable pub ce_server_wait : Option (Server e) → Bool
  ce_server_wait none = false
  ce_server_wait (some server) = true

  -- the thread of the event loop, where `aeMain` has come to its end
  unfoldable pub _ce_server_routine : Server e → Server e × List Effect
  _ce_server_routine server =
      (record server { stop = false }, unwatched server.fd ∷ loop_deleted ∷ [])

  -- `server` is read with no NULL test.
  unfoldable pub ce_server_stop : Option (Server e) → Run (List Effect)
  ce_server_stop none = fault
  ce_server_stop (some server) = do
    io ← ce_io_destory (some server.io)
    ret ((_ce_server_routine server).1 ++ (sock_init false ∷ []))
