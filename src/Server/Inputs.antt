-- ===== src/Server/Inputs.antt =====
-- What happens to a server, and what none of it changes while no address waits in the ring that the
-- processors read.
use cevent_sample.Prelude.{
  ℕ, ◌≡◌, refl, ◌∙◌, Bool, true, false, Option, none, some, List, [], ◌∷◌, ◌==◌, if◌then◌else◌, ℤ,
  Run, ret, ◌>>=◌, inl, inr, Bool-cases, length, After, After-if, After-then,
}
use cevent_sample.Shared.{Effect, push_fd, push_except_fd, is_error}
use cevent_sample.Io.{io_or, Env, Io, log, ce_io_add, ce_io_enqueue, ce_io_push, work}
use cevent_sample.Io.Same.{
  Same, IsKeyed, self-Same, Keeps, KeepsSome, ce_io_add-Same, ce_io_enqueue-Same, ce_io_push-Same,
  del-Same,
}
use cevent_sample.Io.Quiet.{IsQuiet, work-Same}
use cevent_sample.Server.{
  Net, Server, _ae_client_close, _ae_read_from_client, add_client, _ae_accept_tcp_handler,
  _ae_heartbeat_time_proc, ce_server_push,
}

-- What happens to a server: its listening socket or that of a client is ready, its timer is due, the
-- application sends, a thread of its pool takes the first job of the queue.
pub data Input : Type 0 where
  connects : Net → Input
  readable : ℤ → Option (List ℕ) → Input
  timer_due : Input
  sends_to : ℤ → Option (List ℕ) → ℕ → Input
  works : Input

module _ {e : Env} where
  -- the server with what a call made of its connection layer
  abbrev with_io : Server e → Option (Io e) → Server e
  with_io server io = record server { io = io_or io server.io }

  unfoldable pub handle : Server e → Input → Run (Server e)
  handle server (connects net) = _ae_accept_tcp_handler net server >>= λ (server', es). ret server'
  handle server (readable fd bytes) =
      _ae_read_from_client server fd bytes >>= λ (server', es). ret server'
  handle server timer_due = _ae_heartbeat_time_proc server >>= λ (n, io). ret (with_io server io)
  handle server (sends_to fd src size) =
      ce_server_push (some server) fd src size >>= λ (r, io). ret (with_io server io)
  handle server works = work server.io >>= λ io. ret (record server { io = io })

  unfoldable pub handle_all : Server e → List Input → Run (Server e)
  handle_all server [] = ret server
  handle_all server (x ∷ xs) = handle server x >>= λ server'. handle_all server' xs

  -- the ring that the processors read is as before, and the keys are addresses of parameters still
  pub record Holds (io io' : Io e) : Type 0 where
    pub ring : io'.push_fd_event ≡ io.push_fd_event
    pub keyed : IsKeyed io → IsKeyed io'

  Same-Holds : {io io' : Io e} → Same io io' → Holds io io'
  Same-Holds same = record { ring = same.ring; keyed = same.keyed }

  Holds-trans : {a b c : Io e} → Holds a b → Holds b c → Holds a c
  Holds-trans h k = record { ring = k.ring ∙ h.ring; keyed = λ x. k.keyed (h.keyed x) }

  abbrev pub Quietly : Server e → Server e → Type 0
  Quietly server server' = Holds server.io server'.io

  self-Quietly : (server : Server e) → Quietly server server
  self-Quietly server = record { ring = refl; keyed = λ x. x }

  abbrev QuietlyWith : Server e → Server e × List Effect → Type 0
  QuietlyWith server (server', es) = Quietly server server'

  close-Quietly : (server : Server e) (fd : ℤ) → Quietly server (_ae_client_close server fd).0
  unfolding _ae_client_close log
  close-Quietly server fd =
      let same = del-Same server.io fd in record { ring = same.ring; keyed = same.keyed }

  read-Quietly :
      (server : Server e) (fd : ℤ) (bytes : Option (List ℕ))
      → After (QuietlyWith server) (_ae_read_from_client server fd bytes)
  unfolding _ae_read_from_client
  read-Quietly server fd none = close-Quietly server fd
  read-Quietly server fd (some buffer) =
      After-then (KeepsSome server.io) (QuietlyWith server)
        (ce_io_enqueue (some server.io) fd (some buffer) (length buffer)) _
        (ce_io_enqueue-Same server.io fd (some buffer) (length buffer))
        (λ (r, io) same. kept r io same)
    where
      kept :
          (r : Bool) (io : Option (Io e))
          → Same server.io (io_or io server.io)
          → QuietlyWith server
              (if r then (with_io server io, []) else _ae_client_close (with_io server io) fd)
      kept true io same = Same-Holds same
      kept false io same = Holds-trans (Same-Holds same) (close-Quietly (with_io server io) fd)

  add_client-Quietly :
      (server : Server e) (fd : ℤ) → After (QuietlyWith server) (add_client server fd)
  unfolding add_client log
  add_client-Quietly server fd =
      After-then (Keeps server.io) (QuietlyWith server) (ce_io_add server.io fd) _
        (ce_io_add-Same server.io fd)
        (λ (r, io) same. elim (Bool-cases r) [
          | inl good ↦ simp good (record { ring = same.ring; keyed = same.keyed })
          | inr bad ↦ simp bad (Same-Holds same)
        ])

  accept-Quietly :
      (net : Net) (server : Server e)
      → After (QuietlyWith server) (_ae_accept_tcp_handler net server)
  unfolding _ae_accept_tcp_handler
  accept-Quietly net server =
      let fd = net.tcp_accept server.fd in
      After-if (QuietlyWith server) (is_error fd) _ _ (λ bad. self-Quietly server)
        λ good.
          After-if (QuietlyWith server) (is_error (net.keep_alive fd server.conf.keepalive)) _ _
            (λ bad. self-Quietly server)
            λ kept.
              After-if (QuietlyWith server) (is_error (net.file_event fd)) _ _
                (λ bad. self-Quietly server) λ watching. add_client-Quietly server fd

  push-Quietly :
      (server : Server e) (fd : ℤ) (src : Option (List ℕ)) (size : ℕ)
      → After (KeepsSome server.io) (ce_server_push (some server) fd src size)
  unfolding ce_server_push
  push-Quietly server fd none size = self-Same server.io
  push-Quietly server fd (some src) size =
      After-if (KeepsSome server.io) (size == 0) _ _ (λ bad. self-Same server.io)
        λ good. ce_io_push-Same server.io push_fd fd (some src) size

  timer-Quietly :
      (server : Server e)
      → After (λ (n, io). Same server.io (io_or io server.io)) (_ae_heartbeat_time_proc server)
  unfolding _ae_heartbeat_time_proc
  timer-Quietly server =
      After-then (KeepsSome server.io) (λ (n, io). Same server.io (io_or io server.io))
        (ce_io_push (some server.io) push_except_fd server.fd none 0) _
        (ce_io_push-Same server.io push_except_fd server.fd none 0) (λ (r, io) same. same)

  pub handle-Quietly :
      (server : Server e) (x : Input) → IsQuiet server.io → After (Quietly server) (handle server x)
  unfolding handle
  handle-Quietly server (connects net) quiet =
      After-then (QuietlyWith server) (Quietly server) (_ae_accept_tcp_handler net server) _
        (accept-Quietly net server) (λ (s, es) h. h)
  handle-Quietly server (readable fd bytes) quiet =
      After-then (QuietlyWith server) (Quietly server) (_ae_read_from_client server fd bytes) _
        (read-Quietly server fd bytes) (λ (s, es) h. h)
  handle-Quietly server timer_due quiet =
      After-then (λ (n, io). Same server.io (io_or io server.io)) (Quietly server)
        (_ae_heartbeat_time_proc server) _ (timer-Quietly server) (λ (n, io) same. Same-Holds same)
  handle-Quietly server (sends_to fd src size) quiet =
      After-then (KeepsSome server.io) (Quietly server) (ce_server_push (some server) fd src size) _
        (push-Quietly server fd src size) (λ (r, io) same. Same-Holds same)
  handle-Quietly server works quiet =
      After-then (Same server.io) (Quietly server) (work server.io) _ (work-Same server.io quiet)
        (λ io same. Same-Holds same)
