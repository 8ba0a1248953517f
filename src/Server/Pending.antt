-- ===== src/Server/Pending.antt =====
-- Only deletions ever wait in the pool of a server.
use cevent_sample.Prelude.{
  Bool, true, false, Option, none, some, List, [], ◌∷◌, if◌then◌else◌, ℤ, Run, ret, ℕ, inl, inr,
  Bool-cases, length, After, After-if, After-then, ◌==◌,
}
use cevent_sample.Shared.{push_fd, push_except_fd, is_error, Effect}
use cevent_sample.Io.{Env, Io, io_or, log, ce_io_add, ce_io_enqueue, ce_io_push, work}
use cevent_sample.Io.Same.{IsKeyed, KeepsSome, ce_io_enqueue-Same}
use cevent_sample.Io.Quiet.{IsQuiet}
use cevent_sample.Io.Pending.{
  OnlyDeletes, LeavesDeletes, ce_io_enqueue-OnlyDeletes, ce_io_push-OnlyDeletes,
  ce_io_add-OnlyDeletes, del-OnlyDeletes, work-OnlyDeletes,
}
use cevent_sample.Server.{
  Net, Server, _ae_client_close, _ae_read_from_client, add_client, _ae_accept_tcp_handler,
  _ae_heartbeat_time_proc, ce_server_push,
}
use cevent_sample.Server.Inputs.{
  Input, connects, readable, timer_due, sends_to, works, handle, handle_all, Quietly,
  handle-Quietly,
}

module _ {e : Env} where
  abbrev pub Pends : Server e → Type 0
  Pends server = OnlyDeletes server.io

  abbrev PendsWith : Server e × List Effect → Type 0
  PendsWith (server, es) = Pends server

  close-Pends :
      (server : Server e) (fd : ℤ)
      → IsKeyed server.io
      → Pends server
      → Pends (_ae_client_close server fd).0
  unfolding _ae_client_close log
  close-Pends server fd keyed v = del-OnlyDeletes server.io fd keyed v

  read-Pends :
      (server : Server e) (fd : ℤ) (bytes : Option (List ℕ))
      → IsKeyed server.io
      → Pends server
      → After PendsWith (_ae_read_from_client server fd bytes)
  unfolding _ae_read_from_client
  read-Pends server fd none keyed v = close-Pends server fd keyed v
  read-Pends server fd (some buffer) keyed v =
      After-then Both PendsWith (ce_io_enqueue (some server.io) fd (some buffer) (length buffer)) _
        (both _ (ce_io_enqueue-Same server.io fd (some buffer) (length buffer))
          (ce_io_enqueue-OnlyDeletes server.io fd (some buffer) (length buffer) keyed v))
        (λ (r, io) (k, d). kept r io k d)
    where
      Both : Bool × Option (Io e) → Type 0
      Both (r, io) = IsKeyed (io_or io server.io) × OnlyDeletes (io_or io server.io)

      both :
          (m : Run (Bool × Option (Io e)))
          → After (KeepsSome server.io) m
          → After (LeavesDeletes server.io) m
          → After Both m
      both (ret (r, io)) same d = (same.keyed keyed, d)
      both Run.fault same d = tt
      both Run.hangs same d = tt

      kept :
          (r : Bool) (io : Option (Io e))
          → IsKeyed (io_or io server.io)
          → OnlyDeletes (io_or io server.io)
          → PendsWith (
              if r
              then (record server { io = io_or io server.io }, [])
              else _ae_client_close (record server { io = io_or io server.io }) fd)
      kept true io k d = d
      kept false io k d = close-Pends (record server { io = io_or io server.io }) fd k d

  accept-Pends :
      (net : Net) (server : Server e)
      → Pends server
      → After PendsWith (_ae_accept_tcp_handler net server)
  unfolding _ae_accept_tcp_handler add_client log
  accept-Pends net server v =
      let fd = net.tcp_accept server.fd in
      After-if PendsWith (is_error fd) _ _ (λ bad. v)
        λ good.
          After-if PendsWith (is_error (net.keep_alive fd server.conf.keepalive)) _ _ (λ bad. v)
            λ kept.
              After-if PendsWith (is_error (net.file_event fd)) _ _ (λ bad. v)
                λ watching.
                  After-then (λ (r, io). OnlyDeletes io) PendsWith (ce_io_add server.io fd) _
                    (ce_io_add-OnlyDeletes server.io fd v)
                    (λ (r, io) d. elim (Bool-cases r) [ inl a ↦ simp a d | inr a ↦ simp a d ])

  handle-Pends :
      (server : Server e) (x : Input)
      → IsKeyed server.io
      → Pends server
      → After Pends (handle server x)
  unfolding handle _ae_heartbeat_time_proc ce_server_push
  handle-Pends server (connects net) keyed v =
      After-then PendsWith Pends (_ae_accept_tcp_handler net server) _ (accept-Pends net server v)
        (λ (s, es) h. h)
  handle-Pends server (readable fd bytes) keyed v =
      After-then PendsWith Pends (_ae_read_from_client server fd bytes) _
        (read-Pends server fd bytes keyed v) (λ (s, es) h. h)
  handle-Pends server timer_due keyed v =
      After-then (λ (n, io). OnlyDeletes (io_or io server.io)) Pends
        (_ae_heartbeat_time_proc server) _
        (After-then (LeavesDeletes server.io) (λ (n, io). OnlyDeletes (io_or io server.io))
          (ce_io_push (some server.io) push_except_fd server.fd none 0) _
          (ce_io_push-OnlyDeletes server.io push_except_fd server.fd none 0 keyed v)
          (λ (r, io) d. d))
        (λ (n, io) d. d)
  handle-Pends server (sends_to fd none size) keyed v = v
  handle-Pends server (sends_to fd (some src) size) keyed v = elim (Bool-cases (size == 0)) [
    | inl bad ↦ simp bad v
    | inr good ↦ simp good (
        After-then (LeavesDeletes server.io) Pends
          (ce_io_push (some server.io) push_fd fd (some src) size) _
          (ce_io_push-OnlyDeletes server.io push_fd fd (some src) size keyed v) (λ (r, io) d. d))
  ]
  handle-Pends server works keyed v =
      After-then OnlyDeletes Pends (work server.io) _ (work-OnlyDeletes server.io v) (λ io d. d)

  -- the ring that the processors read is empty, the keys are addresses of parameters, and so are those
  -- of the deletions that wait
  pub record IsIdle (server : Server e) : Type 0 where
    pub quiet : IsQuiet server.io
    pub keyed : IsKeyed server.io
    pub pends : Pends server

  pub handle_all-IsIdle :
      (xs : List Input) (server : Server e) → IsIdle server → After IsIdle (handle_all server xs)
  unfolding handle_all
  handle_all-IsIdle [] server v = v
  handle_all-IsIdle (x ∷ xs) server v =
      After-then IsIdle IsIdle (handle server x) _
        (joined (handle server x) (handle-Quietly server x v.quiet)
          (handle-Pends server x v.keyed v.pends))
        (λ s. handle_all-IsIdle xs s)
    where
      joined : (m : Run (Server e)) → After (Quietly server) m → After Pends m → After IsIdle m
      joined (ret s) same d = record {
        quiet = rw same.ring v.quiet;
        keyed = same.keyed v.keyed;
        pends = d;
      }
      joined Run.fault same d = tt
      joined Run.hangs same d = tt
