-- ===== src/Server/Handlers.antt =====
-- The handlers of the event loop: a client that is accepted, read from and closed, and the timer.
use cevent_sample.Prelude.{
  ℕ, ◌≡◌, refl, ap, true, false, none, some, List, [], ◌∷◌, ◌++◌, ℤ, is_nonpos, ret, fault, arith,
  inl, inr, Option-cases, length,
}
use cevent_sample.Shared.{
  Conf, accepted, closed, is_error, Effect, opened, kept_alive, watched, push_except_fd,
}
use cevent_sample.Io.{Env, Io, log, register, del, del_entry, ce_io_add, ce_io_push}
use cevent_sample.Io.Lost.{Added, ce_io_add-Added, Added-enqueue}
use cevent_sample.Server.{
  Net, Server, ce_server_startup, _ae_accept_tcp_handler, add_client, _ae_read_from_client,
  _ae_client_close, _ae_heartbeat_time_proc,
}
use cevent_sample.Server.Made.{started-IsMade}

module _ {e : Env} where
  log-Added :
      (io : Io e) (fd : ℤ) (io' : Io e) → Added io fd io' → Added io fd (log io' (accepted fd))
  unfolding log
  log-Added io fd io' a = record { entry = a.entry; going = a.going }

  abbrev pub with_client : Server e → ℤ → Io e → Server e
  with_client server fd io' = record server { io = log io' (accepted fd) }

  -- A client with a positive descriptor that is accepted on a network that answers without an error,
  -- and added to the connection layer, is reported by `on_accept`; the first bytes that are then read
  -- from it make the read handler fault, whatever they are.
  pub first_bytes_fault :
      (net : Net) (server : Server e) (io' : Io e)
      → is_nonpos (net.tcp_accept server.fd) ≡ false
      → is_error (net.tcp_accept server.fd) ≡ false
      → is_error (net.keep_alive (net.tcp_accept server.fd) server.conf.keepalive) ≡ false
      → is_error (net.file_event (net.tcp_accept server.fd)) ≡ false
      → ce_io_add server.io (net.tcp_accept server.fd) ≡ ret (true, io')
      → (es : List Effect) × (_ae_accept_tcp_handler net server
          ≡ ret (with_client server (net.tcp_accept server.fd) io', es))
        × ((b : ℕ) (bs : List ℕ)
            → _ae_read_from_client
                (with_client server (net.tcp_accept server.fd) io')
                (net.tcp_accept server.fd)
                (some (b ∷ bs))
              ≡ fault)
  unfolding _ae_accept_tcp_handler add_client _ae_read_from_client
  first_bytes_fault net server io' positive answered kept watching added =
      let c_fd = net.tcp_accept server.fd in
      let a = log-Added server.io c_fd io' (ce_io_add-Added server.io c_fd added) in
      (
        opened c_fd ∷ kept_alive c_fd server.conf.keepalive ∷ watched c_fd ∷ [],
        simp (answered, kept, watching, added),
        λ b bs. simp (
            Added-enqueue server.io c_fd (log io' (accepted c_fd)) a positive (b ∷ bs)
              (length (b ∷ bs)) (ground arith)),
      )

  del-find :
      (io : Io e) (fd : ℤ)
      → is_nonpos fd ≡ false
      → io.stop ≡ false
      → (e.dict_find (del io fd).1.io_dict fd ≡ none) × ((del io fd).1.events ≡ io.events)
  unfolding del del_entry register
  del-find io fd positive going = elim (Option-cases (e.dict_find io.io_dict fd)) [
    | inl new ↦ (simp (positive, going, new), simp (positive, going, new))
    | inr (entry, old) ↦
        (simp (positive, going, old, e.find-delete_self io.io_dict fd), simp (positive, going, old))
  ]

  -- When a client with a positive descriptor goes, by the end of its stream or by an error, while the
  -- connection layer is not stopped, its descriptor has no entry any more and may be added again, and
  -- `on_close` is the one callback made.
  pub _ae_read_from_client-closes :
      (server : Server e) (fd : ℤ)
      → is_nonpos fd ≡ false
      → server.io.stop ≡ false
      → (server' : Server e) × (es : List Effect) × (_ae_read_from_client server fd none
          ≡ ret (server', es))
        × (e.dict_find server'.io.io_dict fd ≡ none)
        × (server'.io.events ≡ server.io.events ++ (closed fd ∷ []))
  unfolding _ae_read_from_client _ae_client_close log
  _ae_read_from_client-closes server fd positive going =
      let (gone, silent) = del-find server.io fd positive going in
      (_, _, refl, gone, ap (λ es. es ++ (closed fd ∷ [])) silent)

  ce_io_push_null :
      (io : Io e) (fd : ℤ) → ce_io_push (some io) push_except_fd fd none 0 ≡ ret (false, some io)
  unfolding ce_io_push
  ce_io_push_null io fd = refl

  -- The timer of a server that was started changes nothing in the connection layer, and asks for its
  -- next call after the interval that the allocated memory held, whatever the configuration says.
  pub heartbeat_is_idle :
      (net : Net) (memory conf : Conf) {server : Server e} {es : List Effect}
      → ce_server_startup net memory (some conf) (some tt) ≡ ret (some server, es)
      → _ae_heartbeat_time_proc server ≡ ret (memory.heartbeat, some server.io)
  unfolding _ae_heartbeat_time_proc
  heartbeat_is_idle net memory conf {server} started =
      let (made, own) = started-IsMade net memory conf started in
      simp (ce_io_push_null server.io server.fd, own)
