-- ===== src/Client/Connect.antt =====
-- What becomes of a connection: the socket of one that fails, and the bytes of one that stands.
use cevent_sample.Prelude.{
  ℕ, ◌≡◌, refl, true, false, none, some, List, [], ◌∷◌, ◌==◌, is_nonpos, ltb, pos_part, ret, fault,
  arith, length, subst, After,
}
use cevent_sample.Shared.{
  Conf, is_refused, is_error, Effect, allocated, freed, opened, kept_alive, thread_started, push_fd,
}
use cevent_sample.Io.{Env}
use cevent_sample.Io.Fresh.{fresh, with_fd, ce_io_new-fresh, ce_io_add-new}
use cevent_sample.Io.Lost.{ce_io_add-Added, Added-enqueue, added_fd_faults}
use cevent_sample.Io.Same.{Keeps, ce_io_add-Same, ce_io_new-IsKeyed}
use cevent_sample.Io.Destory.{ce_io_destory-found}
use cevent_sample.Server.Startup.{opened_fds, shut_fds, cache_is_positive, ce_rb_new-ret}
use cevent_sample.Client.{
  Host, Client, server_no_response, failed, attach, attached, connect_socket, ce_client_connect,
  receive, _ce_client_routine, ce_client_send, ce_client_disconnect,
}

module _ (e : Env) (host : Host) (conf : Conf) where
  -- A connection that the server does not answer is reported as such, and its socket stays open.
  pub unanswered_connect_leaks :
      is_refused conf ≡ false
      → is_error host.socket ≡ false
      → failed (host.connect host.socket) ≡ true
      → (es : List Effect) × (ce_client_connect {e = e} host (some conf) (some tt)
          ≡ ret (none, some server_no_response, es))
        × (opened_fds es ≡ host.socket ∷ [])
        × (shut_fds es ≡ [])
  unfolding ce_client_connect connect_socket
  unanswered_connect_leaks sound opens unanswered =
      (allocated ∷ opened host.socket ∷ freed ∷ [], simp (sound, opens, unanswered), refl, refl)

  -- With one worker at most, a connection with a positive descriptor that the server answers gives a client with the
  -- configuration. Its thread faults at the first bytes that it receives, each call that sends
  -- through the new client faults, and so does the call that disconnects it.
  pub connected_client_faults :
      is_refused conf ≡ false
      → ltb 1 (pos_part conf.workers) ≡ false
      → is_error host.socket ≡ false
      → failed (host.connect host.socket) ≡ false
      → is_nonpos host.socket ≡ false
      → (client : Client e) × (es : List Effect) × (ce_client_connect host (some conf) (some tt)
          ≡ ret (some client, none, es))
        × (client.io.param.conf ≡ conf)
        × ((b : ℕ) (bs : List ℕ) (more : List (List ℕ))
            → _ce_client_routine client ((b ∷ bs) ∷ more) ≡ fault)
        × ((src : List ℕ) (size : ℕ)
            → (size == 0) ≡ false
            → ce_client_send (some client) (some src) size ≡ fault)
        × (ce_client_disconnect (some client) ≡ fault)
  unfolding ce_client_connect connect_socket attach attached _ce_client_routine receive
      ce_client_send ce_client_disconnect
  connected_client_faults sound few opens answered positive =
      let (ring, made) =
        ce_rb_new-ret conf.per_cache_ringbuffer_size (cache_is_positive conf sound) in
      let io = fresh e ring (record { conf = conf; send = host.send }) in
      let io' = with_fd e ring io host.socket in
      let started = ce_io_new-fresh e ring (record { conf = conf; send = host.send }) made few in
      let added = ce_io_add-new e ring io host.socket refl (e.find-create host.socket) made in
      let a = ce_io_add-Added io host.socket added in
      let same = subst (After (Keeps io)) added (ce_io_add-Same io host.socket) in
      let keyed =
        same.keyed (ce_io_new-IsKeyed (record { conf = conf; send = host.send }) started) in
      (
        record { io = io'; fd = host.socket; stop = true },
        allocated
            ∷ opened host.socket
            ∷ kept_alive host.socket conf.keepalive
            ∷ thread_started
            ∷ [],
        simp (sound, opens, answered, started, added),
        refl,
        λ b bs more.
            simp (
              Added-enqueue io host.socket io' a positive (b ∷ bs) (length (b ∷ bs))
                (ground arith)),
        λ src size any.
            simp (any, (added_fd_faults io host.socket added positive push_fd src size any).1),
        simp (ce_io_destory-found io' host.socket a.entry keyed),
      )
