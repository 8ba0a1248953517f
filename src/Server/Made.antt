-- ===== src/Server/Made.antt =====
-- Where the parts of a server that was started come from.
use cevent_sample.Prelude.{
  ◌≡◌, refl, subst, Option, none, some, List, ret, After, After-if, After-then, After-of,
}
use cevent_sample.Shared.{Conf, Effect, is_error, is_refused}
use cevent_sample.Io.{Env, Param, ce_io_new}
use cevent_sample.Server.{Net, Server, serve, start_loop, start_listening, ce_server_startup}

module _ (e : Env) (net : Net) (memory conf : Conf) where
  abbrev param_of : Param
  param_of = record { conf = conf; send = net.send }

  -- a new connection layer, and a `conf` that is what the memory held
  abbrev IsMade : Option (Server e) × List Effect → Type 0
  IsMade (none, es) = Unit
  IsMade (some server, es) = (ce_io_new param_of ≡ ret server.io) × (server.conf ≡ memory)

  startup-IsMade : After IsMade (ce_server_startup net memory (some conf) (some tt))
  unfolding ce_server_startup start_listening start_loop serve
  startup-IsMade =
      let fd = net.tcp_server conf.port in
      After-if IsMade (is_refused conf) _ _ (λ bad. tt)
        λ good.
          After-if IsMade (is_error fd) _ _ (λ bad. tt)
            λ listening.
              After-if IsMade (is_error (net.keep_alive fd conf.keepalive)) _ _ (λ bad. tt)
                λ kept.
                  After-if IsMade net.event_loop _ _
                    (λ loop.
                      After-if IsMade (is_error (net.file_event fd)) _ _ (λ bad. tt)
                        λ watching.
                          After-then (λ io. ce_io_new param_of ≡ ret io) IsMade (ce_io_new param_of)
                            _
                            (After-of (λ io. ce_io_new param_of ≡ ret io) (ce_io_new param_of)
                              (λ io made. made))
                            (λ io made. (made, refl)))
                    (λ lost. tt)

module _ {e : Env} (net : Net) (memory conf : Conf) {server : Server e} {es : List Effect}
    (started : ce_server_startup net memory (some conf) (some tt) ≡ ret (some server, es)) where
  pub started-IsMade :
      (ce_io_new (record { conf = conf; send = net.send }) ≡ ret server.io) × (server.conf ≡ memory)
  started-IsMade =
      subst (After (IsMade e net memory conf)) started (startup-IsMade e net memory conf)
