-- ===== src/ChatClient/Tests.antt =====
-- Logins to a server that answers, and to one that does not.
use cevent_sample.Prelude.{◌≡◌, refl, arith, [], ◌∷◌, true, false, none, pos, negsuc, ret, hangs}
use cevent_sample.Shared.{is_refused, has_bad_values}
use cevent_sample.Io.Dictionary.{env}
use cevent_sample.Client.{Host, init_error, ce_client_connect, connect_socket, attach}
use cevent_sample.Io.{ce_io_new}
use cevent_sample.ChatClient.{
  ClientImpl, connecting, disconnected, connect_changed, no_response, login, is_authed,
  connect_and_report, strcpy, notify,
}
use cevent_sample.ChatClient.Login.{login_lem}

abbrev host : Host
host = record { socket = pos 4; connect = λ fd. pos 0; send = λ fd xs n. pos n }

abbrev ready : ClientImpl env
ready = record {
  session = 115 ∷ [];
  ip = 49 ∷ [];
  port = pos 80;
  message_listener = false;
  connect_change_listener = true;
  notification_listener = false;
  login_listener = true;
  client = none;
  notices = [];
}

-- the network of a server that is not there
abbrev silent : Host
silent = record host { connect = λ fd. negsuc 0 }

login_lem_example :
    login silent init_error ready
    ≡ ret (
      true,
      record ready {
        notices = connect_changed connecting ∷ connect_changed disconnected ∷ no_response ∷ [];
      },
    )
unfolding is_refused has_bad_values
login_lem_example = login_lem silent init_error ready refl refl (omega arith) refl refl refl

login-answered : login host init_error ready ≡ hangs
unfolding login is_authed connect_and_report strcpy notify ce_client_connect connect_socket attach
    ce_io_new is_refused has_bad_values
login-answered = refl
