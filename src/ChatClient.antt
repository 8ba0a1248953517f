-- ===== src/ChatClient.antt =====
-- The client of the chat application, src/chat/src/Client.cpp, over the client of the library. A text is
-- the bytes before its NUL; a listener is kept as whether it is set, and the calls of one are events.
-- A local variable that is not set holds what the memory held, which is a parameter.
pub mod Login
mod Tests
use cevent_sample.Prelude.{
  ℕ, ◌+◌, List, [], ◌∷◌, ◌++◌, Bool, true, false, Option, none, some, ◌==◌, ◌||◌, leb,
  if◌then◌else◌, ℤ, pos, Run, ret, fault, ◌>>=◌, length,
}
use cevent_sample.Shared.{Conf, starts_with_nul}
use cevent_sample.Io.{Env}
use cevent_sample.Client.{
  Host, Client, Result, connect_ok, socket_error, server_no_response, init_error, ce_client_connect,
}

-- `ConnectStatus`, and the calls of the listeners
pub data Status : Type 0 where
  connecting connected login_success disconnected conflict : Status

pub data Notice : Type 0 where
  connect_changed : Status → Notice
  no_response : Notice
  init_failed : Notice

-- `ClientImpl`
pub record ClientImpl (e : Env) : Type 0 where
  pub session : List ℕ
  pub ip : List ℕ
  pub port : ℤ
  pub message_listener : Bool
  pub connect_change_listener : Bool
  pub notification_listener : Bool
  pub login_listener : Bool
  pub client : Option (Client e)
  pub notices : List Notice

-- the sizes of `_session` and `_ip`, and of `conf.ip`
abbrev pub text_size : ℕ
text_size = 33

abbrev pub conf_ip_size : ℕ
conf_ip_size = 17

-- `strcpy` into an array of some size: the NUL is written too
unfoldable pub strcpy : ℕ → List ℕ → Run (List ℕ)
strcpy size src = if leb (length src + 1) size then ret src else fault

-- what `SendToType` picks from
pub data SendTo : Type 0 where
  send_to_user send_to_group : SendTo

-- the requests that are not written yet; `packet_id` names a message to send again
pub data Request : Type 0 where
  disconnect : Request
  chat_text : SendTo → (uid : ℤ) → List ℕ → Request
  chat_text_again : (packet_id : ℕ) → Request
  chat_image : SendTo → (uid : ℤ) → List ℕ → (count : ℤ) → Request
  chat_image_again : (packet_id : ℕ) → Request
  chat_voice : SendTo → (uid : ℤ) → List ℕ → (count : ℤ) → Request
  chat_voice_again : (packet_id : ℕ) → Request
  change_online : Bool → Request

unfoldable pub perform : Request → Bool
perform disconnect = false
perform (chat_text to uid chars) = false
perform (chat_text_again packet_id) = false
perform (chat_image to uid file count) = false
perform (chat_image_again packet_id) = false
perform (chat_voice to uid file count) = false
perform (chat_voice_again packet_id) = false
perform (change_online online) = false

abbrev pub login_conf : List ℕ → ℤ → Conf
login_conf ip port = record {
  on_accept = true;
  on_received = true;
  on_exception = true;
  on_close = true;
  per_max_packet_body_size = 4096;
  per_cache_ringbuffer_size = pos 1048576;
  workers = pos 2;
  ip = ip;
  port = port;
  timeout = pos 5;
  keepalive = pos 10;
  heartbeat = pos 60;
}

-- what the local variable `result` holds behind the call
unfoldable pub result_or : Result → Option Result → Result
result_or memory none = memory
result_or memory (some r) = r

module _ {e : Env} where
  -- the constructor, which does not set `_session`
  unfoldable pub new_client_impl : List ℕ → ClientImpl e
  new_client_impl memory = record {
    session = memory;
    ip = [];
    port = pos 0;
    message_listener = false;
    connect_change_listener = false;
    notification_listener = false;
    login_listener = false;
    client = none;
    notices = [];
  }

  unfoldable pub instance_of : List ℕ → Option (ClientImpl e) → ClientImpl e
  instance_of memory none = new_client_impl memory
  instance_of memory (some c) = c

  unfoldable pub set_server : ClientImpl e → List ℕ → ℤ → Run (ClientImpl e)
  set_server c ip port = do
    copied ← strcpy text_size ip
    ret (record c { ip = copied; port = port })

  unfoldable pub set_session : ClientImpl e → List ℕ → Run (ClientImpl e)
  set_session c session = do copied ← strcpy text_size session; ret (record c { session = copied })

  unfoldable pub set_message_listener : ClientImpl e → Bool → ClientImpl e
  set_message_listener c listener = record c { message_listener = listener }

  unfoldable pub set_connect_change_listener : ClientImpl e → Bool → ClientImpl e
  set_connect_change_listener c listener = record c { connect_change_listener = listener }

  unfoldable pub set_notification_listener : ClientImpl e → Bool → ClientImpl e
  set_notification_listener c listener = record c { notification_listener = listener }

  unfoldable pub set_login_listener : ClientImpl e → Bool → ClientImpl e
  set_login_listener c listener = record c { login_listener = listener }

  unfoldable pub is_authed : ClientImpl e → Bool
  is_authed c = false

  -- a call through a pointer to a listener
  unfoldable pub notify : Bool → ClientImpl e → Notice → Run (ClientImpl e)
  notify set c n = if set then ret (record c { notices = c.notices ++ (n ∷ []) }) else fault

  -- the `switch` on the result
  unfoldable pub report : ClientImpl e → Result → Run (ClientImpl e)
  report c connect_ok = notify c.connect_change_listener c (connect_changed connected)
  report c server_no_response = do
    c' ← notify c.connect_change_listener c (connect_changed disconnected)
    notify c'.login_listener c' no_response
  report c init_error = notify c.login_listener c init_failed
  report c socket_error = notify c.login_listener c init_failed

  -- behind the test of the settings
  unfoldable pub connect_and_report : Host → Result → ClientImpl e → Run (Bool × ClientImpl e)
  connect_and_report host memory c = do
    ip ← strcpy conf_ip_size c.ip
    c1 ← notify c.connect_change_listener c (connect_changed connecting)
    (client, result, effects) ← ce_client_connect host (some (login_conf ip c.port)) (some tt)
    c2 ← report (record c1 { client = client }) (result_or memory result)
    ret (true, c2)

  unfoldable pub login : Host → Result → ClientImpl e → Run (Bool × ClientImpl e)
  login host memory c =
      if is_authed c
      then ret (true, c)
      else if starts_with_nul c.ip || starts_with_nul c.session
      then ret (false, c)
      else connect_and_report host memory c
