-- ===== src/ChatClient/Login.antt =====
-- What a login does to the settings, and what it tells of a connection.
use cevent_sample.Prelude.{
  ℕ, ◌+◌, ◌≡◌, ◌≤◌, ◌<◌, refl, ap, arith, List, [], ◌∷◌, ◌++◌, Bool, true, false, leb_of_le,
  leb_of_lt, ℤ, pos_part, ret, fault, hangs, length, ◌||◌, if◌then◌else◌, Bool-cases, inl, inr,
  none,
}
use cevent_sample.Shared.{starts_with_nul, is_refused, is_error}
use cevent_sample.Io.{Env, ce_io_new}
use cevent_sample.Client.{
  ce_client_connect, connect_socket, attach, Host, Result, connect_ok, socket_error,
  server_no_response, init_error, failed,
}
use cevent_sample.Threadpool.Create.{Creating, Creates, IsCreated, ce_tp_create-hangs}
use cevent_sample.ChatClient.{
  ClientImpl, Notice, connecting, connected, disconnected, connect_changed, no_response,
  init_failed, strcpy, login_conf, set_server, is_authed, notify, report, result_or,
  connect_and_report, login,
}

strcpy-ret : (size : ℕ) (src : List ℕ) → length src < size → strcpy size src ≡ ret src
unfolding strcpy
strcpy-ret size src h = simp (leb_of_le (length src + 1) size (omega arith))

strcpy-fault : (size : ℕ) (src : List ℕ) → size ≤ length src → strcpy size src ≡ fault
unfolding strcpy
strcpy-fault size src h = simp (leb_of_lt (length src + 1) size (omega arith))

-- what the listeners are told of a result
abbrev pub told : Result → List Notice
told connect_ok = connect_changed connected ∷ []
told server_no_response = connect_changed disconnected ∷ no_response ∷ []
told init_error = init_failed ∷ []
told socket_error = init_failed ∷ []

-- While the pool's threads are started, whatever the address and the port, `ce_tp_create` has not
-- returned: a login never gets behind it.
pub login_waits_for_pool :
    (ip : List ℕ) (port : ℤ) (s : Creating)
    → Creates (pos_part (login_conf ip port).workers) s
    → ¬ (IsCreated (pos_part (login_conf ip port).workers) s)
login_waits_for_pool ip port s r = ce_tp_create-hangs (omega arith) r

append_two :
    (ns : List Notice) (n : Notice) (more : List Notice)
    → (ns ++ (n ∷ [])) ++ more ≡ ns ++ (n ∷ more)
append_two [] n more = refl
append_two (x ∷ ns) n more = ap (◌∷◌ x) (append_two ns n more)

module _ {e : Env} where
  -- An address of 17 to 32 bytes is taken by `setServer`; a login with it writes behind the end of the
  -- array for the address in the configuration.
  pub long_address_faults :
      (host : Host) (memory : Result) (c : ClientImpl e) (ip : List ℕ) (port : ℤ)
      → 17 ≤ length ip
      → length ip ≤ 32
      → starts_with_nul ip ≡ false
      → starts_with_nul c.session ≡ false
      → (c' : ClientImpl e) × (set_server c ip port ≡ ret c') × (login host memory c' ≡ fault)
  unfolding set_server login is_authed connect_and_report
  long_address_faults host memory c ip port long fits some_ip some_session = (
    record c { ip = ip; port = port },
    simp (strcpy-ret 33 ip (omega arith)),
    simp (some_ip, some_session, strcpy-fault 17 ip long),
  )

  notified : ClientImpl e → List Notice → ClientImpl e
  notified c ns = record c { notices = c.notices ++ ns }

  notify-set :
      (c : ClientImpl e) (set : Bool) (n : Notice)
      → set ≡ true
      → notify set c n ≡ ret (notified c (n ∷ []))
  unfolding notify notified
  notify-set c set n h = simp h

  report-told :
      (c : ClientImpl e) (r : Result)
      → c.connect_change_listener ≡ true
      → c.login_listener ≡ true
      → report c r ≡ ret (notified c (told r))
  unfolding report notify notified
  report-told c connect_ok change logins = simp change
  report-told c server_no_response change logins =
      simp (change, logins, append_two c.notices (connect_changed disconnected) (no_response ∷ []))
  report-told c init_error change logins = simp logins
  report-told c socket_error change logins = simp logins

  -- A login with an address that fits, to a server that answers on a socket that can be made, never
  -- returns: the listener is told of the connecting, and the layer of two workers is never made.
  login_hangs :
      (host : Host) (memory : Result) (c : ClientImpl e)
      → starts_with_nul c.ip ≡ false
      → starts_with_nul c.session ≡ false
      → length c.ip ≤ 16
      → is_refused (login_conf c.ip c.port) ≡ false
      → is_error host.socket ≡ false
      → failed (host.connect host.socket) ≡ false
      → c.connect_change_listener ≡ true
      → login host memory c ≡ hangs
  unfolding login is_authed connect_and_report ce_client_connect connect_socket attach ce_io_new
  login_hangs host memory c some_ip some_session short sound opens answered change = simp (
    some_ip,
    some_session,
    strcpy-ret 17 c.ip (omega arith),
    notify-set c c.connect_change_listener (connect_changed connecting) change,
    sound,
    opens,
    answered,
  )

  -- A login to a server that does not answer, or without a socket, returns true all the same, has no
  -- client, and tells the listeners what became of it: no response, or not initialised.
  login_tells_failure :
      (host : Host) (memory : Result) (c : ClientImpl e)
      → starts_with_nul c.ip ≡ false
      → starts_with_nul c.session ≡ false
      → length c.ip ≤ 16
      → is_refused (login_conf c.ip c.port) ≡ false
      → (is_error host.socket || failed (host.connect host.socket)) ≡ true
      → c.connect_change_listener ≡ true
      → c.login_listener ≡ true
      → login host memory c
        ≡ ret (
          true,
          record c {
            client = none;
            notices =
                c.notices
                ++ (connect_changed connecting
                    ∷ told (if is_error host.socket then socket_error else server_no_response));
          },
        )
  unfolding login is_authed connect_and_report ce_client_connect connect_socket result_or notified
  login_tells_failure host memory c some_ip some_session short sound fails change logins =
      let c1 : ClientImpl e = record c {
        notices = c.notices ++ (connect_changed connecting ∷ []);
        client = none;
      } in
      let told_all : (r : Result)
          → (c1.notices ++ told r) ≡ (c.notices ++ (connect_changed connecting ∷ told r)) =
        λ r. append_two c.notices (connect_changed connecting) (told r) in
      let begins = notify-set c c.connect_change_listener (connect_changed connecting) change in
      let fits = strcpy-ret 17 c.ip (omega arith) in
      elim (Bool-cases (is_error host.socket)) [
        | inl bad ↦ simp (
          some_ip,
          some_session,
          sound,
          bad,
          fits,
          begins,
          report-told c1 socket_error change logins,
          told_all socket_error,
        )
        | inr opens ↦
            let unanswered : failed (host.connect host.socket) ≡ true =
              ground (arith, opens, fails) in
            simp (
              some_ip,
              some_session,
              sound,
              opens,
              unanswered,
              fits,
              begins,
              report-told c1 server_no_response change logins,
              told_all server_no_response,
            )
      ]

  -- A login with a session and an address that fits, in settings that are not refused and with its
  -- listeners set: if there is no socket, or the server does not answer, it returns true all the same,
  -- has no client, and tells the listeners which of the two it was. If the server answers, it never
  -- returns, as the layer of two workers is never made. So no login has a client, and the variable that
  -- nothing sets is not read.
  pub login_lem :
      (host : Host) (memory : Result) (c : ClientImpl e)
      → starts_with_nul c.ip ≡ false
      → starts_with_nul c.session ≡ false
      → length c.ip ≤ 16
      → is_refused (login_conf c.ip c.port) ≡ false
      → c.connect_change_listener ≡ true
      → c.login_listener ≡ true
      → login host memory c ≡ (
          if is_error host.socket || failed (host.connect host.socket)
          then ret (
            true,
            record c {
              client = none;
              notices =
                  c.notices
                  ++ (connect_changed connecting
                      ∷ told (if is_error host.socket then socket_error else server_no_response));
            },
          )
          else hangs)
  login_lem host memory c some_ip some_session short sound change logins =
      elim (Bool-cases (is_error host.socket || failed (host.connect host.socket))) [
        | inl fails ↦
            simp fails (
              login_tells_failure host memory c some_ip some_session short sound fails change
                logins)
        | inr answers ↦
            let opens : is_error host.socket ≡ false = ground (arith, answers) in
            let answered : failed (host.connect host.socket) ≡ false = ground (arith, answers) in
            simp (
              opens,
              answered,
              login_hangs host memory c some_ip some_session short sound opens answered change,
            )
      ]
