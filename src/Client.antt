-- ===== src/Client.antt =====
-- The client of src/cevent/cevent/ce_client.c: a connection, its receiving thread, its end.
-- What `socket`, `connect` and `send` answer is the parameter `Host`; what a call does to the system
-- and to memory is a list of effects. The calls run one after the other here; Client/Waiting is about
-- the thread that `ce_client_connect` starts.
pub mod Connect
pub mod Waiting
mod Tests
use cevent_sample.Prelude.{
  ℕ, List, [], ◌∷◌, Bool, true, false, Option, none, some, ◌==◌, if◌then◌else◌, ℤ, pos, negsuc, Run,
  ret, fault, ◌>>=◌, length,
}
use cevent_sample.Shared.{
  Conf, closed, push_fd, is_refused, is_error, Effect, allocated, freed, opened, shut, kept_alive,
  thread_started,
}
use cevent_sample.Io.{Env, Io, log, ce_io_new, ce_io_add, ce_io_enqueue, ce_io_push, ce_io_destory}

-- `ce_connect_result`
pub data Result : Type 0 where
  connect_ok socket_error server_no_response init_error : Result

pub record Host : Type 0 where
  pub socket : ℤ
  pub connect : (fd : ℤ) → ℤ
  pub send : ℤ → List ℕ → ℕ → ℤ

-- `struct ce_client`
pub record Client (e : Env) : Type 0 where
  pub io : Io e
  pub fd : ℤ
  pub stop : Bool

-- `ret != 0`
abbrev pub failed : ℤ → Bool
failed (pos n) = if n == 0 then false else true
failed (negsuc n) = true

module _ {e : Env} where
  unfoldable pub attached :
      Conf → ℤ → Io e → Bool → Run (Option (Client e) × Option Result × List Effect)
  attached conf fd io true = ret (
    some (record { io = io; fd = fd; stop = true }),
    none,
    allocated ∷ opened fd ∷ kept_alive fd conf.keepalive ∷ thread_started ∷ [],
  )
  attached conf fd io false = ce_io_destory (some io) >>= λ gone.
      ret (none, some init_error, allocated ∷ opened fd ∷ shut fd ∷ freed ∷ [])

  -- behind `connect`; the memory of the connection layer is not counted
  unfoldable pub attach : Host → Conf → ℤ → Run (Option (Client e) × Option Result × List Effect)
  attach host conf fd = do
    io ← ce_io_new (record { conf = conf; send = host.send })
    (r, io') ← ce_io_add io fd
    attached conf fd io' r

  unfoldable pub connect_socket :
      Host → Conf → ℤ → Run (Option (Client e) × Option Result × List Effect)
  connect_socket host conf fd =
      if is_error fd
      then ret (none, some socket_error, allocated ∷ freed ∷ [])
      else if failed (host.connect fd)
      then ret (none, some server_no_response, allocated ∷ opened fd ∷ freed ∷ [])
      else attach host conf fd

  -- `none` for `result` stands for NULL; of what is returned, what `*result` is set to.
  unfoldable pub ce_client_connect :
      Host → Option Conf → Option (Unit {0}) → Run (Option (Client e) × Option Result × List Effect)
  ce_client_connect host none result = ret (none, none, [])
  ce_client_connect host (some conf) none = ret (none, none, [])
  ce_client_connect host (some conf) (some tt) =
      if is_refused conf then ret (none, none, []) else connect_socket host conf host.socket

  unfoldable pub leave_routine : Client e → Client e
  leave_routine client = record client { io = log client.io (closed client.fd) }

  -- The bytes that each call of `recv` shows, until one shows none or `stop` is seen.
  unfoldable pub receive : Client e → List (List ℕ) → Run (Client e)
  receive client [] = ret (leave_routine client)
  receive client (buffer ∷ buffers) =
      ce_io_enqueue (some client.io) client.fd (some buffer) (length buffer) >>= λ (r, io).
      elim io [
        | none ↦ fault
        | some io' ↦
            let client' = record client { io = io' } in
            let rest = receive client' buffers in if r then rest else ret (leave_routine client')
      ]

  unfoldable pub _ce_client_routine : Client e → List (List ℕ) → Run (Client e)
  _ce_client_routine client buffers = receive (record client { stop = false }) buffers

  unfoldable pub ce_client_send :
      Option (Client e) → Option (List ℕ) → ℕ → Run (Bool × Option (Io e))
  ce_client_send none src size = ret (false, none)
  ce_client_send (some client) none size = ret (false, some client.io)
  ce_client_send (some client) (some src) size =
      if size == 0
      then ret (false, some client.io)
      else ce_io_push (some client.io) push_fd client.fd (some src) size

  -- `client` is read with no NULL test.
  unfoldable pub ce_client_disconnect : Option (Client e) → Run (List Effect)
  ce_client_disconnect none = fault
  ce_client_disconnect (some client) = do
    io ← ce_io_destory (some client.io)
    ret (shut client.fd ∷ freed ∷ [])
