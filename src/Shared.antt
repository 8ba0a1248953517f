-- ===== src/Shared.antt =====
-- src/cevent/cevent/ce_shared.h, and the types that ce_io.c, ce_server.c and ce_client.c share.
use cevent_sample.Prelude.{
  ℕ, Bool, true, false, not, ◌||◌, List, [], ◌∷◌, ltb, ◌==◌, ℤ, pos, negsuc, is_neg, is_nonpos,
  pos_part,
}

pub data Exception : Type 0 where
  packet_illegal packet_send_error : Exception

pub data PushType : Type 0 where
  push_fd push_except_fd : PushType

-- `struct ce_conf`; of a callback it is kept whether it is there. `ip` is the text before its NUL.
pub record Conf : Type 0 where
  pub on_accept : Bool
  pub on_received : Bool
  pub on_exception : Bool
  pub on_close : Bool
  pub per_max_packet_body_size : ℕ
  pub per_cache_ringbuffer_size : ℤ
  pub workers : ℤ
  pub ip : List ℕ
  pub port : ℤ
  pub timeout : ℤ
  pub keepalive : ℤ
  pub heartbeat : ℤ

-- a call of one of the callbacks
pub data Event : Type 0 where
  accepted : (fd : ℤ) → Event
  received : (fd : ℤ) → List ℕ → Event
  excepted : (fd : ℤ) → Exception → Event
  closed : (fd : ℤ) → Event

-- What a pointer of the program points to: an object `ce_io_fd_t`, the `fd` parameter of a call that
-- is over, or bytes inside the storage of a ring.
pub data Ptr : Type 0 where
  null : Ptr
  io_fd : ℕ → Ptr
  parameter : ℕ → Ptr
  ring_bytes : Ptr

-- the jobs that ce_io.c gives to its pool
pub data Job : Type 0 where
  enqueue_job push_job : Job
  delete_job : Ptr → Job

-- `ip[0] == '\0'`
abbrev pub starts_with_nul : List ℕ → Bool
starts_with_nul [] = true
starts_with_nul (c ∷ cs) = c == 0

unfoldable pub has_bad_values : Conf → Bool
has_bad_values conf =
    conf.per_max_packet_body_size == 0
    || ltb (pos_part conf.per_cache_ringbuffer_size) conf.per_max_packet_body_size
    || is_nonpos conf.workers
    || starts_with_nul conf.ip
    || is_nonpos conf.port
    || is_neg conf.timeout
    || is_neg conf.keepalive
    || is_nonpos conf.heartbeat

-- the test of a configuration that `ce_server_startup` and `ce_client_connect` begin with
unfoldable pub is_refused : Conf → Bool
is_refused conf =
    not conf.on_accept
    || not conf.on_received
    || not conf.on_exception
    || not conf.on_close
    || is_nonpos conf.per_cache_ringbuffer_size
    || has_bad_values conf

-- the value that a call answers an error with, -1
abbrev pub is_error : ℤ → Bool
is_error (pos n) = false
is_error (negsuc n) = n == 0

-- what a call does outside the process, or to its memory
pub data Effect : Type 0 where
  sock_init : Bool → Effect
  allocated freed : Effect
  opened shut : (fd : ℤ) → Effect
  loop_created loop_deleted : Effect
  watched unwatched : (fd : ℤ) → Effect
  kept_alive : (fd : ℤ) → (delay : ℤ) → Effect
  thread_started : Effect
  timer : (interval : ℤ) → Effect
