-- ===== src/Io/Tests.antt =====
-- Runs of the connection layer, and the theorems at them.
use cevent_sample.Prelude.{
  ℕ, ◌≡◌, refl, arith, true, false, none, some, List, [], ◌∷◌, ◌==◌, if◌then◌else◌, pos, ret, fault,
}
use cevent_sample.Ringbuffer.{Rb, ce_rb_new, can_read}
use cevent_sample.Ringbuffer.Valid.{IsValid}
use cevent_sample.Ringbuffer.Contents.{contents}
use cevent_sample.Shared.{Conf, received, io_fd, parameter, push_fd}
use cevent_sample.Io.{
  Param, IoFd, Io, new_pool, log, ce_io_new, make_io, ce_io_add, add_new, ce_io_enqueue, ce_io_push,
  packets,
}
use cevent_sample.Io.Lost.{added_fd_faults}
use cevent_sample.Io.Quiet.{IsQuiet}
use cevent_sample.Io.Packets.{verdict, Ends, packets-Ends}
use cevent_sample.Io.Framing.{part_is_delivered}
use cevent_sample.Io.Dictionary.{env}

abbrev pub conf : Conf
conf = record {
  on_accept = true;
  on_received = true;
  on_exception = true;
  on_close = true;
  per_max_packet_body_size = 6;
  per_cache_ringbuffer_size = pos 16;
  workers = pos 1;
  ip = 49 ∷ [];
  port = pos 80;
  timeout = pos 0;
  keepalive = pos 0;
  heartbeat = pos 1;
}

abbrev param : Param
param = record { conf = conf; send = λ fd xs n. pos n }

abbrev pub ring : Rb
ring = record {
  buffer = 0 ∷ 0 ∷ 0 ∷ 0 ∷ 0 ∷ 0 ∷ 0 ∷ 0 ∷ 0 ∷ 0 ∷ 0 ∷ 0 ∷ 0 ∷ 0 ∷ 0 ∷ 0 ∷ [];
  head = 0;
  tail = 0;
  wrap = false;
  capacity = 16;
  retval_buffer = [];
  retval_size = 0;
}

abbrev pub new_io : Io env
new_io = record {
  param = param;
  io_dict = [];
  workers = new_pool 1;
  stop = false;
  enqueue_fd_event = ring;
  push_fd_event = ring;
  fds = λ _. none;
  calls = 0;
  events = [];
}

new_io-made : ce_io_new param ≡ ret new_io
unfolding ce_io_new make_io ce_rb_new
new_io-made = refl

abbrev pub client : IoFd
client = record {
  fd = pos 5;
  enqueue_buffer = ring;
  enqueue_cache_body_size = 0;
  push_buffer = ring;
}

abbrev with_client : Io env
with_client = record new_io {
  io_dict = (pos 5, parameter 0, io_fd 0) ∷ [];
  fds = λ p. if p == 0 then some client else none;
  calls = 1;
}

client-added : ce_io_add new_io (pos 5) ≡ ret (true, with_client)
unfolding ce_io_add add_new ce_rb_new
client-added = refl

added_fd_faults_example :
    (ce_io_enqueue (some with_client) (pos 5) (some (1 ∷ [])) 1 ≡ fault)
    × (ce_io_push (some with_client) push_fd (pos 5) (some (1 ∷ [])) 1 ≡ fault)
added_fd_faults_example = added_fd_faults new_io (pos 5) client-added refl push_fd (1 ∷ []) 1 refl

ring-IsQuiet : IsQuiet new_io
unfolding can_read
ring-IsQuiet = omega arith

-- a size of 3 and the bytes behind it
abbrev holding : List ℕ → ℕ → IoFd
holding xs n = record client { enqueue_buffer = record ring { buffer = xs; tail = n } }

abbrev two_of_three : IoFd
two_of_three = holding (3 ∷ 0 ∷ 7 ∷ 8 ∷ 0 ∷ 0 ∷ 0 ∷ 0 ∷ 0 ∷ 0 ∷ 0 ∷ 0 ∷ 0 ∷ 0 ∷ 0 ∷ 0 ∷ []) 4

abbrev four_of_three : IoFd
four_of_three = holding (3 ∷ 0 ∷ 7 ∷ 8 ∷ 9 ∷ 1 ∷ 0 ∷ 0 ∷ 0 ∷ 0 ∷ 0 ∷ 0 ∷ 0 ∷ 0 ∷ 0 ∷ 0 ∷ []) 6

two-IsValid : IsValid two_of_three.enqueue_buffer
two-IsValid = record {
  storage = refl;
  positive = omega arith;
  small = omega arith;
  head_in = omega arith;
  tail_in = omega arith;
  wrapped = λ w. cc;
  scratch = refl;
}

four-IsValid : IsValid four_of_three.enqueue_buffer
four-IsValid = record {
  storage = refl;
  positive = omega arith;
  small = omega arith;
  head_in = omega arith;
  tail_in = omega arith;
  wrapped = λ w. cc;
  scratch = refl;
}

part_is_delivered_example :
    (out : Io env × IoFd) × (packets 5 new_io two_of_three ≡ ret out)
    × (out.0 ≡ log new_io (received (pos 5) (7 ∷ 8 ∷ [])))
    × (contents out.1.enqueue_buffer ≡ [])
unfolding can_read contents
part_is_delivered_example =
    part_is_delivered 5 new_io two_of_three two-IsValid (omega arith) 3 7 (8 ∷ []) (omega arith)
      (omega arith) (omega arith) refl (omega arith)

packets-Ends_example :
    Ends new_io four_of_three
      (verdict 6 (3 ∷ 0 ∷ 7 ∷ 8 ∷ 9 ∷ 1 ∷ []))
      (packets 7 new_io four_of_three)
unfolding can_read contents
packets-Ends_example =
    packets-Ends 7 new_io four_of_three (3 ∷ 0 ∷ 7 ∷ 8 ∷ 9 ∷ 1 ∷ []) refl four-IsValid (omega arith)
