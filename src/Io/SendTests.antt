-- ===== src/Io/SendTests.antt =====
-- Runs of the loop that sends, and its theorems at them.
use cevent_sample.Prelude.{
  ℕ, ◌≡◌, refl, arith, true, [], ◌∷◌, pos, ret, replicate, length-replicate, drop,
}
use cevent_sample.Ringbuffer.{can_read}
use cevent_sample.Ringbuffer.Valid.{IsValid}
use cevent_sample.Ringbuffer.Contents.{contents}
use cevent_sample.Shared.{excepted, packet_send_error}
use cevent_sample.Io.{IoFd, log, del, sends}
use cevent_sample.Io.Tests.{new_io, client, ring}
use cevent_sample.Io.Sends.{chunk, IsBounded, Finishes, sends-Finishes, long_backlog_breaks}

-- two bytes wait behind the end of the storage and at its start
abbrev waiting : IoFd
waiting = record client {
  push_buffer = record ring {
    buffer = 8 ∷ 0 ∷ 0 ∷ 0 ∷ 0 ∷ 0 ∷ 0 ∷ 0 ∷ 0 ∷ 0 ∷ 0 ∷ 0 ∷ 0 ∷ 0 ∷ 0 ∷ 7 ∷ [];
    head = 15;
    tail = 1;
    wrap = true;
  };
}

waiting-IsValid : IsValid waiting.push_buffer
waiting-IsValid = record {
  storage = refl;
  positive = omega arith;
  small = omega arith;
  head_in = omega arith;
  tail_in = omega arith;
  wrapped = λ w. omega arith;
  scratch = refl;
}

sends-Finishes_example : Finishes new_io waiting (7 ∷ 8 ∷ []) (sends 3 new_io waiting)
unfolding contents
sends-Finishes_example =
    sends-Finishes 3 new_io waiting (7 ∷ 8 ∷ []) refl waiting-IsValid (omega arith)

abbrev long_size : ℕ
long_size = 70000

abbrev backlog : IoFd
backlog = record client {
  push_buffer = record {
    buffer = replicate long_size 1;
    head = 0;
    tail = 0;
    wrap = true;
    capacity = long_size;
    retval_buffer = [];
    retval_size = 0;
  };
}

backlog-IsValid : IsValid backlog.push_buffer
backlog-IsValid = record {
  storage = length-replicate {A = ℕ} long_size 1;
  positive = omega arith;
  small = omega arith;
  head_in = omega arith;
  tail_in = omega arith;
  wrapped = λ w. omega arith;
  scratch = refl;
}

network-IsBounded : IsBounded new_io.param.send
network-IsBounded fd xs n m h = ground (arith, h)

long_backlog_breaks_example :
    (f' : IoFd) × (sends 1 new_io backlog
      ≡ ret ((del (log new_io (excepted (pos 5) packet_send_error)) (pos 5)).1, f'))
    × (contents f'.push_buffer
        ≡ drop (chunk (contents backlog.push_buffer)) (contents backlog.push_buffer))
unfolding can_read
long_backlog_breaks_example =
    long_backlog_breaks 0 new_io backlog network-IsBounded backlog-IsValid (omega arith)
