-- ===== src/Io/Fresh.antt =====
-- A new connection layer, and the first descriptors that it takes.
use cevent_sample.Prelude.{◌+◌, ◌≡◌, true, false, none, some, [], ltb, ℤ, pos_part, ret}
use cevent_sample.Ringbuffer.{Rb, ce_rb_new}
use cevent_sample.Shared.{parameter, io_fd}
use cevent_sample.Io.{Env, Param, Io, update, new_pool, make_io, ce_io_new, ce_io_add, add_new}

module _ (e : Env) (ring : Rb) where
  abbrev pub fresh : Param → Io e
  fresh param = record {
    param = param;
    io_dict = e.dict_create;
    workers = new_pool (pos_part param.conf.workers);
    stop = false;
    enqueue_fd_event = ring;
    push_fd_event = ring;
    fds = λ _. none;
    calls = 0;
    events = [];
  }

  abbrev pub with_fd : Io e → ℤ → Io e
  with_fd io fd = record io {
    io_dict = (e.dict_add io.io_dict fd (parameter io.calls) (io_fd io.calls)).0;
    fds = update io.fds io.calls (
        some (record {
          fd = fd;
          enqueue_buffer = ring;
          enqueue_cache_body_size = 0;
          push_buffer = ring;
        }));
    calls = io.calls + 1;
  }

  pub ce_io_new-fresh :
      (param : Param)
      → ce_rb_new param.conf.per_cache_ringbuffer_size ≡ ret ring
      → ltb 1 (pos_part param.conf.workers) ≡ false
      → ce_io_new param ≡ ret (fresh param)
  unfolding ce_io_new make_io
  ce_io_new-fresh param made few = simp (few, made)

  -- A connection layer that runs takes a descriptor that is new.
  pub ce_io_add-new :
      (io : Io e) (fd : ℤ)
      → io.stop ≡ false
      → e.dict_find io.io_dict fd ≡ none
      → ce_rb_new io.param.conf.per_cache_ringbuffer_size ≡ ret ring
      → ce_io_add io fd ≡ ret (true, with_fd io fd)
  unfolding ce_io_add add_new
  ce_io_add-new io fd going new made =
      simp (going, new, made, e.add-new io.io_dict fd (parameter io.calls) (io_fd io.calls) new)
