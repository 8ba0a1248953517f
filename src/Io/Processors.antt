-- ===== src/Io/Processors.antt =====
-- The jobs that ce_io.c gives to the threads of its pool.
use cevent_sample.Prelude.{
  Option, some, true, [], ◌∷◌, ℕ, zero, suc, ◌%◌, ◌^◌, none, List, ltb, leb, ◌==◌, if◌then◌else◌,
  Run, ret, fault, ◌>>=◌,
}
use cevent_sample.Ringbuffer.{can_read, read}
use cevent_sample.Threadpool.{load, ce_tp_worker_free}
use cevent_sample.Shared.{
  received, excepted, packet_illegal, packet_send_error, Ptr, io_fd, Job, enqueue_job, push_job,
  delete_job,
}
use cevent_sample.Io.State.{
  Env, IoFd, Io, ptr_size, len_size, send_per_size, len_of, out_bytes, pointer_at, update, is_all,
  deref, store, log,
}
use cevent_sample.Io.Calls.{del, del_all}

module _ {e : Env} where
  -- One turn of the inner loop of `_ce_io_enqueue_buffer_processor`, behind the read of the size;
  -- `again` is the rest of the loop.
  unfoldable pub packet : (Io e → IoFd → Run (Io e × IoFd)) → Io e → IoFd → ℕ → Run (Io e × IoFd)
  packet again io f size =
      if size == 0
      then again io f
      else if ltb io.param.conf.per_max_packet_body_size size
      then ret ((del (log io (excepted f.fd packet_illegal)) f.fd).1, f)
      else if ltb size (can_read f.enqueue_buffer)
      then ret (io, record f { enqueue_cache_body_size = size })
      else (do
        (n, out, ring) ← read f.enqueue_buffer size
        again (log io (received f.fd (out_bytes out)))
            (record f { enqueue_buffer = ring; enqueue_cache_body_size = 0 }))

  -- The inner loop, a turn for each unit of fuel; out of fuel is a fault.
  unfoldable pub packets : ℕ → Io e → IoFd → Run (Io e × IoFd)
  packets zero io f = fault
  packets (suc k) io f = if leb (can_read f.enqueue_buffer) len_size then ret (io, f) else (do
    (n, out, ring) ← read f.enqueue_buffer len_size
    packet (packets k) io (record f { enqueue_buffer = ring }) (len_of (out_bytes out)))

  unfoldable pub enqueue_one : Io e → Ptr → Run (Io e)
  enqueue_one io p = do
    f ← deref io p
    (io', f') ← packets (suc (can_read f.enqueue_buffer)) io f
    ret (store io' p f')

  -- The outer loops, whose rounds are fuel. Both read `push_fd_event`.
  unfoldable pub _ce_io_enqueue_buffer_processor : ℕ → Io e → Run (Io e)
  _ce_io_enqueue_buffer_processor zero io = fault
  _ce_io_enqueue_buffer_processor (suc k) io =
      let rest = λ (io' : Io e). _ce_io_enqueue_buffer_processor k io' in
      if leb ptr_size (can_read io.push_fd_event)
      then (do
        (n, out, ring) ← read io.push_fd_event ptr_size
        io' ← enqueue_one (record io { push_fd_event = ring }) (pointer_at out)
        rest io')
      else ret io

  -- One turn of the sending loop behind its read of `n` bytes; `again` is the rest of the loop.
  -- `send` takes the size as a `packet_len_t`.
  unfoldable pub send_chunk :
      (Io e → IoFd → Run (Io e × IoFd)) → Io e → IoFd → ℕ → List ℕ → Run (Io e × IoFd)
  send_chunk again io f n xs =
      if n == 0
      then ret (io, f)
      else if is_all n (io.param.send f.fd xs (n % 2 ^ 16))
      then again io f
      else ret ((del (log io (excepted f.fd packet_send_error)) f.fd).1, f)

  unfoldable pub sends : ℕ → Io e → IoFd → Run (Io e × IoFd)
  sends zero io f = fault
  sends (suc k) io f = do
    (n, out, ring) ← read f.push_buffer send_per_size
    send_chunk (sends k) io (record f { push_buffer = ring }) n (out_bytes out)

  unfoldable pub push_one : Io e → Ptr → Run (Io e)
  push_one io p = do
    f ← deref io p
    (io', f') ← sends (suc (can_read f.push_buffer)) io f
    ret (store io' p f')

  unfoldable pub _ce_io_push_buffer_processor : ℕ → Io e → Run (Io e)
  _ce_io_push_buffer_processor zero io = fault
  _ce_io_push_buffer_processor (suc k) io =
      let rest = λ (io' : Io e). _ce_io_push_buffer_processor k io' in
      if leb ptr_size (can_read io.push_fd_event)
      then (do
        (n, out, ring) ← read io.push_fd_event ptr_size
        io' ← push_one (record io { push_fd_event = ring }) (pointer_at out)
        rest io')
      else ret io

  unfoldable pub free_fd : Io e → Ptr → Io e
  free_fd io (io_fd n) = record io { fds = update io.fds n none }
  free_fd io _ = io

  unfoldable pub _ce_io_delete_fd_processor : Io e → Ptr → Run (Io e)
  _ce_io_delete_fd_processor io p = do f ← deref io p; ret (free_fd io p)

  -- what a thread of the pool does with a job
  unfoldable pub run_job : Io e → Job → Run (Io e)
  run_job io enqueue_job = _ce_io_enqueue_buffer_processor (suc (can_read io.push_fd_event)) io
  run_job io push_job = _ce_io_push_buffer_processor (suc (can_read io.push_fd_event)) io
  run_job io (delete_job p) = _ce_io_delete_fd_processor io p

  -- A thread of the pool takes the first worker off the queue, runs its job and frees it.
  unfoldable pub work_on : Io e → List ℕ → Run (Io e)
  work_on io [] = ret io
  work_on io (w ∷ ws) = do
    wk ← load io.workers w
    io' ← run_job (record io { workers = record io.workers { worker_queue = ws } }) wk.job
    workers ← ce_tp_worker_free io'.workers w
    ret (record io' { workers = workers })

  unfoldable pub work : Io e → Run (Io e)
  work io = work_on io io.workers.worker_queue

  -- `ce_tp_destroy` with `tp_kill_wait`: the queue is worked off. No job is registered meanwhile, as
  -- `stop` is set.
  unfoldable pub finish_jobs : List ℕ → Io e → Run (Io e)
  finish_jobs [] io = ret io
  finish_jobs (w ∷ ws) io = do io' ← work io; finish_jobs ws io'

  -- behind it the rings, the connection layer and what it holds are freed
  unfoldable pub ce_io_destory : Option (Io e) → Run (Option (Io e))
  ce_io_destory none = ret none
  ce_io_destory (some io) = do
    io' ← del_all (record io { stop = true }) (e.dict_entries io.io_dict)
    done ← finish_jobs io'.workers.worker_queue io'
    ret none
