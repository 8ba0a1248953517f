-- ===== src/Io/Calls.antt =====
-- The calls of ce_io.c: a connection layer is made, connections are added, written to and deleted.
use cevent_sample.Prelude.{
  ℕ, ◌+◌, Bool, true, false, ◌||◌, Option, none, some, List, [], ◌∷◌, ◌==◌, if◌then◌else◌, ℤ,
  is_nonpos, pos_part, Run, ret, hangs, ltb, ◌>>=◌,
}
use cevent_sample.Ringbuffer.{ce_rb_new, write}
use cevent_sample.Shared.{Ptr, io_fd, parameter, enqueue_job, delete_job, PushType}
use cevent_sample.Io.State.{
  Env, Param, IoFd, Io, ptr_size, len_size, len_bytes, update, new_pool, deref, store, register,
}

module _ {e : Env} where
  unfoldable pub make_io : Param → Run (Io e)
  make_io param = do
    enqueue_fd_event ← ce_rb_new param.conf.per_cache_ringbuffer_size
    push_fd_event ← ce_rb_new param.conf.per_cache_ringbuffer_size
    ret (record {
      param = param;
      io_dict = e.dict_create;
      workers = new_pool (pos_part param.conf.workers);
      stop = false;
      enqueue_fd_event = enqueue_fd_event;
      push_fd_event = push_fd_event;
      fds = λ _. none;
      calls = 0;
      events = [];
    })

  -- `ce_tp_create` does not return for two workers or more, which Threadpool/Create proves.
  unfoldable pub ce_io_new : Param → Run (Io e)
  ce_io_new param = if ltb 1 (pos_part param.conf.workers) then hangs else make_io param

  unfoldable pub ce_io_param : Option (Io e) → Option Param
  ce_io_param none = none
  ce_io_param (some io) = some io.param

  unfoldable pub add_new : Io e → ℤ → Run (Bool × Io e)
  add_new io fd = do
    enqueue_buffer ← ce_rb_new io.param.conf.per_cache_ringbuffer_size
    push_buffer ← ce_rb_new io.param.conf.per_cache_ringbuffer_size
    let f : IoFd = record {
      fd = fd;
      enqueue_buffer = enqueue_buffer;
      enqueue_cache_body_size = 0;
      push_buffer = push_buffer;
    }
    let added = e.dict_add io.io_dict fd (parameter io.calls) (io_fd io.calls)
    ret (
      added.1,
      record io { io_dict = added.0; fds = update io.fds io.calls (some f); calls = io.calls + 1 },
    )

  unfoldable pub ce_io_add : Io e → ℤ → Run (Bool × Io e)
  ce_io_add io fd =
      if io.stop
      then ret (false, io)
      else elim (e.dict_find io.io_dict fd) [ some entry ↦ ret (false, io) | none ↦ add_new io fd ]

  -- behind a write of the data: the address of the connection goes to `enqueue_fd_event`
  unfoldable pub announce : Io e → Ptr → Run (Bool × Io e)
  announce io p = do
    (n, ring) ← write io.enqueue_fd_event (e.address p) ptr_size
    let io' = record io { enqueue_fd_event = ring }
    ret (if n == ptr_size then register io' enqueue_job else (false, io'))

  unfoldable pub enqueue_to : Io e → Ptr → List ℕ → ℕ → Run (Bool × Io e)
  enqueue_to io p src size = do
    f ← deref io p
    (n, ring) ← write f.enqueue_buffer src size
    let io' = store io p (record f { enqueue_buffer = ring })
    if n == size then announce io' p else ret (false, io')

  -- `(ce_io_fd_t *)entry->key`: the connection is read from the key of the entry.
  unfoldable pub ce_io_enqueue :
      Option (Io e) → ℤ → Option (List ℕ) → ℕ → Run (Bool × Option (Io e))
  ce_io_enqueue none fd src size = ret (false, none)
  ce_io_enqueue (some io) fd none size = ret (false, some io)
  ce_io_enqueue (some io) fd (some src) size =
      if is_nonpos fd || size == 0
      then ret (false, some io)
      else if io.stop
      then ret (false, some io)
      else elim (e.dict_find io.io_dict fd) [
        | none ↦ ret (false, some io)
        | some (key, val) ↦ (enqueue_to io key src size >>= λ (r, io'). ret (r, some io'))
      ]

  -- behind the write of the size: the data
  unfoldable pub push_data : Io e → Ptr → IoFd → List ℕ → ℕ → Run (Bool × Io e)
  push_data io p f src size = do
    (n, ring) ← write f.enqueue_buffer src size
    let io' = store io p (record f { enqueue_buffer = ring })
    ret (if n == size then register io' enqueue_job else (false, io'))

  unfoldable pub push_to : Io e → Ptr → List ℕ → ℕ → Run (Bool × Io e)
  push_to io p src size = do
    f ← deref io p
    (n, ring) ← write f.enqueue_buffer (len_bytes size) len_size
    let f' = record f { enqueue_buffer = ring }
    if n == len_size then push_data (store io p f') p f' src size else ret (false, store io p f')

  -- `push_type` is not looked at.
  unfoldable pub ce_io_push :
      Option (Io e) → PushType → ℤ → Option (List ℕ) → ℕ → Run (Bool × Option (Io e))
  ce_io_push none push_type fd src size = ret (false, none)
  ce_io_push (some io) push_type fd none size = ret (false, some io)
  ce_io_push (some io) push_type fd (some src) size =
      if is_nonpos fd || size == 0
      then ret (false, some io)
      else if io.stop
      then ret (false, some io)
      else elim (e.dict_find io.io_dict fd) [
        | none ↦ ret (false, some io)
        | some (key, val) ↦ (push_to io key src size >>= λ (r, io'). ret (r, some io'))
      ]

  unfoldable pub del_entry : Io e → ℤ → Ptr → Bool × Io e
  del_entry io fd key =
      let io' = record io { io_dict = e.dict_delete io.io_dict fd } in
      (true, (register io' (delete_job key)).1)

  unfoldable pub del : Io e → ℤ → Bool × Io e
  del io fd =
      if is_nonpos fd
      then (false, io)
      else if io.stop
      then (false, io)
      else elim (e.dict_find io.io_dict fd) [
        | none ↦ (false, io)
        | some (key, val) ↦ del_entry io fd key
      ]

  unfoldable pub ce_io_del : Option (Io e) → ℤ → Bool × Option (Io e)
  ce_io_del none fd = (false, none)
  ce_io_del (some io) fd = let (r, io') = del io fd in (r, some io')

  -- `ce_io_destory` over the entries of the dictionary, `stop` being set
  unfoldable pub del_all : Io e → List (Ptr × Ptr) → Run (Io e)
  del_all io [] = ret io
  del_all io ((key, val) ∷ entries) = do f ← deref io key; del_all (del io f.fd).1 entries
