-- ===== src/Io/State.antt =====
-- The state of ce_io.c: `struct ce_io` and `struct ce_io_fd`, the dictionary and the heap behind them.
use cevent_sample.Prelude.{
  ℕ, ◌+◌, ◌*◌, ◌/◌, ◌%◌, ◌≡◌, ◌⊎◌, Memᴰ, Bool, true, false, Option, none, some, List, [], ◌∷◌, ◌++◌,
  ◌==◌, if◌then◌else◌, ℤ, pos, negsuc, Run, ret, fault, length,
}
use cevent_sample.Ringbuffer.{Rb, Out, bytes}
use cevent_sample.Threadpool.{Pool, ce_tp_worker_register}
use cevent_sample.Shared.{Conf, Event, Ptr, io_fd, ring_bytes, Job}

-- the documented behaviour of dict.c over keys that are compared as the file descriptors they show
pub record Env : Type 1 where
  pub Table : Type 0
  pub dict_create : Table
  pub dict_find : Table → ℤ → Option (Ptr × Ptr)
  pub dict_add : Table → ℤ → Ptr → Ptr → Table × Bool
  pub dict_delete : Table → ℤ → Table
  pub dict_entries : Table → List (Ptr × Ptr)
  pub address : Ptr → List ℕ
  pub find-create : (fd : ℤ) → dict_find dict_create fd ≡ none
  pub add-new :
      (t : Table) (fd : ℤ) (k v : Ptr) → dict_find t fd ≡ none → (dict_add t fd k v).1 ≡ true
  pub find-add_self :
      (t : Table) (fd : ℤ) (k v : Ptr)
      → dict_find t fd ≡ none
      → dict_find (dict_add t fd k v).0 fd ≡ some (k, v)
  pub find-delete_self : (t : Table) (fd : ℤ) → dict_find (dict_delete t fd) fd ≡ none
  pub entries-create : dict_entries dict_create ≡ []
  pub entries-add :
      (t : Table) (fd : ℤ) (k v : Ptr) {x : Ptr × Ptr}
      → Memᴰ x (dict_entries (dict_add t fd k v).0)
      → (x ≡ (k, v)) ⊎ Memᴰ x (dict_entries t)
  pub entries-delete :
      (t : Table) (fd : ℤ) {x : Ptr × Ptr}
      → Memᴰ x (dict_entries (dict_delete t fd))
      → Memᴰ x (dict_entries t)
  pub entries-find :
      (t : Table) (fd : ℤ) {x : Ptr × Ptr} → dict_find t fd ≡ some x → Memᴰ x (dict_entries t)
  pub length-address : (p : Ptr) → length (address p) ≡ 8

-- `ce_io_param_t`; `send` answers with what the call returns.
pub record Param : Type 0 where
  pub conf : Conf
  pub send : ℤ → List ℕ → ℕ → ℤ

-- `struct ce_io_fd`
pub record IoFd : Type 0 where
  pub fd : ℤ
  pub enqueue_buffer : Rb
  pub enqueue_cache_body_size : ℕ
  pub push_buffer : Rb

-- `struct ce_io`, with the heap of its connections and the callbacks made so far. `calls` numbers
-- the calls of `ce_io_add`, which pass the address of their own parameter to the dictionary.
pub record Io (e : Env) : Type 0 where
  pub param : Param
  pub io_dict : e.Table
  pub workers : Pool Job
  pub stop : Bool
  pub enqueue_fd_event : Rb
  pub push_fd_event : Rb
  pub fds : ℕ → Option IoFd
  pub calls : ℕ
  pub events : List Event

-- `sizeof(uintptr_t)`, `sizeof(packet_len_t)`, `CE_SEND_PER_SIZE`
abbrev pub ptr_size : ℕ
ptr_size = 8

abbrev pub len_size : ℕ
len_size = 2

abbrev pub send_per_size : ℕ
send_per_size = 100 * 1024

-- a `packet_len_t` in memory, low byte first
abbrev pub len_bytes : ℕ → List ℕ
len_bytes n = n % 256 ∷ n / 256 % 256 ∷ []

abbrev pub len_of : List ℕ → ℕ
len_of (a ∷ b ∷ xs) = a + b * 256
len_of xs = 0

abbrev pub out_bytes : Out → List ℕ
out_bytes (bytes xs) = xs
out_bytes _ = []

-- A read with `(void **)&io_fd` makes the pointer show the bytes inside the ring.
abbrev pub pointer_at : Out → Ptr
pointer_at (bytes xs) = ring_bytes
pointer_at _ = Ptr.null

abbrev pub update : (ℕ → Option IoFd) → ℕ → Option IoFd → ℕ → Option IoFd
update f p v q = if q == p then v else f q

-- `send_size == read_size`
abbrev pub is_all : ℕ → ℤ → Bool
is_all n (pos m) = m == n
is_all n (negsuc _) = false

abbrev pub found : Option ℕ → Bool
found none = false
found (some _) = true

abbrev pub pool_or : Option (Pool Job) → Pool Job → Pool Job
pool_or none p = p
pool_or (some q) p = q

abbrev pub new_pool : ℕ → Pool Job
new_pool n = record {
  worker_queue = [];
  workers = λ _. none;
  next = 0;
  nthreads = n;
  abort = false;
  routines = n;
}

module _ {e : Env} where
  -- the connection layer as a call has left it
  abbrev pub io_or : Option (Io e) → Io e → Io e
  io_or none io = io
  io_or (some io') io = io'

  -- reading a pointer as a `ce_io_fd_t *`
  unfoldable pub deref : Io e → Ptr → Run IoFd
  deref io (io_fd n) = elim (io.fds n) [ none ↦ fault | some f ↦ ret f ]
  deref io _ = fault

  unfoldable pub store : Io e → Ptr → IoFd → Io e
  store io (io_fd n) f = record io { fds = update io.fds n (some f) }
  store io _ f = io

  unfoldable pub log : Io e → Event → Io e
  log io ev = record io { events = io.events ++ (ev ∷ []) }

  unfoldable pub register : Io e → Job → Bool × Io e
  register io job =
      let (w, p) = ce_tp_worker_register (some io.workers) (some job) false in
      (found w, record io { workers = pool_or p io.workers })
