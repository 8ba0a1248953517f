-- ===== src/Server/Startup.antt =====
-- The start of the server: what a start that fails gives back, and what a start that succeeds set.
use cevent_sample.Prelude.{
  Bool-cases, inl, inr, if◌then◌else◌, ◌+◌, ℕ, suc, ◌≡◌, refl, Bool, not, true, false, ◌||◌, Option,
  none, some, List, [], ◌∷◌, ℤ, pos, negsuc, is_nonpos, ret, pos_part, After, After-bind, After-if,
}
use cevent_sample.Ringbuffer.{Rb, ce_rb_new}
use cevent_sample.Shared.{
  Conf, has_bad_values, is_refused, is_error, Effect, sock_init, allocated, freed, opened, shut,
  loop_created, loop_deleted, watched, thread_started, kept_alive, timer,
}
use cevent_sample.Io.{Env, Io, new_pool, ce_io_new}
use cevent_sample.Server.{Net, Server, serve, start_loop, start_listening, ce_server_startup}

-- the sockets that the effects open, and those they shut
abbrev pub opened_fds : List Effect → List ℤ
opened_fds [] = []
opened_fds (opened fd ∷ es) = fd ∷ opened_fds es
opened_fds (_ ∷ es) = opened_fds es

abbrev pub shut_fds : List Effect → List ℤ
shut_fds [] = []
shut_fds (shut fd ∷ es) = fd ∷ shut_fds es
shut_fds (_ ∷ es) = shut_fds es

abbrev pub timers : List Effect → List ℤ
timers [] = []
timers (timer n ∷ es) = n ∷ timers es
timers (_ ∷ es) = timers es

abbrev pub inits : Bool → List Effect → ℕ
inits b [] = 0
inits true (sock_init true ∷ es) = suc (inits true es)
inits false (sock_init false ∷ es) = suc (inits false es)
inits b (_ ∷ es) = inits b es

abbrev pub allocations : List Effect → ℕ
allocations [] = 0
allocations (allocated ∷ es) = suc (allocations es)
allocations (_ ∷ es) = allocations es

abbrev pub frees : List Effect → ℕ
frees [] = 0
frees (freed ∷ es) = suc (frees es)
frees (_ ∷ es) = frees es

abbrev pub loops : List Effect → ℕ
loops [] = 0
loops (loop_created ∷ es) = suc (loops es)
loops (_ ∷ es) = loops es

abbrev pub loop_ends : List Effect → ℕ
loop_ends [] = 0
loop_ends (loop_deleted ∷ es) = suc (loop_ends es)
loop_ends (_ ∷ es) = loop_ends es

-- Memory, sockets and the network library are given back as often as they were taken; `n` event loops
-- are not.
pub record IsBalanced (n : ℕ) (es : List Effect) : Type 0 where
  pub memory : frees es ≡ allocations es
  pub sockets : shut_fds es ≡ opened_fds es
  pub network : inits false es ≡ inits true es
  pub event_loops : loops es ≡ n + loop_ends es

nothing : IsBalanced 0 []
nothing = record { memory = refl; sockets = refl; network = refl; event_loops = refl }

fifth_is_false : (a b c d n rest : Bool) → (a || b || c || d || n || rest) ≡ false → n ≡ false
fifth_is_false false false false false false rest h = refl
fifth_is_false _ _ _ _ _ _ h = absurd cc

pub cache_is_positive :
    (conf : Conf) → is_refused conf ≡ false → is_nonpos conf.per_cache_ringbuffer_size ≡ false
unfolding is_refused
cache_is_positive conf h =
    fifth_is_false (not conf.on_accept) (not conf.on_received) (not conf.on_exception)
      (not conf.on_close) (is_nonpos conf.per_cache_ringbuffer_size) (has_bad_values conf) h

pub ce_rb_new-ret : (n : ℤ) → is_nonpos n ≡ false → (r : Rb) × (ce_rb_new n ≡ ret r)
unfolding ce_rb_new
ce_rb_new-ret (pos n) h = (_, refl)
ce_rb_new-ret (negsuc n) h = absurd cc

-- the event loops that a start makes and does not delete: one, if the listening socket was ready for it
abbrev pub lost_loops : Net → Option Conf → Option (Unit {0}) → ℕ
lost_loops net none err = 0
lost_loops net (some conf) none = 0
lost_loops net (some conf) (some tt) =
    let fd = net.tcp_server conf.port in
    if is_refused conf || is_error fd || is_error (net.keep_alive fd conf.keepalive) then 0 else 1

module _ (e : Env) where
  -- what a start that answers NULL has given back, but for `n` event loops
  abbrev pub GivesBack : ℕ → Option (Server e) × List Effect → Type 0
  GivesBack n (none, es) = IsBalanced n es
  GivesBack n (some server, es) = Unit

  serve-GivesBack :
      (net : Net) (memory conf : Conf) (fd : ℤ) (n : ℕ)
      → After (GivesBack n) (serve net memory conf fd)
  unfolding serve
  serve-GivesBack net memory conf fd n =
      After-bind (GivesBack n) (ce_io_new (record { conf = conf; send = net.send })) _ (λ io. tt)

  start_loop-GivesBack :
      (net : Net) (memory conf : Conf) (fd : ℤ)
      → After (GivesBack 1) (start_loop net memory conf fd)
  unfolding start_loop
  start_loop-GivesBack net memory conf fd =
      After-if (GivesBack 1) net.event_loop _ _
        (λ loop.
          After-if (GivesBack 1) (is_error (net.file_event fd)) _ _
            (λ bad. record { memory = refl; sockets = refl; network = refl; event_loops = refl })
            (λ good. serve-GivesBack net memory conf fd 1))
        (λ lost. tt)

  -- A start that answers NULL, for whatever reason and whatever the network answers, has freed its
  -- memory, shut each socket it opened, and ended the network library as often as it began it. The
  -- event loop it does not give back: where the listening socket could be made and kept alive, so that
  -- what failed is the watch on it, one loop was made and is not deleted; else none was made.
  pub ce_server_startup-GivesBack :
      (net : Net) (memory : Conf) (conf : Option Conf) (err : Option (Unit {0}))
      → After (GivesBack (lost_loops net conf err)) (ce_server_startup net memory conf err)
  unfolding ce_server_startup start_listening
  ce_server_startup-GivesBack net memory none err = nothing
  ce_server_startup-GivesBack net memory (some conf) none = nothing
  ce_server_startup-GivesBack net memory (some conf) (some tt) =
      let fd = net.tcp_server conf.port in
      elim (Bool-cases (is_refused conf)) [
        | inl bad ↦ simp bad nothing
        | inr sound ↦ elim (Bool-cases (is_error fd)) [
          | inl bad ↦ simp (sound, bad) without_loop
          | inr opens ↦ elim (Bool-cases (is_error (net.keep_alive fd conf.keepalive))) [
            | inl bad ↦ simp (sound, opens, bad) (socket_shut fd)
            | inr kept ↦ simp (sound, opens, kept) (start_loop-GivesBack net memory conf fd)
          ]
        ]
      ]
    where
      without_loop : IsBalanced 0 (sock_init true ∷ allocated ∷ freed ∷ sock_init false ∷ [])
      without_loop = record { memory = refl; sockets = refl; network = refl; event_loops = refl }

      socket_shut :
          (fd : ℤ)
          → IsBalanced 0
              (sock_init true ∷ allocated ∷ opened fd ∷ shut fd ∷ freed ∷ sock_init false ∷ [])
      socket_shut fd = record { memory = refl; sockets = refl; network = refl; event_loops = refl }

  abbrev pub new_io : Net → Conf → Rb → Io e
  new_io net conf ring = record {
    param = record { conf = conf; send = net.send };
    io_dict = e.dict_create;
    workers = new_pool (pos_part conf.workers);
    stop = false;
    enqueue_fd_event = ring;
    push_fd_event = ring;
    fds = λ _. none;
    calls = 0;
    events = [];
  }

  abbrev pub start_effects : Conf → Conf → ℤ → List Effect
  start_effects memory conf fd =
      sock_init true
      ∷ allocated
      ∷ opened fd
      ∷ kept_alive fd conf.keepalive
      ∷ loop_created
      ∷ watched fd
      ∷ thread_started
      ∷ timer memory.heartbeat
      ∷ []
