-- ===== src/Io/Same.antt =====
-- What the calls of the connection layer leave as it is, each of them: the callbacks made, the ring that
-- the processors read, and what the keys of the dictionary point to.
use cevent_sample.Prelude.{
  ℕ, ◌≡◌, refl, ap, subst, ◌∙◌, Bool, ◌||◌, Option, none, some, List, ◌==◌, ℤ, is_nonpos, Run, ret,
  fault, ◌>>=◌, inl, inr, Bool-cases, Option-cases, Memᴰ, After, After-bind, After-if, ltb,
  pos_part, hangs,
}
use cevent_sample.Ringbuffer.{write, ce_rb_new}
use cevent_sample.Shared.{Ptr, io_fd, parameter, ring_bytes, PushType, Job, enqueue_job}
use cevent_sample.Io.{
  Env, Param, IoFd, Io, ptr_size, len_size, len_bytes, deref, store, register, ce_io_new, ce_io_add,
  add_new, announce, ce_io_enqueue, enqueue_to, ce_io_push, push_to, push_data, del, del_entry,
  make_io, free_fd, io_or,
}
use mathlib.Core.List.Memᴰ.{not-nil}

module _ {e : Env} where
  -- the key of each entry of the dictionary is the address of a parameter
  abbrev pub IsKeyed : Io e → Type 0
  IsKeyed io =
      (entry : Ptr × Ptr)
      → Memᴰ entry (e.dict_entries io.io_dict)
      → (n : ℕ) × (entry.0 ≡ parameter n)

  -- no callback was made, and the ring that the processors read is as before
  pub record Same (io io' : Io e) : Type 0 where
    pub ring : io'.push_fd_event ≡ io.push_fd_event
    pub events : io'.events ≡ io.events
    pub keyed : IsKeyed io → IsKeyed io'

  module _ (io : Io e) where
    store-Same : (p : Ptr) (f : IoFd) → Same io (store io p f)
    unfolding store
    store-Same Ptr.null f = record { ring = refl; events = refl; keyed = λ k. k }
    store-Same (io_fd n) f = record { ring = refl; events = refl; keyed = λ k. k }
    store-Same (parameter n) f = record { ring = refl; events = refl; keyed = λ k. k }
    store-Same ring_bytes f = record { ring = refl; events = refl; keyed = λ k. k }

    register-Same : (j : Job) → Same io (register io j).1
    unfolding register
    register-Same j = record { ring = refl; events = refl; keyed = λ k. k }

    pub self-Same : Same io io
    self-Same = record { ring = refl; events = refl; keyed = λ k. k }

  pub Same-trans : {a b c : Io e} → Same a b → Same b c → Same a c
  Same-trans h k = record {
    ring = k.ring ∙ h.ring;
    events = k.events ∙ h.events;
    keyed = λ x. k.keyed (h.keyed x);
  }

  abbrev pub Keeps : Io e → Bool × Io e → Type 0
  Keeps io (r, io') = Same io io'

  announce-Same : (io : Io e) (p : Ptr) → After (Keeps io) (announce io p)
  unfolding announce
  announce-Same io p =
      After-bind (Keeps io) (write io.enqueue_fd_event (e.address p) ptr_size) _ λ (n, ring).
        elim (Bool-cases (n == ptr_size)) [
          | inl all ↦ simp all (
              Same-trans (record { ring = refl; events = refl; keyed = λ k. k })
                (register-Same (record io { enqueue_fd_event = ring }) enqueue_job))
          | inr short ↦ simp short (record { ring = refl; events = refl; keyed = λ k. k })
        ]

  add_new-Same : (io : Io e) (fd : ℤ) → After (Keeps io) (add_new io fd)
  unfolding add_new
  add_new-Same io fd =
      After-bind (Keeps io) (ce_rb_new io.param.conf.per_cache_ringbuffer_size) _ λ a.
        After-bind (Keeps io) (ce_rb_new io.param.conf.per_cache_ringbuffer_size) _ λ b. record {
          ring = refl;
          events = refl;
          keyed = λ k entry m.
              elim (e.entries-add io.io_dict fd (parameter io.calls) (io_fd io.calls) m) [
                | inl own ↦ (io.calls, ap (λ x. x.0) own)
                | inr other ↦ k entry other
              ];
        }

  -- a write to one of the rings of a connection, behind which the call goes on
  After-store :
      (io : Io e) (p : Ptr) (f : IoFd) (m : Run (Bool × Io e))
      → After (Keeps (store io p f)) m
      → After (Keeps io) m
  After-store io p f (ret (r, io')) h = Same-trans (store-Same io p f) h
  After-store io p f fault h = tt
  After-store io p f hangs h = tt

  enqueue_to-Same :
      (io : Io e) (p : Ptr) (src : List ℕ) (size : ℕ) → After (Keeps io) (enqueue_to io p src size)
  unfolding enqueue_to
  enqueue_to-Same io p src size = After-bind (Keeps io) (deref io p) _ λ f.
      After-bind (Keeps io) (write f.enqueue_buffer src size) _ λ (n, ring).
        let f' : IoFd = record f { enqueue_buffer = ring } in
        elim (Bool-cases (n == size)) [
          | inl all ↦
              simp all
                (After-store io p f' (announce (store io p f') p) (announce-Same (store io p f') p))
          | inr short ↦ simp short (store-Same io p f')
        ]

  push_data-Same :
      (io : Io e) (p : Ptr) (f : IoFd) (src : List ℕ) (size : ℕ)
      → After (Keeps io) (push_data io p f src size)
  unfolding push_data
  push_data-Same io p f src size =
      After-bind (Keeps io) (write f.enqueue_buffer src size) _ λ (n, ring).
        let f' : IoFd = record f { enqueue_buffer = ring } in
        elim (Bool-cases (n == size)) [
          | inl all ↦
              simp all (Same-trans (store-Same io p f') (register-Same (store io p f') enqueue_job))
          | inr short ↦ simp short (store-Same io p f')
        ]

  push_to-Same :
      (io : Io e) (p : Ptr) (src : List ℕ) (size : ℕ) → After (Keeps io) (push_to io p src size)
  unfolding push_to
  push_to-Same io p src size = After-bind (Keeps io) (deref io p) _ λ f.
      After-bind (Keeps io) (write f.enqueue_buffer (len_bytes size) len_size) _ λ (n, ring).
        let f' : IoFd = record f { enqueue_buffer = ring } in
        elim (Bool-cases (n == len_size)) [
          | inl all ↦ simp all (
              After-store io p f' (push_data (store io p f') p f' src size)
                (push_data-Same (store io p f') p f' src size))
          | inr short ↦ simp short (store-Same io p f')
        ]

  del_entry-Same : (io : Io e) (fd : ℤ) (key : Ptr) → Same io (del_entry io fd key).1
  unfolding del_entry register
  del_entry-Same io fd key = record {
    ring = refl;
    events = refl;
    keyed = λ k entry m. k entry (e.entries-delete io.io_dict fd m);
  }

  pub del-Same : (io : Io e) (fd : ℤ) → Same io (del io fd).1
  unfolding del
  del-Same io fd = elim (Bool-cases (is_nonpos fd)) [
    | inl bad ↦ simp bad (self-Same io)
    | inr good ↦ elim (Bool-cases io.stop) [
      | inl st ↦ simp (good, st) (self-Same io)
      | inr going ↦ elim (Option-cases (e.dict_find io.io_dict fd)) [
        | inl new ↦ simp (good, going, new) (self-Same io)
        | inr (entry, old) ↦ simp (good, going, old) (del_entry-Same io fd entry.0)
      ]
    ]
  ]

  pub ce_io_add-Same : (io : Io e) (fd : ℤ) → After (Keeps io) (ce_io_add io fd)
  unfolding ce_io_add
  ce_io_add-Same io fd = elim (Bool-cases io.stop) [
    | inl st ↦ simp st (self-Same io)
    | inr going ↦ elim (Option-cases (e.dict_find io.io_dict fd)) [
      | inl new ↦ simp (going, new) (add_new-Same io fd)
      | inr (entry, old) ↦ simp (going, old) (self-Same io)
    ]
  ]

  abbrev pub KeepsSome : Io e → Bool × Option (Io e) → Type 0
  KeepsSome io (r, io') = Same io (io_or io' io)

  keeps_some :
      (io : Io e) (m : Run (Bool × Io e))
      → After (Keeps io) m
      → After (KeepsSome io) (m >>= λ (r, io'). ret (r, some io'))
  keeps_some io (ret (r, io')) h = h
  keeps_some io fault h = tt
  keeps_some io hangs h = tt

  pub ce_io_enqueue-Same :
      (io : Io e) (fd : ℤ) (src : Option (List ℕ)) (size : ℕ)
      → After (KeepsSome io) (ce_io_enqueue (some io) fd src size)
  unfolding ce_io_enqueue
  ce_io_enqueue-Same io fd none size = self-Same io
  ce_io_enqueue-Same io fd (some src) size = elim (Bool-cases (is_nonpos fd || size == 0)) [
    | inl bad ↦ simp bad (self-Same io)
    | inr good ↦ elim (Bool-cases io.stop) [
      | inl st ↦ simp (good, st) (self-Same io)
      | inr going ↦ elim (Option-cases (e.dict_find io.io_dict fd)) [
        | inl new ↦ simp (good, going, new) (self-Same io)
        | inr (entry, old) ↦
            simp (good, going, old)
              (keeps_some io (enqueue_to io entry.0 src size) (enqueue_to-Same io entry.0 src size))
      ]
    ]
  ]

  pub ce_io_push-Same :
      (io : Io e) (t : PushType) (fd : ℤ) (src : Option (List ℕ)) (size : ℕ)
      → After (KeepsSome io) (ce_io_push (some io) t fd src size)
  unfolding ce_io_push
  ce_io_push-Same io t fd none size = self-Same io
  ce_io_push-Same io t fd (some src) size = elim (Bool-cases (is_nonpos fd || size == 0)) [
    | inl bad ↦ simp bad (self-Same io)
    | inr good ↦ elim (Bool-cases io.stop) [
      | inl st ↦ simp (good, st) (self-Same io)
      | inr going ↦ elim (Option-cases (e.dict_find io.io_dict fd)) [
        | inl new ↦ simp (good, going, new) (self-Same io)
        | inr (entry, old) ↦
            simp (good, going, old)
              (keeps_some io (push_to io entry.0 src size) (push_to-Same io entry.0 src size))
      ]
    ]
  ]

  pub free_fd-Same : (io : Io e) (p : Ptr) → Same io (free_fd io p)
  unfolding free_fd
  free_fd-Same io Ptr.null = self-Same io
  free_fd-Same io (io_fd n) = record { ring = refl; events = refl; keyed = λ k. k }
  free_fd-Same io (parameter n) = self-Same io
  free_fd-Same io ring_bytes = self-Same io

  pub ce_io_new-IsKeyed : (param : Param) {io : Io e} → ce_io_new param ≡ ret io → IsKeyed io
  unfolding ce_io_new make_io
  ce_io_new-IsKeyed param {io} made = subst (After IsKeyed) made (
      After-if IsKeyed (ltb 1 (pos_part param.conf.workers)) _ _ (λ many. tt)
        λ few. After-bind IsKeyed (ce_rb_new param.conf.per_cache_ringbuffer_size) _ λ a.
          After-bind IsKeyed (ce_rb_new param.conf.per_cache_ringbuffer_size) _
            λ b entry m. absurd (not-nil (subst (Memᴰ entry) e.entries-create m)))
