-- ===== src/Io/Pending.antt =====
-- The jobs that wait in the pool of a connection layer. Before a job of `ce_io_enqueue` or `ce_io_push` is
-- registered, the key of an entry is read as a connection, which faults; so only deletions ever wait,
-- and they fault as well.
use cevent_sample.Prelude.{
  ℕ, ◌≡◌, refl, subst, Bool, ◌||◌, Option, none, some, List, [], ◌∷◌, ◌==◌, ltb, pos_part, ℤ,
  is_nonpos, ret, fault, inl, inr, Bool-cases, Option-cases, After, After-bind, After-if, ap,
}
use cevent_sample.Ringbuffer.{ce_rb_new}
use cevent_sample.Threadpool.{Worker, ce_tp_worker_register}
use cevent_sample.Threadpool.Kept.{load-ret}
use cevent_sample.Threadpool.Safety.{load-fault}
use cevent_sample.Threadpool.Invariant.{some_eq}
use cevent_sample.Shared.{Ptr, parameter, PushType, Job, delete_job}
use cevent_sample.Io.{
  io_or, Env, Param, Io, deref, register, ce_io_new, make_io, ce_io_add, add_new, ce_io_enqueue,
  enqueue_to, ce_io_push, push_to, del, del_entry, _ce_io_delete_fd_processor, run_job, work_on,
  work,
}
use cevent_sample.Io.Same.{IsKeyed}

abbrev pub IsDead : Job → Type 0
IsDead j = (n : ℕ) × (j ≡ delete_job (parameter n))

module _ {e : Env} where
  -- each job of the pool deletes at the address of a parameter
  abbrev pub OnlyDeletes : Io e → Type 0
  OnlyDeletes io = (w : ℕ) (wk : Worker Job) → io.workers.workers w ≡ some wk → IsDead wk.job

  found_key :
      (io : Io e) (fd : ℤ) {entry : Ptr × Ptr}
      → IsKeyed io
      → e.dict_find io.io_dict fd ≡ some entry
      → (n : ℕ) × (entry.0 ≡ parameter n)
  found_key io fd {entry} keyed found = keyed entry (e.entries-find io.io_dict fd found)

  enqueue_to-fault :
      (io : Io e) (p : Ptr) (n : ℕ) (src : List ℕ) (size : ℕ)
      → p ≡ parameter n
      → enqueue_to io p src size ≡ fault
  unfolding enqueue_to deref
  enqueue_to-fault io p n src size is = rw is refl

  push_to-fault :
      (io : Io e) (p : Ptr) (n : ℕ) (src : List ℕ) (size : ℕ)
      → p ≡ parameter n
      → push_to io p src size ≡ fault
  unfolding push_to deref
  push_to-fault io p n src size is = rw is refl

  abbrev pub LeavesDeletes : Io e → Bool × Option (Io e) → Type 0
  LeavesDeletes io (r, io') = OnlyDeletes (io_or io' io)

  pub ce_io_enqueue-OnlyDeletes :
      (io : Io e) (fd : ℤ) (src : Option (List ℕ)) (size : ℕ)
      → IsKeyed io
      → OnlyDeletes io
      → After (LeavesDeletes io) (ce_io_enqueue (some io) fd src size)
  unfolding ce_io_enqueue
  ce_io_enqueue-OnlyDeletes io fd none size keyed v = v
  ce_io_enqueue-OnlyDeletes io fd (some src) size keyed v =
      elim (Bool-cases (is_nonpos fd || size == 0)) [
        | inl bad ↦ simp bad v
        | inr good ↦ elim (Bool-cases io.stop) [
          | inl st ↦ simp (good, st) v
          | inr going ↦ elim (Option-cases (e.dict_find io.io_dict fd)) [
            | inl new ↦ simp (good, going, new) v
            | inr (entry, old) ↦
                let (n, is) = found_key io fd keyed old in
                simp (good, going, old, enqueue_to-fault io entry.0 n src size is) tt
          ]
        ]
      ]

  pub ce_io_push-OnlyDeletes :
      (io : Io e) (t : PushType) (fd : ℤ) (src : Option (List ℕ)) (size : ℕ)
      → IsKeyed io
      → OnlyDeletes io
      → After (LeavesDeletes io) (ce_io_push (some io) t fd src size)
  unfolding ce_io_push
  ce_io_push-OnlyDeletes io t fd none size keyed v = v
  ce_io_push-OnlyDeletes io t fd (some src) size keyed v =
      elim (Bool-cases (is_nonpos fd || size == 0)) [
        | inl bad ↦ simp bad v
        | inr good ↦ elim (Bool-cases io.stop) [
          | inl st ↦ simp (good, st) v
          | inr going ↦ elim (Option-cases (e.dict_find io.io_dict fd)) [
            | inl new ↦ simp (good, going, new) v
            | inr (entry, old) ↦
                let (n, is) = found_key io fd keyed old in
                simp (good, going, old, push_to-fault io entry.0 n src size is) tt
          ]
        ]
      ]

  abbrev AddsDeletes : Bool × Io e → Type 0
  AddsDeletes (r, io') = OnlyDeletes io'

  pub ce_io_add-OnlyDeletes :
      (io : Io e) (fd : ℤ) → OnlyDeletes io → After AddsDeletes (ce_io_add io fd)
  unfolding ce_io_add add_new
  ce_io_add-OnlyDeletes io fd v = elim (Bool-cases io.stop) [
    | inl st ↦ simp st v
    | inr going ↦ elim (Option-cases (e.dict_find io.io_dict fd)) [
      | inl new ↦
          simp (going, new)
            (After-bind AddsDeletes (ce_rb_new io.param.conf.per_cache_ringbuffer_size) _ λ a.
              After-bind AddsDeletes (ce_rb_new io.param.conf.per_cache_ringbuffer_size) _ λ b. v)
      | inr (entry, old) ↦ simp (going, old) v
    ]
  ]

  del_entry-OnlyDeletes :
      (io : Io e) (fd : ℤ) (key : Ptr) (n : ℕ)
      → key ≡ parameter n
      → OnlyDeletes io
      → OnlyDeletes (del_entry io fd key).1
  unfolding del_entry register ce_tp_worker_register
  del_entry-OnlyDeletes io fd key n is v = elim (Bool-cases io.workers.abort) [
    | inl st ↦ simp st v
    | inr going ↦ simp going λ w wk h. elim (Bool-cases (w == io.workers.next)) [
      | inl at ↦ subst (λ x. IsDead x.job) (some_eq (simp at at h)) (n, ap delete_job is)
      | inr off ↦ v w wk (simp off at h)
    ]
  ]

  pub del-OnlyDeletes :
      (io : Io e) (fd : ℤ) → IsKeyed io → OnlyDeletes io → OnlyDeletes (del io fd).1
  unfolding del
  del-OnlyDeletes io fd keyed v = elim (Bool-cases (is_nonpos fd)) [
    | inl bad ↦ simp bad v
    | inr good ↦ elim (Bool-cases io.stop) [
      | inl st ↦ simp (good, st) v
      | inr going ↦ elim (Option-cases (e.dict_find io.io_dict fd)) [
        | inl new ↦ simp (good, going, new) v
        | inr (entry, old) ↦
            let (n, is) = found_key io fd keyed old in
            simp (good, going, old) (del_entry-OnlyDeletes io fd entry.0 n is v)
      ]
    ]
  ]

  -- A thread that takes a job faults, for it deletes no connection.
  pub work_on-fault :
      (io : Io e) (w : ℕ) (ws : List ℕ) → OnlyDeletes io → work_on io (w ∷ ws) ≡ fault
  unfolding work_on run_job _ce_io_delete_fd_processor deref
  work_on-fault io w ws v = elim (Option-cases (io.workers.workers w)) [
    | inl gone ↦ simp (load-fault io.workers w gone) refl
    | inr (wk, live) ↦ let (n, is) = v w wk live in simp (load-ret io.workers w live, is) refl
  ]

  pub work-OnlyDeletes : (io : Io e) → OnlyDeletes io → After OnlyDeletes (work io)
  unfolding work work_on
  work-OnlyDeletes io v = go io.workers.worker_queue
    where
      go : (q : List ℕ) → After OnlyDeletes (work_on io q)
      go [] = v
      go (w ∷ ws) = rw (work_on-fault io w ws v) tt

  pub ce_io_new-OnlyDeletes :
      (param : Param) {io : Io e} → ce_io_new param ≡ ret io → OnlyDeletes io
  unfolding ce_io_new make_io
  ce_io_new-OnlyDeletes param made = subst (After OnlyDeletes) made (
      After-if OnlyDeletes (ltb 1 (pos_part param.conf.workers)) _ _ (λ many. tt)
        λ few. After-bind OnlyDeletes (ce_rb_new param.conf.per_cache_ringbuffer_size) _ λ a.
          After-bind OnlyDeletes (ce_rb_new param.conf.per_cache_ringbuffer_size) _ λ b w wk h. cc)
