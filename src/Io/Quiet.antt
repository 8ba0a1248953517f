-- ===== src/Io/Quiet.antt =====
-- Nothing ever writes to `push_fd_event`, which is the ring that both processors read.
use cevent_sample.Prelude.{
  refl, ℕ, suc, ◌<◌, ◌≡◌, subst, false, List, [], ◌∷◌, leb, leb_of_lt, ℤ, pos, negsuc, ret, arith,
  After, After-bind, After-if, After-then, ltb, pos_part,
}
use cevent_sample.Ringbuffer.{can_read, ce_rb_new}
use cevent_sample.Threadpool.{load, ce_tp_worker_free}
use cevent_sample.Shared.{Job, enqueue_job, push_job, delete_job}
use cevent_sample.Io.{
  Env, Param, Io, ptr_size, deref, ce_io_new, _ce_io_enqueue_buffer_processor,
  _ce_io_push_buffer_processor, _ce_io_delete_fd_processor, run_job, work, work_on, make_io,
}
use cevent_sample.Io.Same.{Same, self-Same, free_fd-Same}

ce_rb_new-empty : (n : ℤ) → After (λ r. can_read r ≡ 0) (ce_rb_new n)
unfolding ce_rb_new can_read
ce_rb_new-empty (pos n) = refl
ce_rb_new-empty (negsuc n) = tt

module _ {e : Env} where
  -- no address of a connection waits in the ring that the processors read
  abbrev pub IsQuiet : Io e → Type 0
  IsQuiet io = can_read io.push_fd_event < ptr_size

  -- While no address waits in `push_fd_event`, both processors return at once and change nothing.
  pub processors_idle :
      (io : Io e) (k : ℕ)
      → IsQuiet io
      → (_ce_io_enqueue_buffer_processor (suc k) io ≡ ret io)
        × (_ce_io_push_buffer_processor (suc k) io ≡ ret io)
  unfolding _ce_io_enqueue_buffer_processor _ce_io_push_buffer_processor
  processors_idle io k quiet =
      let few : leb ptr_size (can_read io.push_fd_event) ≡ false =
        leb_of_lt ptr_size (can_read io.push_fd_event) quiet in
      (rw few, rw few)

  pub run_job-Same : (io : Io e) (j : Job) → IsQuiet io → After (Same io) (run_job io j)
  unfolding run_job _ce_io_delete_fd_processor
  run_job-Same io enqueue_job quiet =
      rw (processors_idle io (can_read io.push_fd_event) quiet).0 (self-Same io)
  run_job-Same io push_job quiet =
      rw (processors_idle io (can_read io.push_fd_event) quiet).1 (self-Same io)
  run_job-Same io (delete_job p) quiet = After-bind (Same io) (deref io p) _ λ f. free_fd-Same io p

  -- what a thread makes of the queue, if its job does not fault
  pub work-Same : (io : Io e) → IsQuiet io → After (Same io) (work io)
  unfolding work work_on
  work-Same io quiet = go io.workers.worker_queue
    where
      go : (q : List ℕ) → After (Same io) (work_on io q)
      go [] = self-Same io
      go (w ∷ ws) = After-bind (Same io) (load io.workers w) _ λ wk.
          let taken = record io { workers = record io.workers { worker_queue = ws } } in
          After-then (Same taken) (Same io) (run_job taken wk.job) _
            (run_job-Same taken wk.job quiet)
            (λ io' same.
              After-bind (Same io) (ce_tp_worker_free io'.workers w) _
                λ p. record { ring = same.ring; events = same.events; keyed = same.keyed })

  abbrev NewQuiet : Io e → Type 0
  NewQuiet io = IsQuiet io × (io.events ≡ [])

  pub ce_io_new-IsQuiet :
      (param : Param) {io : Io e} → ce_io_new param ≡ ret io → IsQuiet io × (io.events ≡ [])
  unfolding ce_io_new make_io
  ce_io_new-IsQuiet param {io} h =
      let n = param.conf.per_cache_ringbuffer_size in
      subst (After NewQuiet) h (
        After-if NewQuiet (ltb 1 (pos_part param.conf.workers)) _ _ (λ many. tt)
          λ few. After-bind NewQuiet (ce_rb_new n) _ λ a.
            After-then (λ r. can_read r ≡ 0) NewQuiet (ce_rb_new n) _ (ce_rb_new-empty n)
              (λ b empty. (omega (arith, empty), refl)))
