-- ===== src/Io/Destory.antt =====
-- `ce_io_destory` reads the key of each entry as a connection, and has the jobs that wait run.
use cevent_sample.Prelude.{
  ℕ, ◌≡◌, refl, sym, ap, ◌∙◌, ◌>>=◌, subst, true, none, some, List, [], ◌∷◌, Memᴰ, ℤ, ret, fault,
}
use mathlib.Core.List.Memᴰ.{not-nil}
use cevent_sample.Shared.{Ptr, parameter}
use cevent_sample.Io.{Env, Io, deref, del_all, finish_jobs, work, work_on, ce_io_destory}
use cevent_sample.Io.Pending.{OnlyDeletes, work_on-fault}
use cevent_sample.Io.Same.{IsKeyed}

module _ {e : Env} where
  del_all-parameter :
      (io : Io e) (n : ℕ) (v : Ptr) (entries : List (Ptr × Ptr))
      → del_all io ((parameter n, v) ∷ entries) ≡ fault
  unfolding del_all deref
  del_all-parameter io n v entries = refl

  pub ce_io_destory-empty :
      (io : Io e)
      → e.dict_entries io.io_dict ≡ []
      → io.workers.worker_queue ≡ []
      → ce_io_destory (some io) ≡ ret none
  unfolding ce_io_destory del_all finish_jobs
  ce_io_destory-empty io is none_waits = rw (is, none_waits)

  finish_jobs-fault :
      (io : Io e) (w : ℕ) (ws : List ℕ)
      → io.workers.worker_queue ≡ w ∷ ws
      → OnlyDeletes io
      → finish_jobs io.workers.worker_queue io ≡ fault
  unfolding finish_jobs work
  finish_jobs-fault io w ws waits v =
      let faults : work io ≡ fault = ap (work_on io) waits ∙ work_on-fault io w ws v in
      ap (λ q. finish_jobs q io) waits ∙ ap (λ m. m >>= finish_jobs ws) faults

  pub ce_io_destory-waiting :
      (io : Io e) (w : ℕ) (ws : List ℕ)
      → e.dict_entries io.io_dict ≡ []
      → io.workers.worker_queue ≡ w ∷ ws
      → OnlyDeletes io
      → ce_io_destory (some io) ≡ fault
  unfolding ce_io_destory del_all
  ce_io_destory-waiting io w ws is waits v = rw is (
      ap (λ m. m >>= λ done. ret none) (finish_jobs-fault (record io { stop = true }) w ws waits v))

  pub ce_io_destory-entry :
      (io : Io e) (entry : Ptr × Ptr) (entries : List (Ptr × Ptr))
      → e.dict_entries io.io_dict ≡ entry ∷ entries
      → IsKeyed io
      → ce_io_destory (some io) ≡ fault
  unfolding ce_io_destory
  ce_io_destory-entry io (k, v) entries is keyed =
      let (n, is_parameter) = keyed (k, v) (subst (Memᴰ (k, v)) (sym is) (Memᴰ.head refl)) in
      rw (is, is_parameter, del_all-parameter (record io { stop = true }) n v entries)

  -- a connection layer that knows a descriptor
  pub ce_io_destory-found :
      (io : Io e) (fd : ℤ) {entry : Ptr × Ptr}
      → e.dict_find io.io_dict fd ≡ some entry
      → IsKeyed io
      → ce_io_destory (some io) ≡ fault
  ce_io_destory-found io fd {entry} found keyed =
      go (e.dict_entries io.io_dict) refl (e.entries-find io.io_dict fd found)
    where
      go :
          (entries : List (Ptr × Ptr))
          → e.dict_entries io.io_dict ≡ entries
          → Memᴰ entry entries
          → ce_io_destory (some io) ≡ fault
      go [] is m = absurd (not-nil m)
      go (first ∷ rest) is m = ce_io_destory-entry io first rest is keyed
